-- ===== src/Spool/Verify.antt =====
-- Verify of internal/spool/spool.go.
pub mod Sound
use vbilling.Prelude.{ℕ, ◌+◌, Bool, true, false, not, ◌&&◌, none, some, List, [], ◌∷◌, ◌++◌}
use vbilling.Prelude.Tests.{ltb, ◌==◌, if◌then◌else◌}
use vbilling.Prelude.Lists.{length}
use vbilling.Prelude.Text.{Text, text_eq}
use vbilling.Spool.Codec.{Bytes, Codec, Record, parse_line, split_lines}
use vbilling.Spool.State.{Spool, Io, Segment, segments}

-- What Verify reports, instead of its texts.
pub data Fault : Type 0 where
  unreadable : Segment → Fault
  unparsed : Fault
  gap broken : Record → Fault

-- The report as it grows, with the hash and the number that the next record must have; 0 before the
-- first one. `prev` is `Head` in the end.
pub record Report : Type 0 where
  pub errors : List Fault
  pub prev : Text
  pub expect_seq : ℕ
  pub records : ℕ
  pub first_seq : ℕ
  pub last_seq : ℕ

unfoldable pub complain : Fault → Report → Report
complain f w = if ltb (length w.errors) 20 then record w { errors = w.errors ++ f ∷ [] } else w

unfoldable pub check_seq : Record → Report → Report
unfolding complain
check_seq r w =
    if not (w.expect_seq == 0) && not (r.seq == w.expect_seq) then complain (gap r) w else w

unfoldable pub check_prev : Record → Report → Report
unfolding complain text_eq
check_prev r w = if text_eq r.prev w.prev then w else complain (broken r) w

unfoldable pub see : Record → Text → Report → Report
unfolding check_seq check_prev
see r hash w =
    let t = check_prev r (check_seq r w) in
    record t {
      prev = hash;
      expect_seq = r.seq + 1;
      records = t.records + 1;
      first_seq = if t.records == 0 then r.seq else t.first_seq;
      last_seq = r.seq;
    }

-- The loop over the complete lines of a segment; it stops at a record that is not committed.
unfoldable pub verify_lines : Codec → ℕ → List Bytes → Report → Report
unfolding see complain
verify_lines c committed [] w = w
verify_lines c committed (l ∷ ls) w = elim (parse_line c l) [
  | none ↦ verify_lines c committed ls (complain unparsed w)
  | some (r, hash) ↦
      let rest = verify_lines c committed ls (see r hash w) in
      if ltb committed r.seq then w else rest
]

unfoldable pub verify_segment : Codec → Io → ℕ → Segment → Report → Report
unfolding verify_lines complain split_lines
verify_segment c io committed g w =
    if io.read_ok
    then elim g.file [
      | none ↦ complain (unreadable g) w
      | some f ↦ verify_lines c committed (split_lines f).complete w
    ]
    else complain (unreadable g) w

unfoldable pub verify_segments : Codec → Io → ℕ → List Segment → Report → Report
unfolding verify_segment
verify_segments c io committed [] w = w
verify_segments c io committed (g ∷ gs) w =
    verify_segments c io committed gs (verify_segment c io committed g w)

-- Verify; the report is OK if it has no errors.
unfoldable pub verify : Codec → Io → Spool → Report
unfolding verify_segments
verify c io s = verify_segments c io s.committed (segments s) (record {
  errors = [];
  prev = s.anchor;
  expect_seq = 0;
  records = 0;
  first_seq = 0;
  last_seq = 0;
})
