-- ===== src/Spool/Verify/Sound.antt =====
-- What Verify of internal/spool/spool.go reports on a sound spool.
use vbilling.Prelude.{
  ℕ, suc, ◌+◌, ◌≤◌, ◌≡◌, ◌∙◌, ◌⊎◌, refl, sym, ap, subst, true, false, some, List, [], ◌∷◌, arith,
  inl, inr,
}
use vbilling.Prelude.Tests.{ltb}
use vbilling.Prelude.Lists.{length, length-append}
use vbilling.Prelude.Text.{Text, text_eq_refl}
use vbilling.Spool.Codec.{Bytes, Codec, Record, Split, split_lines}
use vbilling.Spool.Codec.Lines.{split_lines-render_whole}
use vbilling.Spool.Codec.Format.{parse_line-print_line}
use vbilling.Spool.Chain.{body_of, hash_of, end_hash, end_hash-append, Linked}
use vbilling.Spool.State.{Spool, Io, Segment, segments}
use vbilling.Spool.Ledger.{
  lines_of, file_of, Linked-NoBreak, Chained, IsSound, records_of, ledger_of, ledger,
}
use vbilling.Spool.Verify.{
  Report, see, check_seq, check_prev, verify_lines, verify_segment, verify_segments, verify,
}

-- A report without errors on `n` records, up to the one with the number `start` and the hash `prev`.
record Clean (prev : Text) (start n : ℕ) (w : Report) : Type 0 where
  pub errors : w.errors ≡ []
  pub prev_is : w.prev ≡ prev
  pub expect : (w.expect_seq ≡ 0) ⊎ (w.expect_seq ≡ suc start)
  pub records : w.records ≡ n

Clean-at :
    (prev : Text) (start start' n n' : ℕ) (w : Report)
    → start ≡ start'
    → n ≡ n'
    → Clean prev start n w
    → Clean prev start' n' w
Clean-at prev start start' n n' w a b k =
    subst (λ m. Clean prev start' m w) b (subst (λ m. Clean prev m n w) a k)

module _ (c : Codec) where
  see-Clean :
      (prev : Text) (start n : ℕ) (r : Record) (w : Report)
      → r.seq ≡ suc start
      → r.prev ≡ prev
      → Clean prev start n w
      → Clean (hash_of c r) (suc start) (n + 1) (see r (hash_of c r) w)
  unfolding see
  see-Clean prev start n r w q p k =
      let same : check_seq r w ≡ w = unfold check_seq in ground (arith, k.expect, q) in
      let linked : check_prev r w ≡ w =
        unfold check_prev in rw (p, k.prev_is) (rw (text_eq_refl prev) refl) in
      rw same (
        rw linked (record {
          errors = k.errors;
          prev_is = refl;
          expect = inr (omega (arith, q));
          records = ap (λ x. x + 1) k.records;
        }))

  verify_lines-Clean :
      (committed start n : ℕ) (prev : Text) (rs : List Record) (w : Report)
      → Linked c prev start rs
      → start + length rs ≤ committed
      → Clean prev start n w
      → Clean
          (end_hash c prev rs)
          (start + length rs)
          (n + length rs)
          (verify_lines c committed (lines_of c rs) w)
  unfolding verify_lines
  verify_lines-Clean committed start n prev [] w h le k =
      Clean-at prev start (start + 0) n (n + 0) w (omega arith) (omega arith) k
  verify_lines-Clean committed start n prev (r ∷ rs) w h le k =
      let early : ltb committed r.seq ≡ false = ground (arith, h.0) in
      let step = see-Clean prev start n r w h.0 h.1 k in
      rw (parse_line-print_line c r (body_of c r) h.2, verify_lines)
        (rw early (
          Clean-at (end_hash c (hash_of c r) rs) (suc start + length rs) _ (n + 1 + length rs) _ _
            (omega arith) (omega arith)
            (verify_lines-Clean committed (suc start) (n + 1) (hash_of c r) rs
              (see r (hash_of c r) w) h.3 (omega arith) step)))

  verify_file :
      (io : Io) (committed : ℕ) (f : Bytes) (g : Segment) (w : Report)
      → io.read_ok ≡ true
      → g.file ≡ some f
      → verify_segment c io committed g w ≡ verify_lines c committed (split_lines f).complete w
  unfolding verify_segment
  verify_file io committed f g w can h = rw (can, verify_segment) (rw h refl)

  verify_segments-Clean :
      (io : Io) (committed start n : ℕ) (prev : Text) (gs : List Segment) (w : Report)
      → io.read_ok ≡ true
      → Chained c prev start gs
      → start + length (ledger_of c gs) ≤ committed
      → Clean prev start n w
      → Clean
          (end_hash c prev (ledger_of c gs))
          (start + length (ledger_of c gs))
          (n + length (ledger_of c gs))
          (verify_segments c io committed gs w)
  unfolding verify_segments verify_segment ledger_of
  verify_segments-Clean io committed start n prev [] w can h le k =
      Clean-at prev start (start + 0) n (n + 0) w (omega arith) (omega arith) k
  verify_segments-Clean io committed start n prev (g ∷ gs) w can h le k =
      let rs = records_of c g in
      let more = ledger_of c gs in
      let size = length-append rs more in
      let lines =
        split_lines-render_whole (lines_of c rs) (Linked-NoBreak c prev start rs h.0.linked) in
      let whole : verify_segment c io committed g w ≡ verify_lines c committed (lines_of c rs) w =
        verify_file io committed (file_of c rs) g w can h.0.file
        ∙ ap (λ (x : Split). verify_lines c committed x.complete w) lines in
      let here =
        verify_lines-Clean committed start n prev rs w h.0.linked (omega (arith, size, le)) k in
      let after =
        verify_segments-Clean io committed (start + length rs) (n + length rs) (end_hash c prev rs)
          gs (verify_lines c committed (lines_of c rs) w) can h.1 (omega (arith, size, le)) here in
      rw (whole, end_hash-append c prev rs more)
        (Clean-at _ (start + length rs + length more) _ (n + length rs + length more) _ _
          (omega (arith, size)) (omega (arith, size)) after)

  -- On a sound spool Verify has nothing to report: it reads every record of the ledger, finds each
  -- one linked to the one before, across segments too, and ends at the head of the chain.
  pub verify-ledger :
      (io : Io) (base : ℕ) (s : Spool)
      → IsSound c base s
      → io.read_ok ≡ true
      → let w = verify c io s in
        (w.errors ≡ []) × (w.records ≡ length (ledger c s)) × (w.prev ≡ s.head)
  unfolding verify ledger
  verify-ledger io base s v can =
      let w : Report = record {
        errors = [];
        prev = s.anchor;
        expect_seq = 0;
        records = 0;
        first_seq = 0;
        last_seq = 0;
      } in
      let k =
        verify_segments-Clean io s.committed base 0 s.anchor (segments s) w can v.chained
          (omega (arith, v.seq, v.committed))
          (record { errors = refl; prev_is = refl; expect = inl refl; records = refl }) in
      (k.errors, omega (arith, k.records), k.prev_is ∙ sym v.head)
