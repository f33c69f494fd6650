-- ===== src/Spool/Compact.antt =====
-- Compact and compactDedupeLocked of internal/spool/spool.go, and FirstSeq.
pub mod Consumed
use vbilling.Prelude.{
  ℕ, ◌+◌, ◌-◌, ◌/◌, Bool, true, false, not, ◌&&◌, ◌||◌, none, some, List, [], ◌∷◌, ◌++◌, map,
}
use vbilling.Prelude.Tests.{ltb, ◌==◌, if◌then◌else◌}
use vbilling.Prelude.Lists.{length}
use vbilling.Prelude.Text.{Text, Map, text_eq, lookup}
use vbilling.Usage.{Time, Duration, unix_epoch}
use vbilling.Spool.State.{
  Spool, Io, Result, ok, err, Segment, segments, dedupe_failed, remove_failed, write_manifest,
}
use vbilling.Spool.Ingest.{second}

-- The least number that all consumers have; one without a cursor counts as if it had everything.
unfoldable pub min_cursor : ℕ → Map ℕ → List Text → ℕ
unfolding lookup
min_cursor m cursors [] = m
min_cursor m cursors (d ∷ ds) = elim (lookup d cursors) [
  | none ↦ min_cursor m cursors ds
  | some n ↦ min_cursor (if ltb n m then n else m) cursors ds
]

-- Young, or not read by all.
unfoldable pub keeps : Time → Duration → ℕ → Segment → Bool
keeps now retention upto g =
    not (g.last == 0) && (ltb now (g.last_at + retention) || ltb upto g.last)

unfoldable pub moved_anchor : Text → Segment → Text
unfolding text_eq
moved_anchor anchor g = if text_eq g.last_hash [] then anchor else g.last_hash

-- What the loop over the closed segments leaves: those whose file it has removed, the others, the
-- anchor, and whether a removal failed.
pub record Sweep : Type 0 where
  pub gone : List Segment
  pub kept : List Segment
  pub anchor : Text
  pub failed : Bool

unfoldable pub sweep : Io → Duration → ℕ → Text → List Segment → Sweep
unfolding keeps moved_anchor
sweep io retention upto anchor [] = record { gone = []; kept = []; anchor = anchor; failed = false }
sweep io retention upto anchor (g ∷ gs) =
    let rest = sweep io retention upto (moved_anchor anchor g) gs in
    if keeps io.now retention upto g
    then record { gone = []; kept = g ∷ gs; anchor = anchor; failed = false }
    else if io.remove_ok g.first
    then record rest { gone = record g { file = none } ∷ rest.gone }
    else record { gone = []; kept = g ∷ gs; anchor = anchor; failed = true }

expired : Time → Duration → Time → Bool
expired now window at = ltb (at + window) now

unfoldable pub prune : Time → Duration → Map Time → Map Time
unfolding expired
prune now window [] = []
prune now window ((id, at) ∷ m) =
    let rest = prune now window m in if expired now window at then rest else (id, at) ∷ rest

unfoldable pub any_expired : Time → Duration → Map Time → Bool
unfolding expired
any_expired now window [] = false
any_expired now window ((id, at) ∷ m) = expired now window at || any_expired now window m

dedupe_lines : Map Time → List (Time × Text)
dedupe_lines [] = []
dedupe_lines ((id, at) ∷ m) = ((at - unix_epoch) / second, id) ∷ dedupe_lines m

unfoldable pub compact_dedupe : Io → Spool → Result (Unit {0}) × Spool
unfolding any_expired prune dedupe_lines
compact_dedupe io s =
    let window = s.opts.dedupe_window in
    let t = record s { recent_ids = prune io.now window s.recent_ids } in
    if any_expired io.now window s.recent_ids
    then if io.dedupe_write_ok
      then (ok tt, record t { dedupe_file = dedupe_lines t.recent_ids })
      else (err dedupe_failed, t)
    else (ok tt, s)

unfoldable pub counted : {A : Type 0} → ℕ → A × Spool → ℕ × A × Spool
counted n (r, t) = (n, r, t)

-- The end of Compact, when the files of `w.gone` are removed.
unfoldable pub drop_gone : Io → Sweep → Spool → ℕ × Result (Unit {0}) × Spool
unfolding write_manifest counted
drop_gone io w t =
    if length w.gone == 0
    then (0, ok tt, t)
    else counted (length w.gone) (write_manifest io (record t { older = w.kept }))

unfoldable pub swept : Io → Sweep → Spool → ℕ × Result (Unit {0}) × Spool
unfolding drop_gone compact_dedupe
swept io w s =
    let t = record s { older = w.gone ++ w.kept; anchor = w.anchor } in
    let (r, u) = compact_dedupe io t in
    if w.failed
    then (length w.gone, err remove_failed, t)
    else elim r [ err e ↦ (length w.gone, err e, u) | ok v ↦ drop_gone io w u ]

-- The number of removed segments comes with the error.
unfoldable pub compact : Io → List Text → Spool → ℕ × Result (Unit {0}) × Spool
unfolding min_cursor sweep swept compact_dedupe counted
compact io consumers s =
    if s.opts.retention == 0 || ltb (length (segments s)) 2
    then counted 0 (compact_dedupe io s)
    else let upto = min_cursor s.committed s.cursors consumers in
      swept io (sweep io s.opts.retention upto s.anchor s.older) s

first_number : List Segment → ℕ
first_number [] = 0
first_number (g ∷ gs) = if g.last == 0 then first_number gs else g.first

unfoldable pub first_seq : Spool → ℕ
unfolding first_number
first_seq s = first_number (segments s)
