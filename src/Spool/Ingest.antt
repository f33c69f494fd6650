-- ===== src/Spool/Ingest.antt =====
-- AppendIngest and its dedupe index in internal/spool/spool.go.
pub mod Sift
pub mod Idempotent
use mathlib.Core.Option
use vbilling.Prelude.{
  ℕ, ◌+◌, ◌/◌, ◌-◌, Bool, true, false, Option, none, some, List, [], ◌∷◌, ◌++◌, map, ◌||◌,
}
use vbilling.Prelude.Tests.{ltb, if◌then◌else◌}
use vbilling.Prelude.Text.{Text, Map, member, lookup, insert}
use vbilling.Usage.{Time, unix_epoch, Event}
use vbilling.Spool.Codec.{Codec}
use vbilling.Spool.State.{
  Spool, Io, Op, Result, ok, err, spool_closed, dedupe_failed, ◌>>=◌, ◌>>◌, pure,
}
use vbilling.Spool.Append.{append}

unfoldable pub known : Text → Map Time → Bool
known id m = elim (lookup id m) [ none ↦ false | some at ↦ true ]

-- The events to keep and the IDs that are duplicates, each in the order of the batch.
pub record Sifted : Type 0 where
  pub keep : List Event
  pub duplicates : List Text

unfoldable pub sift : Map Time → List Text → List Event → Sifted
sift recent seen [] = record { keep = []; duplicates = [] }
sift recent seen (e ∷ es) =
    let dup = known e.id recent || member e.id seen in
    let rest = sift recent (if dup then seen else e.id ∷ seen) es in
    if dup
    then record rest { duplicates = e.id ∷ rest.duplicates }
    else record rest { keep = e ∷ rest.keep }

unfoldable pub record_ids : Time → List Event → Map Time → Map Time
record_ids now [] m = m
record_ids now (e ∷ es) m = record_ids now es (insert e.id now m)

abbrev pub second : ℕ
second = 1000000000

-- recordDedupe: the file's lines hold the whole seconds of Unix(), on a clock past 1970. A write that
-- fails leaves no whole line.
unfoldable pub record_dedupe : Io → List Event → Op (Unit {0})
unfolding record_ids
record_dedupe io keep s =
    if io.dedupe_open_ok
    then (let t = record s { recent_ids = record_ids io.now keep s.recent_ids } in
        let unix = (io.now - unix_epoch) / second in
        let file = t.dedupe_file ++ map (λ (e : Event). (unix, e.id)) keep in
        if io.dedupe_write_ok
        then (
          if s.opts.no_sync || io.dedupe_sync_ok then ok tt else err dedupe_failed,
          record t { dedupe_file = file },
        )
        else (err dedupe_failed, t))
    else (err dedupe_failed, s)

abbrev pub ids : List Event → List Text
ids = map (λ (e : Event). e.id)

ingest_kept : Codec → Io → Text → List Text → List Event → Op (List Text × List Text)
ingest_kept c io source duplicates [] = pure ([], duplicates)
ingest_kept c io source duplicates (e ∷ es) = do
  append c io source 0 (e ∷ es) []
  record_dedupe io (e ∷ es)
  pure (ids (e ∷ es), duplicates)

-- AppendIngest: the accepted IDs and the duplicates.
unfoldable pub append_ingest : Codec → Io → Text → List Event → Op (List Text × List Text)
unfolding ingest_kept
append_ingest c io source events s =
    let t = sift s.recent_ids [] events in
    if s.closed then (err spool_closed, s) else ingest_kept c io source t.duplicates t.keep s
