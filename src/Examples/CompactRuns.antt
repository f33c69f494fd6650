-- ===== src/Examples/CompactRuns.antt =====
-- Compact on a ledger whose first segment, with three records, is old and read.
use vbilling.Prelude.{◌≡◌, refl, [], ◌∷◌}
use vbilling.Prelude.Text.{Text, lookup, insert}
use vbilling.Spool.State.{Spool, Io, ok, ◌>>=◌, new_segment}
use vbilling.Spool.Ledger.{IsSound, ledger}
use vbilling.Spool.Append.{
  already_committed, append, maybe_rotate, rotate_due, write_batch, write_file, publish,
  append_window, bodies, write_records, start_batch, start_segment, publish_segment,
}
use vbilling.Spool.Append.Outcome.{append_window-Extends}
use vbilling.Spool.Append.Rotation.{started, started-IsSound}
use vbilling.Spool.Compact.{compact}
use vbilling.Spool.Compact.Consumed.{Compacted, compact-Compacted}
use vbilling.Examples.Plain.{plain}
use vbilling.Examples.SpoolRuns.{
  fresh, after, appends, healthy, options, source, batch, fresh-IsSound,
}

abbrev dest : Text
dest = 115 ∷ []

abbrev rolled : Spool
rolled = record (started plain after) {
  opts = record options { retention = 1 };
  cursors = (dest, 3) ∷ [];
}

rolled-IsSound : IsSound plain 0 rolled
unfolding ledger
rolled-IsSound =
    let e =
      append_window-Extends plain healthy source 200 0 batch [] fresh after fresh-IsSound appends in
    let v = started-IsSound plain 0 after e.sound in
    record { chained = v.chained; seq = v.seq; head = v.head; committed = v.committed }

abbrev later : Io
later = record healthy { now = 6000000000 }

abbrev compacted : Spool
compacted = (compact later (dest ∷ []) rolled).2

compacts : compact later (dest ∷ []) rolled ≡ (1, ok tt, compacted)
unfolding append_window already_committed lookup append ◌>>=◌ maybe_rotate rotate_due write_batch
    write_records bodies write_file publish insert plain new_segment start_batch compact
    start_segment publish_segment
compacts = refl

compact-Compacted_example : Compacted plain (dest ∷ []) 0 rolled compacted
compact-Compacted_example =
    compact-Compacted plain later (dest ∷ []) 0 1 rolled compacted rolled-IsSound compacts
