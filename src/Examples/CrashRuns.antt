-- ===== src/Examples/CrashRuns.antt =====
-- A crash after 100 bytes of the first batch, and the start after it.
use vbilling.Prelude.{◌<◌, ◌≡◌, refl, inl, none, some, [], arith}
use vbilling.Prelude.Lists.{length, take}
use vbilling.Spool.Codec.{split_lines}
use vbilling.Spool.State.{Spool, new_segment}
use vbilling.Spool.Ledger.{records_of}
use vbilling.Spool.Append.{Batch, bodies, start_batch, write_records}
use vbilling.Spool.Reopen.{open_spool, anchor_of}
use vbilling.Spool.Reopen.Restored.{Settled}
use vbilling.Spool.Reopen.Opened.{Answers, Restored}
use vbilling.Spool.Reopen.Crashed.{torn_dir, open_after_crash}
use vbilling.Examples.Plain.{plain}
use vbilling.Examples.SpoolRuns.{batch, fresh, fresh-IsSound, healthy, options, source}

abbrev written : Batch
written =
    elim (write_records plain 5000000000 fresh.current (bodies source 200 batch [])
      (start_batch fresh)) [ some b ↦ b | none ↦ start_batch fresh ]

writes :
    write_records plain 5000000000 fresh.current (bodies source 200 batch []) (start_batch fresh)
    ≡ some written
unfolding write_records bodies plain new_segment
writes = refl

cut_short : 100 < length written.buf
unfolding write_records bodies plain new_segment start_batch
cut_short = omega arith

fresh-Settled : Settled plain fresh.current
unfolding records_of new_segment split_lines
fresh-Settled = inl refl

healthy-Answers : Answers healthy
healthy-Answers = record { read_ok = refl; open_ok = refl; dedupe_write_ok = refl }

open_after_crash_example :
    (t : Spool) × (open_spool plain healthy options (torn_dir (take 100 written.buf) fresh)
      ≡ some t)
    × Restored plain 0 fresh t
unfolding anchor_of
open_after_crash_example =
    open_after_crash plain healthy healthy 0 source 200 batch [] options fresh written 100
      healthy-Answers fresh-IsSound tt fresh-Settled tt refl writes cut_short
