-- ===== src/Examples/SpoolRuns.antt =====
-- Runs of the spool with the example codec, on a spool that has just been created.
use vbilling.Prelude.{◌*◌, ◌≡◌, ◌⊎◌, refl, true, false, none, some, List, [], ◌∷◌, arith}
use vbilling.Prelude.Text.{Text, member, lookup, insert}
use vbilling.Usage.{Event, positive}
use vbilling.Spool.Codec.{Bytes, Record, print_line, parse_line, split_lines}
use vbilling.Spool.Codec.Lines.{render}
use vbilling.Spool.Codec.Format.{parse_line-print_line}
use vbilling.Spool.State.{
  Options, ◌>>=◌, Spool, Io, ok, err, window_committed, write_failed, open_failed, new_segment,
}
use vbilling.Spool.Ledger.{IsSound, ledger}
use vbilling.Spool.Append.{
  already_committed, append, maybe_rotate, rotate_due, write_batch, write_file, publish,
  append_window, bodies, write_records, event_body, link,
}
use vbilling.Spool.Append.Outcome.{
  Extends, append_window-Extends, append_window-restores, append_window_once,
}
use vbilling.Spool.Append.Rotation.{SameLedger, Unopened}
use vbilling.Spool.Ingest.{append_ingest, ids, sift, known, record_dedupe}
use vbilling.Spool.Ingest.Idempotent.{Ingested, append_ingest-Ingested, append_ingest_again}
use vbilling.Spool.Cursors.{
  CursorsBelow, cursor_of, ack, set_cursor, cursor, load_cursors, cursor_ops-CursorsBelow,
  rewind_undone_by_ack,
}
use vbilling.Examples.Plain.{plain}

abbrev pub options : Options
options = record {
  segment_max_records = 20000;
  segment_max_age = 3600 * 1000000000;
  retention = 0;
  dedupe_window = 48 * 3600 * 1000000000;
  no_sync = false;
}

abbrev pub fresh : Spool
fresh = record {
  opts = options;
  older = [];
  current = record (new_segment 1) { file = some [] };
  active_open = true;
  seq = 0;
  committed = 0;
  head = [];
  anchor = [];
  watermarks = [];
  cursors = [];
  recent_ids = [];
  wakeups = 0;
  closed = false;
  manifest = none;
  cursor_file = none;
  dedupe_file = [];
  dead_letters = [];
}

abbrev pub healthy : Io
healthy = record {
  now = 5000000000;
  close_ok = true;
  open_ok = true;
  manifest_ok = true;
  write = none;
  sync_ok = true;
  truncate_ok = true;
  cursors_ok = true;
  dedupe_open_ok = true;
  dedupe_write_ok = true;
  dedupe_sync_ok = true;
  dead_letter_ok = true;
  read_ok = true;
  remove_ok = λ n. true;
}

-- The disk is full after three bytes.
abbrev full : Io
full = record healthy { write = some 3 }

abbrev pub event : Text → Event
event id = record {
  schema_version = [];
  id = id;
  tenant = 116 ∷ [];
  metric = 109 ∷ [];
  quantity = positive 7;
  unit = [];
  window_start = 100;
  window_end = 200;
  region = [];
  project = [];
  sku = [];
  resource_id = [];
  dimensions = [];
  properties = [];
  source = [];
  recorded_at = 0;
}

abbrev first_event : Event
first_event = event (65 ∷ [])

abbrev second_event : Event
second_event = event (66 ∷ [])

abbrev pub source : Text
source = 99 ∷ []

pub fresh-IsSound : IsSound plain 0 fresh
unfolding ledger plain new_segment split_lines render
fresh-IsSound = record {
  chained = (
    record {
      file = refl;
      linked = tt;
      first = refl;
      last = refl;
      last_hash = refl;
      size = refl;
      index = tt;
    },
    tt,
  );
  seq = refl;
  head = refl;
  committed = refl;
}

abbrev pub after : Spool
after = (append_window plain healthy source 200 (first_event ∷ second_event ∷ []) [] fresh).1

pub appends :
    append_window plain healthy source 200 (first_event ∷ second_event ∷ []) [] fresh
    ≡ (ok tt, after)
unfolding append_window already_committed lookup append ◌>>=◌ maybe_rotate rotate_due write_batch
    write_records bodies write_file publish insert plain new_segment
appends = refl

abbrev pub batch : List Event
batch = first_event ∷ second_event ∷ []

append_window-Extends_example : Extends plain healthy source 200 0 batch [] fresh after
append_window-Extends_example =
    append_window-Extends plain healthy source 200 0 batch [] fresh after fresh-IsSound appends

abbrev unwritten : Spool
unwritten = (append_window plain full source 200 batch [] fresh).1

fails : append_window plain full source 200 batch [] fresh ≡ (err write_failed, unwritten)
unfolding append_window already_committed lookup append ◌>>=◌ maybe_rotate rotate_due write_batch
    write_records bodies write_file plain new_segment
fails = refl

append_window-restores_example :
    SameLedger plain 0 fresh unwritten
    ⊎ ((write_failed ≡ open_failed) × Unopened plain full fresh unwritten)
append_window-restores_example =
    append_window-restores plain full source 200 0 batch [] fresh unwritten write_failed
      fresh-IsSound refl fails

append_window_once_example :
    append_window plain healthy source 150 (first_event ∷ []) [] after
    ≡ (err window_committed, after)
append_window_once_example =
    append_window_once plain healthy healthy source 0 200 150 batch (first_event ∷ []) [] [] fresh
      after fresh-IsSound appends (omega arith) (omega arith)

abbrev pushed : List Event
pushed = first_event ∷ second_event ∷ first_event ∷ []

abbrev ingested : Spool
ingested = (append_ingest plain healthy source pushed fresh).1

ingests :
    append_ingest plain healthy source pushed fresh
    ≡ (ok ((65 ∷ []) ∷ (66 ∷ []) ∷ [], (65 ∷ []) ∷ []), ingested)
unfolding append_ingest sift known member record_dedupe lookup append ◌>>=◌ maybe_rotate rotate_due
    write_batch write_records bodies write_file publish insert plain new_segment
ingests = refl

append_ingest-Ingested_example :
    Ingested plain healthy source 0 pushed fresh ingested
      ((65 ∷ []) ∷ (66 ∷ []) ∷ [])
      ((65 ∷ []) ∷ [])
append_ingest-Ingested_example =
    append_ingest-Ingested plain healthy source 0 pushed fresh ingested _ _ fresh-IsSound ingests

append_ingest_again_example :
    append_ingest plain healthy source pushed ingested ≡ (ok ([], ids pushed), ingested)
append_ingest_again_example =
    append_ingest_again plain healthy healthy source 0 pushed fresh ingested _ _ fresh-IsSound
      ingests

abbrev dest : Text
dest = 115 ∷ []

-- Five records, of which the destination has three.
abbrev midway : Spool
midway = record fresh { seq = 5; committed = 5; cursors = (dest, 3) ∷ [] }

midway-CursorsBelow : CursorsBelow midway
unfolding cursor_of lookup
midway-CursorsBelow d = ground arith

cursor_ops-CursorsBelow_example :
    CursorsBelow (ack healthy dest 4 midway).1
    × CursorsBelow (set_cursor healthy dest 9 midway).1
    × CursorsBelow (cursor healthy dest midway).1
    × CursorsBelow (load_cursors midway)
cursor_ops-CursorsBelow_example =
    cursor_ops-CursorsBelow healthy dest 4 9 midway (omega arith) midway-CursorsBelow

rewind_undone_by_ack_example :
    cursor_of dest (ack healthy dest 4 (set_cursor healthy dest 1 midway).1).1.cursors ≡ 4
rewind_undone_by_ack_example =
    rewind_undone_by_ack healthy healthy dest 1 4 midway (omega arith) (omega arith)

abbrev record_one : Record
record_one = link 5000000000 1 [] (event_body first_event)

abbrev line_one : Bytes
line_one = elim (plain.marshal record_one) [ some b ↦ b | none ↦ [] ]

parse_line-print_line_example :
    parse_line plain (print_line plain line_one) ≡ some (record_one, plain.digest line_one)
unfolding plain
parse_line-print_line_example = parse_line-print_line plain record_one line_one refl
