-- ===== src/Spool/Append.antt =====
-- maybeRotateLocked, appendLocked, AppendWindow and AppendIngest of internal/spool/spool.go.
pub mod Batches
pub mod Success
pub mod Rotation
pub mod Outcome
pub mod Live
use mathlib.Core.Option
use vbilling.Prelude.{
  ℕ, ◌+◌, ◌-◌, ◌%◌, Bool, true, false, not, ◌&&◌, ◌||◌, Option, none, some, List, [], ◌∷◌, ◌++◌,
  map,
}
use vbilling.Prelude.Tests.{ltb, ◌==◌, if◌then◌else◌}
use vbilling.Prelude.Lists.{length, take}
use vbilling.Prelude.Text.{Text, lookup, insert}
use vbilling.Usage.{Time, Event}
use vbilling.Spool.Codec.{
  Bytes, Codec, Record, Commit, newline, type_event, type_commit, print_line,
}
use vbilling.Spool.State.{
  Spool, Segment, Offset, Io, Op, ok, err, spool_closed, window_committed, encode_failed,
  close_failed, open_failed, write_failed, sync_failed, index_every, ◌>>◌, modify, new_segment,
  created, write_manifest,
}

-- The active segment is not empty, and is full or old.
unfoldable pub rotate_due : Io → Spool → Bool
rotate_due io s =
    let g = s.current in
    not (g.last == 0)
    && not (
        ltb (g.last - g.first + 1) s.opts.segment_max_records
        && ltb io.now (g.first_at + s.opts.segment_max_age))

unfoldable pub close_active : Io → Op (Unit {0})
close_active io s =
    let r = record s { active_open = false } in
    if s.active_open && io.close_ok then (ok tt, r) else (err close_failed, r)

unfoldable pub start_segment : Spool → Spool
unfolding new_segment
start_segment s = record s { older = s.older ++ s.current ∷ []; current = new_segment (s.seq + 1) }

-- If the file cannot be opened, the segment stays in the table without a file.
unfoldable pub open_active : Io → Op (Unit {0})
unfolding created
open_active io s =
    if io.open_ok
    then (ok tt, record s { active_open = true; current = created s.current })
    else (err open_failed, s)

unfoldable pub rotate : Io → Op (Unit {0})
unfolding close_active start_segment open_active write_manifest
rotate io = do close_active io; modify start_segment; open_active io; write_manifest io

unfoldable pub maybe_rotate : Io → Op (Unit {0})
unfolding rotate_due rotate
maybe_rotate io s = if rotate_due io s then rotate io s else (ok tt, s)

-- The variables that the closure `write` of appendLocked updates.
pub record Batch : Type 0 where
  pub seq : ℕ
  pub head : Text
  pub buf : Bytes
  pub new_index : List Offset

-- What a record holds beyond its place in the chain.
pub record Body : Type 0 where
  pub type : Text
  pub event : Option Event
  pub commit : Option Commit

abbrev pub event_body : Event → Body
event_body e = record { type = type_event; event = some e; commit = none }

abbrev pub commit_body : Commit → Body
commit_body k = record { type = type_commit; event = none; commit = some k }

unfoldable pub link : Time → ℕ → Text → Body → Record
link now seq head b = record {
  seq = seq;
  type = b.type;
  at = now;
  prev = head;
  event = b.event;
  commit = b.commit;
}

module _ (c : Codec) where
  unfoldable pub add_line : Segment → Batch → Bytes → Batch
  add_line g b body =
      let seq = b.seq + 1 in
      record {
        seq = seq;
        head = c.digest body;
        buf = b.buf ++ (print_line c body ++ newline ∷ []);
        new_index =
            if (seq - g.first) % index_every == 0
            then b.new_index ++ record { seq = seq; off = g.size + length b.buf } ∷ []
            else b.new_index;
      }

  unfoldable pub write_record : Time → Segment → Body → Batch → Option Batch
  unfolding add_line link
  write_record now g body b = elim (c.marshal (link now (b.seq + 1) b.head body)) [
    | none ↦ none
    | some json ↦ some (add_line g b json)
  ]

  unfoldable pub write_records : Time → Segment → List Body → Batch → Option Batch
  unfolding write_record
  write_records now g [] b = some b
  write_records now g (x ∷ xs) b = elim (write_record now g x b) [
    | none ↦ none
    | some b' ↦ write_records now g xs b'
  ]

-- The events of a window, then the commit that closes them.
unfoldable pub bodies : Text → Time → List Event → Text → List Body
bodies source window_end events note = map event_body events ++ commit_body commit ∷ []
  where
    commit : Commit
    commit = record {
      source = source;
      window_end = window_end;
      events = length events;
      note = note;
    }

append_file : Bytes → Segment → Segment
append_file buf g = record g { file = Option.map (λ f. f ++ buf) g.file }

-- f.Truncate(startSize) after a failed write of a part of the batch.
undo_write : Io → Bytes → Segment → Segment
unfolding append_file
undo_write io part g =
    let g' = append_file part g in
    if io.truncate_ok then record g' { file = Option.map (take g.size) g'.file } else g'

-- active.Write and active.Sync
unfoldable pub write_file : Io → Bytes → Op (Unit {0})
unfolding append_file undo_write
write_file io buf s =
    if s.active_open
    then elim io.write [
      | some k ↦ (err write_failed, record s { current = undo_write io (take k buf) s.current })
      | none ↦
          if s.opts.no_sync || io.sync_ok
          then (ok tt, record s { current = append_file buf s.current })
          else (err sync_failed, record s { current = undo_write io buf s.current })
    ]
    else (err write_failed, s)

unfoldable pub publish_segment : Io → Batch → Segment → Segment
publish_segment io b g = record g {
  first_at = if g.last == 0 then io.now else g.first_at;
  last = b.seq;
  last_at = io.now;
  last_hash = b.head;
  size = g.size + length b.buf;
  index = g.index ++ b.new_index;
}

-- What appendLocked updates once the batch is on disk.
unfoldable pub publish : Io → Text → Time → Batch → Spool → Spool
publish io source window_end b s = record s {
  current = publish_segment io b s.current;
  seq = b.seq;
  head = b.head;
  committed = b.seq;
  watermarks = if window_end == 0 then s.watermarks else insert source window_end s.watermarks;
  wakeups = s.wakeups + 1;
}

unfoldable pub start_batch : Spool → Batch
start_batch s = record { seq = s.seq; head = s.head; buf = []; new_index = [] }

unfoldable pub write_batch : Codec → Io → Text → Time → List Body → Op (Unit {0})
write_batch c io source window_end xs s =
    elim (write_records c io.now s.current xs (start_batch s)) [
      | none ↦ (err encode_failed, s)
      | some b ↦ (do write_file io b.buf; modify (publish io source window_end b)) s
    ]

-- appendLocked
unfoldable pub append : Codec → Io → Text → Time → List Event → Text → Op (Unit {0})
append c io source window_end events note = do
  maybe_rotate io
  write_batch c io source window_end (bodies source window_end events note)

-- A window that is not after the source's watermark. A zero end skips the test.
unfoldable pub already_committed : Text → Time → Spool → Bool
already_committed source window_end s =
    not (window_end == 0)
    && elim (lookup source s.watermarks) [ none ↦ false | some wm ↦ not (ltb wm window_end) ]

-- AppendWindow
unfoldable pub append_window : Codec → Io → Text → Time → List Event → Text → Op (Unit {0})
append_window c io source window_end events note s =
    if s.closed
    then (err spool_closed, s)
    else if already_committed source window_end s
    then (err window_committed, s)
    else append c io source window_end events note s
