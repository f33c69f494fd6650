-- ===== src/Spool/Reopen.antt =====
-- Open, recover, loadDedupe and openActive of internal/spool/spool.go: a spool from its directory.
pub mod Rescan
pub mod Newest
pub mod Restored
pub mod Opened
pub mod Crashed
use vbilling.Prelude.{
  ℕ, zero, suc, ◌+◌, ◌-◌, ◌*◌, Bool, true, false, not, ◌&&◌, Option, none, some, List, [], ◌∷◌,
  ◌++◌,
}
use vbilling.Prelude.Tests.{ltb, leb, ◌==◌, if◌then◌else◌}
use vbilling.Prelude.Lists.{length}
use vbilling.Prelude.Text.{Text, Map, insert}
use vbilling.Usage.{Time, Duration, unix_epoch}
use vbilling.Spool.Codec.{Bytes, Codec}
use vbilling.Spool.State.{
  Spool, Io, Options, Segment, Manifest, DeadLetter, defaults, new_segment, created,
}
use vbilling.Spool.Recover.{scan_segment, merge_watermarks}
use vbilling.Spool.Ingest.{second}
use vbilling.Spool.Cursors.{load_cursors}

-- The files: the segments by their first number in the order of their names, the manifest, and the
-- other files. A missing file of IDs is an empty one.
pub record Dir : Type 0 where
  pub files : List (ℕ × Bytes)
  pub manifest : Option Manifest
  pub cursor_file : Option (Map ℕ)
  pub dedupe_file : List (Time × Text)
  pub dead_letters : Map (List DeadLetter)

-- `known[name]`: the last entry of a name counts.
unfoldable pub find_known : ℕ → List Segment → Option Segment
find_known first [] = none
find_known first (g ∷ gs) = elim (find_known first gs) [
  | some h ↦ some h
  | none ↦ if g.first == first then some g else none
]

-- A closed segment that the manifest knows with its size is not read.
unfoldable pub recover_one : Codec → List Segment → ℕ → Bytes → Bool → Option (Segment × Map Time)
unfolding find_known scan_segment
recover_one c known first file newest = elim (find_known first known) [
  | none ↦ scan_segment c first newest file
  | some g ↦
      if not newest && (g.size == length file)
      then some (record g { file = some file }, [])
      else scan_segment c first newest file
]

unfoldable pub is_last : List (ℕ × Bytes) → Bool
is_last [] = true
is_last (f ∷ fs) = false

-- The loop over the names; `wms` are the watermarks so far.
unfoldable pub recover_segments :
    Codec → List Segment → List (ℕ × Bytes) → Map Time → Option (List Segment × Map Time)
unfolding recover_one is_last merge_watermarks
recover_segments c known [] wms = some ([], wms)
recover_segments c known ((first, file) ∷ fs) wms =
    elim (recover_one c known first file (is_last fs)) [
      | none ↦ none
      | some (g, pending) ↦ elim (recover_segments c known fs (merge_watermarks pending wms)) [
        | none ↦ none
        | some (gs, wms') ↦ some (g ∷ gs, wms')
      ]
    ]

-- The newest segment that is not empty.
unfoldable pub newest_full : List Segment → Option Segment
newest_full [] = none
newest_full (g ∷ gs) = elim (newest_full gs) [
  | some h ↦ some h
  | none ↦ if g.last == 0 then none else some g
]

abbrev pub last_of : Segment → List Segment → Segment
last_of g [] = g
last_of g (h ∷ gs) = last_of h gs

abbrev pub init_of : Segment → List Segment → List Segment
init_of g [] = []
init_of g (h ∷ gs) = g ∷ init_of h gs

-- The number and the hash to go on from.
unfoldable pub derive : Text → List Segment → ℕ × Text
unfolding newest_full
derive anchor gs = elim (newest_full gs) [
  | some g ↦ (g.last, g.last_hash)
  | none ↦ elim gs [ [] ↦ (0, []) | g ∷ gs' ↦ ((last_of g gs').first - 1, anchor) ]
]

-- loadDedupe: the IDs that are younger than the window, and their lines.
unfoldable pub load_dedupe :
    Time → Duration → List (Time × Text) → Map Time → Map Time × List (Time × Text)
unfolding insert
load_dedupe now window [] ids = (ids, [])
load_dedupe now window ((unix, id) ∷ lines) ids =
    let at = unix_epoch + unix * second in
    if ltb (at + window) now
    then load_dedupe now window lines ids
    else (let (ids', keep) = load_dedupe now window lines (insert id at ids) in
        (ids', (unix, id) ∷ keep))

-- The segments, of which openActive begins one if there is none.
unfoldable pub with_active : ℕ → List Segment → List Segment × Segment
unfolding new_segment created
with_active seq [] = ([], created (new_segment (seq + 1)))
with_active seq (g ∷ gs) = (init_of g gs, last_of g gs)

unfoldable pub anchor_of : Option Manifest → Text
anchor_of none = []
anchor_of (some m) = m.anchor

unfoldable pub segments_of : Option Manifest → List Segment
segments_of none = []
segments_of (some m) = m.segments

unfoldable pub watermarks_of : Option Manifest → Map Time
watermarks_of none = []
watermarks_of (some m) = m.watermarks

-- The state after recover, with the segments `gs`.
unfoldable pub recovered : Options → Dir → List Segment → Map Time → Spool
unfolding derive with_active anchor_of
recovered opts d gs wms =
    let anchor = anchor_of d.manifest in
    let (seq, head) = derive anchor gs in
    let (older, current) = with_active seq gs in
    record {
      opts = opts;
      older = older;
      current = current;
      active_open = true;
      seq = seq;
      committed = seq;
      head = head;
      anchor = anchor;
      watermarks = wms;
      cursors = [];
      recent_ids = [];
      wakeups = 0;
      closed = false;
      manifest = d.manifest;
      cursor_file = d.cursor_file;
      dedupe_file = d.dedupe_file;
      dead_letters = d.dead_letters;
    }

-- loadDedupe on the spool; without the file nothing is written.
unfoldable pub load_lines : Io → List (Time × Text) → Spool → Option Spool
unfolding load_dedupe
load_lines io [] s = some s
load_lines io (l ∷ ls) s =
    let (ids, keep) = load_dedupe io.now s.opts.dedupe_window (l ∷ ls) [] in
    if io.dedupe_write_ok then some (record s { recent_ids = ids; dedupe_file = keep }) else none

unfoldable pub deduped : Io → Spool → Option Spool
unfolding load_lines
deduped io s = load_lines io s.dedupe_file s

-- Open; `none` is an error.
unfoldable pub open_spool : Codec → Io → Options → Dir → Option Spool
unfolding recover_segments recovered load_cursors deduped watermarks_of segments_of defaults
open_spool c io opts d =
    if io.read_ok
    then elim (recover_segments c (segments_of d.manifest) d.files (watermarks_of d.manifest)) [
      | none ↦ none
      | some (gs, wms) ↦ elim (deduped io (load_cursors (recovered (defaults opts) d gs wms))) [
        | none ↦ none
        | some s ↦ if io.open_ok then some s else none
      ]
    ]
    else none
