-- ===== src/Spool/Recover.antt =====
-- scanSegment of internal/spool/spool.go: reading a segment file back after a restart, and cutting
-- off what follows the last commit of the newest one.
pub mod Scans
pub mod Crash
pub mod Atomic
use vbilling.Prelude.{
  ℕ, suc, ◌+◌, ◌-◌, ◌%◌, ◌^◌, Bool, true, false, not, ◌&&◌, Option, none, some, List, [], ◌∷◌, ◌++◌,
}
use vbilling.Prelude.Tests.{ltb, ◌==◌, if◌then◌else◌}
use vbilling.Prelude.Lists.{length, take}
use vbilling.Prelude.Text.{Text, Map, text_eq, insert, lookup}
use vbilling.Usage.{Time}
use vbilling.Spool.Codec.{Bytes, Codec, Commit, Record, type_commit, parse_line, split_lines}
use vbilling.Spool.State.{Segment, Offset, index_every}

-- The local variables of scanSegment.
pub record Scan : Type 0 where
  pub off : ℕ
  pub good_end : ℕ
  pub last_commit_seq : ℕ
  pub last_commit_at : Time
  pub last_commit_hash : Text
  pub first_at : Time
  pub index : List Offset
  pub pending : Map Time

abbrev pub start_scan : Scan
start_scan = record {
  off = 0;
  good_end = 0;
  last_commit_seq = 0;
  last_commit_at = 0;
  last_commit_hash = [];
  first_at = 0;
  index = [];
  pending = [];
}

-- What the record closes, if it is a commit.
unfoldable pub commit_of : Record → Option Commit
commit_of r = if text_eq r.type type_commit then r.commit else none

unfoldable pub see_commit : Record → Text → Option Commit → Scan → Scan
see_commit r hash none sc = sc
see_commit r hash (some k) sc = record sc {
  good_end = sc.off;
  last_commit_seq = r.seq;
  last_commit_at = r.at;
  last_commit_hash = hash;
  pending = if k.window_end == 0 then sc.pending else insert k.source k.window_end sc.pending;
}

-- The offset, the index and the first time move with every line. `Seq - first` wraps at 64 bits.
unfoldable pub advance : ℕ → Record → ℕ → Scan → Scan
advance first r len sc = record sc {
  index =
      if (r.seq + 2 ^ 64 - first) % 2 ^ 64 % index_every == 0
      then sc.index ++ record { seq = r.seq; off = sc.off } ∷ []
      else sc.index;
  off = sc.off + len;
  first_at = if sc.first_at == 0 then r.at else sc.first_at;
}

-- One complete line of `len` bytes, line break included.
unfoldable pub scan_step : ℕ → Record → Text → ℕ → Scan → Scan
scan_step first r hash len sc = see_commit r hash (commit_of r) (advance first r len sc)

unfoldable pub scan_lines : Codec → ℕ → List Bytes → Scan → Option Scan
unfolding scan_step advance see_commit commit_of
scan_lines c first [] sc = some sc
scan_lines c first (l ∷ ls) sc = elim (parse_line c l) [
  | none ↦ none
  | some (r, hash) ↦ scan_lines c first ls (scan_step first r hash (length l + 1) sc)
]

unfoldable pub keep_before : ℕ → List Offset → List Offset
keep_before end [] = []
keep_before end (ix ∷ ixs) =
    let rest = keep_before end ixs in if ltb ix.off end then ix ∷ rest else rest

-- Without a commit the segment counts as empty.
unfoldable pub close_scan : ℕ → Scan → Bytes → Segment
close_scan first sc file =
    let empty = sc.last_commit_seq == 0 in
    record {
      first = first;
      last = sc.last_commit_seq;
      first_at = if empty then 0 else sc.first_at;
      last_at = sc.last_commit_at;
      last_hash = sc.last_commit_hash;
      size = sc.off;
      index = sc.index;
      file = some file;
    }

-- The newest segment loses what follows its last commit; `none` is an error.
unfoldable pub finish_scan : ℕ → Bool → Bytes → Bytes → Scan → Option (Segment × Map Time)
unfolding close_scan keep_before
finish_scan first newest file torn sc =
    if not newest && not (length torn == 0)
    then none
    else if newest && ltb sc.good_end (length file)
    then some (
      close_scan first (record sc { off = sc.good_end; index = keep_before sc.good_end sc.index })
          (take sc.good_end file),
      sc.pending,
    )
    else some (close_scan first sc file, sc.pending)

-- scanSegment: the segment and the watermarks of its commits.
unfoldable pub scan_segment : Codec → ℕ → Bool → Bytes → Option (Segment × Map Time)
unfolding scan_lines finish_scan
scan_segment c first newest file =
    let s = split_lines file in
    elim (scan_lines c first s.complete start_scan) [
      | none ↦ none
      | some sc ↦ finish_scan first newest file s.torn sc
    ]

-- Each source keeps its latest window end.
unfoldable pub merge_watermarks : Map Time → Map Time → Map Time
merge_watermarks [] wms = wms
merge_watermarks ((k, v) ∷ pending) wms =
    let now : Time = elim (lookup k wms) [ none ↦ 0 | some t ↦ t ] in
    merge_watermarks pending (if ltb now v then insert k v wms else wms)
