-- ===== src/Spool/Read.antt =====
-- Read and readSegmentOpts of internal/spool/spool.go.
pub mod Lines
pub mod Segments
pub mod Whole
pub mod Sighted
use vbilling.Prelude.{
  ℕ, zero, suc, ◌+◌, ◌/◌, Bool, true, false, not, ◌||◌, Option, none, some, List, [], ◌∷◌, ◌++◌,
}
use vbilling.Prelude.Tests.{ltb, leb, ◌==◌, if◌then◌else◌}
use vbilling.Prelude.Lists.{length, drop, get_elem?}
use vbilling.Spool.Codec.{Bytes, Codec, Record, parse_line, peek_seq, split_lines}
use vbilling.Spool.State.{
  Spool, Io, Result, ok, err, read_failed, corrupt, Segment, Offset, segments,
}

-- What the loop of readSegmentOpts does with a line: pass it over, stop, report it, or hand its
-- record to the callback.
pub data Verdict : Type 0 where
  skip stop bad : Verdict
  give : Record → Verdict

in_range : ℕ → ℕ → Record → Verdict
in_range from upto r = if ltb upto r.seq then stop else if ltb r.seq from then skip else give r

-- `keep` is constantly true when the source's is nil.
look : (Bytes → Option Record) → (Bytes → Bool) → ℕ → ℕ → Bytes → Verdict
unfolding in_range
look parse keep from upto line =
    if keep line then elim (parse line) [ none ↦ bad | some r ↦ in_range from upto r ] else skip

unfoldable pub judge : Codec → (Bytes → Option Record) → (Bytes → Bool) → ℕ → ℕ → Bytes → Verdict
unfolding look
judge c parse keep from upto line = elim (peek_seq c line) [
  | none ↦ look parse keep from upto line
  | some seq ↦
      if ltb seq from then skip else if ltb upto seq then stop else look parse keep from upto line
]

-- The loop over the complete lines; the callback returns false to stop.
unfoldable pub read_lines :
    {A : Type 0} → (Bytes → Verdict) → (Record → A → Bool × A) → A → List Bytes → Result A
read_lines see fn acc [] = ok acc
read_lines see fn acc (l ∷ ls) = elim (see l) [
  | skip ↦ read_lines see fn acc ls
  | stop ↦ ok acc
  | bad ↦ err corrupt
  | give r ↦
      let (more, acc') = fn r acc in
      elim more [ true ↦ read_lines see fn acc' ls | false ↦ ok acc' ]
]

-- The offset of the last index entry before the first one past `from`.
unfoldable pub seek : ℕ → ℕ → List Offset → ℕ
seek from start [] = start
seek from start (ix ∷ ixs) =
    let rest = seek from ix.off ixs in if ltb from ix.seq then start else rest

unfoldable pub read_segment_opts :
    {A : Type 0}
    → Codec
    → Io
    → (Bytes → Option Record)
    → (Bytes → Bool)
    → ℕ
    → ℕ
    → (Record → A → Bool × A)
    → A
    → Segment
    → Result A
read_segment_opts c io parse keep from upto fn acc g =
    if g.last == 0 || ltb g.last from || ltb upto g.first
    then ok acc
    else if io.read_ok
    then elim g.file [
      | none ↦ err read_failed
      | some f ↦
          read_lines (judge c parse keep from upto) fn acc
            (split_lines (drop (seek from 0 g.index) f)).complete
    ]
    else err read_failed

unfoldable pub verified : Codec → Bytes → Option Record
verified c l = elim (parse_line c l) [ none ↦ none | some (r, h) ↦ some r ]

unfoldable pub everything : Bytes → Bool
everything l = true

-- Read's callback.
unfoldable pub collect : ℕ → Record → List Record → Bool × List Record
collect max r out = (ltb (length out + 1) max, out ++ r ∷ [])

-- readSegment
unfoldable pub read_segment : Codec → Io → ℕ → ℕ → ℕ → List Record → Segment → Result (List Record)
unfolding read_segment_opts verified everything collect
read_segment c io from upto max out g =
    read_segment_opts c io (verified c) everything from upto (collect max) out g

-- Read's loop over the segments.
unfoldable pub read_segments :
    Codec → Io → ℕ → ℕ → ℕ → List Record → List Segment → Result (List Record)
unfolding read_segment
read_segments c io from upto max out [] = ok out
read_segments c io from upto max out (g ∷ gs) =
    if ltb (length out) max
    then elim (read_segment c io from upto max out g) [
      | err e ↦ err e
      | ok out' ↦ read_segments c io from upto max out' gs
    ]
    else ok out

-- sort.Search: the loop keeps `f (i - 1)` false and `f j` true.
unfoldable pub search : ℕ → (ℕ → Bool) → ℕ → ℕ → ℕ
search zero f i j = i
search (suc fuel) f i j =
    let h = (i + j) / 2 in
    if ltb i j then elim (f h) [ true ↦ search fuel f i h | false ↦ search fuel f (h + 1) j ] else i

-- Segment `i` is empty or reaches past `after`.
unfoldable pub reaches : List Segment → ℕ → ℕ → Bool
reaches gs after i = elim (get_elem? gs i) [
  | none ↦ true
  | some g ↦ g.last == 0 || ltb after g.last
]

unfoldable pub read : Codec → Io → ℕ → ℕ → Spool → Result (List Record)
unfolding search reaches
read c io after max s =
    let gs = segments s in
    if leb s.committed after || max == 0
    then ok []
    else read_segments c io (after + 1) s.committed max []
        (drop (search (length gs) (reaches gs after) 0 (length gs)) gs)
