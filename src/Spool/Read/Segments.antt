-- ===== src/Spool/Read/Segments.antt =====
-- What readSegment (internal/spool/spool.go) reads from a segment and from a run of segments: the
-- index only shortens the way to the first record.
use mathlib.Core.List.{append_assoc, append-nil, map-append}
use vbilling.Prelude.{
  ℕ, suc, ◌+◌, ◌-◌, ◌≤◌, ◌≡◌, ◌∙◌, refl, sym, ap, subst, true, ◌||◌, List, [], ◌∷◌, ◌++◌, arith,
  inl, inr,
}
use vbilling.Prelude.Tests.{ltb, ◌==◌, Bool-cases}
use vbilling.Prelude.Lists.{
  length, take, drop, All, drop_all, drop_nil, take_nil, drop-append, take-append, drop-append_le,
  length-append, drop-append_length, length-take,
}
use vbilling.Prelude.Text.{Text}
use vbilling.Spool.Codec.{Codec, Record, split_lines}
use vbilling.Spool.Codec.Lines.{render, render-append, split_lines-render_whole}
use vbilling.Spool.Chain.{line_of, end_hash, Linked, Linked-suffix}
use vbilling.Spool.State.{Segment, Offset, Io, ok}
use vbilling.Spool.Ledger.{
  lines_of, file_of, AtLine, Holds, Chained, records_of, ledger_of, Linked-NoBreak,
}
use vbilling.Spool.Read.{read_lines, seek, read_segment, read_segment_opts, read_segments, collect}
use vbilling.Spool.Read.Lines.{see, read_lines-lines_of}

module _ (c : Codec) where
  -- A byte offset at the start of a line that is not past the first wanted record.
  record StartsLine (start from : ℕ) (rs : List Record) (off : ℕ) : Type 0 where
    before : List Record
    after : List Record
    split : rs ≡ before ++ after
    offset : off ≡ length (file_of c before)
    early : length before ≤ from - suc start

  seek-StartsLine :
      (start from : ℕ) (rs : List Record) (off : ℕ) (ixs : List Offset)
      → StartsLine start from rs off
      → All (AtLine c start rs) ixs
      → StartsLine start from rs (seek from off ixs)
  unfolding seek
  seek-StartsLine start from rs off [] s h = s
  seek-StartsLine start from rs off (ix ∷ ixs) s h = elim (Bool-cases (ltb from ix.seq)) [
    | inl b ↦ rw b s
    | inr b ↦
        let (before, after, split, seq, at) = h.0 in
        rw b (
          seek-StartsLine start from rs ix.off ixs
            (record {
              before = before;
              after = after;
              split = split;
              offset = at;
              early = ground (arith, seq, b);
            })
            h.1)
  ]

  at_start : (start from : ℕ) (rs : List Record) → StartsLine start from rs 0
  unfolding render
  at_start start from rs = record {
    before = [];
    after = rs;
    split = refl;
    offset = refl;
    early = omega arith;
  }

  drop-file_of :
      (start from : ℕ) (rs : List Record) (off : ℕ) (s : StartsLine start from rs off)
      → drop off (file_of c rs) ≡ file_of c s.after
  drop-file_of start from rs off s =
      rw (s.split, s.offset)
        (ap (drop (length (file_of c s.before))) (
            ap render (map-append (line_of c) s.before s.after)
            ∙ render-append (lines_of c s.before) (lines_of c s.after))
          ∙ drop-append_length (file_of c s.before) (file_of c s.after))

  module _ (io : Io) (from upto max : ℕ) where
    read_from :
        (q : ℕ) (prev : Text) (start : ℕ) (rs out : List Record) (off : ℕ)
        → Linked c prev start rs
        → start + length rs ≤ upto
        → length out + suc q ≡ max
        → StartsLine start from rs off
        → read_lines
            (see c from upto)
            (collect max)
            out
            (split_lines (drop off (file_of c rs))).complete
          ≡ ok (out ++ take (suc q) (drop (from - suc start) rs))
    read_from q prev start rs out off h le room s =
        let mid = start + length s.before in
        let k : Linked c (end_hash c prev s.before) mid s.after =
          Linked-suffix c prev start s.before s.after (subst (Linked c prev start) s.split h) in
        let lines =
          ap (λ f. split_lines f) (drop-file_of start from rs off s)
          ∙ split_lines-render_whole (lines_of c s.after) (Linked-NoBreak c _ mid s.after k) in
        let e : from - suc start - length s.before ≡ from - suc mid = omega arith in
        ap (λ x. read_lines (see c from upto) (collect max) out x.complete) lines
        ∙ read_lines-lines_of c from upto max q (end_hash c prev s.before) mid s.after out k
            (omega (arith, ap (λ x. length x) s.split, length-append s.before s.after, le)) room
        ∙ ap (λ l. ok (out ++ take (suc q) l))
            (sym (
              ap (drop (from - suc start)) s.split
              ∙ drop-append_le (from - suc start) s.before s.after s.early
              ∙ ap (λ k. drop k s.after) e))

    -- A segment that is passed over has nothing in the range.
    passed_over :
        (prev : Text) (start : ℕ) (rs : List Record) (g : Segment)
        → Holds c prev start rs g
        → start + length rs ≤ upto
        → g.last == 0 || ltb g.last from || ltb upto g.first ≡ true
        → length rs ≤ from - suc start
    passed_over prev start [] g h le p = omega arith
    passed_over prev start (r ∷ rs) g h le p = ground (arith, h.first, h.last)

    read_segment-Holds :
        (q : ℕ) (prev : Text) (start : ℕ) (rs out : List Record) (g : Segment)
        → Holds c prev start rs g
        → io.read_ok ≡ true
        → start + length rs ≤ upto
        → length out + suc q ≡ max
        → read_segment c io from upto max out g
          ≡ ok (out ++ take (suc q) (drop (from - suc start) rs))
    unfolding read_segment
    read_segment-Holds q prev start rs out g h can le room =
        elim (Bool-cases (g.last == 0 || ltb g.last from || ltb upto g.first)) [
          | inl p ↦
              rw (p, read_segment_opts)
                (ap ok (
                  sym (
                    ap (λ l. out ++ take (suc q) l)
                      (drop_all (from - suc start) rs (passed_over prev start rs g h le p))
                    ∙ append-nil out)))
          | inr p ↦
              rw (p, read_segment_opts)
                (rw can (
                  rw h.file (
                    read_from q prev start rs out (seek from 0 g.index) h.linked le room
                      (seek-StartsLine start from rs 0 g.index (at_start start from rs) h.index))))
        ]

    more_room :
        (n k : ℕ) (rs ls : List Record)
        → take n (drop k (rs ++ ls))
          ≡ take n (drop k rs) ++ take (n - length (take n (drop k rs))) (drop (k - length rs) ls)
    more_room n k rs ls =
        let e : n - length (drop k rs) ≡ n - length (take n (drop k rs)) =
          omega (arith, length-take n (drop k rs)) in
        ap (take n) (drop-append k rs ls)
        ∙ take-append n (drop k rs) (drop (k - length rs) ls)
        ∙ ap (λ m. take n (drop k rs) ++ take m (drop (k - length rs) ls)) e

    pub read_segments-Chained :
        (prev : Text) (start : ℕ) (gs : List Segment) (out : List Record)
        → Chained c prev start gs
        → io.read_ok ≡ true
        → start + length (ledger_of c gs) ≤ upto
        → length out ≤ max
        → read_segments c io from upto max out gs
          ≡ ok (out ++ take (max - length out) (drop (from - suc start) (ledger_of c gs)))
    unfolding read_segments ledger_of
    read_segments-Chained prev start [] out h can le room = ap ok (
        sym (
          ap (λ l. out ++ take (max - length out) l) (drop_nil (from - suc start))
          ∙ ap (λ l. out ++ l) (take_nil (max - length out))
          ∙ append-nil out))
    read_segments-Chained prev start (g ∷ gs) out h can le room =
        elim (Bool-cases (ltb (length out) max)) [
          | inr b ↦
              let e : max - length out ≡ 0 = ground arith in
              rw b (
                ap ok (
                  sym (
                    ap (λ n. out ++ take n (drop (from - suc start) (ledger_of c (g ∷ gs)))) e
                    ∙ append-nil out)))
          | inl b ↦
              let rs = records_of c g in
              let k = from - suc start in
              let q = max - length out - 1 in
              let room' : length out + suc q ≡ max = ground arith in
              let e : suc q ≡ max - length out = omega (arith, room') in
              let got = take (suc q) (drop k rs) in
              let le' : start + length rs + length (ledger_of c gs) ≤ upto =
                omega (arith, length-append rs (ledger_of c gs)) in
              let fits : length (out ++ got) ≤ max =
                omega (arith, length-append out got, length-take (suc q) (drop k rs)) in
              let left : max - length (out ++ got) ≡ suc q - length got =
                omega (arith, length-append out got) in
              let skip : from - suc (start + length rs) ≡ k - length rs = omega arith in
              rw b (
                rw (read_segment-Holds q prev start rs out g h.0 can (omega arith) room') (
                  read_segments-Chained (end_hash c prev rs) (start + length rs) gs (out ++ got) h.1
                    can le' fits
                  ∙ ap ok (
                      append_assoc out got _
                      ∙ ap (λ l. out ++ l)
                          (ap
                              (λ n.
                                got
                                ++ take n (drop (from - suc (start + length rs)) (ledger_of c gs)))
                              left
                            ∙ ap (λ n. got ++ take (suc q - length got) (drop n (ledger_of c gs)))
                                skip
                            ∙ sym (more_room (suc q) k rs (ledger_of c gs))
                            ∙ ap (λ n. take n (drop k (rs ++ ledger_of c gs))) e))))
        ]
