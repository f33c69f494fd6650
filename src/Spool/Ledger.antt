-- ===== src/Spool/Ledger.antt =====
-- The ledger that a spool holds: the records of its segment files, and the invariant that ties the
-- files, the segments' fields and the chain of internal/spool/spool.go together.
use mathlib.Core.List.{append_assoc}
use native.Mathlib.Nat.{add-zero}
use vbilling.Prelude.{
  ◌≢◌, ◌↔◌, ℕ, suc, ◌+◌, ◌≡◌, refl, sym, ap, none, some, List, [], ◌∷◌, ◌++◌, map, arith,
}
use vbilling.Prelude.Lists.{length, All, All-append, length-append}
use vbilling.Prelude.Text.{Text}
use vbilling.Spool.Codec.{Bytes, Codec, Record, parse_line, newline, split_lines, tab}
use vbilling.Spool.Codec.Lines.{NoBreak, render, split_lines-render_whole}
use vbilling.Spool.Codec.Format.{parse_line-print_line}
use vbilling.Spool.Chain.{body_of, line_of, hash_of, end_hash, Linked, end_hash-append}
use vbilling.Spool.State.{Spool, Segment, Offset, segments}

length_shift {ℓ} :
    {A : Type ℓ} (n : ℕ) (xs ys : List A) → n + length (xs ++ ys) ≡ n + length xs + length ys
length_shift n xs ys = omega (arith, length-append xs ys)

module _ (c : Codec) where
  keep_parsed : Bytes → List Record → List Record
  keep_parsed l rs = elim (parse_line c l) [ none ↦ rs | some (r, h) ↦ r ∷ rs ]

  pub parsed : List Bytes → List Record
  unfolding keep_parsed
  parsed [] = []
  parsed (l ∷ ls) = keep_parsed l (parsed ls)

  -- The records of the complete lines of a file.
  unfoldable pub file_records : Bytes → List Record
  unfolding parsed
  file_records f = parsed (split_lines f).complete

  unfoldable pub records_of : Segment → List Record
  unfolding file_records
  records_of g = elim g.file [ none ↦ [] | some f ↦ file_records f ]

  unfoldable pub ledger_of : List Segment → List Record
  unfolding records_of
  ledger_of [] = []
  ledger_of (g ∷ gs) = records_of g ++ ledger_of gs

  unfoldable pub ledger : Spool → List Record
  unfolding ledger_of
  ledger s = ledger_of (segments s)

  abbrev pub lines_of : List Record → List Bytes
  lines_of = map (line_of c)

  abbrev pub file_of : List Record → Bytes
  file_of rs = render (lines_of rs)

  pub Linked-NoBreak :
      (prev : Text) (seq : ℕ) (rs : List Record) → Linked c prev seq rs → All NoBreak (lines_of rs)
  Linked-NoBreak prev seq [] h = tt
  Linked-NoBreak prev seq (r ∷ rs) h = (
    All-append (λ x. x ≢ newline) (hash_of c r) (tab ∷ body_of c r) (c.digest_newline (body_of c r))
        (omega arith, c.marshal_newline r (body_of c r) h.2),
    Linked-NoBreak (hash_of c r) (suc seq) rs h.3,
  )

  pub parsed-lines_of :
      (prev : Text) (seq : ℕ) (rs : List Record) → Linked c prev seq rs → parsed (lines_of rs) ≡ rs
  unfolding parsed
  parsed-lines_of prev seq [] h = refl
  parsed-lines_of prev seq (r ∷ rs) h =
      rw (parse_line-print_line c r (body_of c r) h.2, keep_parsed)
        (ap (◌∷◌ r) (parsed-lines_of (hash_of c r) (suc seq) rs h.3))

  -- A chain of records, written out as lines, reads back.
  pub file_records-file_of :
      (prev : Text) (seq : ℕ) (rs : List Record)
      → Linked c prev seq rs
      → file_records (file_of rs) ≡ rs
  unfolding file_records
  file_records-file_of prev seq rs h =
      rw (split_lines-render_whole (lines_of rs) (Linked-NoBreak prev seq rs h))
        (parsed-lines_of prev seq rs h)

  -- The entry points at the line of its record.
  abbrev pub AtLine : ℕ → List Record → Offset → Type 0
  AtLine start rs ix =
      (before : List Record) × (after : List Record) × (rs ≡ before ++ after)
      × (ix.seq ≡ suc start + length before)
      × (ix.off ≡ length (file_of before))

  abbrev pub last_seq : ℕ → List Record → ℕ
  last_seq start [] = 0
  last_seq start (r ∷ rs) = start + length (r ∷ rs)

  abbrev pub last_hash_of : Text → List Record → Text
  last_hash_of prev [] = []
  last_hash_of prev (r ∷ rs) = end_hash c prev (r ∷ rs)

  -- A segment that holds `rs`, after a record with number `start` and hash `prev`.
  pub record Holds (prev : Text) (start : ℕ) (rs : List Record) (g : Segment) : Type 0 where
    pub file : g.file ≡ some (file_of rs)
    pub linked : Linked c prev start rs
    pub first : g.first ≡ suc start
    pub last : g.last ≡ last_seq start rs
    pub last_hash : g.last_hash ≡ last_hash_of prev rs
    pub size : g.size ≡ length (file_of rs)
    pub index : All (AtLine start rs) g.index

  abbrev pub Chained : Text → ℕ → List Segment → Type 0
  Chained prev start [] = Unit
  Chained prev start (g ∷ gs) =
      Holds prev start (records_of g) g
      × Chained (end_hash c prev (records_of g)) (start + length (records_of g)) gs

  -- `base` is the number of the last record that retention has removed.
  pub record IsSound (base : ℕ) (s : Spool) : Type 0 where
    pub chained : Chained s.anchor base (segments s)
    pub seq : s.seq ≡ base + length (ledger s)
    pub head : s.head ≡ end_hash c s.anchor (ledger s)
    pub committed : s.committed ≡ s.seq

  pub Holds-records_of :
      (prev : Text) (start : ℕ) (rs : List Record) (g : Segment)
      → Holds prev start rs g
      → records_of g ≡ rs
  unfolding records_of
  Holds-records_of prev start rs g h = rw h.file (file_records-file_of prev start rs h.linked)

  pub ledger_of-append :
      (gs hs : List Segment) → ledger_of (gs ++ hs) ≡ ledger_of gs ++ ledger_of hs
  unfolding ledger_of
  ledger_of-append [] hs = refl
  ledger_of-append (g ∷ gs) hs =
      rw (ledger_of-append gs hs) (sym (append_assoc (records_of g) (ledger_of gs) (ledger_of hs)))

  pub Chained-append :
      (prev : Text) (start : ℕ) (gs hs : List Segment)
      → Chained prev start (gs ++ hs) ↔ (
          Chained prev start gs
          × Chained (end_hash c prev (ledger_of gs)) (start + length (ledger_of gs)) hs)
  unfolding ledger_of
  Chained-append prev start [] hs = rw (add-zero start) (λ h. (tt, h), λ h. h.1)
  Chained-append prev start (g ∷ gs) hs =
      let ih =
        Chained-append (end_hash c prev (records_of g)) (start + length (records_of g)) gs hs in
      rw
        (
          end_hash-append c prev (records_of g) (ledger_of gs),
          length_shift start (records_of g) (ledger_of gs),
        )
        (λ h. ((h.0, (ih.0 h.1).0), (ih.0 h.1).1), λ h. (h.0.0, ih.1 (h.0.1, h.1)))
