-- ===== src/Spool/Read/Whole.antt =====
-- Read (internal/spool/spool.go) as a whole, against the ledger.
use Prim.Native.Nat
use vbilling.Prelude.{
  ℕ, zero, suc, ◌+◌, ◌-◌, ◌/◌, ◌≤◌, ◌≡◌, ◌∙◌, ◌⊎◌, refl, sym, ap, subst, Bool, true, false, ◌||◌,
  List, [], ◌∷◌, ◌++◌, arith, inl, inr,
}
use vbilling.Prelude.Tests.{ltb, leb, ◌==◌, Bool-cases}
use vbilling.Prelude.Lists.{
  length, take, drop, take-append-drop, drop_all, take_nil, drop-append_le, length-append,
}
use vbilling.Prelude.Text.{Text}
use vbilling.Spool.Codec.{Codec, Record}
use vbilling.Spool.Chain.{end_hash}
use vbilling.Spool.State.{Spool, Segment, Io, ok, segments}
use vbilling.Spool.Ledger.{
  Holds, Chained, Chained-append, records_of, ledger_of, ledger_of-append, ledger, IsSound,
}
use vbilling.Spool.Read.{search, reaches, read}
use vbilling.Spool.Read.Segments.{read_segments-Chained}

-- The test fails just below `i`.
abbrev FailsBelow : (ℕ → Bool) → ℕ → Type 0
FailsBelow f i = (i ≡ 0) ⊎ ((k : ℕ) × (i ≡ suc k) × (f k ≡ false))

search-FailsBelow :
    (fuel : ℕ) (f : ℕ → Bool) (i j : ℕ) → FailsBelow f i → FailsBelow f (search fuel f i j)
unfolding search
search-FailsBelow zero f i j h = h
search-FailsBelow (suc fuel) f i j h = elim (Bool-cases (ltb i j)) [
  | inr b ↦ rw (b, search) h
  | inl b ↦ elim (Bool-cases (f ((i + j) / 2))) [
    | inl t ↦ rw (b, search) (rw t (search-FailsBelow fuel f i ((i + j) / 2) h))
    | inr t ↦
        let mid = (i + j) / 2 in
        rw (b, search) (rw t (search-FailsBelow fuel f (mid + 1) j (inr (mid, omega arith, t))))
  ]
]

leb→le : (a b : ℕ) → leb a b ≡ true → a ≤ b
leb→le a b h = ground arith

module _ (c : Codec) where
  last-seen :
      (prev : Text) (start : ℕ) (rs : List Record) (g : Segment)
      → Holds c prev start rs g
      → g.last == 0 ≡ false
      → g.last ≡ start + length rs
  last-seen prev start [] g h p = ground (arith, h.last)
  last-seen prev start (r ∷ rs) g h p = h.last

  -- A segment that does not reach past `after`, and those before it, hold only earlier records.
  passed :
      (prev : Text) (start after k : ℕ) (gs : List Segment)
      → Chained c prev start gs
      → reaches gs after k ≡ false
      → start + length (ledger_of c (take (suc k) gs)) ≤ after
  unfolding reaches ledger_of
  passed prev start after k [] h p = cc p
  passed prev start after zero (g ∷ gs) h p =
      ground (arith, last-seen prev start (records_of c g) g h.0, length-append (records_of c g) [])
  passed prev start after (suc k) (g ∷ gs) h p = omega (
    arith,
    length-append (records_of c g) (ledger_of c (take (suc k) gs)),
    passed (end_hash c prev (records_of c g)) (start + length (records_of c g)) after k gs h.1 p,
  )

  skipped :
      (prev : Text) (start after i : ℕ) (gs : List Segment)
      → Chained c prev start gs
      → FailsBelow (reaches gs after) i
      → start + length (ledger_of c (take i gs)) ≤ Nat.max start after
  unfolding ledger_of
  skipped prev start after i gs h (inl e) = rw e (omega arith)
  skipped prev start after i gs h (inr (k, e, p)) =
      rw e (omega (arith, passed prev start after k gs h p))

  none_left :
      (after base max : ℕ) (s : Spool)
      → IsSound c base s
      → leb s.committed after || max == 0 ≡ true
      → take max (drop (after - base) (ledger c s)) ≡ []
  none_left after base max s v b = elim (Bool-cases (max == 0)) [
    | inl m ↦
        let e : max ≡ 0 = ground arith in ap (λ n. take n (drop (after - base) (ledger c s))) e
    | inr m ↦
        ap (take max) (
          drop_all (after - base) (ledger c s)
            (omega (arith, v.seq, v.committed, leb→le s.committed after (ground arith))))
        ∙ take_nil max
  ]

  -- Read returns the next records of the ledger after the given number, at most as many as asked
  -- for and in order, wherever they lie in the segments and their indexes; past the end it returns
  -- none.
  pub read-ledger :
      (io : Io) (base after max : ℕ) (s : Spool)
      → IsSound c base s
      → io.read_ok ≡ true
      → read c io after max s ≡ ok (take max (drop (after - base) (ledger c s)))
  unfolding read ledger
  read-ledger io base after max s v can = elim (Bool-cases (leb s.committed after || max == 0)) [
    | inl b ↦ rw b (ap ok (sym (none_left after base max s v b)))
    | inr b ↦
        let gs = segments s in
        let i = search (length gs) (reaches gs after) 0 (length gs) in
        let seen = ledger_of c (take i gs) in
        let chain =
          (Chained-append c s.anchor base (take i gs) (drop i gs)).0
            (subst (Chained c s.anchor base) (sym (take-append-drop i gs)) v.chained) in
        let whole : ledger c s ≡ seen ++ ledger_of c (drop i gs) =
          sym (ap (ledger_of c) (take-append-drop i gs))
          ∙ ledger_of-append c (take i gs) (drop i gs) in
        let early : base + length seen ≤ Nat.max base after =
          skipped s.anchor base after i gs v.chained
            (search-FailsBelow (length gs) (reaches gs after) 0 (length gs) (inl refl)) in
        let fits : base + length seen + length (ledger_of c (drop i gs)) ≤ s.committed = omega (
          arith,
          v.seq,
          v.committed,
          length-append seen (ledger_of c (drop i gs)),
          ap (λ x. length x) whole,
        ) in
        let e : after + 1 - suc (base + length seen) ≡ after - base - length seen = omega arith in
        let z : max - 0 ≡ max = omega arith in
        rw b (
          read_segments-Chained c io (after + 1) s.committed max (end_hash c s.anchor seen)
            (base + length seen) (drop i gs) [] chain.1 can fits (omega arith)
          ∙ ap ok (
              ap
                (λ n.
                  take n (drop (after + 1 - suc (base + length seen)) (ledger_of c (drop i gs))))
                z
              ∙ ap (λ n. take max (drop n (ledger_of c (drop i gs)))) e
              ∙ ap (take max) (
                  sym (
                    ap (drop (after - base)) whole
                    ∙ drop-append_le (after - base) seen (ledger_of c (drop i gs)) (omega arith)))))
  ]
