-- ===== src/Prelude/Order.antt =====
-- Go's order of strings, and sorting by a key: sort.Strings and sort.Slice, whose result is the same
-- for every order of the input but for elements with equal keys.
use mathlib.Core.Path.{◌≡◌, refl}
use mathlib.Core.Logic.{inl, inr}
use mathlib.Core.Bool.{Bool, true, false}
use mathlib.Core.List.{List, [], ◌∷◌}
use native.Mathlib.Omega.{arith}
use vbilling.Prelude.Tests.{ltb, ◌==◌, if◌then◌else◌, Bool-cases}
use vbilling.Prelude.Lists.{All, All-mono}
use vbilling.Prelude.Text.{Text}

-- s < t
unfoldable pub text_ltb : Text → Text → Bool
text_ltb s [] = false
text_ltb [] (y ∷ t) = true
text_ltb (x ∷ s) (y ∷ t) = let rest = text_ltb s t in if x == y then rest else ltb x y

text_ltb-asym : (s t : Text) → text_ltb s t ≡ true → text_ltb t s ≡ false
unfolding text_ltb
text_ltb-asym s [] h = cc h
text_ltb-asym [] (y ∷ t) h = refl
text_ltb-asym (x ∷ s) (y ∷ t) h = ground (arith, text_ltb-asym s t)

-- Not t < s, and transitively so.
abbrev pub Before : Text → Text → Type 0
Before s t = text_ltb t s ≡ false

Before-trans : (s t u : Text) → Before s t → Before t u → Before s u
unfolding text_ltb
Before-trans [] t [] h k = refl
Before-trans [] [] (z ∷ u) h k = refl
Before-trans [] (y ∷ t) (z ∷ u) h k = refl
Before-trans (x ∷ s) [] u h k = cc h
Before-trans (x ∷ s) (y ∷ t) [] h k = cc k
Before-trans (x ∷ s) (y ∷ t) (z ∷ u) h k = ground (arith, Before-trans s t u, h, k)

module _ {ℓ} {A : Type ℓ} (key : A → Text) where
  unfoldable pub insert_sorted : A → List A → List A
  unfolding text_ltb
  insert_sorted a [] = a ∷ []
  insert_sorted a (b ∷ bs) =
      let rest = insert_sorted a bs in if text_ltb (key b) (key a) then b ∷ rest else a ∷ b ∷ bs

  unfoldable pub sort_by : List A → List A
  unfolding insert_sorted
  sort_by [] = []
  sort_by (a ∷ l) = insert_sorted a (sort_by l)

  abbrev pub Sorted : List A → Type 0
  Sorted [] = Unit
  Sorted (a ∷ l) = All (λ b. Before (key a) (key b)) l × Sorted l

  All-insert_sorted {κ} :
      (P : A → Type κ) (a : A) (bs : List A) → P a → All P bs → All P (insert_sorted a bs)
  unfolding insert_sorted
  All-insert_sorted P a [] p h = (p, tt)
  All-insert_sorted P a (b ∷ bs) p h = elim (Bool-cases (text_ltb (key b) (key a))) [
    | inl q ↦ rw q (h.0, All-insert_sorted P a bs p h.1)
    | inr q ↦ rw q (p, h)
  ]

  pub All-sort_by {κ} : (P : A → Type κ) (l : List A) → All P l → All P (sort_by l)
  unfolding sort_by
  All-sort_by P [] h = tt
  All-sort_by P (a ∷ l) h = All-insert_sorted P a (sort_by l) h.0 (All-sort_by P l h.1)

  insert_sorted-Sorted : (a : A) (bs : List A) → Sorted bs → Sorted (insert_sorted a bs)
  unfolding insert_sorted
  insert_sorted-Sorted a [] h = (tt, tt)
  insert_sorted-Sorted a (b ∷ bs) h = elim (Bool-cases (text_ltb (key b) (key a))) [
    | inl q ↦
        let low = text_ltb-asym (key b) (key a) q in
        rw q (
          All-insert_sorted (λ c. Before (key b) (key c)) a bs low h.0,
          insert_sorted-Sorted a bs h.1,
        )
    | inr q ↦ rw q ((q, All-mono bs (λ c k. Before-trans (key a) (key b) (key c) q k) h.0), h)
  ]

  pub sort_by-Sorted : (l : List A) → Sorted (sort_by l)
  unfolding sort_by
  sort_by-Sorted [] = tt
  sort_by-Sorted (a ∷ l) = insert_sorted-Sorted a (sort_by l) (sort_by-Sorted l)
