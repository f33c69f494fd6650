-- ===== src/Prelude/Maps.antt =====
-- The laws of the maps.
use mathlib.Core.Path.{◌≡◌, ◌∙◌, refl, sym, ap}
use mathlib.Core.Logic.{inl, inr}
use mathlib.Core.List.{[], ◌∷◌}
use mathlib.Core.Option.{none, some}
use native.Mathlib.Omega.{arith}
use vbilling.Prelude.Tests.{if◌then◌else◌, Bool-cases}
use vbilling.Prelude.Lists.{All}
use vbilling.Prelude.Text.{Text, Map, text_eq, text_eq_iff, text_eq_refl, lookup, insert, erase}

module _ {ℓ} {V : Type ℓ} where
  pub lookup-insert :
      (k j : Text) (v : V) (m : Map V)
      → lookup j (insert k v m) ≡ (if text_eq k j then some v else lookup j m)
  unfolding lookup insert
  lookup-insert k j v [] = refl
  lookup-insert k j v ((i, w) ∷ m) =
      ground (arith, text_eq_iff k j, text_eq_iff i k, text_eq_iff i j, lookup-insert k j v m)

  pub lookup-erase :
      (k j : Text) (m : Map V) → lookup j (erase k m) ≡ (if text_eq k j then none else lookup j m)
  unfolding lookup erase
  lookup-erase k j [] = ground arith
  lookup-erase k j ((i, w) ∷ m) =
      ground (arith, text_eq_iff k j, text_eq_iff i k, text_eq_iff i j, lookup-erase k j m)

  pub lookup-insert_self : (k : Text) (v : V) (m : Map V) → lookup k (insert k v m) ≡ some v
  lookup-insert_self k v m = simp (lookup-insert, text_eq_refl)

  pub insert-insert_self : (k : Text) (v : V) (m : Map V) → insert k v (insert k v m) ≡ insert k v m
  unfolding insert
  insert-insert_self k v [] = rw (text_eq_refl k) refl
  insert-insert_self k v ((i, w) ∷ m) = ground (arith, text_eq_refl k, insert-insert_self k v m)

  -- No key twice, as in every Go map.
  abbrev pub Distinct : Map V → Type ℓ
  Distinct [] = Unit
  Distinct ((k, v) ∷ m) = (lookup k m ≡ none) × Distinct m

  pub insert-Distinct : (k : Text) (v : V) (m : Map V) → Distinct m → Distinct (insert k v m)
  unfolding insert lookup
  insert-Distinct k v [] h = (refl, tt)
  insert-Distinct k v ((i, w) ∷ m) h = elim (Bool-cases (text_eq i k)) [
    | inl b ↦ rw b (ap (λ j. lookup j m) (sym ((text_eq_iff i k).0 b)) ∙ h.0, h.1)
    | inr b ↦ rw b (
      ground (arith, h.0, b, lookup-insert k i v m, text_eq_iff k i, text_eq_iff i k),
      insert-Distinct k v m h.1,
    )
  ]

  lookup_later :
      (j k : Text) (v w : V) (m : Map V)
      → Distinct ((j, v) ∷ m)
      → lookup k m ≡ some w
      → lookup k ((j, v) ∷ m) ≡ some w
  unfolding lookup
  lookup_later j k v w m d h = elim (Bool-cases (text_eq j k)) [
    | inr q ↦ rw q h
    | inl q ↦
        let e : lookup k m ≡ none = ap (λ x. lookup x m) (sym ((text_eq_iff j k).0 q)) ∙ d.0 in
        cc (e, h)
  ]

  -- What holds of all that is found holds of all entries.
  pub All-lookup {κ} :
      (P : Text → V → Type κ) (m : Map V)
      → Distinct m
      → ((k : Text) (v : V) → lookup k m ≡ some v → P k v)
      → All (λ e. P e.0 e.1) m
  unfolding lookup
  All-lookup P [] d f = tt
  All-lookup P ((j, v) ∷ m) d f = (
    f j v (rw (text_eq_refl j) refl),
    All-lookup P m d.1 (λ k w h. f k w (lookup_later j k v w m d h)),
  )

pub ruleset map_laws = (lookup-insert, lookup-erase, text_eq_refl)
