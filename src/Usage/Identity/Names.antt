-- ===== src/Usage/Identity/Names.antt =====
-- The names that Validate of internal/usage/usage.go accepts.
use vbilling.Prelude.{ℕ, ◌≡◌, ◌≢◌, refl, Bool, true, false, [], ◌∷◌, ◌++◌, ◌&&◌}
use vbilling.Prelude.Lists.{All, length}
use vbilling.Prelude.Tests.{leb}
use vbilling.Prelude.Text.{Text}
use vbilling.Usage.Identity.{all, is_name, lower_letter, word_byte, equals}

-- A byte of a name is neither zero nor the sign between a key and its value.
abbrev pub IsNamed : ℕ → Type 0
IsNamed x = (x ≢ 0) × (x ≢ equals)

pub and_both : (a b : Bool) → (a && b) ≡ true → (a ≡ true) × (b ≡ true)
and_both true true h = (refl, refl)
and_both true false h = cc h
and_both false b h = cc h

word_byte-IsNamed : (x : ℕ) → word_byte x ≡ true → IsNamed x
word_byte-IsNamed x h = (λ e. cc (rw e at h), λ e. cc (rw e at h))

lower_letter-IsNamed : (x : ℕ) → lower_letter x ≡ true → IsNamed x
lower_letter-IsNamed x h = (λ e. cc (rw e at h), λ e. cc (rw e at h))

all-IsNamed : (t : Text) → all word_byte t ≡ true → All IsNamed t
unfolding all
all-IsNamed [] h = tt
all-IsNamed (x ∷ t) h =
    let (a, b) = and_both (word_byte x) (all word_byte t) h in
    (word_byte-IsNamed x a, all-IsNamed t b)

pub is_name-IsNamed : (n : ℕ) (t : Text) → is_name n t ≡ true → All IsNamed t
unfolding is_name
is_name-IsNamed n [] h = tt
is_name-IsNamed n (x ∷ t) h =
    let (a, b) = and_both (lower_letter x && all word_byte t) (leb (length t) n) h in
    let (d, f) = and_both (lower_letter x) (all word_byte t) a in
    (lower_letter-IsNamed x d, all-IsNamed t f)

-- The key of a dimension ends at its first `=`.
pub key_split :
    (k j v w : Text)
    → All IsNamed k
    → All IsNamed j
    → k ++ equals ∷ v ≡ j ++ equals ∷ w
    → (k ≡ j) × (v ≡ w)
key_split [] [] v w h i e = (refl, cc e)
key_split [] (y ∷ j) v w h i e = elim (i.0.1 (cc e)) [ ]
key_split (x ∷ k) [] v w h i e = elim (h.0.1 (cc e)) [ ]
key_split (x ∷ k) (y ∷ j) v w h i e =
    let (a, b) = key_split k j v w h.1 i.1 (cc e) in (cc (a, e), b)
