-- ===== src/Destinations/Signatures.antt =====
-- What the webhook checks of internal/destinations/stripe/webhook.go and metronome/webhook.go use of
-- crypto/hmac, strconv and strings, on ASCII text.
use vbilling.Prelude.{
  ◌<◌, ℕ, ◌≤◌, ◌≡◌, ◌≢◌, ◌⊎◌, inl, inr, refl, ap, Bool, false, ◌&&◌, ◌||◌, Option, none, some, List,
  [], ◌∷◌, ◌++◌, arith,
}
use vbilling.Prelude.Tests.{leb, ◌==◌, ==_iff, if◌then◌else◌, Bool-cases}
use vbilling.Prelude.Lists.{length, All}
use vbilling.Prelude.Text.{Text}
use vbilling.Spool.Codec.{Bytes}

-- An int64.
pub data Int64 : Type 0 where
  plus : ℕ → Int64
  -- minus the number
  minus : ℕ → Int64

abbrev pub HexDigit : ℕ → Type 0
HexDigit x = ((48 ≤ x) × (x ≤ 57)) ⊎ ((97 ≤ x) × (x ≤ 102))

-- 2^63
abbrev pub int64_end : ℕ
int64_end = 9223372036854775808

-- What the checks rely on: hex.EncodeToString gives digits and lower-case letters, FormatInt gives
-- digits for an int64 that is not negative, and ParseInt reads them back.
pub record Signing : Type 0 where
  -- The hexadecimal HMAC-SHA256 of the bytes under the secret.
  pub mac : Text → Bytes → Text
  pub format_int : Int64 → Text
  pub parse_int : Text → Option Int64
  pub mac_length : (secret : Text) (b : Bytes) → length (mac secret b) ≡ 64
  pub mac-HexDigit : (secret : Text) (b : Bytes) → All HexDigit (mac secret b)
  pub format_int-HexDigit : (n : ℕ) → n < int64_end → All HexDigit (format_int (plus n))
  pub parse_int-format_int :
      (n : ℕ) → n < int64_end → parse_int (format_int (plus n)) ≡ some (plus n)

abbrev pub is_space : ℕ → Bool
is_space x = (x == 32) || (leb 9 x && leb x 13)

drop_space : Text → Text
drop_space [] = []
drop_space (x ∷ t) = let rest = drop_space t in if is_space x then rest else x ∷ t

keep_before : ℕ → Text → Text
keep_before x [] = if is_space x then [] else x ∷ []
keep_before x (y ∷ t) = x ∷ y ∷ t

drop_last_space : Text → Text
unfolding keep_before
drop_last_space [] = []
drop_last_space (x ∷ t) = keep_before x (drop_last_space t)

-- strings.TrimSpace
unfoldable pub trim_space : Text → Text
unfolding drop_space drop_last_space
trim_space t = drop_last_space (drop_space t)

begin_part : ℕ → List Text → List Text
begin_part x [] = (x ∷ []) ∷ []
begin_part x (p ∷ ps) = (x ∷ p) ∷ ps

-- strings.Split at a byte.
unfoldable pub split : ℕ → Text → List Text
unfolding begin_part
split sep [] = [] ∷ []
split sep (x ∷ t) = let rest = split sep t in if x == sep then [] ∷ rest else begin_part x rest

-- strings.Cut at a byte.
unfoldable pub cut : ℕ → Text → Option (Text × Text)
cut sep [] = none
cut sep (x ∷ t) =
    let rest = cut sep t in
    if x == sep then some ([], t) else elim rest [ none ↦ none | some (k, v) ↦ some (x ∷ k, v) ]

abbrev pub NotSpace : ℕ → Type 0
NotSpace x = is_space x ≡ false

pub HexDigit-NotSpace : (x : ℕ) → HexDigit x → NotSpace x
HexDigit-NotSpace x h = ground arith

drop_last_space_none : (t : Text) → All NotSpace t → drop_last_space t ≡ t
unfolding drop_last_space keep_before
drop_last_space_none [] h = refl
drop_last_space_none (x ∷ []) h = rw h.0 refl
drop_last_space_none (x ∷ y ∷ t) h = ap (keep_before x) (drop_last_space_none (y ∷ t) h.1)

pub trim_space_none : (t : Text) → All NotSpace t → trim_space t ≡ t
unfolding trim_space drop_space
trim_space_none [] h = unfold drop_last_space in refl
trim_space_none (x ∷ t) h = rw h.0 (drop_last_space_none (x ∷ t) h)

pub split_none : (sep : ℕ) (t : Text) → All (λ x. x ≢ sep) t → split sep t ≡ t ∷ []
unfolding split begin_part
split_none sep [] h = refl
split_none sep (x ∷ t) h = ground (arith, split_none sep t h.1, h.0)

pub split-append :
    (sep : ℕ) (t u : Text) → All (λ x. x ≢ sep) t → split sep (t ++ sep ∷ u) ≡ t ∷ split sep u
unfolding split begin_part
split-append sep [] u h = ground arith
split-append sep (x ∷ t) u h = ground (arith, split-append sep t u h.1, h.0)

pub cut-append :
    (sep : ℕ) (t u : Text) → All (λ x. x ≢ sep) t → cut sep (t ++ sep ∷ u) ≡ some (t, u)
unfolding cut
cut-append sep [] u h = ground arith
cut-append sep (x ∷ t) u h = elim (Bool-cases (x == sep)) [
  | inl b ↦ elim (h.0 ((==_iff x sep).0 b)) [ ]
  | inr b ↦ rw b (rw (cut-append sep t u h.1) refl)
]
