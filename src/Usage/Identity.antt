-- ===== src/Usage/Identity.antt =====
-- DeriveID and Validate of internal/usage/usage.go: what makes two events the same. SHA-256 in
-- hexadecimal and time.RFC3339Nano are parameters.
pub mod Names
pub mod Distinct
use vbilling.Prelude.{
  ℕ, ◌<◌, ◌≡◌, ◌≢◌, Bool, true, false, not, ◌&&◌, ◌||◌, Option, none, some, List, [], ◌∷◌, ◌++◌,
  map,
}
use vbilling.Prelude.Tests.{ltb, leb, ◌==◌, if◌then◌else◌}
use vbilling.Prelude.Lists.{length, take, All}
use vbilling.Prelude.Text.{Text, Map, codes, text_eq}
use vbilling.Prelude.Order.{sort_by}
use vbilling.Usage.{Time, Event, Quantity, not_a_number, infinite, positive, negative}

-- Format with time.RFC3339Nano, of times in UTC: it drops only zeros at the end of the fraction, so
-- different times have different texts, and a text has no zero byte.
pub record Stamp : Type 0 where
  pub print : Time → Text
  pub print_injective : (s t : Time) → print s ≡ print t → s ≡ t
  pub print_nul : (t : Time) → All (λ x. x ≢ 0) (print t)

abbrev pub schema_version_text : Text
schema_version_text = codes "vbilling.usage/v1"

abbrev pub equals : ℕ
equals = 61

-- The loop over the sorted keys.
abbrev pub dimension : Text × Text → Text
dimension d = d.0 ++ equals ∷ d.1

unfoldable pub sorted_dimensions : Map Text → List (Text × Text)
unfolding sort_by
sorted_dimensions m = sort_by (λ d. d.0) m

unfoldable pub parts : Stamp → Event → List Text
unfolding sorted_dimensions
parts k e =
    e.tenant
    ∷ e.metric
    ∷ k.print e.window_start
    ∷ k.print e.window_end
    ∷ e.region
    ∷ e.project
    ∷ e.sku
    ∷ e.resource_id
    ∷ map dimension (sorted_dimensions e.dimensions)

-- Each part after a zero byte.
unfoldable pub joined : List Text → Text
joined [] = []
joined (p ∷ ps) = 0 ∷ (p ++ joined ps)

unfoldable pub identity : Stamp → Event → Text
unfolding parts joined
identity k e = schema_version_text ++ joined (parts k e)

-- DeriveID; `sum` gives the 64 hexadecimal digits, of which 32 count.
unfoldable pub derive_id : Stamp → (Text → Text) → Event → Text
unfolding identity
derive_id k sum e = codes "vb1_" ++ take 32 (sum (identity k e))

abbrev pub between : ℕ → ℕ → ℕ → Bool
between lo hi x = leb lo x && leb x hi

abbrev pub lower_letter : ℕ → Bool
lower_letter = between 97 122

abbrev pub digit : ℕ → Bool
digit = between 48 57

abbrev pub word_byte : ℕ → Bool
word_byte x = lower_letter x || digit x || x == 95

unfoldable pub all : (ℕ → Bool) → Text → Bool
all p [] = true
all p (x ∷ t) = p x && all p t

-- ^[a-z][a-z0-9_]{0,n}$
unfoldable pub is_name : ℕ → Text → Bool
unfolding all
is_name n [] = false
is_name n (x ∷ t) = lower_letter x && all word_byte t && leb (length t) n

abbrev pub id_byte : ℕ → Bool
id_byte x = between 65 90 x || lower_letter x || digit x || x == 46 || x == 95 || x == 58 || x == 45

-- ^[A-Za-z0-9._:\-]{1,100}$
unfoldable pub is_id : Text → Bool
unfolding all
is_id t = all id_byte t && between 1 100 (length t)

unfoldable pub is_amount : Quantity → Bool
is_amount not_a_number = false
is_amount infinite = false
is_amount (positive n) = true
is_amount (negative n) = n == 0

unfoldable pub names_ok : Map Text → Bool
unfolding is_name
names_ok [] = true
names_ok ((k, v) ∷ m) = is_name 63 k && names_ok m

-- Validate: true without an error.
unfoldable pub validate : Event → Bool
unfolding is_id is_name is_amount names_ok
validate e =
    is_id e.id
    && between 1 128 (length e.tenant)
    && is_name 99 e.metric
    && is_amount e.quantity
    && not (e.window_start == 0)
    && not (e.window_end == 0)
    && ltb e.window_start e.window_end
    && names_ok e.dimensions
