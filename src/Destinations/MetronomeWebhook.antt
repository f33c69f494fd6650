-- ===== src/Destinations/MetronomeWebhook.antt =====
-- internal/destinations/metronome/webhook.go: VerifySignature and Sign.
use vbilling.Prelude.{
  ℕ, ◌+◌, ◌≤◌, ◌≡◌, ◌≢◌, ◌∙◌, inl, inr, refl, ap, false, ◌&&◌, ◌||◌, Option, none, some, [], ◌∷◌,
  ◌++◌, arith, map,
}
use vbilling.Prelude.Tests.{ltb, leb, if◌then◌else◌, Bool-cases}
use vbilling.Prelude.Lists.{length, All, All-mono}
use vbilling.Prelude.Text.{Text, text_eq, text_eq_refl, text_eq_other}
use vbilling.Usage.{Time, Duration}
use vbilling.Spool.Codec.{Bytes}
use vbilling.Destinations.Signatures.{
  HexDigit, Signing, trim_space, HexDigit-NotSpace, trim_space_none,
}

pub data Refusal : Type 0 where
  unconfigured missing bad_date outside mismatch : Refusal

abbrev lower_byte : ℕ → ℕ
lower_byte x = if leb 65 x && leb x 90 then x + 32 else x

-- strings.ToLower
unfoldable to_lower : Text → Text
to_lower = map lower_byte

abbrev newline : ℕ
newline = 10

-- `parse_time` is http.ParseTime.
module _ (c : Signing) (parse_time : Text → Option Time) where
  unfoldable pub sign : Bytes → Text → Text → Text
  sign body date secret = c.mac secret (date ++ newline ∷ body)

  check_mac : Bytes → Text → Text → Text → Option Refusal
  unfolding text_eq sign to_lower trim_space
  check_mac body date signature secret =
      if text_eq (sign body date secret) (to_lower (trim_space signature))
      then none
      else some mismatch

  check_date : Duration → Time → Text → Option Refusal
  check_date tolerance now date =
      if ltb 0 tolerance
      then elim (parse_time date) [
        | none ↦ some bad_date
        | some sent ↦
            if ltb (sent + tolerance) now || ltb (now + tolerance) sent then some outside else none
      ]
      else none

  -- VerifySignature; `none` is no error.
  unfoldable pub verify_signature : Bytes → Text → Text → Text → Duration → Time → Option Refusal
  unfolding text_eq check_date check_mac
  verify_signature body date signature secret tolerance now =
      if text_eq secret []
      then some unconfigured
      else if text_eq date [] || text_eq signature []
      then some missing
      else elim (check_date tolerance now date) [
        | some e ↦ some e
        | none ↦ check_mac body date signature secret
      ]

  to_lower-HexDigit : (t : Text) → All HexDigit t → to_lower t ≡ t
  unfolding to_lower
  to_lower-HexDigit [] h = refl
  to_lower-HexDigit (x ∷ t) h =
      let e : lower_byte x ≡ x = ground (arith, h.0) in
      ap (λ y. y ∷ to_lower t) e ∙ ap (λ u. x ∷ u) (to_lower-HexDigit t h.1)

  mac_some : (secret : Text) (b : Bytes) → text_eq (c.mac secret b) [] ≡ false
  mac_some secret b =
      text_eq_other (c.mac secret b) []
        (λ e. omega (arith, ap (λ (t : Text). length t) e, c.mac_length secret b))

  within :
      (tolerance : Duration) (now sent : Time) (date : Text)
      → parse_time date ≡ some sent
      → now ≤ sent + tolerance
      → sent ≤ now + tolerance
      → check_date tolerance now date ≡ none
  unfolding check_date
  within tolerance now sent date p a b = elim (Bool-cases (ltb 0 tolerance)) [
    | inr z ↦ rw z refl
    | inl z ↦ rw z (rw p (ground arith))
  ]

  check_mac-sign :
      (body : Bytes) (date secret : Text)
      → check_mac body date (sign body date secret) secret ≡ none
  unfolding check_mac sign
  check_mac-sign body date secret =
      let m = c.mac secret (date ++ newline ∷ body) in
      let hm = c.mac-HexDigit secret (date ++ newline ∷ body) in
      rw
        (
          trim_space_none m (All-mono m HexDigit-NotSpace hm),
          to_lower-HexDigit m hm,
          text_eq_refl m,
        )
        refl

  -- VerifySignature accepts what Sign gives for the same body, date and secret, as long as the date is
  -- no further from now than the tolerance.
  pub verify_signature-sign :
      (body : Bytes) (date secret : Text) (tolerance : Duration) (now sent : Time)
      → secret ≢ []
      → date ≢ []
      → parse_time date ≡ some sent
      → now ≤ sent + tolerance
      → sent ≤ now + tolerance
      → verify_signature body date (sign body date secret) secret tolerance now ≡ none
  unfolding verify_signature
  verify_signature-sign body date secret tolerance now sent s d p a b =
      let fresh : check_date tolerance now date ≡ none = within tolerance now sent date p a b in
      let signed : text_eq (sign body date secret) [] ≡ false =
        unfold sign in mac_some secret (date ++ newline ∷ body) in
      rw (text_eq_other secret [] s, text_eq_other date [] d)
        (rw signed (rw fresh (check_mac-sign body date secret)))
