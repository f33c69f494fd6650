-- ===== src/Destinations/StripeWebhook.antt =====
-- internal/destinations/stripe/webhook.go: VerifySignature, SignatureHeader and sign.
use vbilling.Prelude.{
  ℕ, ◌+◌, ◌*◌, ◌-◌, ◌/◌, ◌≤◌, ◌<◌, ◌≡◌, ◌≢◌, ◌∙◌, refl, ap, Bool, true, false, ◌&&◌, ◌||◌, Option,
  none, some, List, [], ◌∷◌, ◌++◌, arith,
}
use vbilling.Prelude.Tests.{ltb, ◌==◌, if◌then◌else◌}
use vbilling.Prelude.Lists.{All, All-mono}
use vbilling.Prelude.Text.{Text, codes, text_eq, text_eq_refl, text_eq_other, member}
use vbilling.Usage.{Time, Duration, unix_epoch}
use vbilling.Spool.Codec.{Bytes}
use vbilling.Spool.Ingest.{second}
use vbilling.Destinations.Signatures.{
  Int64, int64_end, plus, minus, HexDigit, Signing, trim_space, split, cut, NotSpace,
  HexDigit-NotSpace, trim_space_none, split_none, split-append,
}

-- Why VerifySignature refuses.
pub data Refusal : Type 0 where
  unconfigured bad_timestamp missing outside mismatch : Refusal

abbrev comma : ℕ
comma = 44

abbrev equals : ℕ
equals = 61

-- time.Unix(ts, 0) is further than `tolerance` from `now`.
unfoldable pub is_outside : Duration → Time → Int64 → Bool
is_outside tolerance now (plus n) =
    let t = unix_epoch + n * second in ltb (t + tolerance) now || ltb (now + tolerance) t
is_outside tolerance now (minus n) =
    let later = now + n * second in
    ltb (unix_epoch + tolerance) later || ltb (later + tolerance) unix_epoch

le→ltb : (a b : ℕ) → a ≤ b → ltb b a ≡ false
le→ltb a b h = ground arith

is_zero : Int64 → Bool
is_zero (plus n) = n == 0
is_zero (minus n) = n == 0

is_empty : List Text → Bool
is_empty [] = true
is_empty (s ∷ ss) = false

module _ (c : Signing) where
  unfoldable pub sign : Bytes → Text → Int64 → Text
  sign payload secret ts = c.mac secret (c.format_int ts ++ codes "." ++ payload)

  pub record Parts : Type 0 where
    pub ts : Int64
    pub sigs : List Text

  read_part : Text → Text → Parts → Option Parts
  unfolding text_eq
  read_part k v p =
      if text_eq k (codes "t")
      then elim (c.parse_int v) [ none ↦ none | some n ↦ some (record p { ts = n }) ]
      else if text_eq k (codes "v1")
      then some (record p { sigs = p.sigs ++ v ∷ [] })
      else some p

  -- The loop over the parts of the header.
  unfoldable pub read_header : List Text → Parts → Option Parts
  unfolding read_part
  read_header [] p = some p
  read_header (x ∷ xs) p = elim (cut equals (trim_space x)) [
    | none ↦ read_header xs p
    | some (k, v) ↦ elim (read_part k v p) [ none ↦ none | some q ↦ read_header xs q ]
  ]

  check : Bytes → Text → Duration → Time → Parts → Option Refusal
  unfolding is_outside is_zero is_empty
  check payload secret tolerance now p =
      if is_zero p.ts || is_empty p.sigs
      then some missing
      else if ltb 0 tolerance && is_outside tolerance now p.ts
      then some outside
      else if member (sign payload secret p.ts) p.sigs
      then none
      else some mismatch

  abbrev no_parts : Parts
  no_parts = record { ts = plus 0; sigs = [] }

  -- VerifySignature; `none` is no error.
  unfoldable pub verify_signature : Bytes → Text → Text → Duration → Time → Option Refusal
  unfolding text_eq split read_header check
  verify_signature payload header secret tolerance now =
      if text_eq secret []
      then some unconfigured
      else elim (read_header (split comma header) no_parts) [
        | none ↦ some bad_timestamp
        | some p ↦ check payload secret tolerance now p
      ]

  -- t.Unix(), for a time since 1970.
  unix : Time → Int64
  unix t = plus ((t - unix_epoch) / second)

  unfoldable pub signature_header : Bytes → Text → Time → Text
  unfolding unix sign
  signature_header payload secret t =
      (codes "t=" ++ c.format_int (unix t)) ++ comma ∷ (codes "v1=" ++ sign payload secret (unix t))

  hex-NotSpace : (t : Text) → All HexDigit t → All NotSpace t
  hex-NotSpace t h = All-mono t HexDigit-NotSpace h

  hex-comma : (t : Text) → All HexDigit t → All (λ x. x ≢ comma) t
  hex-comma t h = All-mono t (λ x d. ground arith) h

  read_header_cons :
      (x : Text) (xs : List Text) (k v : Text) (p q : Parts)
      → cut equals (trim_space x) ≡ some (k, v)
      → read_part k v p ≡ some q
      → read_header (x ∷ xs) p ≡ read_header xs q
  unfolding read_header
  read_header_cons x xs k v p q h r = rw (h, read_header) (rw r refl)

  -- A header that SignatureHeader builds splits into its two parts.
  read_signature_header :
      (payload : Bytes) (secret : Text) (t : Time)
      → (t - unix_epoch) / second < int64_end
      → read_header (split comma (signature_header payload secret t)) no_parts
        ≡ some (record { ts = unix t; sigs = sign payload secret (unix t) ∷ [] })
  unfolding signature_header read_header read_part cut text_eq unix sign
  read_signature_header payload secret t y =
      let n = (t - unix_epoch) / second in
      let d = c.format_int (plus n) in
      let m = c.mac secret (d ++ codes "." ++ payload) in
      let hd = c.format_int-HexDigit n y in
      let hm = c.mac-HexDigit secret (d ++ codes "." ++ payload) in
      let first = codes "t=" ++ d in
      let last = codes "v1=" ++ m in
      let parts : split comma (first ++ comma ∷ last) ≡ first ∷ last ∷ [] =
        split-append comma first last (omega arith, (omega arith, hex-comma d hd))
        ∙ ap (λ l. first ∷ l)
            (split_none comma last (omega arith, (omega arith, (omega arith, hex-comma m hm)))) in
      let q : Parts = record { ts = plus n; sigs = [] } in
      ap (λ l. read_header l no_parts) parts
      ∙ read_header_cons first (last ∷ []) (codes "t") d no_parts q
          (ap (cut equals) (trim_space_none first (refl, (refl, hex-NotSpace d hd))))
          (rw (c.parse_int-format_int n y) refl)
      ∙ read_header_cons last [] (codes "v1") m q (record q { sigs = m ∷ [] })
          (ap (cut equals) (trim_space_none last (refl, (refl, (refl, hex-NotSpace m hm))))) refl

  not_outside :
      (tolerance now n : ℕ)
      → now ≤ unix_epoch + n * second + tolerance
      → unix_epoch + n * second ≤ now + tolerance
      → is_outside tolerance now (plus n) ≡ false
  unfolding is_outside
  not_outside tolerance now n a b =
      rw (le→ltb now (unix_epoch + n * second + tolerance) a)
        (le→ltb (unix_epoch + n * second) (now + tolerance) b)

  some_second : (n : ℕ) → 0 < n → is_zero (plus n) ≡ false
  unfolding is_zero
  some_second n h = ground arith

  rounded : (x : ℕ) → (x / second * second ≤ x) × (x < x / second * second + second)
  rounded x = (omega arith, omega arith)

  within :
      (tolerance : Duration) (now t : Time)
      → unix_epoch + second ≤ t
      → t ≤ now
      → now + second ≤ t + tolerance
      → (is_zero (unix t) ≡ false) × (is_outside tolerance now (unix t) ≡ false)
  unfolding unix
  within tolerance now t a b d =
      let n = (t - unix_epoch) / second in
      let (low, high) = rounded (t - unix_epoch) in
      (
        some_second n (omega (arith, high, a)),
        not_outside tolerance now n (omega (arith, high, a, d)) (omega (arith, low, a, b)),
      )

  check_signed :
      (payload : Bytes) (secret : Text) (tolerance : Duration) (now : Time) (ts : Int64)
      → is_zero ts ≡ false
      → is_outside tolerance now ts ≡ false
      → check payload secret tolerance now (record { ts = ts; sigs = sign payload secret ts ∷ [] })
        ≡ none
  unfolding check is_empty member
  check_signed payload secret tolerance now ts z out =
      ground (arith, z, out, text_eq_refl (sign payload secret ts))

  -- VerifySignature accepts what SignatureHeader signs with the same secret, for as long as the
  -- tolerance lasts, less the second that the timestamp is rounded to, from a second after 1970 began
  -- until Unix() no longer fits an int64.
  pub verify_signature-signature_header :
      (payload : Bytes) (secret : Text) (tolerance : Duration) (now t : Time)
      → secret ≢ []
      → (t - unix_epoch) / second < int64_end
      → unix_epoch + second ≤ t
      → t ≤ now
      → now + second ≤ t + tolerance
      → verify_signature payload (signature_header payload secret t) secret tolerance now ≡ none
  unfolding verify_signature
  verify_signature-signature_header payload secret tolerance now t s y a b d =
      let (z, out) = within tolerance now t a b d in
      rw (text_eq_other secret [] s) (
        rw (read_signature_header payload secret t y)
          (check_signed payload secret tolerance now (unix t) z out))
