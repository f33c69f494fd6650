-- ===== src/Examples/WebhookRuns.antt =====
-- Webhook signatures with a stand-in for HMAC-SHA256 and for decimal numbers.
use vbilling.Prelude.{
  ℕ, zero, suc, ◌≡◌, ◌≢◌, ◌+◌, ◌*◌, refl, ap, none, some, List, [], ◌∷◌, arith, inl,
}
use vbilling.Prelude.Lists.{length, All, replicate, length-replicate}
use vbilling.Prelude.Text.{Text, codes, text_eq, insert}
use vbilling.Usage.{Time, unix_epoch}
use vbilling.Destinations.Signatures.{Int64, plus, minus, HexDigit, Signing, trim_space, split, cut}
use vbilling.Enforcement.{Options, suspended, valid, invalid}
use vbilling.Enforcement.Webhooks.{add_rule, rules_of, parse_rules, handle_stripe, handle_metronome}
use vbilling.Enforcement.Webhooks.Valid.{handle-Valid}
use vbilling.Examples.EnforcementRuns.{options, enforcer}
use vbilling.Destinations.StripeWebhook.{
  verify_signature, signature_header, verify_signature-signature_header,
}
use vbilling.Destinations.MetronomeWebhook.{verify_signature-sign}
use vbilling.Destinations.MetronomeWebhook as Metronome

zeros : ℕ → Text
zeros n = replicate n 48

replicate-HexDigit : (n : ℕ) → All HexDigit (replicate n 48)
replicate-HexDigit zero = tt
replicate-HexDigit (suc n) = (inl (omega arith, omega arith), replicate-HexDigit n)

format : Int64 → Text
format (plus n) = zeros n
format (minus n) = 45 ∷ zeros n

signing : Signing
unfolding format zeros
signing = record {
  mac = λ secret b. zeros 64;
  format_int = format;
  parse_int = λ t. some (plus (length t));
  mac_length = λ secret b. length-replicate {A = ℕ} 64 48;
  mac-HexDigit = λ secret b. replicate-HexDigit 64;
  format_int-HexDigit = λ n y. replicate-HexDigit n;
  parse_int-format_int = λ n y. ap (λ k. some (plus k)) (length-replicate {A = ℕ} n 48);
}

abbrev sent : Time
sent = unix_epoch + 60 * 1000000000

abbrev payload : Text
payload = codes "{}"

verify_signature-signature_header_example :
    verify_signature signing payload
      (signature_header signing payload (codes "secret") sent)
      (codes "secret")
      (300 * 1000000000)
      (sent + 1000000000)
    ≡ none
verify_signature-signature_header_example =
    verify_signature-signature_header signing payload (codes "secret") (300 * 1000000000)
      (sent + 1000000000) sent (λ e. cc e) (omega arith) (omega arith) (omega arith) (omega arith)

verify_signature-sign_example :
    Metronome.verify_signature signing
      (λ d. some sent)
      payload
      (codes "date")
      (Metronome.sign signing (λ d. some sent) payload (codes "date") (codes "secret"))
      (codes "secret")
      (300 * 1000000000)
      (sent + 1000000000)
    ≡ none
verify_signature-sign_example =
    verify_signature-sign signing (λ d. some sent) payload (codes "date") (codes "secret")
      (300 * 1000000000) (sent + 1000000000) sent (λ e. cc e) (λ e. cc e) refl (omega arith)
      (omega arith)

ruled : Options (List Text)
ruled = record options { rules = (codes "a.b", suspended) ∷ [] }

accepted : parse_rules (codes "a.b=suspended") ≡ some ruled.rules
unfolding ruled parse_rules split trim_space cut valid text_eq insert add_rule rules_of
accepted = refl

handle-Valid_example :
    ((handle_stripe signing ruled (codes "s") (λ b. none) payload [] enforcer).1 ≢ invalid)
    × ((handle_metronome signing ruled (codes "m") (λ d. none) (λ b. none) payload [] [] enforcer).1
        ≢ invalid)
handle-Valid_example =
    handle-Valid ruled signing (codes "a.b=suspended") (codes "s") (codes "m") (λ b. none)
      (λ d. none) (λ b. none) payload [] [] [] enforcer accepted
