-- ===== src/Enforcement/Webhooks.antt =====
-- HandleStripe, HandleMetronome and ParseRules of internal/enforcement/enforcer.go. The decoding of
-- the JSON body is a parameter; an unknown type of event leaves the state "".
pub mod Valid
use vbilling.Prelude.{
  ℕ, ◌*◌, Bool, true, false, not, ◌&&◌, ◌||◌, Option, none, some, List, [], ◌∷◌, ◌++◌, map,
}
use vbilling.Prelude.Tests.{◌==◌, if◌then◌else◌}
use vbilling.Prelude.Text.{Text, Map, codes, text_eq, lookup, insert, member}
use vbilling.Usage.{Time, Duration}
use vbilling.Spool.Codec.{Bytes}
use vbilling.Kv.{cut_prefix}
use vbilling.Destinations.Signatures.{Int64, Signing, trim_space, split, cut}
use vbilling.Destinations.StripeWebhook as Stripe
use vbilling.Destinations.MetronomeWebhook as Metronome
use vbilling.Enforcement.{
  active, warning, delinquent, suspended, valid, Signal, Options, Enforcer, Outcome, bad_signature,
  undecoded, apply,
}

unfoldable pub add_rule : Text → Map Text → Option (Map Text)
unfolding cut trim_space valid
add_rule item out = elim (cut 61 item) [
  | none ↦ none
  | some (k, v) ↦ if valid v then some (insert (trim_space k) (trim_space v) out) else none
]

-- ParseRules's loop over the items.
unfoldable pub rules_of : List Text → Map Text → Option (Map Text)
unfolding add_rule trim_space text_eq
rules_of [] out = some out
rules_of (x ∷ xs) out =
    let item = trim_space x in
    let skipped = rules_of xs out in
    if text_eq item []
    then skipped
    else elim (add_rule item out) [ none ↦ none | some out' ↦ rules_of xs out' ]

-- ParseRules
unfoldable pub parse_rules : Text → Option (Map Text)
unfolding rules_of split
parse_rules spec = rules_of (split 44 spec) []

-- DefaultTolerance of both engines, five minutes.
abbrev default_tolerance : Duration
default_tolerance = 5 * 60 * 1000000000

abbrev no_signal : Signal
no_signal = record {
  id = [];
  source = [];
  type = [];
  customer_id = [];
  tenant = [];
  state = [];
  reason = [];
  at = 0;
}

pub record StripeEvent : Type 0 where
  pub id : Text
  pub type : Text
  pub customer : Text
  pub status : Text
  pub attempt_count : Int64

unfoldable pub subscription_state : Text → Text
unfolding text_eq member
subscription_state status =
    if text_eq status (codes "past_due")
    then delinquent
    else if member status (codes "unpaid" ∷ codes "canceled" ∷ codes "incomplete_expired" ∷ [])
    then suspended
    else if member status (codes "active" ∷ codes "trialing" ∷ [])
    then active
    else []

-- The state and the reason.
unfoldable pub stripe_state : Signing → StripeEvent → Text × Text
unfolding subscription_state text_eq member
stripe_state c ev =
    if text_eq ev.type (codes "invoice.payment_failed")
    then (
      delinquent,
      codes "invoice payment failed (attempt " ++ c.format_int ev.attempt_count ++ codes ")",
    )
    else if member ev.type (codes "invoice.paid" ∷ codes "invoice.payment_succeeded" ∷ [])
    then (active, codes "invoice paid")
    else if member ev.type (
        codes "customer.subscription.created"
        ∷ codes "customer.subscription.updated"
        ∷ codes "customer.subscription.resumed"
        ∷ [])
    then (subscription_state ev.status, codes "subscription " ++ ev.status)
    else if text_eq ev.type (codes "customer.subscription.deleted")
    then (suspended, codes "subscription deleted")
    else if text_eq ev.type (codes "billing.alert.triggered")
    then (warning, codes "usage alert triggered")
    else ([], [])

-- A JSON value of which only strings are read.
pub data Property : Type 0 where
  text : Text → Property
  other : Property

pub record MetronomeEvent : Type 0 where
  pub id : Text
  pub type : Text
  pub customer_id : Text
  pub properties : Map Property

-- A property that is a string and not empty, or else `d`.
named_or : Text → Text → Map Property → Text
unfolding lookup
named_or d k m = elim (lookup k m) [
  | none ↦ d
  | some p ↦ elim p [ other ↦ d | text [] ↦ d | text (x ∷ t) ↦ x ∷ t ]
]

-- strings.ReplaceAll(…, "_", " ")
spaced : Text → Text
spaced = map (λ x. if x == 95 then 32 else x)

unfoldable pub payment_state : Map Property → Text × Text
unfolding named_or text_eq
payment_state m =
    let s = named_or [] (codes "payment_status") m in
    if text_eq s (codes "failed")
    then (delinquent, codes "threshold billing payment failed")
    else if text_eq s (codes "paid")
    then (active, codes "threshold billing payment succeeded")
    else ([], [])

unfoldable pub metronome_state : MetronomeEvent → Text × Text
unfolding cut_prefix named_or spaced payment_state text_eq
metronome_state ev = elim (cut_prefix (codes "alerts.") ev.type) [
  | some alert ↦ (warning, named_or (spaced alert) (codes "alert_name") ev.properties)
  | none ↦
      if text_eq ev.type (codes "payment_gate.payment_status")
      then payment_state ev.properties
      else ([], [])
]

module _ {W : Type 0} (c : Signing) (o : Options W) (secret : Text) where
  unfoldable pub stripe_signal : StripeEvent → Time → Signal
  unfolding stripe_state
  stripe_signal ev now =
      let (state, reason) = stripe_state c ev in
      record {
        id = codes "stripe:" ++ ev.id;
        source = codes "stripe";
        type = ev.type;
        customer_id = ev.customer;
        tenant = [];
        state = state;
        reason = reason;
        at = now;
      }

  -- HandleStripe
  unfoldable pub handle_stripe :
      (Bytes → Option StripeEvent) → Bytes → Text → Enforcer W → Signal × Outcome × Enforcer W
  unfolding stripe_signal apply
  handle_stripe decode body header e =
      let now = o.now e.world in
      elim (Stripe.verify_signature c body header secret default_tolerance now) [
        | some r ↦ (no_signal, bad_signature, e)
        | none ↦ elim (decode body) [
          | none ↦ (no_signal, undecoded, e)
          | some ev ↦ apply o (stripe_signal ev now) e
        ]
      ]

  unfoldable pub metronome_signal : MetronomeEvent → Time → Signal
  unfolding metronome_state named_or
  metronome_signal ev now =
      let (state, reason) = metronome_state ev in
      record {
        id = codes "metronome:" ++ ev.id;
        source = codes "metronome";
        type = ev.type;
        customer_id = named_or ev.customer_id (codes "customer_id") ev.properties;
        tenant = [];
        state = state;
        reason = reason;
        at = now;
      }

  -- HandleMetronome
  unfoldable pub handle_metronome :
      (Text → Option Time)
      → (Bytes → Option MetronomeEvent)
      → Bytes
      → Text
      → Text
      → Enforcer W
      → Signal × Outcome × Enforcer W
  unfolding metronome_signal apply
  handle_metronome parse_time decode body date signature e =
      let now = o.now e.world in
      elim (Metronome.verify_signature c parse_time body date signature secret default_tolerance
        now) [
          | some r ↦ (no_signal, bad_signature, e)
          | none ↦ elim (decode body) [
            | none ↦ (no_signal, undecoded, e)
            | some ev ↦ apply o (metronome_signal ev now) e
          ]
        ]
