-- ===== src/Enforcement/Webhooks/Valid.antt =====
-- Which states the webhooks of internal/enforcement/enforcer.go can set.
use mathlib.Core.Option.{some-injective}
use vbilling.Prelude.{
  ◌≡◌, ◌≢◌, ◌∙◌, refl, sym, ap, subst, true, ◌||◌, Option, none, some, List, [], ◌∷◌, arith, inl,
  inr,
}
use vbilling.Prelude.Tests.{if◌then◌else◌, Bool-cases, Option-cases}
use vbilling.Prelude.Text.{Text, Map, codes, text_eq, text_eq_iff, lookup, insert, member}
use vbilling.Prelude.Maps.{lookup-insert}
use vbilling.Usage.{Time}
use vbilling.Spool.Codec.{Bytes}
use vbilling.Destinations.SentCache.{has}
use vbilling.Destinations.Signatures.{Signing, trim_space, split, cut}
use vbilling.Destinations.StripeWebhook as Stripe
use vbilling.Destinations.MetronomeWebhook as Metronome
use vbilling.Kv.{cut_prefix}
use vbilling.Enforcement.{
  active, warning, delinquent, suspended, observe, valid, Cluster, TenantState, Signal, Options,
  Enforcer, Outcome, applied, ignored, duplicate, unknown_customer, invalid, unsaved, bad_signature,
  undecoded, unreflected, outcome_of, reflect_each, reflect_all, next_state, keep, set_state,
  override, seen_after, apply_to, resolve, apply,
}
use vbilling.Enforcement.Webhooks.{
  add_rule, rules_of, parse_rules, StripeEvent, MetronomeEvent, Property, subscription_state,
  stripe_state, payment_state, metronome_state, stripe_signal, metronome_signal, handle_stripe,
  handle_metronome,
}

abbrev pub AllValid : Map Text → Type 0
AllValid m = (k v : Text) → lookup k m ≡ some v → valid v ≡ true

trimmed :
    (v w : Text) → text_eq v w ≡ true → valid (trim_space w) ≡ true → valid (trim_space v) ≡ true
trimmed v w b h = subst (λ x. valid (trim_space x) ≡ true) (sym ((text_eq_iff v w).0 b)) h

Valid-trim_space : (v : Text) → valid v ≡ true → valid (trim_space v) ≡ true
unfolding valid text_eq trim_space
Valid-trim_space v h = elim (Bool-cases (text_eq v active)) [
  | inl b ↦ trimmed v active b refl
  | inr a ↦ elim (Bool-cases (text_eq v warning)) [
    | inl b ↦ trimmed v warning b refl
    | inr w ↦ elim (Bool-cases (text_eq v delinquent)) [
      | inl b ↦ trimmed v delinquent b refl
      | inr d ↦ elim (Bool-cases (text_eq v suspended)) [
        | inl b ↦ trimmed v suspended b refl
        | inr s ↦ cc (rw (a, w, d, s, valid) at h)
      ]
    ]
  ]
]

add_rule-AllValid :
    (item : Text) (out out' : Map Text)
    → AllValid out
    → add_rule item out ≡ some out'
    → AllValid out'
unfolding add_rule
add_rule-AllValid item out out' h e k v q = elim (Option-cases (cut 61 item)) [
  | inl n ↦ cc (rw (n, add_rule) at e)
  | inr ((i, w), n) ↦ elim (Bool-cases (valid w)) [
    | inr b ↦ cc (rw (n, b, add_rule) at e)
    | inl b ↦
        let new : insert (trim_space i) (trim_space w) out ≡ out' =
          some-injective _ _ (rw (n, b, add_rule) at e) in
        let l : (if text_eq (trim_space i) k then some (trim_space w) else lookup k out) ≡ some v =
          sym (lookup-insert (trim_space i) k (trim_space w) out) ∙ ap (lookup k) new ∙ q in
        elim (Bool-cases (text_eq (trim_space i) k)) [
          | inl m ↦
              subst (λ x. valid x ≡ true) (some-injective _ _ (rw m at l)) (Valid-trim_space w b)
          | inr m ↦ h k v (rw m at l)
        ]
  ]
]

rules_of-AllValid :
    (xs : List Text) (out rules : Map Text)
    → AllValid out
    → rules_of xs out ≡ some rules
    → AllValid rules
unfolding rules_of
rules_of-AllValid [] out rules h e = subst AllValid (some-injective _ _ e) h
rules_of-AllValid (x ∷ xs) out rules h e = elim (Bool-cases (text_eq (trim_space x) [])) [
  | inl b ↦ rules_of-AllValid xs out rules h (rw (b, rules_of) at e)
  | inr b ↦ elim (Option-cases (add_rule (trim_space x) out)) [
    | inl n ↦ cc (rw (b, n, rules_of) at e)
    | inr (out', n) ↦
        rules_of-AllValid xs out' rules (add_rule-AllValid (trim_space x) out out' h n)
          (rw (b, n, rules_of) at e)
  ]
]

parse_rules-AllValid :
    (spec : Text) (rules : Map Text) → parse_rules spec ≡ some rules → AllValid rules
unfolding parse_rules lookup
parse_rules-AllValid spec rules e = rules_of-AllValid (split 44 spec) [] rules (λ k v q. cc q) e

-- The zero value or a state.
abbrev Known : Text → Type 0
Known s = (text_eq s [] || valid s) ≡ true

abbrev KnownState : Text × Text → Type 0
KnownState p = Known p.0

subscription_state-Known : (s : Text) → Known (subscription_state s)
unfolding valid text_eq subscription_state
subscription_state-Known s =
    let unpaid = member s (codes "unpaid" ∷ codes "canceled" ∷ codes "incomplete_expired" ∷ []) in
    let paid = member s (codes "active" ∷ codes "trialing" ∷ []) in
    elim (Bool-cases (text_eq s (codes "past_due"))) [
      | inl b ↦ rw (b, subscription_state) refl
      | inr a ↦ elim (Bool-cases unpaid) [
        | inl b ↦ rw (a, b, subscription_state) refl
        | inr u ↦ elim (Bool-cases paid) [
          | inl b ↦ rw (a, u, b, subscription_state) refl
          | inr b ↦ rw (a, u, b, subscription_state) refl
        ]
      ]
    ]

stripe_state-Known : (c : Signing) (ev : StripeEvent) → KnownState (stripe_state c ev)
unfolding valid text_eq stripe_state
stripe_state-Known c ev =
    let paid = member ev.type (codes "invoice.paid" ∷ codes "invoice.payment_succeeded" ∷ []) in
    let changed = member ev.type (
      codes "customer.subscription.created"
      ∷ codes "customer.subscription.updated"
      ∷ codes "customer.subscription.resumed"
      ∷ []) in
    elim (Bool-cases (text_eq ev.type (codes "invoice.payment_failed"))) [
      | inl b ↦ rw (b, stripe_state) refl
      | inr a ↦ elim (Bool-cases paid) [
        | inl b ↦ rw (a, b, stripe_state) refl
        | inr p ↦ elim (Bool-cases changed) [
          | inl b ↦ rw (a, p, b, stripe_state) (subscription_state-Known ev.status)
          | inr c ↦ elim (Bool-cases (text_eq ev.type (codes "customer.subscription.deleted"))) [
            | inl b ↦ rw (a, p, c, b, stripe_state) refl
            | inr d ↦ elim (Bool-cases (text_eq ev.type (codes "billing.alert.triggered"))) [
              | inl b ↦ rw (a, p, c, d, b, stripe_state) refl
              | inr b ↦ rw (a, p, c, d, b, stripe_state) refl
            ]
          ]
        ]
      ]
    ]

payment_state-Known : (m : Map Property) → KnownState (payment_state m)
unfolding payment_state valid text_eq
payment_state-Known m = ground arith

metronome_state-Known : (ev : MetronomeEvent) → KnownState (metronome_state ev)
unfolding metronome_state valid text_eq
metronome_state-Known ev = elim (Option-cases (cut_prefix (codes "alerts.") ev.type)) [
  | inr (a, q) ↦ rw (q, metronome_state) refl
  | inl q ↦ rw (q, metronome_state) (ground (arith, payment_state-Known ev.properties))
]

module _ {W : Type 0} (o : Options W) where
  outcome_of-Valid : (bad : List Cluster) → outcome_of o bad ≢ invalid
  unfolding outcome_of
  outcome_of-Valid [] = λ e. cc e
  outcome_of-Valid (c ∷ cs) = λ e. cc e

  reflect_all-Valid : (t : TenantState) (e : Enforcer W) → (reflect_all o t e).0 ≢ invalid
  unfolding reflect_all
  reflect_all-Valid t e = elim (Option-cases o.kube) [
    | inl q ↦ rw (q, reflect_all) (λ x. cc x)
    | inr (k, q) ↦ elim (Option-cases o.clusters) [
      | inl r ↦ rw (q, reflect_all) (rw r (λ x. cc x))
      | inr (f, r) ↦
          let bad = (reflect_each o k t (f t.tenant e.world) e.world).0 in
          elim (Bool-cases (text_eq o.mode observe)) [
            | inl b ↦ rw (q, reflect_all) (rw r (rw b (λ x. cc x)))
            | inr b ↦ rw (q, reflect_all) (rw r (rw b (outcome_of-Valid bad)))
          ]
    ]
  ]

  set_state-Valid :
      (tenant state reason source event_type : Text) (e : Enforcer W)
      → valid state ≡ true
      → (set_state o tenant state reason source event_type e).0 ≢ invalid
  unfolding set_state
  set_state-Valid tenant state reason source event_type e v =
      let t = next_state o tenant state reason source event_type e in
      let k = keep o t e in
      elim (Bool-cases k.0) [
        | inr b ↦ rw (v, set_state) (rw b (λ x. cc x))
        | inl b ↦ rw (v, set_state) (rw b (reflect_all-Valid t k.1))
      ]

  seen_after-Valid :
      (id : Text) (x : Outcome × Enforcer W) → x.0 ≢ invalid → (seen_after o id x).0 ≢ invalid
  unfolding seen_after
  seen_after-Valid id (applied, e) h = λ x. cc x
  seen_after-Valid id (ignored, e) h = λ x. cc x
  seen_after-Valid id (duplicate, e) h = λ x. cc x
  seen_after-Valid id (unknown_customer, e) h = λ x. cc x
  seen_after-Valid id (invalid, e) h = h
  seen_after-Valid id (unsaved, e) h = λ x. cc x
  seen_after-Valid id (bad_signature, e) h = λ x. cc x
  seen_after-Valid id (undecoded, e) h = λ x. cc x
  seen_after-Valid id (unreflected cs, e) h = λ x. cc x

  apply_to-Valid :
      (sig : Signal) (tenant : Option Text) (e : Enforcer W)
      → valid sig.state ≡ true
      → (apply_to o sig tenant e).1 ≢ invalid
  unfolding apply_to
  apply_to-Valid sig none e v = λ x. cc x
  apply_to-Valid sig (some t) e v =
      seen_after-Valid sig.id (set_state o t sig.state sig.reason sig.source sig.type e)
        (set_state-Valid t sig.state sig.reason sig.source sig.type e v)

  resolve-Valid :
      (sig : Signal) (e : Enforcer W) → valid sig.state ≡ true → (resolve o sig e).1 ≢ invalid
  unfolding resolve
  resolve-Valid sig e v = elim (Option-cases (lookup sig.source o.resolvers)) [
    | inl q ↦ rw (q, resolve) (λ x. cc x)
    | inr (f, q) ↦
        let x = f sig.customer_id e.world in
        rw (q, resolve) (apply_to-Valid sig x.0 (record e { world = x.1 }) v)
  ]

  override-Known :
      (sig : Signal) → AllValid o.rules → Known sig.state → Known (override o sig).state
  unfolding override
  override-Known sig rules k = elim (Option-cases (lookup sig.type o.rules)) [
    | inl q ↦ rw (q, override) k
    | inr (s, q) ↦ rw (q, override) (ground (arith, rules sig.type s q))
  ]

  apply-Valid :
      (sig : Signal) (e : Enforcer W)
      → AllValid o.rules
      → Known sig.state
      → (apply o sig e).1 ≢ invalid
  unfolding apply
  apply-Valid sig e rules k =
      let s = override o sig in
      let known = override-Known sig rules k in
      elim (Bool-cases (text_eq s.state [])) [
        | inl b ↦ rw (b, apply) (λ x. cc x)
        | inr b ↦ elim (Bool-cases (has s.id e.seen)) [
          | inl d ↦ rw (b, apply) (rw d (λ x. cc x))
          | inr d ↦ rw (b, apply) (rw d (resolve-Valid s e (rw b at known)))
        ]
      ]

  handle_stripe-Valid :
      (c : Signing) (secret : Text) (decode : Bytes → Option StripeEvent) (body header : Bytes)
      (e : Enforcer W)
      → AllValid o.rules
      → (handle_stripe c o secret decode body header e).1 ≢ invalid
  unfolding handle_stripe stripe_signal
  handle_stripe-Valid c secret decode body header e rules =
      let now = o.now e.world in
      elim (Option-cases (Stripe.verify_signature c body header secret 300000000000 now)) [
        | inr (r, q) ↦ rw (q, handle_stripe) (λ x. cc x)
        | inl q ↦ elim (Option-cases (decode body)) [
          | inl d ↦ rw (q, handle_stripe) (rw d (λ x. cc x))
          | inr (ev, d) ↦
              rw (q, handle_stripe)
                (rw d
                  (apply-Valid (stripe_signal c o secret ev now) e rules (stripe_state-Known c ev)))
        ]
      ]

  handle_metronome-Valid :
      (c : Signing) (secret : Text) (parse_time : Text → Option Time)
      (decode : Bytes → Option MetronomeEvent) (body date signature : Bytes) (e : Enforcer W)
      → AllValid o.rules
      → (handle_metronome c o secret parse_time decode body date signature e).1 ≢ invalid
  unfolding handle_metronome metronome_signal
  handle_metronome-Valid c secret parse_time decode body date signature e rules =
      let now = o.now e.world in
      let check =
        Metronome.verify_signature c parse_time body date signature secret 300000000000 now in
      elim (Option-cases check) [
        | inr (r, q) ↦ rw (q, handle_metronome) (λ x. cc x)
        | inl q ↦ elim (Option-cases (decode body)) [
          | inl d ↦ rw (q, handle_metronome) (rw d (λ x. cc x))
          | inr (ev, d) ↦
              rw (q, handle_metronome)
                (rw d (
                  apply-Valid (metronome_signal c o secret ev now) e rules
                    (metronome_state-Known ev)))
        ]
      ]

  -- With rules that ParseRules accepts, no webhook of either engine, whatever it holds, asks for a
  -- state that Set refuses.
  pub handle-Valid :
      (c : Signing) (spec : Text) (secret secret' : Text) (decode : Bytes → Option StripeEvent)
      (parse_time : Text → Option Time) (decode' : Bytes → Option MetronomeEvent)
      (body header date signature : Bytes) (e : Enforcer W)
      → parse_rules spec ≡ some o.rules
      → ((handle_stripe c o secret decode body header e).1 ≢ invalid)
        × ((handle_metronome c o secret' parse_time decode' body date signature e).1 ≢ invalid)
  handle-Valid c spec secret secret' decode parse_time decode' body header date signature e h =
      let rules = parse_rules-AllValid spec o.rules h in
      (
        handle_stripe-Valid c secret decode body header e rules,
        handle_metronome-Valid c secret' parse_time decode' body date signature e rules,
      )
