-- ===== src/Enforcement/Signals.antt =====
-- How often the enforcer of internal/enforcement/enforcer.go applies a signal.
use vbilling.Prelude.{◌≡◌, ◌∙◌, refl, sym, ap, true, Option, none, some, [], inl, inr}
use vbilling.Prelude.Tests.{Bool-cases, Option-cases}
use vbilling.Prelude.Text.{Text, text_eq, text_eq_refl, lookup}
use vbilling.Destinations.SentCache.{has, has-add}
use vbilling.Enforcement.{
  Signal, Options, Enforcer, Outcome, applied, duplicate, ignored, unknown_customer, invalid,
  unsaved, bad_signature, undecoded, unreflected, override, seen_after, set_state, apply_to,
  resolve, apply,
}

module _ {W : Type 0} (o : Options W) where
  override-id : (sig : Signal) → (override o sig).id ≡ sig.id
  unfolding override
  override-id sig = elim (Option-cases (lookup sig.type o.rules)) [
    | inl q ↦ rw (q, override) refl
    | inr (s, q) ↦ rw (q, override) refl
  ]

  seen_after-has :
      (id : Text) (x : Outcome × Enforcer W) (e : Enforcer W)
      → seen_after o id x ≡ (applied, e)
      → has id e.seen ≡ true
  unfolding seen_after
  seen_after-has id (applied, e) e' h =
      ap (λ (y : Outcome × Enforcer W). has id y.1.seen) (sym h)
      ∙ has-add id id e.seen
      ∙ rw (text_eq_refl id) refl
  seen_after-has id (ignored, e) e' h = cc h
  seen_after-has id (duplicate, e) e' h = cc h
  seen_after-has id (unknown_customer, e) e' h = cc h
  seen_after-has id (invalid, e) e' h = cc h
  seen_after-has id (unsaved, e) e' h = cc h
  seen_after-has id (bad_signature, e) e' h = cc h
  seen_after-has id (undecoded, e) e' h = cc h
  seen_after-has id (unreflected cs, e) e' h = cc h

  apply_to-has :
      (sig s : Signal) (tenant : Option Text) (e e' : Enforcer W)
      → apply_to o sig tenant e ≡ (s, applied, e')
      → has sig.id e'.seen ≡ true
  unfolding apply_to
  apply_to-has sig s none e e' h = cc h
  apply_to-has sig s (some t) e e' h =
      seen_after-has sig.id (set_state o t sig.state sig.reason sig.source sig.type e) e'
        (ap (λ x. (x.1, x.2)) h)

  -- A signal that was applied is a duplicate when it comes again, and then changes nothing.
  pub apply_again :
      (sig s : Signal) (e e' : Enforcer W)
      → apply o sig e ≡ (s, applied, e')
      → apply o sig e' ≡ (override o sig, duplicate, e')
  unfolding apply
  apply_again sig s e e' h =
      let v = override o sig in
      elim (Bool-cases (text_eq v.state [])) [
        | inl b ↦ cc (rw (b, apply) at h)
        | inr b ↦ elim (Bool-cases (has v.id e.seen)) [
          | inl d ↦ cc (rw (b, d, apply) at h)
          | inr d ↦
              let r : resolve o v e ≡ (s, applied, e') = rw (b, d, apply) at h in
              elim (Option-cases (lookup v.source o.resolvers)) [
                | inl q ↦ cc (rw (q, resolve) at r)
                | inr (f, q) ↦
                    let x = f v.customer_id e.world in
                    let seen =
                      apply_to-has v s x.0 (record e { world = x.1 }) e' (rw (q, resolve) at r) in
                    rw (b, apply) (rw seen refl)
              ]
        ]
      ]
