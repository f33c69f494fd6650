-- ===== src/Pipeline/Deliver/Ends.antt =====
-- How much fuel the bisection of `deliver` needs (internal/pipeline/dispatcher.go).
use vbilling.Prelude.{◌≢◌, subst, ℕ, zero, suc, ◌<◌, ◌≤◌, ◌+◌, ◌/◌, inl, inr, List, [], ◌∷◌, arith}
use vbilling.Prelude.Tests.{Bool-cases, Option-cases}
use vbilling.Prelude.Lists.{length, take, drop, length-take, length-drop}
use vbilling.Prelude.Text.{Text, Map, lookup}
use vbilling.Usage.{Event}
use vbilling.Pipeline.Deliver.{
  Refusal, Setup, Dispatch, Delivery, done, failed, exhausted, ensure_tenants, park, park_rejected,
  second_half, halves, isolate, refused, send, deliver_step, deliver,
}
use vbilling.Pipeline.Deliver.Steps.{Delivery-cases}

abbrev Ended : Delivery → Type 0
Ended (done n) = Unit
Ended (failed f) = Unit
Ended exhausted = ⊥

module _ {W : Type 0} (setup : Setup W) where
  park_rejected-Ended :
      (rejected : Map Text) (es : List Event) (dead : ℕ) (s : Dispatch W)
      → Ended (park_rejected setup rejected es dead s).0
  unfolding park_rejected
  park_rejected-Ended rejected [] dead s = tt
  park_rejected-Ended rejected (e ∷ es) dead s = elim (Option-cases (lookup e.id rejected)) [
    | inl q ↦ rw (q, park_rejected) (park_rejected-Ended rejected es dead s)
    | inr (reason, q) ↦ elim (Bool-cases (park setup e reason s).0) [
      | inl b ↦ rw (q, park_rejected) (rw b (park_rejected-Ended rejected es (dead + 1) _))
      | inr b ↦ rw (q, park_rejected) (rw b tt)
    ]
  ]

  module _ (again : List Event → Dispatch W → Delivery × Dispatch W) (bound : ℕ)
      (shorter : (es : List Event) (s : Dispatch W)
        → 0 < length es
        → length es ≤ bound
        → Ended (again es s).0) where
    second_half-Ended :
        (es : List Event) (a : ℕ) (s : Dispatch W)
        → 0 < length es
        → length es ≤ bound
        → Ended (second_half setup again es a s).0
    unfolding second_half
    second_half-Ended es a s p q = elim (Delivery-cases (again es s).0) [
      | inl (b, r) ↦ rw (r, second_half) tt
      | inr (inl (f, r)) ↦ rw (r, second_half) tt
      | inr (inr r) ↦ elim (rw r at (shorter es s p q)) [ ]
    ]

    halves-Ended :
        (es : List Event) (s : Dispatch W)
        → 1 < length es
        → length es ≤ suc bound
        → Ended (halves setup again es s).0
    unfolding halves
    halves-Ended es s p q =
        let mid = length es / 2 in
        elim (Delivery-cases (again (take mid es) s).0) [
          | inl (b, r) ↦
              rw (r, halves)
                (second_half-Ended (drop mid es) b (again (take mid es) s).1
                  (omega (arith, length-drop mid es)) (omega (arith, length-drop mid es)))
          | inr (inl (f, r)) ↦ rw (r, halves) tt
          | inr (inr r) ↦
              elim (rw r at (
                shorter (take mid es) s (omega (arith, length-take mid es))
                  (omega (arith, length-take mid es)))) [ ]
        ]

    isolate-Ended :
        (x : Refusal) (es : List Event) (s : Dispatch W)
        → 0 < length es
        → length es ≤ suc bound
        → Ended (isolate setup again x es s).0
    unfolding isolate
    isolate-Ended x [] s p q = let c : ⊥ = omega arith in elim c [ ]
    isolate-Ended x (e ∷ []) s p q = elim (Bool-cases (park setup e x.text s).0) [
      | inl b ↦ rw (b, isolate) tt
      | inr b ↦ rw (b, isolate) tt
    ]
    isolate-Ended x (e ∷ f ∷ es) s p q = halves-Ended (e ∷ f ∷ es) s (omega arith) q

    refused-Ended :
        (x : Refusal) (es : List Event) (s : Dispatch W)
        → 0 < length es
        → length es ≤ suc bound
        → Ended (refused setup again x es s).0
    unfolding refused
    refused-Ended x es s p q = elim (Option-cases x.partial) [
      | inr (rejected, r) ↦ rw (r, refused) (park_rejected-Ended rejected es 0 s)
      | inl r ↦ elim (Bool-cases x.permanent) [
        | inl b ↦ rw (r, refused) (rw b (isolate-Ended x es s p q))
        | inr b ↦ rw (r, refused) (rw b tt)
      ]
    ]

    send-Ended :
        (es : List Event) (s : Dispatch W)
        → 0 < length es
        → length es ≤ suc bound
        → Ended (send setup again es s).0
    unfolding send
    send-Ended es s p q = elim (Option-cases (setup.dest.send_events es s.world).0) [
      | inl r ↦ rw (r, send) tt
      | inr (x, r) ↦ rw (r, send) (refused-Ended x es _ p q)
    ]

    deliver_step-Ended :
        (es : List Event) (s : Dispatch W)
        → 0 < length es
        → length es ≤ suc bound
        → Ended (deliver_step setup again es s).0
    unfolding deliver_step
    deliver_step-Ended es s p q = elim (Option-cases (ensure_tenants setup es s).0) [
      | inr (x, r) ↦ rw (r, deliver_step) tt
      | inl r ↦ rw (r, deliver_step) (send-Ended es (ensure_tenants setup es s).1 p q)
    ]

  deliver_lem :
      (fuel : ℕ) (es : List Event) (s : Dispatch W)
      → 0 < length es
      → length es ≤ fuel
      → Ended (deliver setup fuel es s).0
  unfolding deliver
  deliver_lem zero es s p q = let c : ⊥ = omega arith in elim c [ ]
  deliver_lem (suc fuel) es s p q =
      deliver_step-Ended (deliver setup fuel) fuel (deliver_lem fuel) es s p q

  -- On a batch that is not empty `deliver` returns: its length is enough fuel, however the
  -- destination answers.
  pub deliver_ends :
      (fuel : ℕ) (es : List Event) (s : Dispatch W)
      → 0 < length es
      → length es ≤ fuel
      → (deliver setup fuel es s).0 ≢ exhausted
  deliver_ends fuel es s p q h = subst Ended h (deliver_lem fuel es s p q)
