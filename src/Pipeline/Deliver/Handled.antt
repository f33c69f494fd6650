-- ===== src/Pipeline/Deliver/Handled.antt =====
-- What `deliver` of internal/pipeline/dispatcher.go has done when it reports success.
use vbilling.Prelude.{
  ◌≡◌, refl, subst, inl, inr, ℕ, zero, suc, ◌+◌, ◌/◌, none, some, List, [], ◌∷◌, ◌++◌, arith,
}
use vbilling.Prelude.Tests.{Bool-cases, Option-cases}
use vbilling.Prelude.Lists.{length, take, drop, take-append-drop, All, All-mono}
use vbilling.Prelude.Text.{Text, Map, lookup}
use vbilling.Usage.{Event}
use vbilling.Spool.State.{DeadLetter}
use vbilling.Pipeline.Deliver.{
  Refusal, Setup, Dispatch, Delivery, done, ensure_tenants, park, second_half, halves, isolate,
  refused, send, deliver_step, deliver,
}
use vbilling.Pipeline.Deliver.Steps.{
  Delivery-cases, Promises, Moves, Moves-world, Handled, Handled-append,
}
use vbilling.Pipeline.Deliver.Parking.{
  ensure_tenants-Moves, park-Handled, Outcome, park_rejected-Handled, Outcome-after, from_zero,
  Grows-refl, Grows-after, park_failed,
}

module _ {W : Type 0} (setup : Setup W) (Accepted : W → Event → Type 0)
    (p : Promises setup Accepted) where
  module _ (again : List Event → Dispatch W → Delivery × Dispatch W)
      (induction : (es : List Event) (s : Dispatch W)
        → Outcome setup Accepted p 0 es s (again es s).0 (again es s).1) where
    second_half-Handled :
        (es fs : List Event) (a : ℕ) (s t : Dispatch W)
        → Handled setup Accepted es a s t
        → let r = second_half setup again fs a t in Outcome setup Accepted p 0 (es ++ fs) s r.0 r.1
    unfolding second_half
    second_half-Handled es fs a s t h =
        let two = again fs t in
        elim (Delivery-cases two.0) [
          | inr (inl (f, q)) ↦
              rw (q, second_half)
                (Grows-after setup Accepted p h.new s t two.1 h.moves (rw q at (induction fs t)))
          | inr (inr q) ↦
              rw (q, second_half)
                (Grows-after setup Accepted p h.new s t two.1 h.moves (rw q at (induction fs t)))
          | inl (b, q) ↦
              let k = from_zero setup Accepted p fs b t two.1 (rw q at (induction fs t)) in
              rw (q, second_half)
                (
                  a + b,
                  omega arith,
                  Handled-append setup Accepted es fs a b (a + b) s t two.1 refl h k,
                )
        ]

    halves-Handled :
        (es : List Event) (s : Dispatch W)
        → let r = halves setup again es s in Outcome setup Accepted p 0 es s r.0 r.1
    unfolding halves
    halves-Handled es s =
        let mid = length es / 2 in
        let one = again (take mid es) s in
        elim (Delivery-cases one.0) [
          | inr (inl (f, q)) ↦ rw (q, halves) (rw q at (induction (take mid es) s))
          | inr (inr q) ↦ rw (q, halves) (rw q at (induction (take mid es) s))
          | inl (a, q) ↦
              let two = second_half setup again (drop mid es) a one.1 in
              let h =
                from_zero setup Accepted p _ a s one.1 (rw q at (induction (take mid es) s)) in
              rw (q, halves)
                (subst (λ x. Outcome setup Accepted p 0 x s two.0 two.1) (take-append-drop mid es)
                  (second_half-Handled (take mid es) (drop mid es) a s one.1 h))
        ]

    isolate-Handled :
        (x : Refusal) (es : List Event) (s : Dispatch W)
        → let r = isolate setup again x es s in Outcome setup Accepted p 0 es s r.0 r.1
    unfolding isolate
    isolate-Handled x [] s = halves-Handled [] s
    isolate-Handled x (e ∷ []) s = elim (Bool-cases (park setup e x.text s).0) [
      | inl b ↦ rw (b, isolate) (1, omega arith, park-Handled setup Accepted p e x.text s b)
      | inr b ↦ rw (b, isolate) (park_failed setup Accepted p e x.text s b)
    ]
    isolate-Handled x (e ∷ f ∷ es) s = halves-Handled (e ∷ f ∷ es) s

    refused-Handled :
        (x : Refusal) (es : List Event) (s : Dispatch W)
        → ((rejected : Map Text)
            → x.partial ≡ some rejected
            → All (λ (e : Event). lookup e.id rejected ≡ none → Accepted s.world e) es)
        → let r = refused setup again x es s in Outcome setup Accepted p 0 es s r.0 r.1
    unfolding refused
    refused-Handled x es s u = elim (Option-cases x.partial) [
      | inr (rejected, q) ↦
          rw (q, refused) (park_rejected-Handled setup Accepted p rejected es 0 s (u rejected q))
      | inl q ↦
          rw (q, refused)
            (elim (Bool-cases x.permanent) [
              | inl b ↦ rw b (isolate-Handled x es s)
              | inr b ↦ rw b (Grows-refl setup Accepted p s)
            ])
    ]

    send-Handled :
        (es : List Event) (s : Dispatch W)
        → let r = send setup again es s in Outcome setup Accepted p 0 es s r.0 r.1
    unfolding send
    send-Handled es s =
        let t = record s { world = (setup.dest.send_events es s.world).1 } in
        let m = Moves-world setup Accepted s t refl (p.send_keeps es s.world) in
        elim (Option-cases (setup.dest.send_events es s.world).0) [
          | inl q ↦
              rw (q, send)
                (
                  0,
                  omega arith,
                  record {
                    new = [];
                    moves = m;
                    count = refl;
                    settled = All-mono es (λ e a. inl a) (p.sent es s.world q);
                  },
                )
          | inr (x, q) ↦
              rw (q, send)
                (Outcome-after setup Accepted p es s t _ _ m
                  (refused-Handled x es t (λ rejected l. p.sent_partial es s.world x rejected q l)))
        ]

    deliver_step-Handled :
        (es : List Event) (s : Dispatch W)
        → let r = deliver_step setup again es s in Outcome setup Accepted p 0 es s r.0 r.1
    unfolding deliver_step
    deliver_step-Handled es s =
        let t = (ensure_tenants setup es s).1 in
        elim (Option-cases (ensure_tenants setup es s).0) [
          | inr (x, q) ↦ rw (q, deliver_step) ([], ensure_tenants-Moves setup Accepted p es s)
          | inl q ↦
              rw (q, deliver_step)
                (Outcome-after setup Accepted p es s t _ _
                  (ensure_tenants-Moves setup Accepted p es s) (send-Handled es t))
        ]

  deliver_lem :
      (fuel : ℕ) (es : List Event) (s : Dispatch W)
      → let r = deliver setup fuel es s in Outcome setup Accepted p 0 es s r.0 r.1
  unfolding deliver
  deliver_lem zero es s = Grows-refl setup Accepted p s
  deliver_lem (suc fuel) es s = deliver_step-Handled (deliver setup fuel) (deliver_lem fuel) es s

  -- A delivery that reports success with `n` has lost nothing: each event of the batch was accepted
  -- by the destination or is among the `n` dead letters added for it, what the destination had
  -- accepted it keeps, and nothing else in the spool changed.
  pub deliver-Handled :
      (fuel n : ℕ) (es : List Event) (s t : Dispatch W)
      → deliver setup fuel es s ≡ (done n, t)
      → Handled setup Accepted es n s t
  deliver-Handled fuel n es s t h = from_zero setup Accepted p es n s t (
      subst (λ (x : Delivery × Dispatch W). Outcome setup Accepted p 0 es s x.0 x.1) h
        (deliver_lem fuel es s))

  -- However a delivery ends, the destination keeps what it had accepted, its dead letters only grow,
  -- and nothing else in the spool changes.
  pub deliver-Grows :
      (fuel : ℕ) (es : List Event) (s : Dispatch W)
      → (new : List DeadLetter) × Moves setup Accepted new s (deliver setup fuel es s).1
  deliver-Grows fuel es s =
      let r = deliver setup fuel es s in
      elim (Delivery-cases r.0) [
        | inl (n, q) ↦
            let h = from_zero setup Accepted p es n s r.1 (rw q at (deliver_lem fuel es s)) in
            (h.new, h.moves)
        | inr (inl (f, q)) ↦ rw q at (deliver_lem fuel es s)
        | inr (inr q) ↦ rw q at (deliver_lem fuel es s)
      ]
