-- ===== src/Pipeline/Deliver/Parking.antt =====
-- The steps of ensureTenants and the parking of rejected events (internal/pipeline/dispatcher.go).
use vbilling.Prelude.{
  ◌≡◌, refl, subst, inl, inr, ℕ, ◌+◌, true, false, none, List, [], ◌∷◌, ◌++◌, arith,
}
use vbilling.Prelude.Tests.{Bool-cases, Option-cases}
use vbilling.Prelude.Lists.{All, All-mono}
use vbilling.Prelude.Text.{Text, Map, member, lookup, insert}
use vbilling.Prelude.Maps.{lookup-insert_self}
use vbilling.Usage.{Event}
use vbilling.Spool.State.{Spool, Io, DeadLetter}
use vbilling.Pipeline.Tenants.{TenantRegistry, get, needs_ensure}
use vbilling.Pipeline.Deliver.{
  Setup, Dispatch, Delivery, done, failed, exhausted, letters, add_dead_letter, ensure_one,
  ensure_each, ensure_tenants, park, park_rejected,
}
use vbilling.Pipeline.Deliver.Steps.{
  Promises, Moves, Moves-world, Moves-trans, Handled, Handled-append, Handled-after,
}

module _ {W : Type 0} (setup : Setup W) (Accepted : W → Event → Type 0)
    (p : Promises setup Accepted) where
  ensure_one-keeps :
      (id : Text) (r : TenantRegistry) (w : W) (e : Event)
      → Accepted w e
      → Accepted (ensure_one setup id r w).2 e
  unfolding ensure_one
  ensure_one-keeps id r w e h =
      elim (Bool-cases (needs_ensure setup.fingerprint setup.dest.name (get id r) r)) [
        | inr b ↦ rw (b, ensure_one) h
        | inl b ↦
            rw (b, ensure_one)
              (elim (Option-cases (setup.dest.ensure_tenant (get id r) w).0) [
                | inl n ↦ rw n (p.ensure_keeps (get id r) w e h)
                | inr (x, q) ↦ rw q (p.ensure_keeps (get id r) w e h)
              ])
      ]

  ensure_each-keeps :
      (seen : List Text) (es : List Event) (r : TenantRegistry) (w : W) (e : Event)
      → Accepted w e
      → Accepted (ensure_each setup seen es r w).2 e
  unfolding ensure_each
  ensure_each-keeps seen [] r w e h = h
  ensure_each-keeps seen (f ∷ es) r w e h =
      let o = ensure_one setup f.tenant r w in
      let k = ensure_one-keeps f.tenant r w e h in
      elim (Bool-cases (member f.tenant seen)) [
        | inl b ↦ rw (b, ensure_each) (ensure_each-keeps seen es r w e h)
        | inr b ↦
            rw (b, ensure_each)
              (elim (Option-cases o.0) [
                | inl n ↦ rw n (ensure_each-keeps (f.tenant ∷ seen) es o.1 o.2 e k)
                | inr (x, q) ↦ rw q k
              ])
      ]

  ensure_tenants-spool :
      (es : List Event) (s : Dispatch W) → (ensure_tenants setup es s).1.spool ≡ s.spool
  unfolding ensure_tenants
  ensure_tenants-spool es s = elim (Option-cases s.tenants) [
    | inl n ↦ rw (n, ensure_tenants) refl
    | inr (r, q) ↦ rw (q, ensure_tenants) refl
  ]

  ensure_tenants-keeps :
      (es : List Event) (s : Dispatch W) (e : Event)
      → Accepted s.world e
      → Accepted (ensure_tenants setup es s).1.world e
  unfolding ensure_tenants
  ensure_tenants-keeps es s e h = elim (Option-cases s.tenants) [
    | inl n ↦ rw (n, ensure_tenants) h
    | inr (r, q) ↦ rw (q, ensure_tenants) (ensure_each-keeps [] es r s.world e h)
  ]

  pub ensure_tenants-Moves :
      (es : List Event) (s : Dispatch W) → Moves setup Accepted [] s (ensure_tenants setup es s).1
  ensure_tenants-Moves es s =
      Moves-world setup Accepted s (ensure_tenants setup es s).1 (ensure_tenants-spool es s)
        (ensure_tenants-keeps es s)

  abbrev letter : Io → Event → Text → DeadLetter
  letter io e reason = record { at = io.now; reason = reason; event = e }

  letters-insert :
      (name : Text) (ls : List DeadLetter) (s : Spool)
      → letters name (record s { dead_letters = insert name ls s.dead_letters }) ≡ ls
  unfolding letters
  letters-insert name ls s = rw (lookup-insert_self name ls s.dead_letters, letters) refl

  add_dead_letter_ok :
      (io : Io) (name : Text) (e : Event) (reason : Text) (s : Spool)
      → (add_dead_letter io name e reason s).0 ≡ true
      → let t = (add_dead_letter io name e reason s).1 in
        (letters name t ≡ letters name s ++ letter io e reason ∷ [])
        × (record t { dead_letters = s.dead_letters } ≡ s)
  unfolding add_dead_letter
  add_dead_letter_ok io name e reason s h = elim (Bool-cases io.dead_letter_ok) [
    | inr b ↦ cc (rw (b, add_dead_letter) at h)
    | inl b ↦
        rw (b, add_dead_letter)
          (letters-insert name (letters name s ++ letter io e reason ∷ []) s, refl)
  ]

  add_dead_letter_failed :
      (io : Io) (name : Text) (e : Event) (reason : Text) (s : Spool)
      → (add_dead_letter io name e reason s).0 ≡ false
      → (add_dead_letter io name e reason s).1 ≡ s
  unfolding add_dead_letter
  add_dead_letter_failed io name e reason s h = elim (Bool-cases io.dead_letter_ok) [
    | inl b ↦ cc (rw (b, add_dead_letter) at h)
    | inr b ↦ rw (b, add_dead_letter) refl
  ]

  pub park-Handled :
      (e : Event) (reason : Text) (s : Dispatch W)
      → (park setup e reason s).0 ≡ true
      → Handled setup Accepted (e ∷ []) 1 s (park setup e reason s).1
  unfolding park
  park-Handled e reason s h =
      let io = (setup.ask s.world).0 in
      let a = add_dead_letter_ok io setup.dest.name e reason s.spool h in
      record {
        new = letter io e reason ∷ [];
        moves = record { parked = a.0; kept = λ f k. p.ask_keeps s.world f k; others = a.1 };
        count = refl;
        settled = (inr (inl refl), tt);
      }

  pub park_failed :
      (e : Event) (reason : Text) (s : Dispatch W)
      → (park setup e reason s).0 ≡ false
      → (new : List DeadLetter) × Moves setup Accepted new s (park setup e reason s).1
  unfolding park
  park_failed e reason s h =
      let io = (setup.ask s.world).0 in
      (
        [],
        Moves-world setup Accepted s (park setup e reason s).1
            (add_dead_letter_failed io setup.dest.name e reason s.spool h) (p.ask_keeps s.world),
      )

  settled_none :
      (e : Event) (s : Dispatch W) → Accepted s.world e → Handled setup Accepted (e ∷ []) 0 s s
  settled_none e s h = record {
    new = [];
    moves = Moves-world setup Accepted s s refl (λ f k. k);
    count = refl;
    settled = (inl h, tt);
  }

  -- A result that is no success still keeps what was accepted and only adds dead letters.
  abbrev pub Grows : Dispatch W → Dispatch W → Type 0
  Grows s t = (new : List DeadLetter) × Moves setup Accepted new s t

  pub Grows-refl : (s : Dispatch W) → Grows s s
  Grows-refl s = ([], Moves-world setup Accepted s s refl (λ e h. h))

  pub Grows-after :
      (new : List DeadLetter) (s s' t : Dispatch W)
      → Moves setup Accepted new s s'
      → Grows s' t
      → Grows s t
  Grows-after new s s' t m r = (new ++ r.0, Moves-trans setup Accepted new r.0 s s' t m r.1)

  abbrev pub Outcome : ℕ → List Event → Dispatch W → Delivery → Dispatch W → Type 0
  Outcome dead es s (done n) t = (k : ℕ) × (n ≡ dead + k) × Handled setup Accepted es k s t
  Outcome dead es s (failed f) t = Grows s t
  Outcome dead es s exhausted t = Grows s t

  Outcome-cons :
      (e : Event) (es : List Event) (dead a m : ℕ) (s s' : Dispatch W) (d : Delivery)
      (t : Dispatch W)
      → m ≡ dead + a
      → Handled setup Accepted (e ∷ []) a s s'
      → Outcome m es s' d t
      → Outcome dead (e ∷ es) s d t
  Outcome-cons e es dead a m s s' (done n) t q h (k, c, r) =
      (a + k, omega arith, Handled-append setup Accepted (e ∷ []) es a k (a + k) s s' t refl h r)
  Outcome-cons e es dead a m s s' (failed f) t q h r = Grows-after h.new s s' t h.moves r
  Outcome-cons e es dead a m s s' exhausted t q h r = Grows-after h.new s s' t h.moves r

  pub park_rejected-Handled :
      (rejected : Map Text) (es : List Event) (dead : ℕ) (s : Dispatch W)
      → All (λ (e : Event). lookup e.id rejected ≡ none → Accepted s.world e) es
      → let r = park_rejected setup rejected es dead s in Outcome dead es s r.0 r.1
  unfolding park_rejected
  park_rejected-Handled rejected [] dead s u = (
    0,
    omega arith,
    record {
      new = [];
      moves = Moves-world setup Accepted s s refl (λ f k. k);
      count = refl;
      settled = tt;
    },
  )
  park_rejected-Handled rejected (e ∷ es) dead s u = elim (Option-cases (lookup e.id rejected)) [
    | inl q ↦
        rw (q, park_rejected)
          (Outcome-cons e es dead 0 dead s s _ _ (omega arith) (settled_none e s (u.0 q))
            (park_rejected-Handled rejected es dead s u.1))
    | inr (reason, q) ↦ elim (Bool-cases (park setup e reason s).0) [
      | inr b ↦ rw (q, park_rejected) (rw b (park_failed e reason s b))
      | inl b ↦
          let a = park-Handled e reason s b in
          rw (q, park_rejected)
            (rw b (
              Outcome-cons e es dead 1 (dead + 1) s _ _ _ refl a (
                park_rejected-Handled rejected es (dead + 1) _
                  (All-mono es (λ f g l. a.moves.kept f (g l)) u.1))))
    ]
  ]

  -- Moving the start of an outcome back over a step that parks nothing.
  pub Outcome-after :
      (es : List Event) (s s' : Dispatch W) (d : Delivery) (t : Dispatch W)
      → Moves setup Accepted [] s s'
      → Outcome 0 es s' d t
      → Outcome 0 es s d t
  Outcome-after es s s' (done n) t m (k, c, r) =
      (k, c, Handled-after setup Accepted es k s s' t m r)
  Outcome-after es s s' (failed f) t m r = Grows-after [] s s' t m r
  Outcome-after es s s' exhausted t m r = Grows-after [] s s' t m r

  pub from_zero :
      (es : List Event) (n : ℕ) (s t : Dispatch W)
      → Outcome 0 es s (done n) t
      → Handled setup Accepted es n s t
  from_zero es n s t (k, c, r) = subst (λ k. Handled setup Accepted es k s t) (omega arith) r
