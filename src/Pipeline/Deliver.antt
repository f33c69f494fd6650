-- ===== src/Pipeline/Deliver.antt =====
-- deliver and ensureTenants of internal/pipeline/dispatcher.go, and AddDeadLetter of
-- internal/spool/spool.go. A destination is the calls of its interface on an outside world `W`,
-- which also holds what the operating system will answer (`ask`).
pub mod Steps
pub mod Parking
pub mod Handled
pub mod Ends
use vbilling.Prelude.{
  ℕ, zero, suc, ◌+◌, ◌/◌, Bool, true, false, Option, none, some, List, [], ◌∷◌, ◌++◌,
}
use vbilling.Prelude.Tests.{if◌then◌else◌}
use vbilling.Prelude.Lists.{length, take, drop}
use vbilling.Prelude.Text.{Text, Map, member, lookup, insert}
use vbilling.Usage.{Event, Tenant}
use vbilling.Spool.State.{Spool, Io, DeadLetter}
use vbilling.Pipeline.Tenants.{TenantRegistry, get, needs_ensure, mark_ensured}

-- An error of a destination as the dispatcher reads it: the rejected IDs of a PartialError in its
-- chain, whether a PermanentError is in its chain, and its text.
pub record Refusal : Type 0 where
  pub partial : Option (Map Text)
  pub permanent : Bool
  pub text : Text

pub record Destination (W : Type 0) : Type 0 where
  pub name : Text
  -- Of an EventFilter, if it is one.
  pub filter : Option (Text → Bool)
  pub ensure_tenant : Tenant → W → Option Refusal × W
  pub send_events : List Event → W → Option Refusal × W

-- What the dispatcher's methods use: the destination, the operating system's answers for the next
-- call, and the fingerprint of a tenant.
pub record Setup (W : Type 0) : Type 0 where
  pub dest : Destination W
  pub ask : W → Io × W
  pub fingerprint : Tenant → Text

pub record Dispatch (W : Type 0) : Type 0 where
  pub spool : Spool
  pub tenants : Option TenantRegistry
  pub world : W

pub data Failure : Type 0 where
  tenant_refused : Refusal → Failure
  send_refused : Refusal → Failure
  not_parked : Failure

-- `exhausted` is the model's: the fuel ran out.
pub data Delivery : Type 0 where
  done : ℕ → Delivery
  failed : Failure → Delivery
  exhausted : Delivery

unfoldable pub letters : Text → Spool → List DeadLetter
letters name s = elim (lookup name s.dead_letters) [ some ls ↦ ls | none ↦ [] ]

-- AddDeadLetter: true when the line is written. A write that fails part-way leaves a line that
-- DeadLetters skips.
unfoldable pub add_dead_letter : Io → Text → Event → Text → Spool → Bool × Spool
unfolding letters
add_dead_letter io name e reason s =
    if io.dead_letter_ok
    then (
      true,
      record s {
        dead_letters =
            insert name (letters name s ++ record { at = io.now; reason = reason; event = e } ∷ [])
              s.dead_letters;
      },
    )
    else (false, s)

module _ {W : Type 0} (setup : Setup W) where
  -- One tenant of ensureTenants; a permanent refusal is logged only.
  unfoldable pub ensure_one : Text → TenantRegistry → W → Option Refusal × TenantRegistry × W
  ensure_one id r w =
      let t = get id r in
      if needs_ensure setup.fingerprint setup.dest.name t r
      then (let (answer, w') = setup.dest.ensure_tenant t w in
          elim answer [
            | none ↦ (none, mark_ensured setup.fingerprint setup.dest.name t r, w')
            | some e ↦ (if e.permanent then none else some e, r, w')
          ])
      else (none, r, w)

  unfoldable pub ensure_each :
      List Text → List Event → TenantRegistry → W → Option Refusal × TenantRegistry × W
  unfolding ensure_one
  ensure_each seen [] r w = (none, r, w)
  ensure_each seen (e ∷ es) r w =
      let known = ensure_each seen es r w in
      let (answer, r', w') = ensure_one e.tenant r w in
      let rest = ensure_each (e.tenant ∷ seen) es r' w' in
      if member e.tenant seen
      then known
      else elim answer [ some x ↦ (some x, r', w') | none ↦ rest ]

  unfoldable pub ensure_tenants : List Event → Dispatch W → Option Refusal × Dispatch W
  unfolding ensure_each
  ensure_tenants events s = elim s.tenants [
    | none ↦ (none, s)
    | some r ↦
        let (answer, r', w) = ensure_each [] events r s.world in
        (answer, record s { tenants = some r'; world = w })
  ]

  unfoldable pub park : Event → Text → Dispatch W → Bool × Dispatch W
  park e reason s =
      let (io, w) = setup.ask s.world in
      let (b, t) = add_dead_letter io setup.dest.name e reason s.spool in
      (b, record s { spool = t; world = w })

  -- The loop over a PartialError; `dead` counts the events parked so far.
  unfoldable pub park_rejected : Map Text → List Event → ℕ → Dispatch W → Delivery × Dispatch W
  unfolding park
  park_rejected rejected [] dead s = (done dead, s)
  park_rejected rejected (e ∷ es) dead s = elim (lookup e.id rejected) [
    | none ↦ park_rejected rejected es dead s
    | some reason ↦
        let (b, t) = park e reason s in
        let rest = park_rejected rejected es (dead + 1) t in
        if b then rest else (failed not_parked, t)
  ]

  module _ (again : List Event → Dispatch W → Delivery × Dispatch W) where
    unfoldable pub second_half : List Event → ℕ → Dispatch W → Delivery × Dispatch W
    second_half events a s =
        let (r, t) = again events s in
        elim r [
          | done b ↦ (done (a + b), t)
          | failed f ↦ (failed f, t)
          | exhausted ↦ (exhausted, t)
        ]

    unfoldable pub halves : List Event → Dispatch W → Delivery × Dispatch W
    unfolding second_half
    halves events s =
        let mid = length events / 2 in
        let (r, t) = again (take mid events) s in
        elim r [
          | done a ↦ second_half (drop mid events) a t
          | failed f ↦ (failed f, t)
          | exhausted ↦ (exhausted, t)
        ]

    -- A permanent error: one event is parked, more are halved.
    unfoldable pub isolate : Refusal → List Event → Dispatch W → Delivery × Dispatch W
    unfolding halves park
    isolate x [] s = halves [] s
    isolate x (e ∷ []) s =
        let (b, t) = park e x.text s in (if b then done 1 else failed not_parked, t)
    isolate x (e ∷ f ∷ es) s = halves (e ∷ f ∷ es) s

    unfoldable pub refused : Refusal → List Event → Dispatch W → Delivery × Dispatch W
    unfolding isolate park_rejected
    refused x events s = elim x.partial [
      | some rejected ↦ park_rejected rejected events 0 s
      | none ↦ let i = isolate x events s in if x.permanent then i else (failed (send_refused x), s)
    ]

    unfoldable pub send : List Event → Dispatch W → Delivery × Dispatch W
    unfolding refused
    send events s =
        let (answer, w) = setup.dest.send_events events s.world in
        let t = record s { world = w } in
        elim answer [ none ↦ (done 0, t) | some x ↦ refused x events t ]

    unfoldable pub deliver_step : List Event → Dispatch W → Delivery × Dispatch W
    unfolding ensure_tenants send
    deliver_step events s =
        let (answer, t) = ensure_tenants events s in
        elim answer [ some x ↦ (failed (tenant_refused x), t) | none ↦ send events t ]

  unfoldable pub deliver : ℕ → List Event → Dispatch W → Delivery × Dispatch W
  unfolding deliver_step
  deliver zero events s = (exhausted, s)
  deliver (suc fuel) events s = deliver_step (deliver fuel) events s
