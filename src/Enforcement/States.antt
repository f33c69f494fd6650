-- ===== src/Enforcement/States.antt =====
-- What Set of internal/enforcement/enforcer.go records, in memory and in the store.
use vbilling.Prelude.{◌≡◌, ◌⊎◌, refl, true, false, some, inl, inr}
use vbilling.Prelude.Tests.{if◌then◌else◌, Bool-cases, Option-cases}
use vbilling.Prelude.Text.{Text, text_eq, lookup}
use vbilling.Prelude.Maps.{lookup-insert}
use vbilling.Enforcement.{
  valid, observe, invalid, prev_of, Options, Enforcer, TenantState, reflect_all, next_state, keep,
  set_state,
}

module _ {W : Type 0} where
  -- The parts of the enforcer that reflecting a state leaves alone.
  pub record SameBooks (e f : Enforcer W) : Type 0 where
    pub seen : f.seen ≡ e.seen
    pub states : f.states ≡ e.states
    pub store : f.store ≡ e.store

module _ {W : Type 0} (o : Options W) where
  reflect_all-SameBooks : (t : TenantState) (e : Enforcer W) → SameBooks e (reflect_all o t e).1
  unfolding reflect_all
  reflect_all-SameBooks t e =
      let same : SameBooks e e = record { seen = refl; states = refl; store = refl } in
      elim (Option-cases o.kube) [
        | inl q ↦ rw (q, reflect_all) same
        | inr (k, q) ↦ elim (Option-cases o.clusters) [
          | inl r ↦ rw (q, reflect_all) (rw r same)
          | inr (f, r) ↦ elim (Bool-cases (text_eq o.mode observe)) [
            | inl b ↦ rw (q, reflect_all) (rw r (rw b same))
            | inr b ↦
                rw (q, reflect_all)
                  (rw r (rw b (record { seen = refl; states = refl; store = refl })))
          ]
        ]
      ]

  module _ (tenant state reason source event_type : Text) (e : Enforcer W) where
    -- A valid state is kept in memory and in the store before anything can fail.
    pub set_state-SameBooks :
        valid state ≡ true
        → SameBooks
            (keep o (next_state o tenant state reason source event_type e) e).1
            (set_state o tenant state reason source event_type e).1
    unfolding set_state
    set_state-SameBooks v =
        let t = next_state o tenant state reason source event_type e in
        let k = keep o t e in
        elim (Bool-cases k.0) [
          | inl b ↦ rw (v, set_state) (rw b (reflect_all-SameBooks t k.1))
          | inr b ↦ rw (v, set_state) (rw b (record { seen = refl; states = refl; store = refl }))
        ]

    pub set_state_invalid :
        valid state ≡ false → (set_state o tenant state reason source event_type e).1 ≡ e
    unfolding set_state
    set_state_invalid v = rw (v, set_state) refl

    -- Set of a state that is none of the four is refused and changes nothing. Set of a valid one, whatever
    -- else fails, gives the tenant that state, with the reason, source and type given, since now or, if
    -- the tenant was already in it, since it came to it; other tenants keep what they had.
    pub lookup-set_state :
        (j : Text)
        → let x = set_state o tenant state reason source event_type e in
          let before = prev_of tenant e.states in
          ((valid state ≡ false) × (x ≡ (invalid, e)))
          ⊎ ((valid state ≡ true)
              × (lookup j x.1.states ≡ (
                  if text_eq tenant j
                  then some (record {
                    tenant = tenant;
                    state = state;
                    reason = reason;
                    source = source;
                    event_type = event_type;
                    since = if text_eq before.state state then before.since else o.now e.world;
                  })
                  else lookup j e.states)))
    unfolding keep next_state
    lookup-set_state j = elim (Bool-cases (valid state)) [
      | inr v ↦ inl (v, unfold set_state in rw (v, set_state) refl)
      | inl v ↦
          let t = next_state o tenant state reason source event_type e in
          inr (v, rw ((set_state-SameBooks v).states) (lookup-insert tenant j t e.states))
    ]
