-- ===== src/Enforcement/Restart.antt =====
-- The states of internal/enforcement/enforcer.go after a restart.
use vbilling.Prelude.{
  ◌≡◌, ◌≢◌, ◌∙◌, ◌⊎◌, refl, sym, ap, subst, Bool, true, false, some, [], inl, inr,
}
use vbilling.Prelude.Tests.{if◌then◌else◌}
use vbilling.Prelude.Text.{Text, Map, text_eq, text_eq_refl, lookup, insert}
use vbilling.Prelude.Maps.{lookup-insert_self, insert-insert_self}
use vbilling.Kv.{Store, set, get}
use vbilling.Kv.Saved.{get-set, set-set_failed}
use vbilling.Enforcement.{
  valid, Outcome, invalid, unsaved, Options, Enforcer, TenantState, state_key, prev_of, start,
  reflect_all, next_state, keep, remember, save, set_state,
}
use vbilling.Enforcement.Synced.{decode, Reached, lookup-start, Reached-Synced}

module _ {W : Type 0} (o : Options W) where
  -- Two calls of Set for one tenant, each of which remembers its state before the other one saves its
  -- state, and of which the first to remember is the last to save.
  save_swapped :
      (ta tb : TenantState) (e : Enforcer W) (w : W)
      → o.encodable ta ≡ true
      → let f = (save o ta (save o tb (remember o tb (remember o ta e))).1).1 in
        (lookup tb.tenant f.states ≡ some tb)
        × (lookup ta.tenant (start o f.store w).states ≡ some ta)
  save_swapped ta tb e w good =
      let e2 = remember o tb (remember o ta e) in
      let e3 = (save o tb e2).1 in
      let f = (save o ta e3).1 in
      let key = state_key ta.tenant in
      let stored : get key f.store ≡ some (o.marshal ta) =
        get-set (o.disk e.world) key (o.marshal ta) key e3.store ∙ rw (text_eq_refl key) refl in
      (
        lookup-insert_self tb.tenant tb (insert ta.tenant ta e.states),
        lookup-start o f.store w ta.tenant ∙ ap (decode o) stored ∙ o.decoded ta good,
      )

  start_again :
      (e : Enforcer W) (w : W) (j : Text)
      → Reached o e
      → (lookup j (start o e.store w).states ≡ lookup j e.states)
        ⊎ ((t : TenantState) × (lookup j e.states ≡ some t) × (o.encodable t ≡ false))
  start_again e w j r = elim (Reached-Synced o e r j) [
    | inl q ↦ inl (lookup-start o e.store w j ∙ sym q)
    | inr bad ↦ inr bad
  ]

  -- However a process came to its states by signals and calls of Set that do not overlap, whatever failed
  -- on the way, a start from what its store holds in memory finds the same state for each tenant, unless
  -- it is one that encoding/json cannot write. But when from there two calls of Set for one tenant
  -- overlap, so that each has recorded its state before either saves it, and the first, which
  -- encoding/json can write, saves last, then the tenant has the second state, and a start from the
  -- store finds the first.
  pub start-Reached :
      (e : Enforcer W) (w : W) (j : Text)
      → Reached o e
      → (tenant sa sb ra rb ca cb ya yb : Text)
      → o.encodable (next_state o tenant sa ra ca ya e) ≡ true
      → let ta = next_state o tenant sa ra ca ya e in
        let tb = next_state o tenant sb rb cb yb (remember o ta e) in
        let f = (save o ta (save o tb (remember o tb (remember o ta e))).1).1 in
        ((lookup j (start o e.store w).states ≡ lookup j e.states)
          ⊎ ((t : TenantState) × (lookup j e.states ≡ some t) × (o.encodable t ≡ false)))
        × (lookup tenant f.states ≡ some tb)
        × (lookup tenant (start o f.store w).states ≡ some ta)
  unfolding next_state
  start-Reached e w j r tenant sa sb ra rb ca cb ya yb good =
      let ta = next_state o tenant sa ra ca ya e in
      let tb = next_state o tenant sb rb cb yb (remember o ta e) in
      let (memory, store) = save_swapped ta tb e w good in (start_again e w j r, memory, store)

  keep-keep_unsaved :
      (t : TenantState) (e : Enforcer W) (w : W)
      → text_eq e.store.path [] ≡ false
      → get (state_key t.tenant) e.store ≢ some (o.marshal t)
      → (o.disk e.world).write_ok ≡ false
      → let f = record (keep o t e).1 { world = w } in
        ((keep o t e).0 ≡ false) × (keep o t f ≡ (true, f)) × (f.store.file ≡ e.store.file)
  unfolding keep
  keep-keep_unsaved t e w p n d =
      let key = state_key t.tenant in
      let a = set-set_failed (o.disk e.world) (o.disk w) key (o.marshal t) e.store p n d in
      let m = insert t.tenant t e.states in
      let again = λ (x : Bool × Store).
        let f : Enforcer W = record e { states = insert t.tenant t m; store = x.1; world = w } in
        let y : Bool × Enforcer W = (x.0, f) in y in
      (
        a.0,
        ap again a.1
            ∙ ap
                (λ (m : Map TenantState).
                  let f : Enforcer W = record e {
                    states = m;
                    store = (set (o.disk e.world) key (o.marshal t) e.store).1;
                    world = w;
                  } in
                  let y : Bool × Enforcer W = (true, f) in y)
                (insert-insert_self t.tenant t e.states),
        a.2,
      )

  set_state_saved :
      (tenant state reason source event_type : Text) (t : TenantState) (e : Enforcer W)
      → valid state ≡ true
      → next_state o tenant state reason source event_type e ≡ t
      → keep o t e ≡ (true, e)
      → set_state o tenant state reason source event_type e ≡ reflect_all o t e
  unfolding set_state
  set_state_saved tenant state reason source event_type t e v q k =
      let set_via : TenantState → Outcome × Enforcer W = λ t.
        let x = keep o t e in
        if valid state then if x.0 then reflect_all o t x.1 else (unsaved, x.1) else (invalid, e) in
      ap set_via q
      ∙ ap
          (λ (x : Bool × Enforcer W).
            if valid state
            then if x.0 then reflect_all o t x.1 else (unsaved, x.1)
            else (invalid, e))
          k
      ∙ rw v refl

  module _ (tenant state reason source event_type : Text) (e : Enforcer W) (w : W) where
    -- The state keeps its time when the call comes again.
    next_again :
        let t = next_state o tenant state reason source event_type e in
        next_state o tenant state reason source event_type (record (keep o t e).1 { world = w }) ≡ t
    unfolding next_state keep prev_of
    next_again =
        let t = next_state o tenant state reason source event_type e in
        rw (lookup-insert_self tenant t e.states, prev_of) (rw (text_eq_refl state) refl)

    -- A failed write is not made up for: when the store cannot write the file, Set reports it, but
    -- when the same call comes again, from a provider that retries, it goes on as if the state were
    -- saved, though the disk may work by then, and the file is still the old one.
    pub set_state-set_state_unsaved :
        valid state ≡ true
        → text_eq e.store.path [] ≡ false
        → get (state_key tenant) e.store
          ≢ some (o.marshal (next_state o tenant state reason source event_type e))
        → (o.disk e.world).write_ok ≡ false
        → let t = next_state o tenant state reason source event_type e in
          let x = set_state o tenant state reason source event_type e in
          let e1 = record x.1 { world = w } in
          (x.0 ≡ unsaved)
          × (set_state o tenant state reason source event_type e1 ≡ reflect_all o t e1)
          × (e1.store.file ≡ e.store.file)
    unfolding set_state
    set_state-set_state_unsaved v p n d =
        let t = next_state o tenant state reason source event_type e in
        let n' : get (state_key t.tenant) e.store ≢ some (o.marshal t) = unfold next_state in n in
        let (failed, saved, old) = keep-keep_unsaved t e w p n' d in
        let first : set_state o tenant state reason source event_type e
            ≡ (unsaved, (keep o t e).1) =
          rw (v, set_state) (rw failed refl) in
        subst
          (λ (x : Outcome × Enforcer W).
            let e1 = record x.1 { world = w } in
            (x.0 ≡ unsaved)
            × (set_state o tenant state reason source event_type e1 ≡ reflect_all o t e1)
            × (e1.store.file ≡ e.store.file))
          (sym first)
          (
            refl,
            set_state_saved tenant state reason source event_type t
                (record (keep o t e).1 { world = w }) v next_again saved,
            old,
          )
