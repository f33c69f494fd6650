-- ===== src/Enforcement/Synced.antt =====
-- The states of internal/enforcement/enforcer.go in memory and in the store agree.
use vbilling.Prelude.{
  ◌≡◌, ◌∙◌, ◌⊎◌, refl, sym, ap, subst, false, Option, none, some, [], ◌∷◌, inl, inr,
}
use vbilling.Prelude.Tests.{Bool-cases, Option-cases}
use vbilling.Prelude.Text.{Text, Map, text_eq, text_eq_iff, lookup}
use vbilling.Prelude.Maps.{lookup-insert, Distinct}
use vbilling.Destinations.SentCache.{has}
use vbilling.Kv.{Store, get, with_prefix}
use vbilling.Kv.Saved.{get-set, lookup-with_prefix, text_eq-append, with_prefix-Distinct}
use vbilling.Enforcement.{
  valid, Signal, Outcome, applied, ignored, duplicate, unknown_customer, invalid, unsaved,
  bad_signature, undecoded, unreflected, Options, Enforcer, TenantState, state_key, state_prefix,
  load, start, next_state, keep, set_state, override, seen_after, apply_to, resolve, apply,
}
use vbilling.Enforcement.States.{set_state-SameBooks, set_state_invalid}

module _ {W : Type 0} (o : Options W) where
  abbrev pub decode : Option Text → Option TenantState
  decode none = none
  decode (some raw) = o.unmarshal raw

  -- The state in memory is the one in the store, or one that encoding/json cannot write.
  abbrev pub Agree : Map TenantState → Store → Text → Type 0
  Agree m s j =
      (lookup j m ≡ decode (get (state_key j) s))
      ⊎ ((t : TenantState) × (lookup j m ≡ some t) × (o.encodable t ≡ false))

  abbrev pub Synced : Enforcer W → Type 0
  Synced e = (j : Text) → Agree e.states e.store j

  lookup-load : (m : Map Text) (j : Text) → Distinct m → lookup j (load o m) ≡ decode (lookup j m)
  unfolding load lookup
  lookup-load [] j h = refl
  lookup-load ((t, raw) ∷ m) j h =
      let ih = lookup-load m j h.1 in
      elim (Option-cases (o.unmarshal raw)) [
        | inr (x, q) ↦ elim (Bool-cases (text_eq t j)) [
          | inl b ↦ rw (q, load) (rw (lookup-insert t j x (load o m)) (rw b (sym q)))
          | inr b ↦ rw (q, load) (rw (lookup-insert t j x (load o m)) (rw b ih))
        ]
        | inl q ↦ elim (Bool-cases (text_eq t j)) [
          | inl b ↦
              let gone : lookup j m ≡ none =
                ap (λ i. lookup i m) (sym ((text_eq_iff t j).0 b)) ∙ h.0 in
              rw (q, load) (rw b (ih ∙ ap decode gone ∙ sym q))
          | inr b ↦ rw (q, load) (rw b ih)
        ]
      ]

  pub lookup-start :
      (store : Store) (w : W) (j : Text)
      → lookup j (start o store w).states ≡ decode (get (state_key j) store)
  unfolding start
  lookup-start store w j =
      lookup-load (with_prefix state_prefix store) j
        (with_prefix-Distinct state_prefix store.entries)
      ∙ ap decode (lookup-with_prefix state_prefix j store)

  start-Synced : (store : Store) (w : W) → Synced (start o store w)
  unfolding start
  start-Synced store w j = inl (lookup-start store w j)

  keep-Synced : (t : TenantState) (e : Enforcer W) → Synced e → Synced (keep o t e).1
  unfolding keep
  keep-Synced t e h j =
      let l = lookup-insert t.tenant j t e.states in
      let r = get-set (o.disk e.world) (state_key t.tenant) (o.marshal t) (state_key j) e.store in
      elim (Bool-cases (text_eq t.tenant j)) [
        | inl b ↦ elim (Bool-cases (o.encodable t)) [
          | inl good ↦
              rw (l, r, text_eq-append state_prefix t.tenant j)
                (rw b (inl (sym (o.decoded t good))))
          | inr bad ↦ inr (t, l ∙ rw b refl, bad)
        ]
        | inr b ↦ rw (l, r, text_eq-append state_prefix t.tenant j) (rw b (h j))
      ]

  set_state-Synced :
      (tenant state reason source event_type : Text) (e : Enforcer W)
      → Synced e
      → Synced (set_state o tenant state reason source event_type e).1
  set_state-Synced tenant state reason source event_type e h = elim (Bool-cases (valid state)) [
    | inr v ↦ subst Synced (sym (set_state_invalid o tenant state reason source event_type e v)) h
    | inl v ↦
        let t = next_state o tenant state reason source event_type e in
        let b = set_state-SameBooks o tenant state reason source event_type e v in
        let f = (set_state o tenant state reason source event_type e).1 in
        λ j.
          subst (λ (m : Map TenantState). Agree m f.store j) (sym b.states)
            (subst (λ (s : Store). Agree (keep o t e).1.states s j) (sym b.store)
              (keep-Synced t e h j))
  ]

  seen_after-Synced :
      (id : Text) (x : Outcome × Enforcer W) → Synced x.1 → Synced (seen_after o id x).1
  unfolding seen_after
  seen_after-Synced id (applied, e) h = h
  seen_after-Synced id (ignored, e) h = h
  seen_after-Synced id (duplicate, e) h = h
  seen_after-Synced id (unknown_customer, e) h = h
  seen_after-Synced id (invalid, e) h = h
  seen_after-Synced id (unsaved, e) h = h
  seen_after-Synced id (bad_signature, e) h = h
  seen_after-Synced id (undecoded, e) h = h
  seen_after-Synced id (unreflected cs, e) h = h

  apply_to-Synced :
      (sig : Signal) (tenant : Option Text) (e : Enforcer W)
      → Synced e
      → Synced (apply_to o sig tenant e).2
  unfolding apply_to
  apply_to-Synced sig none e h = h
  apply_to-Synced sig (some t) e h =
      seen_after-Synced sig.id (set_state o t sig.state sig.reason sig.source sig.type e)
        (set_state-Synced t sig.state sig.reason sig.source sig.type e h)

  resolve-Synced : (sig : Signal) (e : Enforcer W) → Synced e → Synced (resolve o sig e).2
  unfolding resolve
  resolve-Synced sig e h = elim (Option-cases (lookup sig.source o.resolvers)) [
    | inl q ↦ rw (q, resolve) h
    | inr (f, q) ↦
        let x = f sig.customer_id e.world in
        rw (q, resolve) (apply_to-Synced sig x.0 (record e { world = x.1 }) h)
  ]

  apply-Synced : (sig : Signal) (e : Enforcer W) → Synced e → Synced (apply o sig e).2
  unfolding apply
  apply-Synced sig e h =
      let v = override o sig in
      elim (Bool-cases (text_eq v.state [])) [
        | inl b ↦ rw (b, apply) h
        | inr b ↦ elim (Bool-cases (has v.id e.seen)) [
          | inl d ↦ rw (b, apply) (rw d h)
          | inr d ↦ rw (b, apply) (rw d (resolve-Synced v e h))
        ]
      ]

  -- The enforcers that a process can come to: from a start, by signals and by calls of Set, while the
  -- outside world may change.
  pub data Reached : Enforcer W → Type 0 where
    started : (store : Store) (w : W) → Reached (start o store w)
    signalled : (sig : Signal) (e : Enforcer W) → Reached e → Reached (apply o sig e).2
    overridden :
        (tenant state reason source event_type : Text) (e : Enforcer W)
        → Reached e
        → Reached (set_state o tenant state reason source event_type e).1
    elsewhere : (w : W) (e : Enforcer W) → Reached e → Reached (record e { world = w })

  pub Reached-Synced : (e : Enforcer W) → Reached e → Synced e
  Reached-Synced _ (started store w) = start-Synced store w
  Reached-Synced _ (signalled sig e r) = apply-Synced sig e (Reached-Synced e r)
  Reached-Synced _ (overridden t s x y z e r) = set_state-Synced t s x y z e (Reached-Synced e r)
  Reached-Synced _ (elsewhere w e r) = Reached-Synced e r
