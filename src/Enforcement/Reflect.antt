-- ===== src/Enforcement/Reflect.antt =====
-- What Set of internal/enforcement/enforcer.go does to the tenant clusters.
use vbilling.Prelude.{◌≡◌, refl, Bool, false, ◌&&◌, Option, none, some, List, [], ◌∷◌, inl, inr}
use vbilling.Prelude.Tests.{Bool-cases, Option-cases}
use vbilling.Prelude.Text.{Text, Map, codes, text_eq, lookup}
use vbilling.Enforcement.{
  label_suspended, suspended, enforce, observe, valid, Cluster, Notice, Kube, Options, Enforcer,
  TenantState, labels_of, annotations_of, notice_of, reflect, reflect_each, reflect_all, next_state,
  keep, set_state,
}

module _ {W : Type 0} (o : Options W) (P : W → Type 0) where
  -- A property of the outside world that only a patch which sets the suspended label can break.
  pub record Unmarked (k : Kube W) : Type 0 where
    pub workload :
        (d : Bool) (n x : Text) (m : Map (Option Text)) (w : W)
        → P w
        → P (k.patch_workload d n x m w).1
    pub unlabelled :
        (n : Text) (m : Map (Option Text)) (w : W)
        → lookup label_suspended m ≡ some none
        → P w
        → P (k.patch_namespace n m w).1
    pub event : (x : Notice) (w : W) → P w → P (k.create_event x w)

  labels_unmarked :
      (t : TenantState)
      → (text_eq o.mode enforce && text_eq t.state suspended) ≡ false
      → lookup label_suspended (labels_of o t) ≡ some none
  unfolding labels_of lookup text_eq
  labels_unmarked t h = rw h refl

  module _ (k : Kube W) (u : Unmarked k) (t : TenantState)
      (off : (text_eq o.mode enforce && text_eq t.state suspended) ≡ false) where
    reflect-Unmarked : (c : Cluster) (w : W) → P w → P (reflect o k c t w).1
    unfolding reflect
    reflect-Unmarked c w h =
        let a = text_eq c.source (codes "deployment") in
        let x = k.patch_workload a c.namespace c.name (annotations_of o t) w in
        let y = k.patch_namespace c.namespace (labels_of o t) x.1 in
        let hx = u.workload a c.namespace c.name (annotations_of o t) w h in
        let hy = u.unlabelled c.namespace (labels_of o t) x.1 (labels_unmarked t off) hx in
        elim (Bool-cases x.0) [
          | inr b ↦ rw b hx
          | inl b ↦ rw b (elim (Bool-cases y.0) [
            | inr d ↦ rw d hy
            | inl d ↦ rw d (u.event (notice_of o c t) y.1 hy)
          ])
        ]

    reflect_each-Unmarked : (cs : List Cluster) (w : W) → P w → P (reflect_each o k t cs w).1
    unfolding reflect_each
    reflect_each-Unmarked [] w h = h
    reflect_each-Unmarked (c ∷ cs) w h =
        reflect_each-Unmarked cs (reflect o k c t w).1 (reflect-Unmarked c w h)

  reflect_all-Unmarked :
      (t : TenantState) (e : Enforcer W)
      → ((k : Kube W) → o.kube ≡ some k → Unmarked k)
      → (text_eq o.mode enforce && text_eq t.state suspended) ≡ false
      → P e.world
      → P (reflect_all o t e).1.world
  unfolding reflect_all
  reflect_all-Unmarked t e u off h = elim (Option-cases o.kube) [
    | inl q ↦ rw (q, reflect_all) h
    | inr (k, q) ↦ elim (Option-cases o.clusters) [
      | inl r ↦ rw (q, reflect_all) (rw r h)
      | inr (f, r) ↦
          let g = reflect_each-Unmarked k (u k q) t off (f t.tenant e.world) e.world h in
          elim (Bool-cases (text_eq o.mode observe)) [
            | inl b ↦ rw (q, reflect_all) (rw r (rw b h))
            | inr b ↦ rw (q, reflect_all) (rw r (rw b g))
          ]
    ]
  ]

  -- Set marks a namespace as suspended only in the mode "enforce" and for the state "suspended": else
  -- no patch that it sends sets the label, whatever fails, so what only such a patch can break stays.
  pub set_state-Unmarked :
      (tenant state reason source event_type : Text) (e : Enforcer W)
      → ((k : Kube W) → o.kube ≡ some k → Unmarked k)
      → (text_eq o.mode enforce && text_eq state suspended) ≡ false
      → P e.world
      → P (set_state o tenant state reason source event_type e).1.world
  unfolding set_state keep
  set_state-Unmarked tenant state reason source event_type e u off h =
      let t = next_state o tenant state reason source event_type e in
      let k = keep o t e in
      let off' : (text_eq o.mode enforce && text_eq t.state suspended) ≡ false =
        unfold next_state in off in
      elim (Bool-cases (valid state)) [
        | inr v ↦ rw (v, set_state) h
        | inl v ↦ elim (Bool-cases k.0) [
          | inr b ↦ rw (v, set_state) (rw b h)
          | inl b ↦ rw (v, set_state) (rw b (reflect_all-Unmarked t k.1 u off' h))
        ]
      ]
