-- ===== src/Controller/Reconcile/Kept.antt =====
-- Which tenants Reconcile of internal/controller/controller.go leaves alone.
use vbilling.Prelude.{◌≡◌, ◌⊎◌, ◌∙◌, refl, inl, inr, true, none, some, List, [], ◌∷◌}
use vbilling.Prelude.Tests.{Bool-cases, Option-cases}
use vbilling.Prelude.Lists.{All}
use vbilling.Prelude.Text.{Text, lookup, insert, erase, member}
use vbilling.Prelude.Maps.{lookup-erase, Distinct}
use vbilling.Usage.{Tenant}
use vbilling.Discovery.{discover}
use vbilling.Pipeline.Tenants.{delete}
use vbilling.Controller.Tenants.{tenants_from}
use vbilling.Controller.Reconcile.{
  Offboarder, Setup, View, gone, done_with, remove_from, offboard, refreshed, ids, reconcile,
}
use vbilling.Controller.Reconcile.Gone.{
  Keyed, Recent, Other, upsert_all-Keyed, mark_seen-Distinct, Here-noted, gone-Other,
}

module _ {W : Type 0} where
  -- What Reconcile has noted before it offboards anyone.
  abbrev pub noted : Setup W → View W → View W
  noted setup v = elim (discover (setup.api v.world) setup.discoverer) [
    | none ↦ v
    | some cs ↦ refreshed setup cs v
  ]

module _ {W : Type 0} (id : Text) (P : W → Type 0) where
  -- A property of the outside world that only the removal of the tenant `id` can break.
  pub record Spares (d : Offboarder W) : Type 0 where
    pub other : (t : Tenant) (w : W) → Other id t → P w → P (d.remove_tenant t w).1

  remove_from-kept :
      (t : Tenant) (ds : List (Offboarder W)) (done : List Text) (w : W)
      → All Spares ds
      → Other id t
      → P w
      → P (remove_from t ds done w).2
  unfolding remove_from
  remove_from-kept t [] done w s n h = h
  remove_from-kept t (d ∷ ds) done w s n h = elim (Bool-cases (member d.name done)) [
    | inl q ↦ rw (q, remove_from) (remove_from-kept t ds done w s.1 n h)
    | inr q ↦
        let w' = (d.remove_tenant t w).1 in
        let p' : P w' = s.0.other t w n h in
        elim (Option-cases (d.remove_tenant t w).0) [
          | inl e ↦ rw (q, remove_from, e) (remove_from-kept t ds (d.name ∷ done) w' s.1 n p')
          | inr (refusal, e) ↦ elim (Bool-cases refusal.permanent) [
            | inl f ↦ rw (q, remove_from, e, f) (remove_from-kept t ds (d.name ∷ done) w' s.1 n p')
            | inr f ↦ rw (q, remove_from, e, f) (remove_from-kept t ds done w' s.1 n p')
          ]
        ]
  ]

  -- The registry, the times and the outside world as they were for `id`.
  abbrev pub Kept : View W → View W → Type 0
  Kept v u =
      (lookup id u.tenants.tenants ≡ lookup id v.tenants.tenants)
      × (lookup id u.last_seen ≡ lookup id v.last_seen)
      × P u.world

  offboard-Kept :
      (ds : List (Offboarder W)) (ts : List Tenant) (v : View W)
      → All Spares ds
      → All (Other id) ts
      → P v.world
      → Kept v (offboard ds ts v)
  unfolding offboard delete
  offboard-Kept ds [] v s o h = (refl, refl, h)
  offboard-Kept ds (t ∷ ts) v s o h =
      let done = done_with t.id v.offboarded in
      let r = remove_from t ds done v.world in
      let h' = remove_from-kept t ds done v.world s o.0 h in
      elim (Bool-cases r.0) [
        | inl q ↦
            let u : View W = record v {
              tenants = delete t.id v.tenants;
              last_seen = erase t.id v.last_seen;
              offboarded = erase t.id v.offboarded;
              world = r.2;
            } in
            let k = offboard-Kept ds ts u s o.1 h' in
            rw (q, offboard)
              (
                k.0 ∙ lookup-erase t.id id v.tenants.tenants ∙ rw o.0 refl,
                k.1 ∙ lookup-erase t.id id v.last_seen ∙ rw o.0 refl,
                k.2,
              )
        | inr q ↦
            let u : View W = record v { offboarded = insert t.id r.1 v.offboarded; world = r.2 } in
            rw (q, offboard) (offboard-Kept ds ts u s o.1 h')
      ]

  -- The tenants that were found, when discovery did not fail.
  abbrev pub Spared : Setup W → View W → Type 0
  Spared setup v = elim (discover (setup.api v.world) setup.discoverer) [
    | none ↦ Unit
    | some cs ↦
        (member id (ids (tenants_from setup.billing cs)) ≡ true)
        ⊎ Recent setup.offboard_grace (setup.now v.world) (lookup id v.last_seen)
  ]

  -- Reconcile leaves a tenant alone that discovery found, or that was seen less than the grace
  -- period ago, or when discovery failed: no destination is asked to remove it, and its entry in the
  -- registry and its time stay as they were noted.
  pub reconcile-Kept :
      (setup : Setup W) (v : View W)
      → All Spares setup.dests
      → Keyed v.tenants
      → Distinct v.last_seen
      → Spared setup v
      → P v.world
      → Kept (noted setup v) (reconcile setup v)
  unfolding reconcile
  reconcile-Kept setup v s k d here h =
      elim (Option-cases (discover (setup.api v.world) setup.discoverer)) [
        | inl e ↦ rw (e, reconcile, noted) (refl, refl, h)
        | inr (cs, e) ↦
            let ts = tenants_from setup.billing cs in
            let now = setup.now v.world in
            let u = refreshed setup cs v in
            let g = gone now setup.offboard_grace (ids ts) u.tenants u.last_seen in
            let o : All (Other id) g =
              gone-Other id now setup.offboard_grace (ids ts) u.tenants u.last_seen
                (upsert_all-Keyed ts v.tenants k) (mark_seen-Distinct now ts v.last_seen d)
                (Here-noted id now setup.offboard_grace ts v.last_seen (rw (e, Spared) at here)) in
            rw (e, reconcile, noted) (offboard-Kept setup.dests g u s o h)
      ]
