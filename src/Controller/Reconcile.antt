-- ===== src/Controller/Reconcile.antt =====
-- Reconcile and untilNextWindow of internal/controller/controller.go. The
-- Kubernetes API, the clock and the destinations' RemoveTenant are parameters.
pub mod Gone
pub mod Kept
use vbilling.Prelude.{
  ℕ, ◌+◌, ◌-◌, Bool, true, false, not, ◌&&◌, Option, none, some, List, [], ◌∷◌, ◌++◌, map,
}
use vbilling.Prelude.Tests.{leb, if◌then◌else◌}
use vbilling.Prelude.Text.{Text, Map, text_eq, lookup, insert, erase, member}
use vbilling.Usage.{Time, Duration, Tenant, truncate}
use vbilling.Discovery.{Api, Discoverer, TenantCluster, tenant_id, discover}
use vbilling.Pipeline.Tenants.{TenantRegistry, get, upsert, delete}
use vbilling.Pipeline.Deliver.{Refusal}
use vbilling.Controller.Tenants.{Billing, tenants_from}

-- The part of a destination that Reconcile calls.
pub record Offboarder (W : Type 0) : Type 0 where
  pub name : Text
  pub remove_tenant : Tenant → W → Option Refusal × W

pub record Setup (W : Type 0) : Type 0 where
  pub api : W → Api
  pub now : W → Time
  pub dests : List (Offboarder W)
  pub discoverer : Discoverer
  pub billing : Billing
  pub offboard_grace : Duration

-- `offboarded` has the names of the destinations that are done with a tenant.
pub record View (W : Type 0) : Type 0 where
  pub tenants : TenantRegistry
  pub clusters : List TenantCluster
  pub discovered : Bool
  pub last_seen : Map Time
  pub offboarded : Map (List Text)
  pub world : W

-- Two seconds.
abbrev pub settle : Duration
settle = 2000000000

-- The wait is a difference of two times, and the first is never the later one.
unfoldable pub until_next_window : Duration → Time → Duration
unfolding truncate
until_next_window size now = (truncate now size + size + settle) - now

unfoldable pub upsert_all : List Tenant → TenantRegistry → TenantRegistry
unfolding upsert
upsert_all [] r = r
upsert_all (t ∷ ts) r = upsert_all ts (upsert t r)

unfoldable pub mark_seen : Time → List Tenant → Map Time → Map Time
unfolding insert
mark_seen now [] m = m
mark_seen now (t ∷ ts) m = mark_seen now ts (insert t.id now m)

unfoldable pub restart_offboarding : List Tenant → Map (List Text) → Map (List Text)
unfolding erase
restart_offboarding [] m = m
restart_offboarding (t ∷ ts) m = restart_offboarding ts (erase t.id m)

-- The tenants to offboard; `now.Sub(seen) >= grace` is written as a sum.
unfoldable pub gone : Time → Duration → List Text → TenantRegistry → Map Time → List Tenant
unfolding get member
gone now grace current r [] = []
gone now grace current r ((id, seen) ∷ m) =
    let rest = gone now grace current r m in
    if not (member id current) && leb (seen + grace) now then get id r ∷ rest else rest

-- The destinations that are done with a tenant.
unfoldable pub done_with : Text → Map (List Text) → List Text
unfolding lookup
done_with id m = elim (lookup id m) [ none ↦ [] | some l ↦ l ]

abbrev pub ids : List Tenant → List Text
ids ts = map (λ t. t.id) ts

module _ {W : Type 0} where
  -- The loop over the destinations: whether all are done, and which are.
  unfoldable pub remove_from : Tenant → List (Offboarder W) → List Text → W → Bool × List Text × W
  unfolding member
  remove_from t [] done w = (true, done, w)
  remove_from t (d ∷ ds) done w = elim (member d.name done) [
    | true ↦ remove_from t ds done w
    | false ↦
        let (answer, w') = d.remove_tenant t w in
        elim answer [
          | none ↦ remove_from t ds (d.name ∷ done) w'
          | some refusal ↦ elim refusal.permanent [
            | true ↦ remove_from t ds (d.name ∷ done) w'
            | false ↦ let (ok, done', w'') = remove_from t ds done w' in (false, done', w'')
          ]
        ]
  ]

  unfoldable pub offboard : List (Offboarder W) → List Tenant → View W → View W
  unfolding remove_from delete done_with
  offboard ds [] v = v
  offboard ds (t ∷ ts) v =
      let done = done_with t.id v.offboarded in
      let (ok, done', w) = remove_from t ds done v.world in
      offboard ds ts (
        if ok
        then record v {
          tenants = delete t.id v.tenants;
          last_seen = erase t.id v.last_seen;
          offboarded = erase t.id v.offboarded;
          world = w;
        }
        else record v { offboarded = insert t.id done' v.offboarded; world = w })

  -- What Reconcile does with the clusters that Discover found, up to the offboarding.
  unfoldable pub refreshed : Setup W → List TenantCluster → View W → View W
  unfolding upsert_all mark_seen restart_offboarding tenants_from
  refreshed setup cs v =
      let ts = tenants_from setup.billing cs in
      record v {
        tenants = upsert_all ts v.tenants;
        clusters = cs;
        discovered = true;
        last_seen = mark_seen (setup.now v.world) ts v.last_seen;
        offboarded = restart_offboarding ts v.offboarded;
      }

  unfoldable pub reconcile : Setup W → View W → View W
  unfolding discover refreshed gone offboard tenants_from
  reconcile setup v = elim (discover (setup.api v.world) setup.discoverer) [
    | none ↦ v
    | some cs ↦
        let v' = refreshed setup cs v in
        offboard setup.dests
          (gone (setup.now v.world) setup.offboard_grace (ids (tenants_from setup.billing cs))
            v'.tenants v'.last_seen)
          v'
  ]
