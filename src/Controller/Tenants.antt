-- ===== src/Controller/Tenants.antt =====
-- tenantsFrom and ClustersOf of internal/controller/controller.go: the billing tenants of the tenant
-- clusters.
pub mod Grouping
use vbilling.Prelude.{Bool, true, false, not, ◌&&◌, Option, none, some, List, [], ◌∷◌, ◌++◌, map}
use vbilling.Prelude.Tests.{ltb, ◌==◌, if◌then◌else◌}
use vbilling.Prelude.Lists.{length}
use vbilling.Prelude.Text.{Text, Map, codes, text_eq, lookup, insert}
use vbilling.Prelude.Order.{sort_by}
use vbilling.Usage.{Tenant}
use vbilling.Kv.{cut_prefix}
use vbilling.Discovery.{TenantCluster, external_id, meta, tenant_id}

unfoldable pub clusters_of : Bool → Text → List TenantCluster → List TenantCluster
unfolding tenant_id text_eq
clusters_of per_project tenant [] = []
clusters_of per_project tenant (c ∷ cs) =
    let rest = clusters_of per_project tenant cs in
    if text_eq (tenant_id per_project c) tenant then c ∷ rest else rest

-- What tenantsFrom uses of the configuration.
pub record Billing : Type 0 where
  pub per_project : Bool
  pub region : Text
  pub tenant_class : Text

-- The closure `first`.
unfoldable pub first : Text → List Text → Text
unfolding text_eq
first cur [] = cur
first cur (v ∷ vs) = first (if text_eq cur [] && not (text_eq v []) then v else cur) vs

-- `if v != "" { m[k] = v }`
unfoldable pub note : Text → Text → Map Text → Map Text
unfolding text_eq insert
note k v m = if text_eq v [] then m else insert k v m

unfoldable pub new_tenant : Billing → Text → TenantCluster → Tenant
new_tenant b id c = record {
  id = id;
  display_name = [];
  email = [];
  currency = [];
  region = b.region;
  project = [];
  class = [];
  plan = [];
  clusters = [];
  metadata = [];
  provider_ids = [];
  created_at = c.created_at;
}

-- One round of the loop over the clusters, on the cluster's tenant.
unfoldable pub join_tenant : Billing → TenantCluster → Tenant → Tenant
unfolding first note meta
join_tenant b c t = record t {
  clusters = t.clusters ++ external_id c ∷ [];
  created_at = if ltb c.created_at t.created_at then c.created_at else t.created_at;
  display_name = first t.display_name (meta c (codes "display-name") ∷ c.display_name ∷ []);
  email = first t.email (meta c (codes "email") ∷ []);
  currency = first t.currency (meta c (codes "currency") ∷ []);
  project = first t.project (c.project ∷ []);
  class = first t.class (meta c (codes "tenant-class") ∷ b.tenant_class ∷ []);
  plan = first t.plan (meta c (codes "plan") ∷ []);
  provider_ids =
      note (codes "metronome") (meta c (codes "metronome-customer-id"))
        (note (codes "stripe") (meta c (codes "stripe-customer-id")) t.provider_ids);
  metadata = note (codes "cost_center") (meta c (codes "cost-center")) t.metadata;
}

-- The tenant of an ID, or the new one.
unfoldable pub tenant_of : Billing → Text → TenantCluster → Map Tenant → Tenant
unfolding lookup new_tenant
tenant_of b id c m = elim (lookup id m) [ none ↦ new_tenant b id c | some t ↦ t ]

-- The loop over the clusters. The keys of `byID` are `ids`.
unfoldable pub group : Billing → List TenantCluster → Map Tenant → Map Tenant
unfolding tenant_of join_tenant tenant_id insert
group b [] m = m
group b (c ∷ cs) m =
    let id = tenant_id b.per_project c in
    group b cs (insert id (join_tenant b c (tenant_of b id c m)) m)

-- strings.Join
unfoldable pub join : Text → List Text → Text
join sep [] = []
join sep (t ∷ []) = t
join sep (t ∷ u ∷ ts) = t ++ (sep ++ join sep (u ∷ ts))

-- What a tenant is shown as without a display name.
unfoldable pub shown_as : Text → List Text → Text
unfolding cut_prefix
shown_as id clusters = elim (cut_prefix (codes "vcluster-") id) [
  | none ↦ id
  | some rest ↦ if length clusters == 1 then codes "Tenant cluster " ++ rest else id
]

-- The last loop of tenantsFrom over a tenant.
unfoldable pub finish : Tenant → Tenant
unfolding sort_by shown_as join note insert text_eq
finish t =
    let sorted = sort_by (λ x. x) t.clusters in
    let m =
      insert (codes "clusters") (join (codes ",") sorted)
        (insert (codes "region") t.region t.metadata) in
    record t {
      clusters = sorted;
      display_name = if text_eq t.display_name [] then shown_as t.id sorted else t.display_name;
      metadata = note (codes "project") t.project m;
    }

unfoldable pub values : {V : Type 0} → Map V → List V
values [] = []
values ((k, v) ∷ m) = v ∷ values m

-- The tenants come in the order of their IDs.
unfoldable pub tenants_from : Billing → List TenantCluster → List Tenant
unfolding group finish values sort_by
tenants_from b cs = map finish (sort_by (λ t. t.id) (values (group b cs [])))
