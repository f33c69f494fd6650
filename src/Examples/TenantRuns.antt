-- ===== src/Examples/TenantRuns.antt =====
-- The tenant clusters of a small API, the tenants that are billed for them, and a gap of one of them.
use vbilling.Prelude.{
  ◌+◌, ◌-◌, ◌≡◌, refl, ap, inr, true, false, Option, none, some, List, [], ◌∷◌, arith,
}
use vbilling.Prelude.Lists.{All}
use vbilling.Prelude.Text.{Text, codes, text_eq, lookup}
use vbilling.Prelude.Order.{Sorted, sort_by}
use vbilling.Kv.{Store}
use vbilling.Discovery.{Api, Discoverer, TenantCluster, Workload, discover}
use vbilling.Pipeline.Tenants
use vbilling.Pipeline.Tenants.{TenantRegistry, minimal}
use vbilling.Controller.Tenants.{Billing, clusters_of, tenants_from}
use vbilling.Controller.Tenants.Grouping.{count_id, names, tenants_from-Grouped}
use vbilling.Controller.Reconcile.{Offboarder, Setup, View, reconcile}
use vbilling.Controller.Reconcile.Kept.{Kept, noted, reconcile-Kept}
use vbilling.Controller.Gaps.{Gap, print_gap, Clock}
use vbilling.Controller.Gaps.Filled.{Filled}
use vbilling.Controller.Plan.{Window}
use vbilling.Controller.Meter.{Meter, Metered, Target}
use vbilling.Examples.SpoolRuns.{batch, fresh}

abbrev workload : Text → Workload
workload name = record {
  name = name;
  namespace = codes "ns";
  uid = codes "uid";
  created_at = 10;
  ready_replicas = 1;
  labels = [];
  annotations = [];
}

-- Two stateful sets and no deployment.
abbrev api : Api
api = record {
  stateful_sets = λ n. some (workload (codes "b") ∷ workload (codes "a") ∷ []);
  deployments = λ n. some [];
  namespace = λ n. some ((codes "vbilling.vcluster.com/tenant", codes "acme") ∷ [], []);
  instances = none;
}

abbrev discoverer : Discoverer
discoverer = record { has_platform = true; namespaces = []; platform_cluster = []; external = [] }

abbrev cluster : Text → TenantCluster
cluster name = record {
  name = name;
  namespace = codes "ns";
  uid = codes "uid";
  created_at = 10;
  ready = true;
  source = codes "statefulset";
  project = [];
  instance_name = name;
  external = false;
  display_name = [];
  labels = (codes "vbilling.vcluster.com/tenant", codes "acme") ∷ [];
  annotations = [];
}

abbrev found : List TenantCluster
found = cluster (codes "a") ∷ cluster (codes "b") ∷ []

abbrev billing : Billing
billing = record { per_project = false; region = codes "eu"; tenant_class = codes "public" }

tenants_from-Grouped_example :
    (count_id (codes "acme") (tenants_from billing found) ≡ 1)
    × All
        (λ t. t.clusters ≡ sort_by (λ x. x) (names billing t.id found))
        (tenants_from billing found)
    × Sorted (λ t. t.id) (tenants_from billing found)
unfolding clusters_of
tenants_from-Grouped_example = tenants_from-Grouped billing found (codes "acme")

-- The destination lists the tenants that it was asked to remove.
abbrev remover : Offboarder (List Text)
remover = record { name = codes "noop"; remove_tenant = λ t w. (none, t.id ∷ w) }

abbrev setup : Setup (List Text)
setup = record {
  api = λ w. api;
  now = λ w. 9000;
  dests = remover ∷ [];
  discoverer = discoverer;
  billing = billing;
  offboard_grace = 1000;
}

-- A tenant was seen long ago, another one lately.
abbrev view : View (List Text)
view = record {
  tenants = record { tenants = []; ensured = [] };
  clusters = [];
  discovered = true;
  last_seen = (codes "old", 10) ∷ (codes "beta", 8500) ∷ [];
  offboarded = [];
  world = [];
}

-- "beta" was not removed.
abbrev Spared : List Text → Type 0
Spared w = All (λ id. text_eq id (codes "beta") ≡ false) w

reconcile-Kept_example : Kept (codes "beta") Spared (noted setup view) (reconcile setup view)
unfolding text_eq lookup minimal discover Tenants.get
reconcile-Kept_example =
    reconcile-Kept (codes "beta") Spared setup view (record { other = λ t w n h. (n, h) }, tt)
      (λ k. refl) (refl, (refl, tt)) (inr (omega arith)) tt

abbrev clock : Clock
clock = record {
  print_time = λ t. (t + 125) ∷ [];
  parse_time = λ v. elim v [ [] ↦ none | x ∷ xs ↦ some (x - 125) ];
  print_time_bar = λ t. ((λ e. omega (arith, e)), tt);
  parse-print_time = λ t y h. ap some (omega arith);
}

abbrev gaps : Store
gaps = record { path = codes "gaps.json"; entries = []; file = none }

abbrev target : Target
target = record {
  cluster = cluster (codes "a");
  tenant = codes "acme";
  project = [];
  tenant_class = [];
}

abbrev outage : Gap
outage = record { from = 60000000000; to = 120000000000 }

abbrev gap_meter : Meter (Unit {0})
gap_meter = record {
  spool = fresh;
  gaps = record gaps {
    entries = (codes "vcluster-ns-a", print_gap clock 60000000000 120000000000) ∷ [];
  };
  last_window = 0;
  world = tt;
}

abbrev fills : Target → List Window → Unit {0} → Option Metered × Unit {0}
fills t ws w = (some (record { by_window = λ x. batch; failed = [] }), w)
