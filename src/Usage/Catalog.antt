-- ===== src/Usage/Catalog.antt =====
-- internal/usage/catalog.go: the metrics, built in and declared by the operator, and Finalize of
-- internal/usage/usage.go, which looks a unit up. A mutex makes an operation atomic, so the declared
-- metrics are a value. Round changes nothing, since a quantity is counted in the digits that it keeps.
pub mod Declared
use vbilling.Prelude.{Bool, true, false, Option, none, some, List, [], ◌∷◌, ◌++◌, map}
use vbilling.Prelude.Tests.{if◌then◌else◌}
use vbilling.Prelude.Text.{Text, Map, codes, text_eq, lookup, insert}
use vbilling.Prelude.Order.{sort_by}
use vbilling.Usage.{Event}
use vbilling.Usage.Identity.{Stamp, derive_id, is_name, schema_version_text}
use vbilling.Destinations.Signatures.{split, trim_space}

pub record MetricDef : Type 0 where
  pub code : Text
  pub name : Text
  pub unit : Text
  pub description : Text
  pub billable : Bool
  pub group_keys : List Text
  pub custom : Bool

abbrev pub builtin : List MetricDef
builtin =
    record {
      code = codes "vcluster_gpu_hours";
      name = codes "GPU Hours";
      unit = codes "gpu-hours";
      description =
          codes
            "GPU-equivalent hours allocated to running workloads. MIG and time-sliced GPUs count at their fraction.";
      billable = true;
      group_keys = codes "region" ∷ codes "sku" ∷ codes "capacity_type" ∷ codes "billing_mode" ∷ [];
      custom = false;
    }
    ∷ record {
      code = codes "vcluster_cpu_core_hours";
      name = codes "CPU Core Hours";
      unit = codes "core-hours";
      description =
          codes "vCPU core-hours (usage, requests or the larger of both, per configuration).";
      billable = true;
      group_keys = codes "region" ∷ codes "capacity_type" ∷ codes "billing_mode" ∷ [];
      custom = false;
    }
    ∷ record {
      code = codes "vcluster_memory_gb_hours";
      name = codes "Memory GiB Hours";
      unit = codes "gib-hours";
      description =
          codes "Memory GiB-hours (usage, requests or the larger of both, per configuration).";
      billable = true;
      group_keys = codes "region" ∷ codes "capacity_type" ∷ codes "billing_mode" ∷ [];
      custom = false;
    }
    ∷ record {
      code = codes "vcluster_storage_gb_hours";
      name = codes "Storage GiB Hours";
      unit = codes "gib-hours";
      description =
          codes "Requested capacity of bound persistent volume claims, per storage class.";
      billable = true;
      group_keys = codes "region" ∷ codes "sku" ∷ [];
      custom = false;
    }
    ∷ record {
      code = codes "vcluster_instance_hours";
      name = codes "Tenant Cluster Hours";
      unit = codes "hours";
      description = codes "Hours a tenant cluster control plane was running and ready.";
      billable = true;
      group_keys = codes "region" ∷ codes "tenant_class" ∷ [];
      custom = false;
    }
    ∷ record {
      code = codes "vcluster_private_node_hours";
      name = codes "Dedicated Node Hours";
      unit = codes "node-hours";
      description = codes "Whole nodes allocated to one tenant, billed for full capacity.";
      billable = true;
      group_keys = codes "region" ∷ codes "sku" ∷ codes "capacity_type" ∷ [];
      custom = false;
    }
    ∷ record {
      code = codes "vcluster_network_egress_gb";
      name = codes "Network Egress GiB";
      unit = codes "gib";
      description = codes "Transmitted bytes from tenant workloads (requires Prometheus).";
      billable = true;
      group_keys = codes "region" ∷ [];
      custom = false;
    }
    ∷ record {
      code = codes "vcluster_lb_hours";
      name = codes "Load Balancer Hours";
      unit = codes "hours";
      description = codes "Hours of Service type=LoadBalancer.";
      billable = true;
      group_keys = codes "region" ∷ [];
      custom = false;
    }
    ∷ record {
      code = codes "vcluster_gpu_utilization";
      name = codes "GPU Utilization Hours";
      unit = codes "util-hours";
      description =
          codes
            "Average DCGM GPU utilization (0-100) multiplied by hours. Informational (requires Prometheus + DCGM).";
      billable = false;
      group_keys = codes "region" ∷ codes "gpu_type" ∷ [];
      custom = false;
    }
    ∷ record {
      code = codes "vcluster_gpu_downtime_hours";
      name = codes "GPU Downtime Hours";
      unit = codes "gpu-hours";
      description =
          codes
            "Allocated GPU time excluded from billing because the node was not ready or unhealthy.";
      billable = false;
      group_keys = codes "region" ∷ codes "gpu_type" ∷ [];
      custom = false;
    }
    ∷ []

-- Catalog: the declared metrics `m` follow in the order of their codes.
unfoldable pub catalog : Map MetricDef → List MetricDef
unfolding sort_by
catalog m = builtin ++ map (λ e. e.1) (sort_by (λ e. e.0) m)

unfoldable pub only_billable : List MetricDef → List MetricDef
only_billable [] = []
only_billable (d ∷ ds) = let rest = only_billable ds in if d.billable then d ∷ rest else rest

-- Billable
unfoldable pub billable_metrics : Map MetricDef → List MetricDef
unfolding only_billable catalog
billable_metrics m = only_billable (catalog m)

unfoldable pub find_code : Text → List MetricDef → Option MetricDef
unfolding text_eq
find_code code [] = none
find_code code (d ∷ ds) =
    let rest = find_code code ds in if text_eq d.code code then some d else rest

-- Lookup
unfoldable pub lookup_metric : Text → Map MetricDef → Option MetricDef
unfolding find_code lookup
lookup_metric code m = elim (find_code code builtin) [ some d ↦ some d | none ↦ lookup code m ]

unfoldable pub or_else : Text → Text → Text
unfolding text_eq
or_else v t = if text_eq t [] then v else t

-- What RegisterCustom fills in.
unfoldable pub completed : MetricDef → MetricDef
unfolding or_else
completed d = record d {
  name = or_else d.code d.name;
  unit = or_else (codes "units") d.unit;
  custom = true;
  billable = true;
}

-- RegisterCustom; `none` is an error.
unfoldable pub register_custom : MetricDef → Map MetricDef → Option (Map MetricDef)
unfolding is_name lookup_metric completed insert
register_custom d m =
    if is_name 99 d.code
    then elim (lookup_metric d.code m) [
      | some e ↦ none
      | none ↦ some (insert d.code (completed d) m)
    ]
    else none

-- The definition that the parts between colons give.
unfoldable pub of_parts : List Text → Option MetricDef
unfolding split text_eq
of_parts ps = elim ps [
  | [] ↦ none
  | code ∷ us ↦ elim us [
    | [] ↦ some (with_parts code [] [])
    | unit ∷ ks ↦ elim ks [
      | [] ↦ some (with_parts code unit [])
      | keys ∷ more ↦ elim more [
        | [] ↦ some (with_parts code unit (if text_eq keys [] then [] else split 124 keys))
        | x ∷ xs ↦ none
      ]
    ]
  ]
]
  where
    with_parts : Text → Text → List Text → MetricDef
    with_parts code unit keys = record {
      code = code;
      name = [];
      unit = unit;
      description = [];
      billable = false;
      group_keys = keys;
      custom = false;
    }

unfoldable pub parse_items : List Text → Option (List MetricDef)
unfolding of_parts split trim_space text_eq
parse_items [] = some []
parse_items (x ∷ xs) =
    let item = trim_space x in
    let rest = parse_items xs in
    if text_eq item [] then rest else elim (of_parts (split 58 item)) [
      | none ↦ none
      | some d ↦ elim rest [ none ↦ none | some ds ↦ some (d ∷ ds) ]
    ]

unfoldable pub parse_custom_metrics : Text → Option (List MetricDef)
unfolding parse_items split
parse_custom_metrics spec = parse_items (split 44 spec)

-- `declared` are the operator's metrics.
unfoldable pub finalize : Stamp → (Text → Text) → Map MetricDef → Event → Event
unfolding derive_id text_eq lookup_metric
finalize k sum declared e =
    let unit =
      if text_eq e.unit []
      then elim (lookup_metric e.metric declared) [ none ↦ e.unit | some d ↦ d.unit ]
      else e.unit in
    let e' = record e { schema_version = schema_version_text; unit = unit } in
    if text_eq e'.id [] then record e' { id = derive_id k sum e' } else e'
