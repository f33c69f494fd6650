-- ===== src/Discovery.antt =====
-- internal/discovery/discovery.go: which tenant clusters run, and the billing settings on them.
-- What the Kubernetes API answers is a parameter. An instance of the platform is given by the strings
-- that nestedString reads from it.
pub mod Found
use vbilling.Prelude.{
  ℕ, ◌<◌, Bool, true, false, not, ◌&&◌, ◌||◌, Option, none, some, List, [], ◌∷◌, ◌++◌, map,
}
use vbilling.Prelude.Tests.{ltb, ◌==◌, if◌then◌else◌}
use vbilling.Prelude.Text.{Text, Map, codes, text_eq, lookup, insert, member}
use vbilling.Prelude.Order.{sort_by}
use vbilling.Usage.{Time}
use vbilling.Kv.{cut_prefix}

abbrev pub annotation_prefix : Text
annotation_prefix = codes "vbilling.vcluster.com/"

pub record TenantCluster : Type 0 where
  pub name : Text
  pub namespace : Text
  pub uid : Text
  pub created_at : Time
  pub ready : Bool
  pub source : Text
  pub project : Text
  pub instance_name : Text
  pub external : Bool
  pub display_name : Text
  pub labels : Map Text
  pub annotations : Map Text

abbrev pub external_id : TenantCluster → Text
external_id c =
    if c.external
    then codes "external-" ++ c.name
    else codes "vcluster-" ++ (c.namespace ++ codes "-" ++ c.name)

-- A missing key reads as "".
unfoldable pub value_of : Text → Map Text → Text
unfolding lookup
value_of k m = elim (lookup k m) [ none ↦ [] | some v ↦ v ]

unfoldable pub meta : TenantCluster → Text → Text
unfolding value_of text_eq
meta c key =
    let v = value_of (annotation_prefix ++ key) c.annotations in
    if text_eq v [] then value_of (annotation_prefix ++ key) c.labels else v

-- `per_project` is the source TenantPerProject.
unfoldable pub tenant_id : Bool → TenantCluster → Text
unfolding meta text_eq
tenant_id per_project c =
    let v = meta c (codes "tenant") in
    if not (text_eq v [])
    then v
    else if per_project && not (text_eq c.project [])
    then codes "project-" ++ c.project
    else external_id c

-- What fromWorkloads reads of a StatefulSet or a Deployment.
pub record Workload : Type 0 where
  pub name : Text
  pub namespace : Text
  pub uid : Text
  pub created_at : Time
  pub ready_replicas : ℕ
  pub labels : Map Text
  pub annotations : Map Text

-- The labels and the annotations of a namespace.
abbrev pub Marks : Type 0
Marks = Map Text × Map Text

pub record Instance : Type 0 where
  pub name : Text
  pub namespace : Text
  pub cluster : Text
  pub cluster_namespace : Text
  pub virtual_cluster : Text
  pub display_name : Text
  pub labels : Map Text
  pub annotations : Map Text

-- The answers of the API; `none` is an error.
pub record Api : Type 0 where
  pub stateful_sets : Text → Option (List Workload)
  pub deployments : Text → Option (List Workload)
  pub namespace : Text → Option Marks
  pub instances : Option (List Instance)

pub record Discoverer : Type 0 where
  pub has_platform : Bool
  pub namespaces : List Text
  pub platform_cluster : Text
  pub external : List TenantCluster

unfoldable pub new_discoverer : Bool → List Text → Text → Discoverer
new_discoverer has_platform namespaces platform_cluster = record {
  has_platform = has_platform;
  namespaces = namespaces;
  platform_cluster = platform_cluster;
  external = [];
}

-- WithExternal
unfoldable pub with_external : List TenantCluster → Discoverer → Discoverer
with_external clusters d = record d { external = clusters }

unfoldable pub merge : Map Text → Map Text → Map Text
unfolding insert
merge base [] = base
merge base ((k, v) ∷ over) = merge (insert k v base) over

-- metav1.NamespaceAll is "".
unfoldable pub scope : Discoverer → List Text
scope d = elim d.namespaces [ [] ↦ [] ∷ [] | n ∷ ns ↦ n ∷ ns ]

abbrev pub workload_key : Text → Text → Text
workload_key namespace name = namespace ++ codes "/" ++ name

of_workload : Text → Workload → TenantCluster
unfolding merge
of_workload source w = record {
  name = w.name;
  namespace = w.namespace;
  uid = w.uid;
  created_at = w.created_at;
  ready = ltb 0 w.ready_replicas;
  source = source;
  project = [];
  instance_name = [];
  external = false;
  display_name = [];
  labels = merge [] w.labels;
  annotations = merge [] w.annotations;
}

-- The keys that were seen, and the clusters so far.
abbrev pub Sweep : Type 0
Sweep = List Text × List TenantCluster

unfoldable pub add_workloads : Text → List Workload → Sweep → Sweep
unfolding of_workload member
add_workloads source [] s = s
add_workloads source (w ∷ ws) (seen, out) =
    let key = workload_key w.namespace w.name in
    if member key seen
    then add_workloads source ws (seen, out)
    else add_workloads source ws (key ∷ seen, out ++ of_workload source w ∷ [])

unfoldable pub sweep_namespaces : Api → List Text → Sweep → Option Sweep
unfolding add_workloads
sweep_namespaces api [] s = some s
sweep_namespaces api (n ∷ ns) s = elim (api.stateful_sets n) [
  | none ↦ none
  | some sts ↦ elim (api.deployments n) [
    | none ↦ none
    | some deps ↦
        sweep_namespaces api ns
          (add_workloads (codes "deployment") deps (add_workloads (codes "statefulset") sts s))
  ]
]

unfoldable pub from_workloads : Api → Discoverer → Option (List TenantCluster)
unfolding sweep_namespaces scope
from_workloads api d = elim (sweep_namespaces api (scope d) ([], [])) [
  | none ↦ none
  | some s ↦ some s.1
]

unfoldable pub namespace_meta : Api → List TenantCluster → Map Marks → Option (Map Marks)
unfolding lookup insert
namespace_meta api [] out = some out
namespace_meta api (c ∷ cs) out = elim (lookup c.namespace out) [
  | some m ↦ namespace_meta api cs out
  | none ↦ elim (api.namespace c.namespace) [
    | none ↦ none
    | some m ↦ namespace_meta api cs (insert c.namespace m out)
  ]
]

-- The loop over the clusters in Discover: the workload's own settings win.
unfoldable pub with_marks : Map Marks → TenantCluster → TenantCluster
unfolding merge lookup
with_marks m c = elim (lookup c.namespace m) [
  | none ↦ c
  | some (labels, annotations) ↦ record c {
    labels = merge labels c.labels;
    annotations = merge annotations c.annotations;
  }
]

unfoldable pub enrich_one : Instance → TenantCluster → TenantCluster
unfolding merge cut_prefix text_eq
enrich_one i c = record c {
  instance_name = i.name;
  project = elim (cut_prefix (codes "p-") i.namespace) [ none ↦ c.project | some p ↦ p ];
  display_name = if text_eq i.display_name [] then c.display_name else i.display_name;
  labels = merge c.labels i.labels;
  annotations = merge c.annotations i.annotations;
}

abbrev pub same_place : Text → TenantCluster → Bool
same_place key c = text_eq (workload_key c.namespace c.name) key

-- `byKey` holds one cluster of a key, the last; fromWorkloads gives one only.
unfoldable pub enrich_at : Text → Instance → List TenantCluster → List TenantCluster
unfolding enrich_one text_eq
enrich_at key i [] = []
enrich_at key i (c ∷ cs) = (if same_place key c then enrich_one i c else c) ∷ enrich_at key i cs

unfoldable pub enrich : Text → List Instance → List TenantCluster → List TenantCluster
unfolding enrich_at text_eq
enrich platform [] cs = cs
enrich platform (i ∷ is) cs =
    let name = if text_eq i.virtual_cluster [] then i.name else i.virtual_cluster in
    let elsewhere =
      not (text_eq platform []) && not (text_eq i.cluster []) && not (text_eq i.cluster platform) in
    enrich platform is
      (if elsewhere then cs else enrich_at (workload_key i.cluster_namespace name) i cs)

unfoldable pub enrich_from_platform : Api → Discoverer → List TenantCluster → List TenantCluster
unfolding enrich
enrich_from_platform api d cs =
    if d.has_platform
    then elim api.instances [ none ↦ cs | some is ↦ enrich d.platform_cluster is cs ]
    else cs

-- The last loop of Discover over a cluster.
unfoldable pub settled : TenantCluster → TenantCluster
unfolding meta text_eq
settled c0 =
    let c1 = if text_eq c0.instance_name [] then record c0 { instance_name = c0.name } else c0 in
    let p = meta c1 (codes "project") in
    let c2 = if text_eq p [] then c1 else record c1 { project = p } in
    let n = meta c2 (codes "display-name") in
    if text_eq n [] then c2 else record c2 { display_name = n }

unfoldable pub excluded : TenantCluster → Bool
unfolding meta text_eq
excluded c = text_eq (meta c (codes "exclude")) (codes "true")

unfoldable pub kept : List TenantCluster → List TenantCluster
unfolding settled excluded
kept [] = []
kept (c ∷ cs) = let rest = kept cs in let c' = settled c in if excluded c' then rest else c' ∷ rest

unfoldable pub discover : Api → Discoverer → Option (List TenantCluster)
unfolding from_workloads namespace_meta with_marks enrich_from_platform kept sort_by
discover api d = elim (from_workloads api d) [
  | none ↦ none
  | some cs ↦ elim (namespace_meta api cs []) [
    | none ↦ none
    | some m ↦ some (
        sort_by external_id
          (kept (enrich_from_platform api d (map (with_marks m) cs) ++ d.external)))
  ]
]
