-- ===== src/Enforcement.antt =====
-- internal/enforcement/enforcer.go: the billing state of each tenant. `Set` is `set_state`,
-- and `apply` is what HandleStripe and HandleMetronome do with a signal. Logging and gauges are left out,
-- and error texts. The Kubernetes API, the adapters' customer tables and encoding/json are parameters.
pub mod Reflect
pub mod States
pub mod Signals
pub mod Synced
pub mod Restart
pub mod Webhooks
use vbilling.Prelude.{
  ℕ, Bool, true, false, not, ◌&&◌, ◌||◌, Option, none, some, List, [], ◌∷◌, ◌++◌, ◌≡◌,
}
use vbilling.Prelude.Tests.{if◌then◌else◌}
use vbilling.Prelude.Text.{Text, Map, codes, text_eq, lookup, insert}
use vbilling.Usage.{Time}
use vbilling.Spool.Codec.{Bytes}
use vbilling.Destinations.SentCache.{SentCache, new_sent_cache, has, add}
use vbilling.Kv.{Disk, Store, set, with_prefix}

abbrev pub active : Text
active = codes "active"

abbrev pub warning : Text
warning = codes "warning"

abbrev pub delinquent : Text
delinquent = codes "delinquent"

abbrev pub suspended : Text
suspended = codes "suspended"

-- A State is a string; "" is the zero value.
unfoldable pub valid : Text → Bool
unfolding text_eq
valid s = text_eq s active || text_eq s warning || text_eq s delinquent || text_eq s suspended

abbrev pub label_state : Text
label_state = codes "vbilling.vcluster.com/billing-state"

abbrev pub label_suspended : Text
label_suspended = codes "vbilling.vcluster.com/suspended"

abbrev pub annotation_why : Text
annotation_why = codes "vbilling.vcluster.com/billing-reason"

abbrev pub annotation_at : Text
annotation_at = codes "vbilling.vcluster.com/billing-state-at"

pub record Signal : Type 0 where
  pub id : Text
  pub source : Text
  pub type : Text
  pub customer_id : Text
  pub tenant : Text
  pub state : Text
  pub reason : Text
  pub at : Time

pub record TenantState : Type 0 where
  pub tenant : Text
  pub state : Text
  pub reason : Text
  pub source : Text
  pub event_type : Text
  pub since : Time

-- What the enforcer uses of discovery.TenantCluster.
pub record Cluster : Type 0 where
  pub name : Text
  pub namespace : Text
  pub source : Text

-- The Kubernetes event for a state, whose name and texts are printed from these.
pub record Notice : Type 0 where
  pub deployment : Bool
  pub namespace : Text
  pub name : Text
  pub state : Text
  pub since : Time
  pub reason : Text
  pub warns : Bool

-- The calls of the Kubernetes API on the outside world; `false` is an error. In a merge patch the
-- value `none` removes the key.
pub record Kube (W : Type 0) : Type 0 where
  pub patch_workload : Bool → Text → Text → Map (Option Text) → W → Bool × W
  pub patch_namespace : Text → Map (Option Text) → W → Bool × W
  pub create_event : Notice → W → W

pub record Options (W : Type 0) : Type 0 where
  pub mode : Text
  pub rules : Map Text
  pub clusters : Option (Text → W → List Cluster)
  pub resolvers : Map (Text → W → Option Text × W)
  pub kube : Option (Kube W)
  pub now : W → Time
  pub disk : W → Disk
  -- time.RFC3339
  pub print_time : Time → Text
  pub marshal : TenantState → Text
  pub unmarshal : Text → Option TenantState
  -- The time is before the year 10000, and the strings are valid UTF-8.
  pub encodable : TenantState → Bool
  pub decoded : (t : TenantState) → encodable t ≡ true → unmarshal (marshal t) ≡ some t

-- `store` is the source's `opts.State`.
pub record Enforcer (W : Type 0) : Type 0 where
  pub seen : SentCache
  pub states : Map TenantState
  pub store : Store
  pub world : W

pub data Outcome : Type 0 where
  applied ignored duplicate unknown_customer invalid unsaved bad_signature undecoded : Outcome
  -- the clusters that refused
  unreflected : List Cluster → Outcome

abbrev pub observe : Text
observe = codes "observe"

abbrev pub enforce : Text
enforce = codes "enforce"

abbrev pub state_prefix : Text
state_prefix = codes "state/"

abbrev pub state_key : Text → Text
state_key tenant = state_prefix ++ tenant

-- A tenant without a state has the zero value.
unfoldable pub prev_of : Text → Map TenantState → TenantState
prev_of tenant m = elim (lookup tenant m) [
  | some t ↦ t
  | none ↦ record { tenant = []; state = []; reason = []; source = []; event_type = []; since = 0 }
]

-- StateOf
unfoldable pub state_of : {W : Type 0} → Text → Enforcer W → TenantState
state_of tenant e = elim (lookup tenant e.states) [
  | some t ↦ t
  | none ↦ record {
    tenant = tenant;
    state = active;
    reason = [];
    source = [];
    event_type = [];
    since = 0;
  }
]

module _ {W : Type 0} (o : Options W) where
  unfoldable pub load : Map Text → Map TenantState
  load [] = []
  load ((tenant, raw) ∷ m) =
      let rest = load m in elim (o.unmarshal raw) [ none ↦ rest | some t ↦ insert tenant t rest ]

  -- New
  unfoldable pub start : Store → W → Enforcer W
  unfolding load
  start store w = record {
    seen = new_sent_cache 10000;
    states = load (with_prefix state_prefix store);
    store = store;
    world = w;
  }

  unfoldable pub labels_of : TenantState → Map (Option Text)
  unfolding text_eq
  labels_of t =
      (label_state, some t.state)
      ∷ (
        label_suspended,
        (if text_eq o.mode enforce && text_eq t.state suspended then some (codes "true") else none),
      )
      ∷ []

  annotations_of : TenantState → Map (Option Text)
  annotations_of t =
      (label_state, some t.state)
      ∷ (annotation_why, some t.reason)
      ∷ (annotation_at, some (o.print_time t.since))
      ∷ []

  notice_of : Cluster → TenantState → Notice
  unfolding text_eq
  notice_of c t = record {
    deployment = text_eq c.source (codes "deployment");
    namespace = c.namespace;
    name = c.name;
    state = t.state;
    since = t.since;
    reason = t.reason;
    warns = not (text_eq t.state active);
  }

  unfoldable pub reflect : Kube W → Cluster → TenantState → W → Bool × W
  unfolding text_eq labels_of annotations_of notice_of
  reflect k c t w =
      let (annotated, w1) =
        k.patch_workload (text_eq c.source (codes "deployment")) c.namespace c.name
          (annotations_of t) w in
      let (labelled, w2) = k.patch_namespace c.namespace (labels_of t) w1 in
      if annotated
      then if labelled then (true, k.create_event (notice_of c t) w2) else (false, w2)
      else (false, w1)

  -- Set's loop over the clusters; those that fail do not stop it.
  unfoldable pub reflect_each : Kube W → TenantState → List Cluster → W → List Cluster × W
  unfolding reflect
  reflect_each k t [] w = ([], w)
  reflect_each k t (c ∷ cs) w =
      let (fine, w1) = reflect k c t w in
      let (bad, w2) = reflect_each k t cs w1 in (if fine then bad else c ∷ bad, w2)

  unfoldable pub outcome_of : List Cluster → Outcome
  outcome_of [] = applied
  outcome_of (c ∷ cs) = unreflected (c ∷ cs)

  -- The end of Set: nothing to reflect, or the clusters of the tenant.
  unfoldable pub reflect_all : TenantState → Enforcer W → Outcome × Enforcer W
  unfolding text_eq reflect_each outcome_of
  reflect_all t e = elim o.kube [
    | none ↦ (applied, e)
    | some k ↦ elim o.clusters [
      | none ↦ (applied, e)
      | some clusters ↦
          let (bad, w) = reflect_each k t (clusters t.tenant e.world) e.world in
          if text_eq o.mode observe then (applied, e) else (outcome_of bad, record e { world = w })
    ]
  ]

  unfoldable pub next_state : Text → Text → Text → Text → Text → Enforcer W → TenantState
  unfolding prev_of text_eq
  next_state tenant state reason source event_type e =
      let prev = prev_of tenant e.states in
      record {
        tenant = tenant;
        state = state;
        reason = reason;
        source = source;
        event_type = event_type;
        since = if text_eq prev.state state then prev.since else o.now e.world;
      }

  -- Set of the state in memory and in the store.
  -- Set releases e.mu between these two steps, so calls that overlap may take them in any order.
  abbrev pub remember : TenantState → Enforcer W → Enforcer W
  remember t e = record e { states = insert t.tenant t e.states }

  abbrev pub save : TenantState → Enforcer W → Bool × Enforcer W
  save t e =
      let (saved, store) = set (o.disk e.world) (state_key t.tenant) (o.marshal t) e.store in
      (saved, record e { store = store })

  -- Both, when no other call of Set comes between them.
  unfoldable pub keep : TenantState → Enforcer W → Bool × Enforcer W
  keep t e = save t (remember t e)

  -- A call of Set that runs alone.
  unfoldable pub set_state : Text → Text → Text → Text → Text → Enforcer W → Outcome × Enforcer W
  unfolding valid next_state keep reflect_all
  set_state tenant state reason source event_type e =
      let t = next_state tenant state reason source event_type e in
      let (saved, e1) = keep t e in
      if valid state then if saved then reflect_all t e1 else (unsaved, e1) else (invalid, e)

  unfoldable pub override : Signal → Signal
  override sig = elim (lookup sig.type o.rules) [
    | none ↦ sig
    | some s ↦ record sig { state = s; reason = sig.reason ++ codes " (rule: " ++ s ++ codes ")" }
  ]

  unfoldable pub seen_after : Text → Outcome × Enforcer W → Outcome × Enforcer W
  seen_after id (applied, e) = (applied, record e { seen = add id e.seen })
  seen_after id (ignored, e) = (ignored, e)
  seen_after id (duplicate, e) = (duplicate, e)
  seen_after id (unknown_customer, e) = (unknown_customer, e)
  seen_after id (invalid, e) = (invalid, e)
  seen_after id (unsaved, e) = (unsaved, e)
  seen_after id (bad_signature, e) = (bad_signature, e)
  seen_after id (undecoded, e) = (undecoded, e)
  seen_after id (unreflected cs, e) = (unreflected cs, e)

  unfoldable pub apply_to : Signal → Option Text → Enforcer W → Signal × Outcome × Enforcer W
  unfolding set_state seen_after
  apply_to sig none e = (sig, unknown_customer, e)
  apply_to sig (some tenant) e =
      let sig' = record sig { tenant = tenant } in
      let (r, e') =
        seen_after sig.id (set_state tenant sig.state sig.reason sig.source sig.type e) in
      (sig', r, e')

  unfoldable pub resolve : Signal → Enforcer W → Signal × Outcome × Enforcer W
  unfolding apply_to
  resolve sig e = elim (lookup sig.source o.resolvers) [
    | none ↦ (sig, unknown_customer, e)
    | some tenant_for ↦
        let (tenant, w) = tenant_for sig.customer_id e.world in
        apply_to sig tenant (record e { world = w })
  ]

  -- The signal comes back with what apply has set in it.
  unfoldable pub apply : Signal → Enforcer W → Signal × Outcome × Enforcer W
  unfolding override resolve text_eq has
  apply sig e =
      let s = override sig in
      if text_eq s.state []
      then (s, ignored, e)
      else if has s.id e.seen
      then (s, duplicate, e)
      else resolve s e
