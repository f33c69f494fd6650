-- ===== src/Examples/EnforcementRuns.antt =====
-- A tenant with one cluster is suspended in the mode "annotate". The world is the list of namespaces
-- that carry the suspended label.
use mathlib.Core.Option.{some-injective}
use vbilling.Prelude.{
  ◌⊎◌, ℕ, subst, ◌≡◌, ◌≢◌, ◌++◌, refl, true, false, Option, none, some, List, [], ◌∷◌,
}
use vbilling.Prelude.Tests.{if◌then◌else◌}
use vbilling.Prelude.Lists.{length, take, drop, take-append_length, drop-append_length}
use vbilling.Prelude.Text.{Text, Map, codes, text_eq, lookup}
use vbilling.Destinations.SentCache.{new_sent_cache, has}
use vbilling.Kv.{get}
use vbilling.Enforcement.{
  prev_of, invalid, remember, save, active, suspended, label_suspended, Signal, TenantState,
  Cluster, Kube, Options, Enforcer, applied, duplicate, unsaved, valid, override, next_state,
  state_key, reflect_all, set_state, start, apply,
}
use vbilling.Enforcement.Reflect.{Unmarked, set_state-Unmarked}
use vbilling.Enforcement.Synced.{started, signalled}
use vbilling.Enforcement.Restart.{start-Reached, set_state-set_state_unsaved}
use vbilling.Enforcement.Signals.{apply_again}
use vbilling.Enforcement.States.{lookup-set_state}
use vbilling.Kv.{set}
use vbilling.Examples.KvRuns.{json, working}

-- A text with its length in front.
put : Text → Text → Text
put t rest = length t ∷ t ++ rest

pull : Text → Text × Text
pull [] = ([], [])
pull (n ∷ xs) = (take n xs, drop n xs)

pull-put : (t rest : Text) → pull (put t rest) ≡ (t, rest)
unfolding pull put
pull-put t rest = rw (take-append_length t rest, drop-append_length t rest) refl

print_state : TenantState → Text
print_state t =
    put t.tenant (put t.state (put t.reason (put t.source (put t.event_type (t.since ∷ [])))))

first_of : Text → ℕ
first_of [] = 0
first_of (n ∷ t) = n

read_state : Text → Option TenantState
read_state raw =
    let (tenant, r1) = pull raw in
    let (state, r2) = pull r1 in
    let (reason, r3) = pull r2 in
    let (source, r4) = pull r3 in
    let (event_type, r5) = pull r4 in
    let t : TenantState = record {
      tenant = tenant;
      state = state;
      reason = reason;
      source = source;
      event_type = event_type;
      since = first_of r5;
    } in
    some t

read_state-print_state : (t : TenantState) → read_state (print_state t) ≡ some t
unfolding read_state print_state first_of
read_state-print_state t =
    let r5 = t.since ∷ [] in
    let r4 = put t.event_type r5 in
    let r3 = put t.source r4 in
    let r2 = put t.reason r3 in
    let r1 = put t.state r2 in
    rw
      (
        pull-put t.tenant r1,
        pull-put t.state r2,
        pull-put t.reason r3,
        pull-put t.source r4,
        pull-put t.event_type r5,
      )
      refl

mark : Text → Map (Option Text) → List Text → List Text
mark n m w = elim (lookup label_suspended m) [
  | none ↦ w
  | some v ↦ elim v [ none ↦ w | some x ↦ n ∷ w ]
]

kube : Kube (List Text)
unfolding mark
kube = record {
  patch_workload = λ d n x m w. (true, w);
  patch_namespace = λ n m w. (true, mark n m w);
  create_event = λ x w. w;
}

abbrev cluster : Cluster
cluster = record { name = codes "acme"; namespace = codes "ns"; source = codes "statefulset" }

pub options : Options (List Text)
unfolding print_state read_state
options = record {
  mode = codes "annotate";
  rules = [];
  clusters = some (λ t w. cluster ∷ []);
  resolvers = (codes "stripe", λ id w. (some (codes "acme"), w)) ∷ [];
  kube = some kube;
  now = λ w. 7;
  disk = λ w. working;
  print_time = λ t. [];
  marshal = print_state;
  unmarshal = read_state;
  encodable = λ t. true;
  decoded = λ t h. read_state-print_state t;
}

abbrev pub enforcer : Enforcer (List Text)
enforcer = record {
  seen = new_sent_cache 2;
  states = [];
  store = record { path = codes "state.json"; entries = []; file = none };
  world = [];
}

abbrev sig : Signal
sig = record {
  id = codes "stripe:evt_1";
  source = codes "stripe";
  type = codes "customer.subscription.deleted";
  customer_id = codes "cus_1";
  tenant = [];
  state = suspended;
  reason = [];
  at = 7;
}

kube-Unmarked : Unmarked options (λ w. w ≡ []) kube
unfolding kube mark
kube-Unmarked = record {
  workload = λ d n x m w h. h;
  unlabelled = λ n m w e h. rw (e, mark) h;
  event = λ x w h. h;
}

every_kube : (k : Kube (List Text)) → options.kube ≡ some k → Unmarked options (λ w. w ≡ []) k
unfolding options
every_kube k h = subst (Unmarked options (λ w. w ≡ [])) (some-injective kube k h) kube-Unmarked

set_state-Unmarked_example :
    (set_state options (codes "acme") suspended [] (codes "stripe") [] enforcer).1.world ≡ []
set_state-Unmarked_example =
    set_state-Unmarked options (λ w. w ≡ []) (codes "acme") suspended [] (codes "stripe") []
      enforcer every_kube (unfold options text_eq in refl) refl

abbrev notified : Enforcer (List Text)
notified = (apply options sig enforcer).2

applies : apply options sig enforcer ≡ ((apply options sig enforcer).0, applied, notified)
unfolding options kube apply set_state valid text_eq lookup has new_sent_cache mark json set
applies = refl

apply_again_example : apply options sig notified ≡ (override options sig, duplicate, notified)
apply_again_example =
    apply_again options sig (apply options sig enforcer).0 enforcer notified applies

lookup-set_state_example :
    let x = set_state options (codes "acme") suspended [] (codes "stripe") [] enforcer in
    let before = prev_of (codes "acme") enforcer.states in
    ((valid suspended ≡ false) × (x ≡ (invalid, enforcer)))
    ⊎ ((valid suspended ≡ true)
        × (lookup (codes "acme") x.1.states ≡ (
            if text_eq (codes "acme") (codes "acme")
            then some (record {
              tenant = codes "acme";
              state = suspended;
              reason = [];
              source = codes "stripe";
              event_type = [];
              since = if text_eq before.state suspended then before.since else options.now [];
            })
            else lookup (codes "acme") enforcer.states)))
lookup-set_state_example =
    lookup-set_state options (codes "acme") suspended [] (codes "stripe") [] enforcer (codes "acme")

abbrev running : Enforcer (List Text)
running = (apply options sig (start options enforcer.store [])).2

-- Two calls of Set at once, of which the first one is saved last.
first_set : TenantState
first_set = next_state options (codes "acme") suspended [] (codes "stripe") [] running

second_set : TenantState
second_set =
    next_state options (codes "acme") active [] (codes "api") []
      (remember options first_set running)

start-Reached_example :
    let e = remember options second_set (remember options first_set running) in
    let f = (save options first_set (save options second_set e).1).1 in
    ((lookup (codes "acme") (start options running.store []).states
        ≡ lookup (codes "acme") running.states)
      ⊎ ((t : TenantState) × (lookup (codes "acme") running.states ≡ some t)
          × (options.encodable t ≡ false)))
    × (lookup (codes "acme") f.states ≡ some second_set)
    × (lookup (codes "acme") (start options f.store []).states ≡ some first_set)
unfolding first_set second_set
start-Reached_example =
    start-Reached options running [] (codes "acme")
      (signalled sig (start options enforcer.store []) (started enforcer.store [])) (codes "acme")
      suspended active [] [] (codes "stripe") (codes "api") [] [] (unfold options in refl)

-- The same with a disk that is full.
full : Options (List Text)
unfolding options
full = record options { disk = λ w. record working { write_ok = false } }

not_there :
    get (state_key (codes "acme")) enforcer.store
    ≢ some (full.marshal (next_state full (codes "acme") suspended [] (codes "stripe") [] enforcer))
unfolding lookup
not_there = λ e. cc e

set_state-set_state_unsaved_example :
    let t = next_state full (codes "acme") suspended [] (codes "stripe") [] enforcer in
    let x = set_state full (codes "acme") suspended [] (codes "stripe") [] enforcer in
    let e1 = record x.1 { world = [] } in
    (x.0 ≡ unsaved)
    × (set_state full (codes "acme") suspended [] (codes "stripe") [] e1 ≡ reflect_all full t e1)
    × (e1.store.file ≡ enforcer.store.file)
set_state-set_state_unsaved_example =
    set_state-set_state_unsaved full (codes "acme") suspended [] (codes "stripe") [] enforcer []
      (unfold valid text_eq in refl) (unfold text_eq in refl) not_there (unfold full in refl)
