-- ===== src/Examples/PipelineRuns.antt =====
-- A delivery to a backend that refuses every batch with the event "B" in it.
use mathlib.Core.Option.{some-injective}
use vbilling.Prelude.{
  ap, ◌≡◌, ◌≢◌, refl, Bool, true, false, Option, none, some, List, [], ◌∷◌, ◌++◌, inl, inr, arith,
  map,
}
use vbilling.Prelude.Tests.{if◌then◌else◌, Bool-cases}
use vbilling.Prelude.Lists.{All, All-mono}
use vbilling.Prelude.Text.{Text, text_eq, text_eq_refl, member, lookup, insert, Map}
use vbilling.Usage.{Event, Tenant}
use vbilling.Pipeline.Tenants.{TenantRegistry, mark_ensured, needs_ensure, minimal, get}
use vbilling.Pipeline.Deliver.{
  Refusal, Setup, Dispatch, done, exhausted, deliver, deliver_step, ensure_tenants, ensure_each,
  ensure_one, send, refused, isolate, halves, second_half, park, add_dead_letter, letters,
}
use vbilling.Pipeline.Deliver.Steps.{Promises, Handled}
use vbilling.Pipeline.Deliver.Handled.{deliver-Handled}
use vbilling.Pipeline.Deliver.Ends.{deliver_ends}
use vbilling.Examples.SpoolRuns.{healthy, fresh, event}

unfoldable pub has_b : List Event → Bool
unfolding text_eq
has_b [] = false
has_b (e ∷ es) = if text_eq e.id (66 ∷ []) then true else has_b es

unfoldable pub refusal : Refusal
refusal = record { partial = none; permanent = true; text = 110 ∷ 111 ∷ [] }

-- The world is the IDs that the backend has stored.
abbrev pub Stored : List Text → Event → Type 0
Stored w e = member e.id w ≡ true

unfoldable pub send_to : List Event → List Text → Option Refusal × List Text
unfolding has_b refusal
send_to es w = if has_b es then (some refusal, w) else (none, map (λ (e : Event). e.id) es ++ w)

unfoldable pub backend : Setup (List Text)
unfolding send_to
backend = record {
  dest = record {
    name = 115 ∷ [];
    ensure_tenant = λ t w. (none, w);
    send_events = send_to;
    filter = none;
  };
  ask = λ w. (healthy, w);
  fingerprint = λ t. t.id;
}

keeps_more :
    (es : List Event) (w : List Text) (e : Event)
    → Stored w e
    → Stored (map (λ (e : Event). e.id) es ++ w) e
unfolding member
keeps_more [] w e h = h
keeps_more (f ∷ es) w e h = ground (arith, keeps_more es w e h)

stores_all : (es : List Event) (w : List Text) → All (Stored (map (λ (e : Event). e.id) es ++ w)) es
unfolding member
stores_all [] w = tt
stores_all (f ∷ es) w =
    (ground (arith, text_eq_refl f.id), All-mono es (λ g h. ground arith) (stores_all es w))

send_keeps : (es : List Event) (w : List Text) (e : Event) → Stored w e → Stored (send_to es w).1 e
unfolding send_to
send_keeps es w e h = elim (Bool-cases (has_b es)) [
  | inl b ↦ rw (b, send_to) h
  | inr b ↦ rw (b, send_to) (keeps_more es w e h)
]

sends :
    (es : List Event) (w : List Text) → (send_to es w).0 ≡ none → All (Stored (send_to es w).1) es
unfolding send_to
sends es w h = elim (Bool-cases (has_b es)) [
  | inl b ↦ cc (rw (b, send_to) at h)
  | inr b ↦ rw (b, send_to) (stores_all es w)
]

never_partial :
    (es : List Event) (w : List Text) (x : Refusal) (m : Map Text)
    → (send_to es w).0 ≡ some x
    → x.partial ≡ some m
    → ⊥
unfolding send_to refusal
never_partial es w x m h q = elim (Bool-cases (has_b es)) [
  | inl b ↦
      cc (ap (λ (r : Refusal). r.partial) (some-injective refusal x (rw (b, send_to) at h)), q)
  | inr b ↦ cc (rw (b, send_to) at h)
]

pub backend-Promises : Promises backend Stored
unfolding backend
backend-Promises = record {
  ensure_keeps = λ t w e h. h;
  send_keeps = send_keeps;
  ask_keeps = λ w e h. h;
  sent = sends;
  sent_partial = λ es w x r h q. elim (never_partial es w x r h q) [ ];
}

abbrev batch : List Event
batch = event (65 ∷ []) ∷ event (66 ∷ []) ∷ event (67 ∷ []) ∷ []

abbrev start : Dispatch (List Text)
start = record { spool = fresh; tenants = some (record { tenants = []; ensured = [] }); world = [] }

abbrev delivered : Dispatch (List Text)
delivered = (deliver backend 3 batch start).1

delivers : deliver backend 3 batch start ≡ (done 1, delivered)
unfolding deliver deliver_step ensure_tenants send refused isolate halves second_half park
    add_dead_letter letters ensure_each ensure_one get minimal needs_ensure mark_ensured backend
    lookup insert member
delivers = refl

-- "A" and "C" are stored and "B" is parked.
deliver-Handled_example : Handled backend Stored batch 1 start delivered
deliver-Handled_example =
    deliver-Handled backend Stored backend-Promises 3 1 batch start delivered delivers

deliver_ends_example : (deliver backend 3 batch start).0 ≢ exhausted
deliver_ends_example = deliver_ends backend 3 batch start (omega arith) (omega arith)

abbrev print_of : Tenant → Text
print_of t = t.id ++ t.plan

abbrev tenant : Tenant
tenant = minimal (116 ∷ [])

abbrev upgraded : Tenant
upgraded = record tenant { plan = 112 ∷ [] }

abbrev registry : TenantRegistry
registry = record { tenants = []; ensured = [] }
