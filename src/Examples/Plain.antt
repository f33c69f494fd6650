-- ===== src/Examples/Plain.antt =====
-- An injective stand-in for JSON, decimal numbers and SHA-256 that meets every law of `Codec`.
use mathlib.Core.Option.{some-injective}
use vbilling.Prelude.{
  sym, subst, ◌<◌, ℕ, zero, suc, ◌+◌, ◌-◌, ◌≡◌, ◌≢◌, ◌∙◌, refl, ap, Option, none, some, List, [],
  ◌∷◌, ◌++◌, map, arith,
}
use vbilling.Prelude.Lists.{length, drop, replicate, All, All-append}
use vbilling.Prelude.Text.{Text, Map}
use vbilling.Usage.{Event, Quantity, not_a_number, infinite, positive, negative}
use vbilling.Spool.Codec.{Bytes, Codec, Commit, Record, tab, newline, comma, seq_prefix}
use vbilling.Examples.Framing.{frame, unframe, unframe-frame, flat, pairs, pairs-flat}

at : ℕ → List Text → Text
at i [] = []
at zero (t ∷ ts) = t
at (suc i) (t ∷ ts) = at i ts

num : Text → ℕ
num [] = 0
num (n ∷ t) = n

quantity_text : Quantity → Text
quantity_text not_a_number = 0 ∷ []
quantity_text infinite = 1 ∷ []
quantity_text (positive n) = 2 ∷ n ∷ []
quantity_text (negative n) = 3 ∷ n ∷ []

quantity_of : Text → Quantity
quantity_of (suc (suc zero) ∷ n ∷ []) = positive n
quantity_of (suc (suc (suc zero)) ∷ n ∷ []) = negative n
quantity_of (suc zero ∷ []) = infinite
quantity_of _ = not_a_number

quantity_of-text : (q : Quantity) → quantity_of (quantity_text q) ≡ q
unfolding quantity_of quantity_text
quantity_of-text not_a_number = refl
quantity_of-text infinite = refl
quantity_of-text (positive n) = refl
quantity_of-text (negative n) = refl

event_texts : Option Event → List Text
event_texts none = []
event_texts (some e) =
    e.schema_version
    ∷ e.id
    ∷ e.tenant
    ∷ e.metric
    ∷ quantity_text e.quantity
    ∷ e.unit
    ∷ (e.window_start ∷ [])
    ∷ (e.window_end ∷ [])
    ∷ e.region
    ∷ e.project
    ∷ e.sku
    ∷ e.resource_id
    ∷ frame (flat e.dimensions)
    ∷ frame (flat e.properties)
    ∷ e.source
    ∷ (e.recorded_at ∷ [])
    ∷ []

event_of : List Text → Option Event
event_of [] = none
event_of (t ∷ ts) = some (record {
  schema_version = t;
  id = at 0 ts;
  tenant = at 1 ts;
  metric = at 2 ts;
  quantity = quantity_of (at 3 ts);
  unit = at 4 ts;
  window_start = num (at 5 ts);
  window_end = num (at 6 ts);
  region = at 7 ts;
  project = at 8 ts;
  sku = at 9 ts;
  resource_id = at 10 ts;
  dimensions = pairs (unframe (at 11 ts));
  properties = pairs (unframe (at 12 ts));
  source = at 13 ts;
  recorded_at = num (at 14 ts);
})

map_back : (m : Map Text) → pairs (unframe (frame (flat m))) ≡ m
map_back m = ap pairs (unframe-frame (flat m)) ∙ pairs-flat m

event_of-texts : (e : Option Event) → event_of (event_texts e) ≡ e
unfolding event_of event_texts at num
event_of-texts none = refl
event_of-texts (some e) = λ i. some (record e {
  quantity = quantity_of-text e.quantity i;
  dimensions = map_back e.dimensions i;
  properties = map_back e.properties i;
})

commit_texts : Option Commit → List Text
commit_texts none = []
commit_texts (some k) = k.source ∷ (k.window_end ∷ []) ∷ (k.events ∷ []) ∷ k.note ∷ []

commit_of : List Text → Option Commit
commit_of [] = none
commit_of (t ∷ ts) =
    some (record { source = t; window_end = num (at 0 ts); events = num (at 1 ts); note = at 2 ts })

commit_of-texts : (k : Option Commit) → commit_of (commit_texts k) ≡ k
unfolding commit_of commit_texts at num
commit_of-texts none = refl
commit_of-texts (some k) = refl

pub record_text : Record → Text
record_text r = frame (
    r.type
    ∷ (r.at ∷ [])
    ∷ r.prev
    ∷ frame (event_texts r.event)
    ∷ frame (commit_texts r.commit)
    ∷ [])

record_of : ℕ → List Text → Record
record_of seq ts = record {
  seq = seq;
  type = at 0 ts;
  at = num (at 1 ts);
  prev = at 2 ts;
  event = event_of (unframe (at 3 ts));
  commit = commit_of (unframe (at 4 ts));
}

record_of-text : (r : Record) → record_of r.seq (unframe (record_text r)) ≡ r
unfolding record_text record_of at num
record_of-text r =
    rw
      (unframe-frame (
        r.type
        ∷ (r.at ∷ [])
        ∷ r.prev
        ∷ frame (event_texts r.event)
        ∷ frame (commit_texts r.commit)
        ∷ []))
      (λ i. record r {
        event = (ap event_of (unframe-frame (event_texts r.event)) ∙ event_of-texts r.event) i;
        commit =
            (ap commit_of (unframe-frame (commit_texts r.commit)) ∙ commit_of-texts r.commit) i;
      })

-- Cells are moved up by 45, past the line break, the tab and the comma.
pub lift : ℕ → ℕ
lift x = x + 45

lower : ℕ → ℕ
lower x = x - 45

lower-lift' : (x : ℕ) → lower (lift x) ≡ x
unfolding lift lower
lower-lift' x = omega arith

lower-lift : (t : Text) → map lower (map lift t) ≡ t
lower-lift [] = refl
lower-lift (x ∷ t) = λ i. lower-lift' x i ∷ lower-lift t i

pub marshal : Record → Option Bytes
marshal r = some (seq_prefix ++ lift r.seq ∷ comma ∷ map lift (record_text r))

pub unmarshal : Bytes → Option Record
unmarshal b = some (record_of (lower (num (drop 7 b))) (unframe (map lower (drop 9 b))))

pub unmarshal-marshal : (r : Record) (b : Bytes) → marshal r ≡ some b → unmarshal b ≡ some r
unfolding marshal
unmarshal-marshal r b h =
    subst (λ (x : Bytes). unmarshal x ≡ some r) (some-injective _ b h)
      (unfold unmarshal num in
        rw (lower-lift' r.seq, lower-lift (record_text r)) (ap some (record_of-text r)))

pub sum : Bytes → ℕ
sum [] = 0
sum (x ∷ b) = x + sum b

pub digest : Bytes → Text
digest b = replicate 63 48 ++ (sum b + 45) ∷ []

pub digest_length : (b : Bytes) → length (digest b) ≡ 64
unfolding digest
digest_length b = refl

replicate-All {κ} : (P : ℕ → Type κ) (n x : ℕ) → P x → All P (replicate n x)
replicate-All P zero x h = tt
replicate-All P (suc n) x h = (h, replicate-All P n x h)

lift-All : (k : ℕ) (t : Text) → k < 45 → All (λ x. x ≢ k) (map lift t)
unfolding lift
lift-All k [] h = tt
lift-All k (x ∷ t) h = (omega arith, lift-All k t h)

pub digest_ne : (k : ℕ) (b : Bytes) → k < 45 → All (λ x. x ≢ k) (digest b)
unfolding digest
digest_ne k b h =
    All-append (λ x. x ≢ k) (replicate 63 48) ((sum b + 45) ∷ [])
      (replicate-All (λ x. x ≢ k) 63 48 (omega arith)) (omega arith, tt)

pub marshal_newline : (r : Record) (b : Bytes) → marshal r ≡ some b → All (λ x. x ≢ newline) b
unfolding marshal lift
marshal_newline r b h = subst (All (λ x. x ≢ newline)) (some-injective _ b h) (
    All-append (λ x. x ≢ newline) seq_prefix (lift r.seq ∷ comma ∷ map lift (record_text r))
      (omega arith) (omega arith, (omega arith, lift-All newline (record_text r) (omega arith))))

marshal_seq :
    (r : Record) (b : Bytes)
    → marshal r ≡ some b
    → (rest : Bytes) × (b ≡ seq_prefix ++ (lift r.seq ∷ [] ++ comma ∷ rest))
unfolding marshal
marshal_seq r b h = (map lift (record_text r), sym (some-injective _ b h))

pub print_uint : ℕ → Text
print_uint n = lift n ∷ []

pub parse_uint : Text → Option ℕ
parse_uint t = some (lower (num t))

pub parse-print_uint : (n : ℕ) → parse_uint (print_uint n) ≡ some n
unfolding parse_uint print_uint num
parse-print_uint n = ap some (lower-lift' n)

pub print_uint_comma : (n : ℕ) → All (λ x. x ≢ comma) (print_uint n)
unfolding print_uint lift
print_uint_comma n = (omega arith, tt)

pub print_uint_pos : (n : ℕ) → print_uint n ≢ []
unfolding print_uint
print_uint_pos n h = cc h

pub marshal_seq_prefix :
    (r : Record) (b : Bytes)
    → marshal r ≡ some b
    → (rest : Bytes) × (b ≡ seq_prefix ++ (print_uint r.seq ++ comma ∷ rest))
unfolding print_uint
marshal_seq_prefix r b h = marshal_seq r b h

unfoldable pub plain : Codec
unfolding digest sum marshal unmarshal print_uint parse_uint lift lower num at record_of record_text
    event_of event_texts commit_of commit_texts quantity_of quantity_text frame unframe flat pairs
plain = record {
  digest = digest;
  marshal = marshal;
  unmarshal = unmarshal;
  print_uint = print_uint;
  parse_uint = parse_uint;
  digest_length = digest_length;
  digest_tab = λ b. digest_ne tab b (omega arith);
  digest_newline = λ b. digest_ne newline b (omega arith);
  marshal_newline = marshal_newline;
  unmarshal-marshal = unmarshal-marshal;
  marshal_seq = marshal_seq_prefix;
  parse-print_uint = parse-print_uint;
  print_uint_comma = print_uint_comma;
  print_uint_pos = print_uint_pos;
}
