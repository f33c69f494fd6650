-- ===== src/Kv/Saved.antt =====
-- What the store of internal/kv/kv.go holds and what its file holds.
use vbilling.Prelude.{
  ◌≡◌, ◌≢◌, ◌∙◌, refl, sym, ap, subst, Bool, true, false, none, some, [], ◌∷◌, ◌++◌, arith, inl,
  inr,
}
use mathlib.Core.Option.{some-injective}
use vbilling.Prelude.Tests.{◌==◌, ==_iff, if◌then◌else◌, Bool-cases, Option-cases}
use vbilling.Prelude.Text.{Text, Map, text_eq, text_eq_iff, text_eq_refl, lookup, insert, erase}
use vbilling.Prelude.Maps.{
  Distinct, insert-Distinct, lookup-insert, lookup-insert_self, lookup-erase,
}
use vbilling.Prelude.Lists.{All}
use vbilling.Spool.Codec.{Bytes}
use vbilling.Kv.{
  Json, Disk, Store, parse_file, open_store, get, set, delete, flush, cut_prefix, with_prefix,
  with_prefix_of,
}

flush-entries : (io : Disk) (s : Store) → (flush io s).1.entries ≡ s.entries
unfolding flush
flush-entries io s = ground arith

pub get-set :
    (io : Disk) (k v j : Text) (s : Store)
    → get j (set io k v s).1 ≡ (if text_eq k j then some v else get j s)
unfolding set
get-set io k v j s =
    let t = record s { entries = insert k v s.entries } in
    let new = ap (lookup j) (flush-entries io t) ∙ lookup-insert k j v s.entries in
    elim (Option-cases (lookup k s.entries)) [
      | inl q ↦ rw (q, set) new
      | inr (old, q) ↦ elim (Bool-cases (text_eq old v)) [
        | inr b ↦ rw (q, set) (rw b new)
        | inl b ↦ rw (q, set) (rw b (ground (arith, q, text_eq_iff k j, text_eq_iff old v)))
      ]
    ]

get-delete :
    (io : Disk) (k j : Text) (s : Store)
    → get j (delete io k s).1 ≡ (if text_eq k j then none else get j s)
unfolding delete
get-delete io k j s =
    let t = record s { entries = erase k s.entries } in
    elim (Option-cases (lookup k s.entries)) [
      | inr (old, q) ↦
          rw (q, delete) (ap (lookup j) (flush-entries io t) ∙ lookup-erase k j s.entries)
      | inl q ↦ rw (q, delete) (ground (arith, q, text_eq_iff k j))
    ]

-- Get after Set and after Delete, for every key, whether or not the file was written.
pub get-set_delete :
    (io : Disk) (k v j : Text) (s : Store)
    → (get j (set io k v s).1 ≡ (if text_eq k j then some v else get j s))
      × (get j (delete io k s).1 ≡ (if text_eq k j then none else get j s))
get-set_delete io k v j s = (get-set io k v j s, get-delete io k j s)

set-flush :
    (io : Disk) (k v : Text) (s : Store)
    → get k s ≢ some v
    → set io k v s ≡ flush io (record s { entries = insert k v s.entries })
unfolding set
set-flush io k v s n = elim (Option-cases (lookup k s.entries)) [
  | inl q ↦ rw (q, set) refl
  | inr (old, q) ↦ elim (Bool-cases (text_eq old v)) [
    | inr b ↦ rw (q, set) (rw b refl)
    | inl b ↦ elim (n (q ∙ ap some ((text_eq_iff old v).0 b))) [ ]
  ]
]

flush_written :
    (io : Disk) (s t : Store)
    → text_eq s.path [] ≡ false
    → flush io s ≡ (true, t)
    → (b : Bytes) × (io.json.print s.entries ≡ some b) × (record s { file = some b } ≡ t)
unfolding flush
flush_written io s t p h = elim (Option-cases (io.json.print s.entries)) [
  | inl q ↦ cc (rw (p, q, flush) at h)
  | inr (b, q) ↦ elim (Bool-cases io.write_ok) [
    | inl w ↦ (b, q, ap (λ x. x.1) (rw w at (rw (p, q, flush) at h)))
    | inr w ↦ cc (rw w at (rw (p, q, flush) at h))
  ]
]

flush_unwritten :
    (io : Disk) (s : Store)
    → text_eq s.path [] ≡ false
    → io.write_ok ≡ false
    → flush io s ≡ (false, s)
unfolding flush
flush_unwritten io s p w = elim (Option-cases (io.json.print s.entries)) [
  | inl q ↦ rw (p, q, flush) refl
  | inr (b, q) ↦ rw (p, q, flush) (rw w refl)
]

-- The strings that encoding/json writes as they are.
abbrev pub Printable : Json → Map Text → Type 0
Printable json m = All (λ kv. (json.valid_string kv.0 ≡ true) × (json.valid_string kv.1 ≡ true)) m

parse_file_printed :
    (json : Json) (b : Bytes) (s : Store) (m : Map Text)
    → b ≢ []
    → json.parse b ≡ some m
    → parse_file json b s ≡ (true, record s { entries = m })
unfolding parse_file
parse_file_printed json [] s m n q = elim (n refl) [ ]
parse_file_printed json (x ∷ b) s m n q = rw (q, parse_file) refl

open_written :
    (io : Disk) (path : Text) (b : Bytes) (m : Map Text) (j : Text)
    → text_eq path [] ≡ false
    → io.read_ok ≡ true
    → Printable io.json m
    → io.json.print m ≡ some b
    → let x = open_store io path (some b) in (x.0 ≡ true) × (get j x.1 ≡ lookup j m)
unfolding open_store
open_written io path b m j p r h e =
    let (m', q, same) = io.json.parse-print m b h e in
    let f =
      parse_file_printed io.json b (record { path = path; entries = []; file = some b }) m'
        (λ z. io.json.print_pos m (e ∙ ap some z)) q in
    rw p (rw r (rw f (refl, same j)))

-- When Set changes a value in a store with a file, and reports that it is saved, the next Open that can
-- read the file succeeds and finds that value at that key, and at every other key what the store had,
-- if all keys and values are strings that encoding/json writes as they are.
pub open_store-set :
    (io io' : Disk) (k v j : Text) (s t : Store)
    → text_eq s.path [] ≡ false
    → get k s ≢ some v
    → set io k v s ≡ (true, t)
    → Printable io.json (insert k v s.entries)
    → io'.json ≡ io.json
    → io'.read_ok ≡ true
    → let x = open_store io' t.path t.file in
      (x.0 ≡ true) × (get j x.1 ≡ (if text_eq k j then some v else get j s))
open_store-set io io' k v j s t p n h good same r =
    let s' = record s { entries = insert k v s.entries } in
    let (b, e, q) = flush_written io s' t p (sym (set-flush io k v s n) ∙ h) in
    let (x, y) =
      open_written io' s.path b (insert k v s.entries) j p r
        (subst (λ json. Printable json (insert k v s.entries)) (sym same) good)
        (ap (λ (json : Json). json.print (insert k v s.entries)) same ∙ e) in
    subst
      (λ (t : Store).
        let x = open_store io' t.path t.file in
        (x.0 ≡ true) × (get j x.1 ≡ (if text_eq k j then some v else get j s)))
      q (x, y ∙ lookup-insert k j v s.entries)

-- A write that fails is not made up for: Set reports the failure but keeps the value in memory, and
-- when the caller sets the same value again Set reports success and still does not write the file.
pub set-set_failed :
    (io io' : Disk) (k v : Text) (s : Store)
    → text_eq s.path [] ≡ false
    → get k s ≢ some v
    → io.write_ok ≡ false
    → let t = (set io k v s).1 in
      ((set io k v s).0 ≡ false) × (set io' k v t ≡ (true, t)) × (t.file ≡ s.file)
unfolding set
set-set_failed io io' k v s p n w =
    let s' = record s { entries = insert k v s.entries } in
    let e = set-flush io k v s n ∙ flush_unwritten io s' p w in
    let again : set io' k v s' ≡ (true, s') =
      rw (lookup-insert_self k v s.entries, set) (rw (text_eq_refl v) refl) in
    (
      ap (λ x. x.0) e,
      subst (λ t. set io' k v t ≡ (true, t)) (sym (ap (λ x. x.1) e)) again,
      ap (λ (x : Bool × Store). x.1.file) e,
    )

cut_prefix-append : (p t : Text) → cut_prefix p (p ++ t) ≡ some t
unfolding cut_prefix
cut_prefix-append [] t = refl
cut_prefix-append (x ∷ p) t = ground (arith, cut_prefix-append p t)

cut_prefix_whole : (p k t : Text) → cut_prefix p k ≡ some t → k ≡ p ++ t
unfolding cut_prefix
cut_prefix_whole [] k t h = some-injective k t h
cut_prefix_whole (x ∷ p) [] t h = cc h
cut_prefix_whole (x ∷ p) (y ∷ k) t h = elim (Bool-cases (x == y)) [
  | inr b ↦ cc (rw (b, cut_prefix) at h)
  | inl b ↦
      ap (λ z. z ∷ k) (sym ((==_iff x y).0 b))
      ∙ ap (λ l. x ∷ l) (cut_prefix_whole p k t (rw (b, cut_prefix) at h))
]

pub text_eq-append : (p s t : Text) → text_eq (p ++ s) (p ++ t) ≡ text_eq s t
unfolding text_eq
text_eq-append [] s t = refl
text_eq-append (x ∷ p) s t = ground (arith, text_eq-append p s t)

lookup-with_prefix_of :
    (p k : Text) (m : Map Text) → lookup k (with_prefix_of p m) ≡ lookup (p ++ k) m
unfolding with_prefix_of lookup
lookup-with_prefix_of p k [] = refl
lookup-with_prefix_of p k ((j, v) ∷ m) =
    let ih = lookup-with_prefix_of p k m in
    elim (Option-cases (cut_prefix p j)) [
      | inl q ↦ elim (Bool-cases (text_eq j (p ++ k))) [
        | inr b ↦ rw (q, with_prefix_of) (rw b ih)
        | inl b ↦
            cc (sym (ap (cut_prefix p) ((text_eq_iff j (p ++ k)).0 b)) ∙ q, cut_prefix-append p k)
      ]
      | inr (t, q) ↦
          rw (q, with_prefix_of)
            (rw (cut_prefix_whole p j t q, text_eq-append p t k)
              (lookup-insert t k v (with_prefix_of p m)
                ∙ ap (if◌then◌else◌ (text_eq t k) (some v)) ih))
    ]

-- WithPrefix has exactly the entries whose key starts with the prefix, at the rest of the key.
pub lookup-with_prefix : (p k : Text) (s : Store) → lookup k (with_prefix p s) ≡ get (p ++ k) s
lookup-with_prefix p k s = lookup-with_prefix_of p k s.entries

pub with_prefix-Distinct : (p : Text) (m : Map Text) → Distinct (with_prefix_of p m)
unfolding with_prefix_of
with_prefix-Distinct p [] = tt
with_prefix-Distinct p ((k, v) ∷ m) = elim (Option-cases (cut_prefix p k)) [
  | inl q ↦ rw (q, with_prefix_of) (with_prefix-Distinct p m)
  | inr (t, q) ↦
      rw (q, with_prefix_of) (insert-Distinct t v (with_prefix_of p m) (with_prefix-Distinct p m))
]
