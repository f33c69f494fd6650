-- ===== src/Controller/Reconcile/Gone.antt =====
-- What Reconcile of internal/controller/controller.go notes, and which tenants are gone for it.
use vbilling.Prelude.{
  ◌+◌, ◌<◌, ◌≡◌, ◌⊎◌, ◌∙◌, refl, sym, subst, ap, inl, inr, Bool, true, false, Option, none, some,
  List, [], ◌∷◌, not, ◌&&◌, arith,
}
use vbilling.Prelude.Tests.{leb, if◌then◌else◌, Bool-cases}
use vbilling.Prelude.Lists.{All}
use vbilling.Prelude.Text.{Text, Map, text_eq, text_eq_iff, lookup, insert, member}
use vbilling.Prelude.Maps.{lookup-insert, Distinct, insert-Distinct}
use vbilling.Usage.{Time, Duration, Tenant}
use vbilling.Pipeline.Tenants.{TenantRegistry, get, upsert}
use vbilling.Controller.Reconcile.{upsert_all, mark_seen, gone, ids}

-- The registry gives a tenant under its own ID.
abbrev pub Keyed : TenantRegistry → Type 0
Keyed r = (k : Text) → (get k r).id ≡ k

upsert-Keyed : (t : Tenant) (r : TenantRegistry) → Keyed r → Keyed (upsert t r)
unfolding upsert get
upsert-Keyed t r h k = elim (Bool-cases (text_eq t.id k)) [
  | inl q ↦ rw (lookup-insert t.id k t r.tenants, get) (rw q ((text_eq_iff t.id k).0 q))
  | inr q ↦ rw (lookup-insert t.id k t r.tenants, get) (rw q (h k))
]

pub upsert_all-Keyed : (ts : List Tenant) (r : TenantRegistry) → Keyed r → Keyed (upsert_all ts r)
unfolding upsert_all
upsert_all-Keyed [] r h = h
upsert_all-Keyed (t ∷ ts) r h = upsert_all-Keyed ts (upsert t r) (upsert-Keyed t r h)

pub mark_seen-Distinct :
    (now : Time) (ts : List Tenant) (m : Map Time) → Distinct m → Distinct (mark_seen now ts m)
unfolding mark_seen
mark_seen-Distinct now [] m h = h
mark_seen-Distinct now (t ∷ ts) m h =
    mark_seen-Distinct now ts (insert t.id now m) (insert-Distinct t.id now m h)

lookup-mark_seen :
    (now : Time) (id : Text) (ts : List Tenant) (m : Map Time)
    → member id (ids ts) ≡ false
    → lookup id (mark_seen now ts m) ≡ lookup id m
unfolding mark_seen member
lookup-mark_seen now id [] m h = refl
lookup-mark_seen now id (t ∷ ts) m h =
    ground (arith, lookup-mark_seen now id ts (insert t.id now m), lookup-insert t.id id now m, h)

-- Seen less than the grace period ago, or never.
abbrev pub Recent : Duration → Time → Option Time → Type 0
Recent grace now none = Unit
Recent grace now (some seen) = now < seen + grace

module _ (id : Text) where
  abbrev pub Other : Tenant → Type 0
  Other t = text_eq t.id id ≡ false

  All-if :
      (b : Bool) (t : Tenant) (ts : List Tenant)
      → (b ≡ true → Other t)
      → All Other ts
      → All Other (if b then t ∷ ts else ts)
  All-if false t ts f h = h
  All-if true t ts f h = (f refl, h)

  abbrev pub Here : Duration → Time → List Text → Map Time → Type 0
  Here grace now current m = (member id current ≡ true) ⊎ Recent grace now (lookup id m)

  Here-tail :
      (now : Time) (grace : Duration) (current : List Text) (j : Text) (seen : Time) (m : Map Time)
      → Distinct ((j, seen) ∷ m)
      → Here grace now current ((j, seen) ∷ m)
      → Here grace now current m
  unfolding lookup
  Here-tail now grace current j seen m d (inl a) = inl a
  Here-tail now grace current j seen m d (inr a) = elim (Bool-cases (text_eq j id)) [
    | inl q ↦
        let e : lookup id m ≡ none = ap (λ x. lookup x m) (sym ((text_eq_iff j id).0 q)) ∙ d.0 in
        inr (subst (Recent grace now) (sym e) tt)
    | inr q ↦ inr (rw q at a)
  ]

  Here-head :
      (now : Time) (grace : Duration) (current : List Text) (j : Text) (seen : Time) (m : Map Time)
      → Here grace now current ((j, seen) ∷ m)
      → (not (member j current) && leb (seen + grace) now) ≡ true
      → text_eq j id ≡ false
  unfolding lookup
  Here-head now grace current j seen m (inl a) c = elim (Bool-cases (text_eq j id)) [
    | inr q ↦ q
    | inl q ↦
        let e : member j current ≡ true = ap (λ x. member x current) ((text_eq_iff j id).0 q) ∙ a in
        ground (arith, e, c)
  ]
  Here-head now grace current j seen m (inr a) c = elim (Bool-cases (text_eq j id)) [
    | inr q ↦ q
    | inl q ↦ let l : now < seen + grace = rw q at a in ground (arith, l, c)
  ]

  pub Here-noted :
      (now : Time) (grace : Duration) (ts : List Tenant) (m : Map Time)
      → (member id (ids ts) ≡ true) ⊎ Recent grace now (lookup id m)
      → Here grace now (ids ts) (mark_seen now ts m)
  Here-noted now grace ts m (inl a) = inl a
  Here-noted now grace ts m (inr a) = elim (Bool-cases (member id (ids ts))) [
    | inl q ↦ inl q
    | inr q ↦ inr (subst (Recent grace now) (sym (lookup-mark_seen now id ts m q)) a)
  ]

  -- A tenant that is there, or that was seen recently, is not gone.
  pub gone-Other :
      (now : Time) (grace : Duration) (current : List Text) (r : TenantRegistry) (m : Map Time)
      → Keyed r
      → Distinct m
      → Here grace now current m
      → All Other (gone now grace current r m)
  unfolding gone
  gone-Other now grace current r [] k d h = tt
  gone-Other now grace current r ((j, seen) ∷ m) k d h =
      All-if (not (member j current) && leb (seen + grace) now) (get j r)
        (gone now grace current r m)
        (λ c. ap (λ x. text_eq x id) (k j) ∙ Here-head now grace current j seen m h c)
        (gone-Other now grace current r m k d.1 (Here-tail now grace current j seen m d h))
