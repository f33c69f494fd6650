-- ===== src/Pipeline/Tenants.antt =====
-- internal/pipeline/tenants.go: which tenants a destination already knows.
-- `fingerprint` (SHA-256 of the tenant's JSON) is a parameter.
use vbilling.Prelude.{
  ◌≡◌, refl, ap, ◌∙◌, Bool, true, false, not, ◌&&◌, Option, none, some, [], ◌∷◌, arith, inl, inr,
  Option,
}
use vbilling.Prelude.Tests.{Bool-cases, if◌then◌else◌}
use vbilling.Prelude.Text.{Text, Map, text_eq, text_eq_iff, text_eq_refl, lookup, insert, erase}
use vbilling.Prelude.Maps.{lookup-insert, lookup-erase}
use vbilling.Usage.{Tenant}

pub record TenantRegistry : Type 0 where
  pub tenants : Map Tenant
  -- destination, then tenant, to fingerprint
  pub ensured : Map (Map Text)

unfoldable pub upsert : Tenant → TenantRegistry → TenantRegistry
upsert t r = record r { tenants = insert t.id t r.tenants }

erase_everywhere : Text → Map (Map Text) → Map (Map Text)
erase_everywhere id [] = []
erase_everywhere id ((d, m) ∷ ms) = (d, erase id m) ∷ erase_everywhere id ms

unfoldable pub delete : Text → TenantRegistry → TenantRegistry
unfolding erase_everywhere
delete id r = record r { tenants = erase id r.tenants; ensured = erase_everywhere id r.ensured }

-- usage.Tenant{ID: id, DisplayName: id}
unfoldable pub minimal : Text → Tenant
minimal id = record {
  id = id;
  display_name = id;
  email = [];
  currency = [];
  region = [];
  project = [];
  class = [];
  plan = [];
  clusters = [];
  metadata = [];
  provider_ids = [];
  created_at = 0;
}

unfoldable pub get : Text → TenantRegistry → Tenant
get id r = elim (lookup id r.tenants) [ some t ↦ t | none ↦ minimal id ]

-- The map of a destination; Go reads a missing one as empty.
unfoldable pub of_destination : Text → Map (Map Text) → Map Text
of_destination dest m = elim (lookup dest m) [ some f ↦ f | none ↦ [] ]

-- What `ensured[dest][id]` reads, the empty text when it is missing.
unfoldable pub or_empty : Option Text → Text
or_empty (some f) = f
or_empty none = []

unfoldable pub ensured_print : Text → Text → TenantRegistry → Text
unfolding of_destination or_empty
ensured_print dest id r = or_empty (lookup id (of_destination dest r.ensured))

of_destination-insert :
    (dest dest' : Text) (m : Map Text) (ms : Map (Map Text))
    → of_destination dest' (insert dest m ms)
      ≡ (if text_eq dest dest' then m else of_destination dest' ms)
unfolding of_destination
of_destination-insert dest dest' m ms = elim (Bool-cases (text_eq dest dest')) [
  | inl e ↦ rw (lookup-insert dest dest' m ms, of_destination) (rw e refl)
  | inr e ↦ rw (lookup-insert dest dest' m ms, of_destination) (rw e refl)
]

or_empty-insert :
    (id j f : Text) (m : Map Text)
    → or_empty (lookup j (insert id f m)) ≡ (if text_eq id j then f else or_empty (lookup j m))
unfolding or_empty
or_empty-insert id j f m = ground (arith, lookup-insert id j f m)

lookup-erase_everywhere :
    (id dest : Text) (m : Map (Map Text))
    → lookup id (of_destination dest (erase_everywhere id m)) ≡ none
unfolding erase_everywhere of_destination lookup
lookup-erase_everywhere id dest [] = refl
lookup-erase_everywhere id dest ((d, m) ∷ ms) = elim (Bool-cases (text_eq d dest)) [
  | inl e ↦ rw (e, of_destination, lookup) (rw (lookup-erase id id m) (rw (text_eq_refl id) refl))
  | inr e ↦ rw (e, of_destination, lookup) (lookup-erase_everywhere id dest ms)
]

module _ (fingerprint : Tenant → Text) where
  unfoldable pub needs_ensure : Text → Tenant → TenantRegistry → Bool
  unfolding ensured_print
  needs_ensure dest t r = not (text_eq (ensured_print dest t.id r) (fingerprint t))

  unfoldable pub mark_ensured : Text → Tenant → TenantRegistry → TenantRegistry
  unfolding of_destination
  mark_ensured dest t r = record r {
    ensured = insert dest (insert t.id (fingerprint t) (of_destination dest r.ensured)) r.ensured;
  }

  ensured_print-mark_ensured :
      (dest dest' : Text) (t : Tenant) (id : Text) (r : TenantRegistry)
      → ensured_print dest' id (mark_ensured dest t r) ≡ (
          if text_eq dest dest' && text_eq t.id id then fingerprint t else ensured_print dest' id r)
  unfolding mark_ensured ensured_print
  ensured_print-mark_ensured dest dest' t id r =
      let m = of_destination dest r.ensured in
      elim (Bool-cases (text_eq dest dest')) [
        | inl e ↦ rw (of_destination-insert dest dest' (insert t.id (fingerprint t) m) r.ensured) (
            rw e (
              or_empty-insert t.id id (fingerprint t) m ∙ λ i.
              if text_eq t.id id
              then fingerprint t
              else or_empty
                  (lookup id (of_destination ((text_eq_iff dest dest').0 e i) r.ensured))))
        | inr e ↦
            rw (of_destination-insert dest dest' (insert t.id (fingerprint t) m) r.ensured)
              (rw e refl)
      ]

  -- MarkEnsured settles exactly one tenant in one destination, as that tenant is now: it needs
  -- EnsureTenant again there when its fingerprint changes, and no other answer changes.
  pub needs_ensure-mark_ensured :
      (dest dest' : Text) (t t' : Tenant) (r : TenantRegistry)
      → needs_ensure dest' t' (mark_ensured dest t r) ≡ (
          if text_eq dest dest' && text_eq t.id t'.id
          then not (text_eq (fingerprint t) (fingerprint t'))
          else needs_ensure dest' t' r)
  unfolding needs_ensure
  needs_ensure-mark_ensured dest dest' t t' r =
      ground (arith, ensured_print-mark_ensured dest dest' t t'.id r)

  -- Delete forgets a tenant in every destination: one with that ID is created again before its next
  -- event, if its fingerprint is not empty.
  pub needs_ensure-delete :
      (dest : Text) (t : Tenant) (r : TenantRegistry)
      → text_eq [] (fingerprint t) ≡ false
      → needs_ensure dest t (delete t.id r) ≡ true
  unfolding needs_ensure ensured_print delete
  needs_ensure-delete dest t r h =
      rw (ap or_empty (lookup-erase_everywhere t.id dest r.ensured)) (unfold or_empty in rw h refl)
