-- ===== src/Usage/Catalog/Declared.antt =====
-- What RegisterCustom of internal/usage/catalog.go changes.
use mathlib.Core.Option.{some-injective}
use vbilling.Prelude.{◌≡◌, ◌∙◌, true, refl, sym, subst, ap, inl, inr, none, some, []}
use vbilling.Prelude.Tests.{if◌then◌else◌, Bool-cases, Option-cases}
use vbilling.Prelude.Text.{Text, Map, codes, text_eq, text_eq_iff, lookup, insert}
use vbilling.Prelude.Maps.{lookup-insert, lookup-insert_self}
use vbilling.Usage.Identity.{is_name}
use vbilling.Usage.Catalog.{
  MetricDef, builtin, completed, find_code, lookup_metric, register_custom,
}

declared :
    (d : MetricDef) (m m' : Map MetricDef)
    → lookup_metric d.code m ≡ none
    → insert d.code (completed d) m ≡ m'
    → lookup_metric d.code m' ≡ some (completed d)
unfolding lookup_metric completed
declared d m m' r same = elim (Option-cases (find_code d.code builtin)) [
  | inr (e, z) ↦ cc (rw (z, lookup_metric) at r)
  | inl z ↦
      rw (z, lookup_metric)
        (ap (lookup d.code) (sym same) ∙ lookup-insert_self d.code (completed d) m)
]

looked_up :
    (d : MetricDef) (m m' : Map MetricDef) (code : Text)
    → lookup_metric d.code m ≡ none
    → insert d.code (completed d) m ≡ m'
    → lookup_metric code m'
      ≡ (if text_eq d.code code then some (completed d) else lookup_metric code m)
unfolding lookup_metric
looked_up d m m' code r same = elim (Bool-cases (text_eq d.code code)) [
  | inl p ↦ rw p (
      subst (λ x. lookup_metric x m' ≡ some (completed d)) ((text_eq_iff d.code code).0 p)
        (declared d m m' r same))
  | inr p ↦
      let kept : lookup code m' ≡ lookup code m =
        ap (lookup code) (sym same) ∙ lookup-insert d.code code (completed d) m ∙ rw p refl in
      elim (Option-cases (find_code code builtin)) [
        | inr (e, z) ↦ rw p (rw (z, lookup_metric) refl)
        | inl z ↦ rw p (rw (z, lookup_metric) kept)
      ]
]

-- RegisterCustom that succeeds adds one metric under its code, which no metric had before. It is
-- custom and billable, named by its code if it has no name, counted in units if it has none, and
-- otherwise as declared. What Lookup finds under every other code stays.
pub register_custom-lookup_metric :
    (d : MetricDef) (m m' : Map MetricDef) (code : Text)
    → register_custom d m ≡ some m'
    → (lookup_metric d.code m ≡ none)
      × (lookup_metric code m' ≡ (
          if text_eq d.code code
          then some (record {
            code = d.code;
            name = if text_eq d.name [] then d.code else d.name;
            unit = if text_eq d.unit [] then codes "units" else d.unit;
            description = d.description;
            billable = true;
            group_keys = d.group_keys;
            custom = true;
          })
          else lookup_metric code m))
unfolding register_custom completed
register_custom-lookup_metric d m m' code h = elim (Bool-cases (is_name 99 d.code)) [
  | inr q ↦ cc (rw (q, register_custom) at h)
  | inl q ↦ elim (Option-cases (lookup_metric d.code m)) [
    | inr (e, r) ↦ cc (rw (q, r, register_custom) at h)
    | inl r ↦
        let same : insert d.code (completed d) m ≡ m' =
          some-injective _ _ (rw (q, r, register_custom) at h) in
        (r, looked_up d m m' code r same)
  ]
]
