-- ===== src/Examples/IdentityRuns.antt =====
-- The identity of two events, and of two that a zero byte makes the same; a metric that the operator
-- declares.
use vbilling.Prelude.{ℕ, true, ◌≡◌, ◌+◌, refl, false, none, some, List, [], ◌∷◌, ◌++◌, arith}
use vbilling.Prelude.Text.{text_eq, Text, codes}
use vbilling.Usage.{Event}
use vbilling.Usage.Identity.{Stamp, identity}
use vbilling.Usage.Catalog.{MetricDef, completed, lookup_metric, register_custom}
use vbilling.Usage.Catalog.Declared.{register_custom-lookup_metric}
use vbilling.Examples.SpoolRuns.{event}

suc_inj : (s t : ℕ) → s + 1 ≡ t + 1 → s ≡ t
suc_inj s t e = omega (arith, e)

abbrev stamp : Stamp
stamp = record {
  print = λ t. (t + 1) ∷ [];
  print_injective = λ s t e. suc_inj s t (cc e);
  print_nul = λ t. ((λ e. omega (arith, e)), tt);
}

abbrev sample : List (Text × Text) → Event
sample m = record (event (codes "id-1")) { dimensions = m }

abbrev one : Event
one = sample ((codes "zone", codes "b") ∷ (codes "gpu", codes "h100") ∷ [])

abbrev other : Event
other = sample ((codes "gpu", codes "h100") ∷ (codes "zone", codes "b") ∷ [])

-- Both are valid, and the text that is hashed is one.
zero_byte :
    identity stamp (sample ((codes "a", codes "x" ++ 0 ∷ codes "b=y") ∷ []))
    ≡ identity stamp (sample ((codes "a", codes "x") ∷ (codes "b", codes "y") ∷ []))
unfolding identity
zero_byte = refl

abbrev tokens : MetricDef
tokens = record {
  code = codes "tokens";
  name = [];
  unit = [];
  description = [];
  billable = false;
  group_keys = [];
  custom = false;
}

register_custom-lookup_metric_example :
    (lookup_metric (codes "tokens") [] ≡ none)
    × (lookup_metric (codes "tokens") ((codes "tokens", completed tokens) ∷ [])
        ≡ some (record tokens {
          name = codes "tokens";
          unit = codes "units";
          billable = true;
          custom = true;
        }))
unfolding register_custom text_eq
register_custom-lookup_metric_example =
    register_custom-lookup_metric tokens [] ((codes "tokens", completed tokens) ∷ [])
      (codes "tokens") refl
