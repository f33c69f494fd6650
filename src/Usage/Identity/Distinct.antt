-- ===== src/Usage/Identity/Distinct.antt =====
-- What the text that DeriveID of internal/usage/usage.go hashes says of the event.
use vbilling.Prelude.{◌≡◌, ◌≢◌, [], ◌∷◌, ◌++◌}
use vbilling.Prelude.Lists.{All}
use vbilling.Prelude.Text.{Text}
use vbilling.Usage.{Event}
use vbilling.Usage.Identity.{sorted_dimensions}
use vbilling.Usage.Identity.Names.{IsNamed}

abbrev pub NoNul : Text → Type 0
NoNul t = All (λ x. x ≢ 0) t

-- A dimension whose key is a name and whose value has no zero byte.
abbrev pub Clean : Text × Text → Type 0
Clean d = All IsNamed d.0 × NoNul d.1

-- No text of the event that Validate does not check has a zero byte.
pub record Texts (e : Event) : Type 0 where
  pub tenant : NoNul e.tenant
  pub region : NoNul e.region
  pub project : NoNul e.project
  pub sku : NoNul e.sku
  pub resource_id : NoNul e.resource_id
  pub values : All (λ (d : Text × Text). NoNul d.1) e.dimensions

-- The identity of the two events is the same.
pub record Same (e f : Event) : Type 0 where
  pub tenant : e.tenant ≡ f.tenant
  pub metric : e.metric ≡ f.metric
  pub window_start : e.window_start ≡ f.window_start
  pub window_end : e.window_end ≡ f.window_end
  pub region : e.region ≡ f.region
  pub project : e.project ≡ f.project
  pub sku : e.sku ≡ f.sku
  pub resource_id : e.resource_id ≡ f.resource_id
  pub dimensions : sorted_dimensions e.dimensions ≡ sorted_dimensions f.dimensions

after_prefix : (p s t : Text) → p ++ s ≡ p ++ t → s ≡ t
after_prefix [] s t e = e
after_prefix (x ∷ p) s t e = after_prefix p s t (cc e)
