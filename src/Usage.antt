-- ===== src/Usage.antt =====
-- internal/usage/usage.go: the canonical event, tenants, and time windows.
-- A `time.Time` is the number of nanoseconds since Go's zero time (1 January of year 1, UTC), so
-- `0` is the zero time, and UTC() changes nothing. A `time.Duration` is a number of nanoseconds.
-- A quantity is a float64: what is finite is told apart from NaN and the infinities, and counted
-- in billionths, the digits that `Round` keeps.
pub mod Windows
pub mod Identity
pub mod Catalog
use vbilling.Prelude.{ℕ, ◌+◌, ◌-◌, ◌*◌, ◌%◌, List}
use vbilling.Prelude.Text.{Text, Map}
use vbilling.Prelude.Tests.{ltb, ◌==◌, if◌then◌else◌}

abbrev pub Time : Type 0
Time = ℕ

abbrev pub Duration : Type 0
Duration = ℕ

-- 1 January 1970, 1969 years after the zero time.
abbrev pub unix_epoch : Time
unix_epoch = 62135596800 * 1000000000

-- The times from which on the years have five digits, which time.RFC3339 and encoding/json refuse.
abbrev pub year_10000 : Time
year_10000 = 315537897600 * 1000000000

pub data Quantity : Type 0 where
  not_a_number : Quantity
  infinite : Quantity
  positive : ℕ → Quantity
  negative : ℕ → Quantity

pub record Event : Type 0 where
  pub schema_version : Text
  pub id : Text
  pub tenant : Text
  pub metric : Text
  pub quantity : Quantity
  pub unit : Text
  pub window_start : Time
  pub window_end : Time
  pub region : Text
  pub project : Text
  pub sku : Text
  pub resource_id : Text
  pub dimensions : Map Text
  -- The values are the JSON texts of the source's `any`.
  pub properties : Map Text
  pub source : Text
  pub recorded_at : Time

pub record Tenant : Type 0 where
  pub id : Text
  pub display_name : Text
  pub email : Text
  pub currency : Text
  pub region : Text
  pub project : Text
  pub class : Text
  pub plan : Text
  pub clusters : List Text
  pub metadata : Map Text
  pub provider_ids : Map Text
  pub created_at : Time

-- Go's `t.Truncate(size)`: rounds down to a multiple of `size` since the zero time.
unfoldable pub truncate : Time → Duration → Time
truncate t size = if size == 0 then t else t - t % size

pub record Span : Type 0 where
  pub start : Time
  pub end : Time

unfoldable pub window : Time → Duration → Span
unfolding truncate
window t size = record { start = truncate t size; end = truncate t size + size }

-- A zero end means that the interval is still open.
clip_end : Time → Time → Time
clip_end end we = if end == 0 then we else if ltb we end then we else end

clip_start : Time → Time → Time
clip_start start ws = if ltb start ws then ws else start

unfoldable pub overlap : Time → Time → Time → Time → Duration
unfolding clip_end clip_start
overlap start end ws we =
    let e = clip_end end we in let s = clip_start start ws in if ltb s e then e - s else 0
