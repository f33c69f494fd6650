-- ===== src/Controller/Plan.antt =====
-- Which windows CollectDue of internal/controller/controller.go meters.
pub mod Windows
pub mod Bounds
pub mod First
use vbilling.Prelude.{
  ℕ, zero, suc, ◌+◌, ◌-◌, ◌/◌, Bool, true, false, not, Option, none, some, List, [], ◌∷◌,
}
use vbilling.Prelude.Tests.{ltb, leb, ◌==◌, if◌then◌else◌}
use vbilling.Usage.{Time, Duration, truncate}

-- metrics.Window
pub record Window : Type 0 where
  pub start : Time
  pub end : Time
  pub latest : Bool

-- The ends of the first and the last window, and the gap before the first that is left out.
pub record Due : Type 0 where
  pub first_end : Time
  pub latest_end : Time
  pub gap : Duration

-- The end of the oldest window that is backfilled.
unfoldable pub earliest : Duration → Duration → Time → Time
unfolding truncate
earliest size max_backfill latest_end = truncate (latest_end - max_backfill) size + size

unfoldable pub after_watermark : Duration → Duration → Time → Time → Due
unfolding earliest
after_watermark size max_backfill latest_end wm =
    let first_end = wm + size in
    let low = earliest size max_backfill latest_end in
    if ltb first_end low
    then record { first_end = low; latest_end = latest_end; gap = low - first_end }
    else record { first_end = first_end; latest_end = latest_end; gap = 0 }

-- `none` when no window has closed since the watermark.
unfoldable pub due : Duration → Duration → Time → Option Time → Option Due
unfolding after_watermark truncate
due size max_backfill now wm =
    let latest_end = truncate now size in
    elim wm [
      | none ↦
          let d : Due = record { first_end = latest_end; latest_end = latest_end; gap = 0 } in
          some d
      | some t ↦
          if ltb t latest_end then some (after_watermark size max_backfill latest_end t) else none
    ]

-- The loop from the window that ends at `end`; the first argument is fuel.
unfoldable pub windows_from : ℕ → Duration → Time → Time → List Window
windows_from zero size latest_end end = []
windows_from (suc k) size latest_end end =
    let rest = windows_from k size latest_end (end + size) in
    if leb end latest_end
    then record { start = end - size; end = end; latest = end == latest_end } ∷ rest
    else []

-- One window per size from the first end to the last.
unfoldable pub windows : Duration → Due → List Window
unfolding windows_from
windows size d =
    windows_from (suc ((d.latest_end - d.first_end) / size)) size d.latest_end d.first_end
