-- ===== src/Controller/Meter/Panics.antt =====
-- When CollectDue of internal/controller/controller.go panics.
use vbilling.Prelude.{◌+◌, ◌<◌, ◌≡◌, ◌⊎◌, ◌∙◌, refl, ap, true, Option, some, List, []}
use vbilling.Prelude.Text.{Text}
use vbilling.Usage.{Time, Duration, truncate}
use vbilling.Spool.Codec.{Codec}
use vbilling.Spool.State.{Io}
use vbilling.Discovery.{TenantCluster}
use vbilling.Pipeline.Tenants.{TenantRegistry}
use vbilling.Controller.Plan.{Window, Due, windows}
use vbilling.Controller.Plan.First.{due_without_window}
use vbilling.Controller.Meter.{
  Meter, Metered, Target, Limits, panicked, source_collector, watermark, commit_windows, ended,
  targets_of, meter_due, collect_due,
}

module _ {W : Type 0} (c : Codec) (ask : W → Io × W)
    (collect : List Target → List Window → W → Option Metered × W) (gap_note : Duration → Text)
    (idle : (ts : List Target) (w : W) → (x : Metered) × ((collect ts [] w).0 ≡ some x)) where
  meter_without_window :
      (targets : List Target) (size : Duration) (d : Due) (m : Meter W)
      → windows size d ≡ []
      → let x = meter_due c ask collect gap_note targets size d m in
        (x.0 ≡ panicked) × (x.1.spool ≡ m.spool)
  unfolding meter_due commit_windows ended
  meter_without_window targets size d m e =
      let (x, q) = idle targets m.world in
      let got : (collect targets (windows size d) m.world).0 ≡ some x =
        ap (λ ws. (collect targets ws m.world).0) e ∙ q in
      rw (got, meter_due) (rw e (refl, refl))

  -- When a boundary has passed since the watermark, but less than an interval (the watermark is no
  -- multiple of the interval, which was shorter before), or when MAX_BACKFILL is zero, the run has no
  -- window: the collector, which answers a run without windows, is asked for nothing, nothing is
  -- committed, and fillTenantGaps indexes the empty list.
  pub collect_due_panics :
      (l : Limits) (now wm : Time) (clusters : List TenantCluster) (r : TenantRegistry)
      (m : Meter W)
      → 0 < l.size
      → watermark source_collector m.spool ≡ some wm
      → wm < truncate now l.size
      → (truncate now l.size < wm + l.size) ⊎ (l.max_backfill ≡ 0)
      → let x = collect_due c ask collect gap_note l true now clusters r m in
        (x.0 ≡ panicked) × (x.1.spool ≡ m.spool)
  unfolding collect_due
  collect_due_panics l now wm clusters r m pos w lt h =
      let (d, e, none_due) = due_without_window l.size l.max_backfill now wm pos lt h in
      rw (w, collect_due)
        (rw e (meter_without_window (targets_of l.per_project r clusters) l.size d m none_due))
