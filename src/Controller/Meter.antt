-- ===== src/Controller/Meter.antt =====
-- CollectDue of internal/controller/controller.go up to the filling of gaps: what is due is collected
-- and committed, window by window. The collector (internal/metrics) and the clock are parameters.
pub mod Committed
pub mod Caught
pub mod Live
pub mod Panics
use vbilling.Prelude.{ℕ, Bool, true, false, Option, none, some, List, [], ◌∷◌, ◌++◌, map}
use vbilling.Prelude.Tests.{ltb, if◌then◌else◌}
use vbilling.Prelude.Text.{Text, codes, lookup}
use vbilling.Usage.{Time, Duration, Event, Tenant}
use vbilling.Spool.Codec.{Codec}
use vbilling.Spool.State.{Spool, Io, Result, ok, err}
use vbilling.Spool.Append.{append_window}
use vbilling.Kv.{Store}
use vbilling.Discovery.{TenantCluster, tenant_id}
use vbilling.Pipeline.Tenants.{TenantRegistry, get}
use vbilling.Controller.Plan.{Window, Due, due, windows}

pub record Target : Type 0 where
  pub cluster : TenantCluster
  pub tenant : Text
  pub project : Text
  pub tenant_class : Text

-- What a metering run gives: the events by the end of their window, and the clusters whose own API
-- failed.
pub record Metered : Type 0 where
  pub by_window : Time → List Event
  pub failed : List Text

-- What CollectDue uses of the configuration.
pub record Limits : Type 0 where
  pub size : Duration
  pub max_backfill : Duration
  pub per_project : Bool

-- What the controller's metering works on.
pub record Meter (W : Type 0) : Type 0 where
  pub spool : Spool
  pub gaps : Store
  pub last_window : Time
  pub world : W

abbrev pub source_collector : Text
source_collector = codes "collector"

-- Watermark
abbrev pub watermark : Text → Spool → Option Time
watermark source s = lookup source s.watermarks

unfoldable pub targets_of : Bool → TenantRegistry → List TenantCluster → List Target
unfolding tenant_id get
targets_of per_project r [] = []
targets_of per_project r (cl ∷ cls) =
    let t = get (tenant_id per_project cl) r in
    record { cluster = cl; tenant = t.id; project = cl.project; tenant_class = t.class }
    ∷ targets_of per_project r cls

module _ {W : Type 0} (c : Codec) (ask : W → Io × W) (by_window : Time → List Event) where
  -- The loop over the windows; it ends at the first that cannot be committed. The note goes with the
  -- first window.
  unfoldable pub commit_windows : Text → List Window → Meter W → Bool × Meter W
  commit_windows note [] m = (true, m)
  commit_windows note (w ∷ ws) m =
      let (io, world) = ask m.world in
      let (r, t) = append_window c io source_collector w.end (by_window w.end) note m.spool in
      elim r [
        | err e ↦ (false, record m { spool = t; world = world })
        | ok u ↦ commit_windows [] ws (record m { spool = t; world = world; last_window = w.end })
      ]

-- The texts of a note and of the gaps are printed by the parameter `gap_note`.
unfoldable pub note_of : (Duration → Text) → Due → Text
note_of gap_note d = if ltb 0 d.gap then gap_note d.gap else []

-- How a run ends: nothing was due, metering failed, a commit failed, all is committed, or all is
-- committed but fillTenantGaps indexes an empty list of windows.
pub data Run : Type 0 where
  not_ready nothing_due uncollected uncommitted panicked : Run
  metered : List Window → List Target → List Text → Run

-- `windows[0]` in fillTenantGaps.
unfoldable pub ended : List Window → List Target → List Text → Run
ended [] ts failed = panicked
ended (w ∷ ws) ts failed = metered (w ∷ ws) ts failed

module _ {W : Type 0} (c : Codec) (ask : W → Io × W)
    (collect : List Target → List Window → W → Option Metered × W)
    (gap_note : Duration → Text) where
  unfoldable pub meter_due : List Target → Duration → Due → Meter W → Run × Meter W
  unfolding windows commit_windows note_of ended
  meter_due targets size d m =
      let ws = windows size d in
      let (got, world) = collect targets ws m.world in
      elim got [
        | none ↦ (uncollected, record m { world = world })
        | some x ↦
            let (all, m') =
              commit_windows c ask x.by_window (note_of gap_note d) ws
                (record m { world = world }) in
            if all then (ended ws targets x.failed, m') else (uncommitted, m')
      ]

  -- CollectDue without the filling of gaps.
  unfoldable pub collect_due :
      Limits → Bool → Time → List TenantCluster → TenantRegistry → Meter W → Run × Meter W
  unfolding due targets_of meter_due
  collect_due l ready now clusters r m =
      if ready
      then elim (due l.size l.max_backfill now (watermark source_collector m.spool)) [
        | none ↦ (nothing_due, m)
        | some d ↦ meter_due (targets_of l.per_project r clusters) l.size d m
      ]
      else (not_ready, m)
