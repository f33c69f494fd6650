-- ===== src/Controller/Gaps/Filled.antt =====
-- When fillTenantGaps of internal/controller/controller.go forgets a gap.
use vbilling.Prelude.{◌≡◌, ◌⊎◌, Option, some, List, []}
use vbilling.Prelude.Text.{Text}
use vbilling.Spool.Codec.{Codec}
use vbilling.Spool.State.{Io, ok}
use vbilling.Spool.Ingest.{append_ingest}
use vbilling.Kv.{Disk}
use vbilling.Controller.Plan.{Window}
use vbilling.Controller.Meter.{Target, Metered, Meter}
use vbilling.Controller.Gaps.{Clock, all_events, source_tenant_fill}

module _ {W : Type 0} (c : Codec) (k : Clock) (ask : W → Io × W) (disk : W → Disk)
    (fill : Target → List Window → W → Option Metered × W) where
  -- `got` is what the collector answered for the target `t` and these windows, no API having failed, and
  -- AppendIngest has taken all its events of these windows.
  pub record Filled (t : Target) (ws : List Window) (m n : Meter W) : Type 0 where
    pub got : Metered
    pub answered : (fill t ws m.world).0 ≡ some got
    pub none_failed : got.failed ≡ []
    pub accepted : List Text × List Text
    pub ingested :
        append_ingest c
          (ask (fill t ws m.world).1).0
          source_tenant_fill
          (all_events got.by_window ws)
          m.spool
        ≡ (ok accepted, n.spool)

  -- The store is as it was, or the windows are in the ledger.
  abbrev Done : Target → List Window → Meter W → Meter W → Type 0
  Done t ws m n = (n.gaps ≡ m.gaps) ⊎ Filled t ws m n
