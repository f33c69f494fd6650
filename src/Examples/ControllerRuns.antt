-- ===== src/Examples/ControllerRuns.antt =====
-- The controller with an interval of 60 and a clock at 130, on a new ledger and on one that has a
-- watermark, and the tenant clusters of a small API.
use vbilling.Prelude.{ℕ, ◌≡◌, ◌⊎◌, refl, inl, true, false, Option, none, some, List, [], ◌∷◌, arith}
use vbilling.Prelude.Text.{Text, codes, lookup}
use vbilling.Usage.{truncate}
use vbilling.Spool.Codec.{Record}
use vbilling.Spool.State.{Spool, Io}
use vbilling.Prelude.Lists.{All}
use vbilling.Spool.Append.Live.{Works, EventFits, Encodable}
use vbilling.Pipeline.Tenants.{TenantRegistry}
use vbilling.Controller.Plan.{Window, due}
use vbilling.Controller.Plan.Bounds.{Planned, due-Planned}
use vbilling.Controller.Meter.{
  Meter, Metered, Target, Limits, nothing_due, panicked, source_collector, watermark, collect_due,
  targets_of,
}
use vbilling.Controller.Meter.Caught.{Caught, is_metered, collect_due-Caught}
use vbilling.Controller.Meter.Live.{UpToDate, collect_due_catches_up}
use vbilling.Controller.Meter.Panics.{collect_due_panics}
use vbilling.Examples.Plain.{plain}
use vbilling.Examples.SpoolRuns.{fresh, fresh-IsSound, healthy, batch}

abbrev limits : Limits
limits = record { size = 60; max_backfill = 600; per_project = false }

due-Planned_example :
    Planned 60 600
      (truncate 130 60)
      (some 60)
      (record { first_end = 120; latest_end = 120; gap = 0 })
due-Planned_example =
    due-Planned 60 600 130 (some 60) (record { first_end = 120; latest_end = 120; gap = 0 })
      (omega arith) (omega arith) (unfold due in refl)

abbrev asked : Unit {0} → Io × Unit {0}
asked w = (healthy, w)

abbrev collected : List Target → List Window → Unit {0} → Option Metered × Unit {0}
collected ts ws w = (some (record { by_window = λ t. batch; failed = [] }), w)

abbrev no_note : ℕ → Text
no_note gap = codes "gap"

abbrev registry : TenantRegistry
registry = record { tenants = []; ensured = [] }

abbrev meter : Spool → Meter (Unit {0})
meter s = record {
  spool = s;
  gaps = record { path = []; entries = []; file = none };
  last_window = 0;
  world = tt;
}

collect_due-Caught_example :
    let x = collect_due plain asked collected no_note limits true 130 [] registry (meter fresh) in
    Caught plain collected 0 60 600
      (truncate 130 60)
      (targets_of false registry [])
      tt
      fresh
      x.1.spool
      x.0
collect_due-Caught_example =
    collect_due-Caught plain asked collected no_note 0 (λ w. refl) (λ w. refl) limits true 130 []
      registry (meter fresh) (omega arith) (omega arith) fresh-IsSound

healthy-Works : Works healthy
healthy-Works = record {
  close_ok = refl;
  open_ok = refl;
  manifest_ok = refl;
  write = refl;
  sync_ok = refl;
}

encodes : (r : Record) → Encodable r → (json : List ℕ) × (plain.marshal r ≡ some json)
unfolding plain
encodes r h = (_, refl)

batch-EventFits : (t : ℕ) → All EventFits batch
batch-EventFits t = (
  (refl, omega arith, omega arith, omega arith),
  ((refl, omega arith, omega arith, omega arith), tt),
)

collect_due_catches_up_example :
    let x = collect_due plain asked collected no_note limits true 130 [] registry (meter fresh) in
    ((x.0 ≡ nothing_due) ⊎ (is_metered x.0 ≡ true))
    × UpToDate 60 (truncate 130 60) (watermark source_collector x.1.spool)
unfolding lookup
collect_due_catches_up_example =
    collect_due_catches_up plain asked collected no_note 0 (λ w. healthy-Works) encodes
      (λ w. omega arith) (λ w. refl) (λ ts ws w. (_, refl, batch-EventFits)) limits 130 [] registry
      (meter fresh) (omega arith) (omega arith) (omega arith) (omega arith) tt fresh-IsSound
      (record { not_closed = refl; active_open = refl })

-- The interval was shorter before.
abbrev unaligned : Spool
unaligned = record fresh { watermarks = (source_collector, 70) ∷ [] }

collect_due_panics_example :
    let x =
      collect_due plain asked collected no_note limits true 130 [] registry (meter unaligned) in
    (x.0 ≡ panicked) × (x.1.spool ≡ unaligned)
unfolding lookup truncate
collect_due_panics_example =
    collect_due_panics plain asked collected no_note (λ ts w. (_, refl)) limits 130 70 [] registry
      (meter unaligned) (omega arith) refl (omega arith) (inl (omega arith))
