-- ===== src/Controller/Gaps.antt =====
-- fillTenantGaps and parseGap of internal/controller/controller.go: the windows that a tenant cluster's
-- own API could not be read for, and their metering once it answers. time.RFC3339 is a parameter.
pub mod Spans
pub mod Filled
use vbilling.Prelude.{
  ◌<◌, ℕ, zero, suc, ◌+◌, ◌-◌, ◌/◌, ◌%◌, ◌≡◌, ◌≢◌, Bool, true, false, ◌||◌, Option, none, some,
  List, [], ◌∷◌, ◌++◌, arith,
}
use vbilling.Prelude.Tests.{ltb, leb, ◌==◌, if◌then◌else◌}
use vbilling.Prelude.Lists.{length, All}
use vbilling.Prelude.Text.{Text, codes, text_eq, member}
use vbilling.Usage.{Time, year_10000, Duration, Event}
use vbilling.Destinations.Signatures.{cut}
use vbilling.Spool.Codec.{Codec}
use vbilling.Spool.State.{Spool, Io, Result, ok, err}
use vbilling.Spool.Ingest.{append_ingest, second}
use vbilling.Kv.{Disk, Store, get, set, delete}
use vbilling.Discovery.{external_id}
use vbilling.Controller.Plan.{Window}
use vbilling.Controller.Meter.{Target, Metered, Meter, Limits}

abbrev bar : ℕ
bar = 124

-- time.RFC3339 has whole seconds and no bar; what is printed of a year of four digits reads back.
pub record Clock : Type 0 where
  pub print_time : Time → Text
  pub parse_time : Text → Option Time
  pub print_time_bar : (t : Time) → All (λ x. x ≢ bar) (print_time t)
  pub parse-print_time :
      (t : Time) → t < year_10000 → t % second ≡ 0 → parse_time (print_time t) ≡ some t

-- From the end of the first window to the end of the last.
pub record Gap : Type 0 where
  pub from : Time
  pub to : Time

abbrev pub source_tenant_fill : Text
source_tenant_fill = codes "tenant-api-fill"

module _ (k : Clock) where
  unfoldable pub print_gap : Time → Time → Text
  print_gap from to = k.print_time from ++ bar ∷ k.print_time to

  unfoldable pub read_gap : Text → Option Gap
  unfolding cut
  read_gap v = elim (cut bar v) [
    | none ↦ none
    | some (a, b) ↦ elim (k.parse_time a) [
      | none ↦ none
      | some from ↦ elim (k.parse_time b) [
        | none ↦ none
        | some to ↦
            if ltb to from then none else (let g : Gap = record { from = from; to = to } in some g)
      ]
    ]
  ]

  -- parseGap: what is not a gap is deleted.
  unfoldable pub parse_gap : Disk → Text → Store → Option Gap × Store
  unfolding read_gap delete
  parse_gap io id s = elim (get id s) [
    | none ↦ (none, s)
    | some v ↦ elim (read_gap v) [ none ↦ (none, (delete io id s).1) | some g ↦ (some g, s) ]
  ]

  unfoldable pub gap_from : Time → Option Gap → Time
  gap_from first none = first
  gap_from first (some g) = g.from

  -- The loop over the clusters whose API failed.
  unfoldable pub record_failed : Disk → Time → Time → List Text → Store → Store
  unfolding parse_gap gap_from print_gap set
  record_failed io first last [] s = s
  record_failed io first last (id ∷ ids) s =
      let (g, t) = parse_gap io id s in
      record_failed io first last ids (set io id (print_gap (gap_from first g) last) t).1

-- The windows of the gap that are not too old; the first argument is fuel.
unfoldable pub missed_from : ℕ → Duration → Time → Time → Time → List Window
missed_from zero size earliest to end = []
missed_from (suc n) size earliest to end =
    let rest = missed_from n size earliest to (end + size) in
    if leb end to
    then if ltb earliest end
      then record { start = end - size; end = end; latest = false } ∷ rest
      else rest
    else []

unfoldable pub missed : Duration → Time → Gap → List Window
unfolding missed_from
missed size earliest g = missed_from (suc ((g.to - g.from) / size)) size earliest g.to g.from

unfoldable pub all_events : (Time → List Event) → List Window → List Event
all_events f [] = []
all_events f (w ∷ ws) = f w.end ++ all_events f ws

unfoldable pub is_none_failed : Metered → Bool
is_none_failed x = elim x.failed [ [] ↦ true | id ∷ ids ↦ false ]

module _ {W : Type 0} (c : Codec) (k : Clock) (ask : W → Io × W) (disk : W → Disk)
    (fill : Target → List Window → W → Option Metered × W) where
  -- What the API answered goes to the ledger; the gap is deleted when that has worked.
  unfoldable pub ingest_fill : Text → List Window → Metered → Meter W → Meter W
  unfolding delete all_events
  ingest_fill id ws x m =
      let (io, world) = ask m.world in
      let (r, t) = append_ingest c io source_tenant_fill (all_events x.by_window ws) m.spool in
      let m' = record m { spool = t; world = world } in
      elim r [ err e ↦ m' | ok u ↦ record m' { gaps = (delete (disk world) id m.gaps).1 } ]

  unfoldable pub fill_windows : Text → Target → List Window → Meter W → Meter W
  unfolding ingest_fill is_none_failed delete
  fill_windows id t [] m = record m { gaps = (delete (disk m.world) id m.gaps).1 }
  fill_windows id t (w ∷ ws) m =
      let (got, world) = fill t (w ∷ ws) m.world in
      let m' = record m { world = world } in
      elim got [
        | none ↦ m'
        | some x ↦ if is_none_failed x then ingest_fill id (w ∷ ws) x m' else m'
      ]

  -- One target of the second loop.
  unfoldable pub fill_target : Duration → Time → List Text → Target → Meter W → Meter W
  unfolding parse_gap missed fill_windows member
  fill_target size earliest failed t m =
      let id = external_id t.cluster in
      let (g, s) = parse_gap k (disk m.world) id m.gaps in
      let m' = record m { gaps = s } in
      elim g [
        | none ↦ m'
        | some gap ↦
            if member id failed then m' else fill_windows id t (missed size earliest gap) m'
      ]

  unfoldable pub fill_targets : Duration → Time → List Text → List Target → Meter W → Meter W
  unfolding fill_target
  fill_targets size earliest failed [] m = m
  fill_targets size earliest failed (t ∷ ts) m =
      fill_targets size earliest failed ts (fill_target size earliest failed t m)

  last_end : Window → List Window → Time
  last_end w [] = w.end
  last_end w (v ∷ ws) = last_end v ws

  -- The windows are those of the run, at least one. `fills` tells whether the collector can fill.
  unfoldable pub fill_tenant_gaps :
      Limits → Bool → List Text → Window → List Window → List Target → Meter W → Meter W
  unfolding record_failed fill_targets last_end
  fill_tenant_gaps l fills failed w ws targets m =
      let last = last_end w ws in
      let m' = record m { gaps = record_failed k (disk m.world) w.end last failed m.gaps } in
      if fills then fill_targets l.size (last - l.max_backfill) failed targets m' else m'
