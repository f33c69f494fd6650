-- ===== src/Controller/Gaps/Spans.antt =====
-- What fillTenantGaps of internal/controller/controller.go keeps of an outage.
use vbilling.Prelude.{◌%◌, ◌≤◌, ◌≡◌, Option, none, some}
use vbilling.Prelude.Text.{Text}
use vbilling.Usage.{Time}
use vbilling.Spool.Ingest.{second}
use vbilling.Kv.{Disk, Store, set}
use vbilling.Controller.Gaps.{Clock, Gap, print_gap, read_gap, parse_gap, gap_from}

abbrev gap_of : Time → Time → Gap
gap_of from to = record { from = from; to = to }

module _ (k : Clock) where
  abbrev read_opt : Option Text → Option Gap
  read_opt none = none
  read_opt (some v) = read_gap k v

  -- Where the gap of a cluster begins when its API fails in this run.
  abbrev pub opened_at : Disk → Time → Text → Store → Time
  opened_at io first id s = gap_from k first (parse_gap k io id s).0

  -- What is printed for the cluster reads back.
  abbrev pub Prints : Disk → Time → Time → Store → Text → Type 0
  Prints io first last s id =
      (opened_at io first id s % second ≡ 0) × (opened_at io first id s ≤ last)

  abbrev record_one : Disk → Time → Time → Text → Store → Store
  record_one io first last id s =
      (set io id (print_gap k (opened_at io first id s) last) (parse_gap k io id s).1).1
