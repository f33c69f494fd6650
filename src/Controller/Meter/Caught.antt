-- ===== src/Controller/Meter/Caught.antt =====
-- CollectDue of internal/controller/controller.go as a whole: from the watermark to the last boundary.
use mathlib.Core.List.{append-nil}
use vbilling.Prelude.{
  ℕ, ◌+◌, ◌-◌, ◌≤◌, ◌<◌, ◌≡◌, ◌∙◌, ◌⊎◌, refl, sym, ap, subst, Bool, true, false, Option, some, List,
  [], ◌∷◌, ◌++◌, arith, inl, inr,
}
use vbilling.Prelude.Tests.{Bool-cases, Option-cases}
use vbilling.Prelude.Text.{Text}
use vbilling.Usage.{Time, Duration, truncate}
use vbilling.Spool.Codec.{Codec}
use vbilling.Spool.State.{Spool, Io}
use vbilling.Spool.Ledger.{IsSound}
use vbilling.Spool.Append.Rotation.{SameLedger-refl}
use vbilling.Discovery.{TenantCluster}
use vbilling.Pipeline.Tenants.{TenantRegistry}
use vbilling.Controller.Plan.{Window, Due, due, windows}
use vbilling.Controller.Plan.Windows.{Consecutive}
use vbilling.Controller.Plan.Bounds.{From, Planned, due-Planned}
use vbilling.Controller.Meter.{
  Meter, Metered, Target, Limits, Run, not_ready, nothing_due, uncollected, uncommitted, panicked,
  metered, source_collector, watermark, commit_windows, targets_of, note_of, meter_due, collect_due,
}
use vbilling.Controller.Meter.Committed.{Committed, Committed-none, commit_windows-Committed}

pub Consecutive-end :
    (size start a b : ℕ) (ws : List Window)
    → Consecutive size start ws a
    → Consecutive size start ws b
    → a ≡ b
Consecutive-end size start a b [] h k = sym h ∙ k
Consecutive-end size start a b (w ∷ ws) h k = Consecutive-end size (start + size) a b ws h.2 k.2

abbrev pub is_metered : Run → Bool
is_metered (metered ws ts ids) = true
is_metered not_ready = false
is_metered nothing_due = false
is_metered uncollected = false
is_metered uncommitted = false
is_metered panicked = false

-- Where the windows `ws` of a run begin, and what was collected for them: they follow the watermark
-- `wm` and the gap, which holds only what is older than the backfill allows, and `answer` is what the
-- collector answered to these targets and windows.
pub record Collected {W : Type 0} (collect : List Target → List Window → W → Option Metered × W)
    (size max_backfill : Duration) (latest_end : Time) (targets : List Target) (world : W)
    (wm : Option Time) (answer : Metered) (start : Time) (ws : List Window) : Type 0 where
  pub gap : Duration
  pub from : From size latest_end wm gap start
  pub old : (gap ≡ 0) ⊎ (start ≤ latest_end - max_backfill)
  pub answered : (collect targets ws world).0 ≡ some answer

-- What a run of CollectDue has done from the spool `s` to the spool `t`: it has metered nothing, or
-- committed what the collector answered.
pub record Caught {W : Type 0} (c : Codec)
    (collect : List Target → List Window → W → Option Metered × W) (base : ℕ)
    (size max_backfill : Duration) (latest_end : Time) (targets : List Target) (world : W)
    (s t : Spool) (run : Run) : Type 0 where
  pub answer : Metered
  pub start : Time
  pub ws : List Window
  pub collected :
      Collected collect size max_backfill latest_end targets world
        (watermark source_collector s)
        answer
        start
        ws
      ⊎ ((ws ≡ []) × (is_metered run ≡ false))
  pub committed : Committed c base size answer.by_window start ws s t
  pub caught_up :
      (is_metered run ≡ false)
      ⊎ ((committed.end ≤ latest_end) × (latest_end < committed.end + size))

module _ {W : Type 0} (c : Codec) (ask : W → Io × W)
    (collect : List Target → List Window → W → Option Metered × W) (gap_note : Duration → Text)
    (base : ℕ) (undo : (w : W) → (ask w).0.truncate_ok ≡ true)
    (opens : (w : W) → (ask w).0.open_ok ≡ true) where
  idle :
      (targets : List Target) (size max_backfill : Duration) (latest_end : Time) (m : Meter W)
      (run : Run)
      → IsSound c base m.spool
      → is_metered run ≡ false
      → Caught c collect base size max_backfill latest_end targets m.world m.spool m.spool run
  idle targets size max_backfill latest_end m run v q = record {
    answer = record { by_window = λ t. []; failed = [] };
    start = 0;
    ws = [];
    collected = inr (refl, q);
    committed =
        Committed-none c base size (λ t. []) 0 [] m.spool m.spool
          (SameLedger-refl c base m.spool v);
    caught_up = inl q;
  }

  meter_due-Caught :
      (targets : List Target) (size max_backfill : Duration) (latest_end : Time) (d : Due)
      (m : Meter W)
      → 0 < size
      → IsSound c base m.spool
      → Planned size max_backfill latest_end (watermark source_collector m.spool) d
      → let x = meter_due c ask collect gap_note targets size d m in
        Caught c collect base size max_backfill latest_end targets m.world m.spool x.1.spool x.0
  unfolding meter_due
  meter_due-Caught targets size max_backfill latest_end d m pos v p =
      let ws = windows size d in
      let y = collect targets ws m.world in
      elim (Option-cases y.0) [
        | inl q ↦ rw (q, meter_due) (idle targets size max_backfill latest_end m uncollected v refl)
        | inr (x, q) ↦
            let m' = record m { world = y.1 } in
            let note = note_of gap_note d in
            let z = commit_windows c ask x.by_window note ws m' in
            let from : Collected collect size max_backfill latest_end targets m.world
                (watermark source_collector m.spool) x p.start ws =
              record { gap = d.gap; from = p.after; old = p.old; answered = q } in
            let (k, f) =
              commit_windows-Committed c base size x.by_window ask undo opens pos note p.start
                p.all.last ws m' v p.all.consecutive in
            elim (Bool-cases z.0) [
              | inr b ↦
                  rw (q, meter_due)
                    (rw b (record {
                      answer = x;
                      start = p.start;
                      ws = ws;
                      collected = inl from;
                      committed = k;
                      caught_up = inl refl;
                    }))
              | inl b ↦
                  let none_left : k.rest ≡ [] = elim f [ inl g ↦ cc (b, g) | inr g ↦ g ] in
                  let whole : ws ≡ k.done =
                    k.split ∙ ap (λ l. k.done ++ l) none_left ∙ append-nil k.done in
                  let at : p.all.last ≡ k.end =
                    Consecutive-end size p.start p.all.last k.end k.done
                      (subst (λ l. Consecutive size p.start l p.all.last) whole p.all.consecutive)
                      k.consecutive in
                  rw (q, meter_due)
                    (rw b (record {
                      answer = x;
                      start = p.start;
                      ws = ws;
                      collected = inl from;
                      committed = k;
                      caught_up =
                          inr (omega (arith, at, p.all.closed), omega (arith, at, p.all.reached));
                    }))
            ]
      ]

  -- However a run of CollectDue ends, if truncations and the opening of new files work, it has metered
  -- nothing and changed nothing in the ledger, or it has asked the collector about the windows that
  -- follow the watermark and the gap that the backfill leaves out, and has added to the ledger what
  -- the collector answered for windows that follow one another from there on, each window once, and
  -- moved the watermark to the end of the last one; when it ends well, no closed window is left. A
  -- failed run leaves the windows that it has not committed to the next one.
  pub collect_due-Caught :
      (l : Limits) (ready : Bool) (now : Time) (clusters : List TenantCluster) (r : TenantRegistry)
      (m : Meter W)
      → 0 < l.size
      → l.size ≤ now
      → IsSound c base m.spool
      → let x = collect_due c ask collect gap_note l ready now clusters r m in
        Caught c collect base l.size l.max_backfill
          (truncate now l.size)
          (targets_of l.per_project r clusters)
          m.world
          m.spool
          x.1.spool
          x.0
  unfolding collect_due
  collect_due-Caught l false now clusters r m pos le v =
      idle (targets_of l.per_project r clusters) l.size l.max_backfill (truncate now l.size) m
        not_ready v refl
  collect_due-Caught l true now clusters r m pos le v =
      elim (Option-cases (due l.size l.max_backfill now (watermark source_collector m.spool))) [
        | inl q ↦
            rw (q, collect_due)
              (idle (targets_of l.per_project r clusters) l.size l.max_backfill
                (truncate now l.size) m nothing_due v refl)
        | inr (d, q) ↦
            rw (q, collect_due)
              (meter_due-Caught (targets_of l.per_project r clusters) l.size l.max_backfill
                (truncate now l.size) d m pos v
                (due-Planned l.size l.max_backfill now (watermark source_collector m.spool) d pos le
                  q))
      ]
