-- ===== src/Controller/Meter/Live.antt =====
-- CollectDue of internal/controller/controller.go while nothing fails.
use mathlib.Core.List.{append-nil}
use vbilling.Prelude.{
  ℕ, ◌+◌, ◌≤◌, ◌<◌, ◌≡◌, ◌∙◌, ◌⊎◌, refl, sym, ap, subst, true, false, Option, none, some, List, [],
  ◌∷◌, ◌++◌, arith, inl, inr,
}
use vbilling.Prelude.Tests.{ltb, ◌==◌, Bool-cases, Option-cases}
use vbilling.Prelude.Text.{Text, lookup}
use vbilling.Prelude.Maps.{lookup-insert_self}
use vbilling.Prelude.Lists.{All}
use vbilling.Usage.{Time, Duration, Event, truncate, year_10000}
use vbilling.Usage.Windows.{truncate_bounds}
use vbilling.Spool.Codec.{Codec, Record}
use vbilling.Spool.State.{Spool, Io, Result}
use vbilling.Spool.Ledger.{IsSound}
use vbilling.Spool.Append.{already_committed, append_window}
use vbilling.Spool.Append.Outcome.{append_window-Extends}
use vbilling.Spool.Append.Live.{Works, EventFits, Encodable, append_window_live}
use vbilling.Spool.Append.Live
use vbilling.Discovery.{TenantCluster}
use vbilling.Pipeline.Tenants.{TenantRegistry}
use vbilling.Controller.Plan.{Window, Due, due, windows}
use vbilling.Controller.Plan.Windows.{Consecutive}
use vbilling.Controller.Plan.Bounds.{From, Planned, due-Planned}
use vbilling.Controller.Plan.First.{Aligned, due_first}
use vbilling.Controller.Meter.{
  Meter, Metered, Target, Limits, nothing_due, source_collector, watermark, commit_windows, ended,
  targets_of, note_of, meter_due, collect_due,
}
use vbilling.Controller.Meter.Committed.{commit_windows-Committed, moved}
use vbilling.Controller.Meter.Caught.{is_metered, Consecutive-end}

-- No window after the watermark has closed.
abbrev pub UpToDate : Duration → Time → Option Time → Type 0
UpToDate size latest_end none = ⊥
UpToDate size latest_end (some e) = latest_end < e + size

-- The windows from `start` on come after the watermark.
abbrev pub Below : Time → Option Time → Type 0
Below start none = Unit
Below start (some t) = t ≤ start

From-Below :
    (size latest_end gap start : ℕ) (wm : Option Time)
    → From size latest_end wm gap start
    → Below start wm
From-Below size latest_end gap start none h = tt
From-Below size latest_end gap start (some t) h = omega (arith, h)

not_all :
    (size start latest_end end : ℕ)
    → start + size ≤ latest_end
    → start ≡ end
    → latest_end < end + size
    → ⊥
not_all size start latest_end end f h lt = omega arith

moved-UpToDate :
    (size start latest_end end : ℕ) (done : List Window) (wm : Option Time)
    → start + size ≤ latest_end
    → Consecutive size start done end
    → latest_end < end + size
    → UpToDate size latest_end (moved done end wm)
moved-UpToDate size start latest_end end (w ∷ ws) wm f h lt = lt
moved-UpToDate size start latest_end end [] wm f h lt =
    elim (not_all size start latest_end end f h lt) [ ]

ended-is_metered :
    (size start latest_end last : ℕ) (ws : List Window) (ts : List Target) (failed : List Text)
    → start + size ≤ latest_end
    → Consecutive size start ws last
    → latest_end < last + size
    → is_metered (ended ws ts failed) ≡ true
unfolding ended
ended-is_metered size start latest_end last (w ∷ ws) ts failed f h lt = refl
ended-is_metered size start latest_end last [] ts failed f h lt =
    elim (not_all size start latest_end last f h lt) [ ]

Consecutive-le :
    (size start last : ℕ) (ws : List Window) → Consecutive size start ws last → start ≤ last
Consecutive-le size start last [] h = omega (arith, h)
Consecutive-le size start last (w ∷ ws) h =
    omega (arith, Consecutive-le size (start + size) last ws h.2)

not_committed :
    (s : Spool) (start size : ℕ) (end : Time)
    → 0 < size
    → end ≡ start + size
    → Below start (watermark source_collector s)
    → already_committed source_collector end s ≡ false
unfolding already_committed
not_committed s start size end pos e b =
    let z : (end == 0) ≡ false = ground (arith, e, pos) in
    elim (Option-cases (watermark source_collector s)) [
      | inl q ↦ rw (q, z) refl
      | inr (t, q) ↦
          let b' : t ≤ start = rw q at b in
          let l : ltb t end ≡ true = ground (arith, e, pos, b') in rw (q, z, l) refl
    ]

module _ {W : Type 0} (c : Codec) (ask : W → Io × W)
    (collect : List Target → List Window → W → Option Metered × W) (gap_note : Duration → Text)
    (base : ℕ) (works : (w : W) → Works (ask w).0)
    (encodes : (r : Record) → Encodable r → (json : List ℕ) × (c.marshal r ≡ some json))
    (clock : (w : W) → (ask w).0.now < year_10000) where
  commit_windows_live :
      (size : ℕ) (by_window : Time → List Event) (note : Text) (start last : Time)
      (ws : List Window) (m : Meter W)
      → 0 < size
      → IsSound c base m.spool
      → Live.Ready m.spool
      → Consecutive size start ws last
      → last < year_10000
      → ((t : Time) → All EventFits (by_window t))
      → Below start (watermark source_collector m.spool)
      → (commit_windows c ask by_window note ws m).0 ≡ true
  unfolding commit_windows
  commit_windows_live size by_window note start last [] m pos v r h early fits b = refl
  commit_windows_live size by_window note start last (w ∷ ws) m pos v r h early fits b =
      let (io, world) = ask m.world in
      let x = append_window c io source_collector w.end (by_window w.end) note m.spool in
      let at : w.end ≡ start + size = h.1 in
      let (q, r') =
        append_window_live io (works m.world) c encodes (clock m.world) source_collector w.end
          (by_window w.end) note m.spool (fits w.end)
          (omega (arith, at, early, Consecutive-le size (start + size) last ws h.2)) r
          (not_committed m.spool start size w.end pos at b) in
      let k =
        append_window-Extends c io source_collector w.end base (by_window w.end) note m.spool x.1 v
          (ap (λ (y : Result Unit). let p : Result Unit × Spool = (y, x.1) in p) q) in
      let nonzero : (w.end == 0) ≡ false = ground (arith, at, pos) in
      let moved' : watermark source_collector x.1 ≡ some w.end =
        ap (lookup source_collector) k.watermarks
        ∙ rw nonzero (lookup-insert_self source_collector w.end m.spool.watermarks) in
      let below : w.end ≤ start + size = omega (arith, at) in
      let m' : Meter W = record m { spool = x.1; world = world; last_window = w.end } in
      rw (q, commit_windows)
        (commit_windows_live size by_window [] (start + size) last ws m' pos k.sound r' h.2 early
          fits (subst (Below (start + size)) (sym moved') below))

  module _ (undo : (w : W) → (ask w).0.truncate_ok ≡ true)
      (collects : (ts : List Target) (ws : List Window) (w : W)
        → (x : Metered) × ((collect ts ws w).0 ≡ some x)
          × ((t : Time) → All EventFits (x.by_window t))) where
    meter_due_live :
        (targets : List Target) (size max_backfill : Duration) (latest_end : Time) (d : Due)
        (m : Meter W)
        → 0 < size
        → IsSound c base m.spool
        → Live.Ready m.spool
        → Planned size max_backfill latest_end (watermark source_collector m.spool) d
        → d.first_end ≤ d.latest_end
        → latest_end < year_10000
        → let x = meter_due c ask collect gap_note targets size d m in
          (is_metered x.0 ≡ true) × UpToDate size latest_end (watermark source_collector x.1.spool)
    unfolding meter_due
    meter_due_live targets size max_backfill latest_end d m pos v r p f early =
        let first : p.start + size ≤ latest_end = omega (arith, f, p.begins, p.latest) in
        let ws = windows size d in
        let y = collect targets ws m.world in
        let (x, q, fits) = collects targets ws m.world in
        let m' : Meter W = record m { world = y.1 } in
        let note = note_of gap_note d in
        let z = commit_windows c ask x.by_window note ws m' in
        let b =
          From-Below size latest_end d.gap p.start (watermark source_collector m.spool) p.after in
        let live =
          commit_windows_live size x.by_window note p.start p.all.last ws m' pos v r
            p.all.consecutive (omega (arith, p.all.closed, early)) fits b in
        let (k, g) =
          commit_windows-Committed c base size x.by_window ask undo (λ w. (works w).open_ok) pos
            note p.start p.all.last ws m' v p.all.consecutive in
        let none_left : k.rest ≡ [] = elim g [ inl g ↦ cc (g, live) | inr g ↦ g ] in
        let whole : ws ≡ k.done = k.split ∙ ap (λ l. k.done ++ l) none_left ∙ append-nil k.done in
        let at : p.all.last ≡ k.end =
          Consecutive-end size p.start p.all.last k.end k.done
            (subst (λ l. Consecutive size p.start l p.all.last) whole p.all.consecutive)
            k.consecutive in
        let up =
          moved-UpToDate size p.start latest_end k.end k.done (watermark source_collector m.spool)
            first k.consecutive (omega (arith, at, p.all.reached)) in
        let met =
          ended-is_metered size p.start latest_end p.all.last ws targets x.failed first
            p.all.consecutive p.all.reached in
        rw (q, meter_due) (rw live (met, subst (UpToDate size latest_end) (sym k.watermark) up))

    not_due :
        (size max_backfill : Duration) (now : Time) (wm : Option Time)
        → 0 < size
        → due size max_backfill now wm ≡ none
        → UpToDate size (truncate now size) wm
    unfolding due
    not_due size max_backfill now none pos h = cc h
    not_due size max_backfill now (some t) pos h = elim (Bool-cases (ltb t (truncate now size))) [
      | inl q ↦ cc (rw q at h)
      | inr q ↦ ground (arith, q, pos)
    ]

    -- While the operating system and the collector fail nothing, the collected quantities are finite and
    -- all times before the year 10000, so that encoding/json can write them, MAX_BACKFILL is positive,
    -- the watermark is a multiple of the interval and discovery has succeeded, a run of CollectDue on an
    -- open spool ends well, or had nothing to do, and no closed window is left after the watermark.
    pub collect_due_catches_up :
        (l : Limits) (now : Time) (clusters : List TenantCluster) (r : TenantRegistry) (m : Meter W)
        → 0 < l.size
        → l.size ≤ now
        → now < year_10000
        → 0 < l.max_backfill
        → Aligned l.size (watermark source_collector m.spool)
        → IsSound c base m.spool
        → Live.Ready m.spool
        → let x = collect_due c ask collect gap_note l true now clusters r m in
          ((x.0 ≡ nothing_due) ⊎ (is_metered x.0 ≡ true))
          × UpToDate l.size (truncate now l.size) (watermark source_collector x.1.spool)
    unfolding collect_due
    collect_due_catches_up l now clusters r m pos le early b a v k =
        let wm = watermark source_collector m.spool in
        elim (Option-cases (due l.size l.max_backfill now wm)) [
          | inl q ↦ rw (q, collect_due) (inl refl, not_due l.size l.max_backfill now wm pos q)
          | inr (d, q) ↦
              let (e, u) =
                meter_due_live (targets_of l.per_project r clusters) l.size l.max_backfill
                  (truncate now l.size) d m pos v k
                  (due-Planned l.size l.max_backfill now wm d pos le q)
                  (due_first l.size l.max_backfill now wm d pos b a q)
                  (omega (arith, early, (truncate_bounds now l.size pos).0)) in
              rw (q, collect_due) (inr e, u)
        ]
