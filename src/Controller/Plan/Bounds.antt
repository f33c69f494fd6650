-- ===== src/Controller/Plan/Bounds.antt =====
-- What CollectDue of internal/controller/controller.go plans to meter.
use mathlib.Core.Option.{some-injective}
use native.Mathlib.Nat.{div-add-mod', mod-lt, mod-eq_of_lt}
use vbilling.Prelude.{
  ℕ, suc, ◌+◌, ◌-◌, ◌*◌, ◌/◌, ◌%◌, ◌≤◌, ◌<◌, ◌≡◌, ◌≢◌, ◌⊎◌, refl, subst, false, Option, none, some,
  arith, inl, inr,
}
use vbilling.Prelude.Tests.{ltb, leb, Bool-cases}
use vbilling.Prelude.Lists.{length, All}
use vbilling.Usage.{Time, Duration, truncate}
use vbilling.Usage.Windows.{truncate_bounds, truncate-mod}
use vbilling.Controller.Plan.{Window, Due, earliest, after_watermark, due, windows}
use vbilling.Controller.Plan.Windows.{Reach, windows_from-Reach, windows_from-latest}

-- Where the first window starts: after the watermark and the gap, or a size before the last boundary.
abbrev pub From : Duration → Time → Option Time → Duration → Time → Type 0
From size latest_end none gap start = start + size ≡ latest_end
From size latest_end (some t) gap start = start ≡ t + gap

-- The windows that are metered from the watermark `wm` on: they follow one another up to the last
-- boundary, and what is left out before them, the gap, is older than the backfill allows.
pub record Planned (size max_backfill : Duration) (latest_end : Time) (wm : Option Time) (d : Due)
    : Type 0 where
  pub start : Time
  pub begins : d.first_end ≡ start + size
  pub latest : d.latest_end ≡ latest_end
  pub all : Reach size latest_end start (windows size d)
  pub after : From size latest_end wm d.gap start
  pub old : (d.gap ≡ 0) ⊎ (start ≤ latest_end - max_backfill)
  pub bounded : length (windows size d) * size ≤ max_backfill + size

enough_fuel :
    (size start latest_end : ℕ)
    → 0 < size
    → latest_end < start + suc (suc ((latest_end - (start + size)) / size)) * size
enough_fuel size start latest_end pos = omega (
  arith,
  div-add-mod' (latest_end - (start + size)) size,
  mod-lt (latest_end - (start + size)) pos,
)

windows-Reach :
    (size start : ℕ) (d : Due)
    → 0 < size
    → start ≤ d.latest_end
    → d.first_end ≡ start + size
    → Reach size d.latest_end start (windows size d)
unfolding windows
windows-Reach size start d pos le e = rw e (
    windows_from-Reach (suc ((d.latest_end - (start + size)) / size)) size d.latest_end start le
      (enough_fuel size start d.latest_end pos))

truncate_ge : (now size : ℕ) → 0 < size → size ≤ now → size ≤ truncate now size
truncate_ge now size pos le = elim (Bool-cases (leb size (truncate now size))) [
  | inl q ↦ ground (arith, q)
  | inr q ↦
      let small : truncate now size < size = ground (arith, q) in
      omega (
        arith,
        truncate-mod now size pos,
        mod-eq_of_lt small,
        (truncate_bounds now size pos).1,
        le,
        small,
      )
]

planned :
    (size max_backfill start : ℕ) (wm : Option Time) (d : Due)
    → 0 < size
    → start ≤ d.latest_end
    → d.first_end ≡ start + size
    → From size d.latest_end wm d.gap start
    → (d.gap ≡ 0) ⊎ (start ≤ d.latest_end - max_backfill)
    → d.latest_end ≤ start + (max_backfill + size)
    → Planned size max_backfill d.latest_end wm d
planned size max_backfill start wm d pos le e after old near =
    let r = windows-Reach size start d pos le e in
    record {
      start = start;
      begins = e;
      latest = refl;
      all = r;
      after = after;
      old = old;
      bounded = omega (arith, r.count, r.closed, near);
    }

after_watermark-Planned :
    (size max_backfill latest_end wm : ℕ)
    → 0 < size
    → wm < latest_end
    → Planned size max_backfill latest_end
        (some wm)
        (after_watermark size max_backfill latest_end wm)
unfolding after_watermark earliest
after_watermark-Planned size max_backfill latest_end wm pos lt =
    let low = truncate (latest_end - max_backfill) size in
    let (below, near) = truncate_bounds (latest_end - max_backfill) size pos in
    elim (Bool-cases (ltb (wm + size) (low + size))) [
      | inl q ↦ rw q (
          planned size max_backfill low (some wm)
            (record {
              first_end = low + size;
              latest_end = latest_end;
              gap = low + size - (wm + size);
            })
            pos (omega (arith, below)) refl (ground (arith, q)) (inr below) (omega (arith, near)))
      | inr q ↦ rw q (
          planned size max_backfill wm (some wm)
            (record { first_end = wm + size; latest_end = latest_end; gap = 0 }) pos
            (omega (arith, lt)) refl (omega arith) (inl refl) (ground (arith, near, q)))
    ]

-- From the watermark, or for a fresh ledger from the last closed window on, CollectDue meters windows
-- that follow one another up to the last boundary; it leaves out only what is older than MAX_BACKFILL,
-- notes its exact length, and never meters more than MAX_BACKFILL and one window.
pub due-Planned :
    (size max_backfill : Duration) (now : Time) (wm : Option Time) (d : Due)
    → 0 < size
    → size ≤ now
    → due size max_backfill now wm ≡ some d
    → Planned size max_backfill (truncate now size) wm d
unfolding due
due-Planned size max_backfill now none d pos le h =
    let latest_end = truncate now size in
    let ge = truncate_ge now size pos le in
    subst (Planned size max_backfill latest_end none) (some-injective _ _ h) (
      planned size max_backfill (latest_end - size) none
        (record { first_end = latest_end; latest_end = latest_end; gap = 0 }) pos (omega arith)
        (omega (arith, ge)) (omega (arith, ge)) (inl refl) (omega arith))
due-Planned size max_backfill now (some wm) d pos le h =
    let latest_end = truncate now size in
    elim (Bool-cases (ltb wm latest_end)) [
      | inr q ↦ cc (rw q at h)
      | inl q ↦
          subst (Planned size max_backfill latest_end (some wm)) (some-injective _ _ (rw q at h))
            (after_watermark-Planned size max_backfill latest_end wm pos (ground (arith, q)))
    ]

-- A watermark that is no multiple of the interval, left by an interval that was shorter, stays so: no
-- window that is backfilled from it is ever marked as the latest, so what is sampled for the latest
-- window alone is not metered until a gap cuts the backfill.
pub windows_unaligned :
    (size max_backfill : Duration) (now wm : Time) (d : Due)
    → 0 < size
    → size ≤ now
    → due size max_backfill now (some wm) ≡ some d
    → d.gap ≡ 0
    → (truncate now size - wm) % size ≢ 0
    → All (λ (w : Window). w.latest ≡ false) (windows size d)
unfolding windows
windows_unaligned size max_backfill now wm d pos le h g n =
    let p = due-Planned size max_backfill now (some wm) d pos le h in
    let at : p.start ≡ wm = omega (arith, p.after, g) in
    let e : d.first_end ≡ wm + size = omega (arith, p.begins, at) in
    rw (e, p.latest)
      (windows_from-latest (suc ((truncate now size - (wm + size)) / size)) size (truncate now size)
        wm (omega (arith, at, p.all.closed, p.all.count)) n)
