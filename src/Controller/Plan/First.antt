-- ===== src/Controller/Plan/First.antt =====
-- The first window that CollectDue of internal/controller/controller.go meters.
use mathlib.Core.Option.{some-injective}
use native.Mathlib.Nat.{div-add-mod', mul-le-mul_right}
use vbilling.Prelude.{
  ℕ, ◌+◌, ◌-◌, ◌/◌, ◌%◌, ◌≤◌, ◌<◌, ◌≡◌, ◌∙◌, ◌⊎◌, refl, ap, subst, true, false, Option, none, some,
  [], arith, inl, inr,
}
use vbilling.Prelude.Tests.{ltb, leb, Bool-cases}
use vbilling.Usage.{Time, Duration, truncate}
use vbilling.Usage.Windows.{truncate_bounds, truncate-mod, truncate-mul}
use vbilling.Controller.Plan.{Due, earliest, after_watermark, due, windows, windows_from}

multiples_apart : (a b size : ℕ) → a % size ≡ 0 → b % size ≡ 0 → a < b → a + size ≤ b
multiples_apart a b size p q lt =
    let m = div-add-mod' a size in
    let n = div-add-mod' b size in
    elim (Bool-cases (ltb (a / size) (b / size))) [
      | inl l ↦
          let h : a / size + 1 ≤ b / size = ground (arith, l) in
          omega (arith, m, n, p, q, mul-le-mul_right size h)
      | inr l ↦
          let h : b / size ≤ a / size = ground (arith, l) in
          omega (arith, m, n, p, q, lt, mul-le-mul_right size h)
    ]

truncate-truncate : (t size : ℕ) → 0 < size → truncate (truncate t size) size ≡ truncate t size
truncate-truncate t size pos =
    truncate-mul (truncate t size) size pos
    ∙ omega (arith, div-add-mod' (truncate t size) size, truncate-mod t size pos)

-- A watermark at a multiple of the interval.
abbrev pub Aligned : Duration → Option Time → Type 0
Aligned size none = Unit
Aligned size (some t) = t % size ≡ 0

-- If a backfill is allowed at all and the watermark is aligned, the first window that is due has closed.
pub due_first :
    (size max_backfill : Duration) (now : Time) (wm : Option Time) (d : Due)
    → 0 < size
    → 0 < max_backfill
    → Aligned size wm
    → due size max_backfill now wm ≡ some d
    → d.first_end ≤ d.latest_end
unfolding due after_watermark earliest
due_first size max_backfill now none d pos b a h =
    subst (λ (d : Due). d.first_end ≤ d.latest_end) (some-injective _ _ h) (omega arith)
due_first size max_backfill now (some wm) d pos b a h =
    let latest_end = truncate now size in
    let low = truncate (latest_end - max_backfill) size in
    elim (Bool-cases (ltb wm latest_end)) [
      | inr q ↦ cc (rw q at h)
      | inl q ↦
          let lt : wm < latest_end = ground (arith, q) in
          let below : low < latest_end =
            omega (arith, (truncate_bounds (latest_end - max_backfill) size pos).0, lt, b) in
          let aligned = truncate-mod now size pos in
          let apart =
            multiples_apart low latest_end size (truncate-mod (latest_end - max_backfill) size pos)
              aligned below in
          let e = some-injective _ _ (rw q at h) in
          elim (Bool-cases (ltb (wm + size) (low + size))) [
            | inl r ↦ subst (λ (d : Due). d.first_end ≤ d.latest_end) e (rw r apart)
            | inr r ↦
                subst (λ (d : Due). d.first_end ≤ d.latest_end) e
                  (rw r (multiples_apart wm latest_end size a aligned lt))
          ]
    ]

windows_none : (size : Duration) (d : Due) → d.latest_end < d.first_end → windows size d ≡ []
unfolding windows windows_from
windows_none size d lt =
    let z : leb d.first_end d.latest_end ≡ false = ground (arith, lt) in rw z refl

after_watermark_late :
    (size max_backfill latest_end wm : ℕ)
    → 0 < size
    → wm < latest_end
    → (latest_end < wm + size) ⊎ (truncate (latest_end - max_backfill) size ≡ latest_end)
    → let d = after_watermark size max_backfill latest_end wm in
      (d.latest_end ≡ latest_end) × (latest_end < d.first_end)
unfolding after_watermark earliest
after_watermark_late size max_backfill latest_end wm pos lt h =
    let low = truncate (latest_end - max_backfill) size in
    elim (Bool-cases (ltb (wm + size) (low + size))) [
      | inl r ↦
          let r' : wm + size < low + size = ground (arith, r) in
          rw r (refl, elim h [ inl a ↦ omega (arith, a, r') | inr a ↦ omega (arith, a, pos) ])
      | inr r ↦
          let r' : low ≤ wm = ground (arith, r) in
          rw r (refl, elim h [ inl a ↦ a | inr a ↦ omega (arith, a, r', lt) ])
    ]

-- Less than a window has passed since a watermark, or no backfill is allowed: then a boundary after
-- the watermark makes a run due that has no window at all.
pub due_without_window :
    (size max_backfill : Duration) (now wm : Time)
    → 0 < size
    → wm < truncate now size
    → (truncate now size < wm + size) ⊎ (max_backfill ≡ 0)
    → (d : Due) × (due size max_backfill now (some wm) ≡ some d) × (windows size d ≡ [])
unfolding due
due_without_window size max_backfill now wm pos lt h =
    let latest_end = truncate now size in
    let q : ltb wm latest_end ≡ true = ground (arith, lt) in
    let d = after_watermark size max_backfill latest_end wm in
    let low : (latest_end < wm + size) ⊎ (truncate (latest_end - max_backfill) size ≡ latest_end) =
      elim h [
        | inl a ↦ inl a
        | inr z ↦
            let same : latest_end - max_backfill ≡ latest_end = omega (arith, z) in
            inr (ap (λ t. truncate t size) same ∙ truncate-truncate now size pos)
      ] in
    let (e, l) = after_watermark_late size max_backfill latest_end wm pos lt low in
    (d, rw q refl, windows_none size d (omega (arith, e, l)))
