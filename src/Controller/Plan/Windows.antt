-- ===== src/Controller/Plan/Windows.antt =====
-- The windows that CollectDue of internal/controller/controller.go meters follow one another, reach the
-- last boundary, and are not more than the backfill allows.
use native.Mathlib.Nat.{add-mul-mod_self_right, mod_self}
use vbilling.Prelude.{
  ℕ, zero, suc, ◌+◌, ◌-◌, ◌*◌, ◌%◌, ◌≤◌, ◌<◌, ◌≡◌, ◌≢◌, ◌∙◌, refl, ap, false, List, [], ◌∷◌, arith,
  inl, inr,
}
use vbilling.Prelude.Tests.{leb, Bool-cases}
use vbilling.Prelude.Lists.{length, All}
use vbilling.Usage.{Time, Duration}
use vbilling.Controller.Plan.{Window, windows_from}

-- Windows of the size that follow one another from `start` to `last`.
abbrev pub Consecutive : Duration → Time → List Window → Time → Type 0
Consecutive size start [] last = start ≡ last
Consecutive size start (w ∷ ws) last =
    (w.start ≡ start) × (w.end ≡ start + size) × Consecutive size (start + size) ws last

-- Windows from `start` on that reach the last boundary: the next one would not have closed.
pub record Reach (size : Duration) (latest_end start : Time) (ws : List Window) : Type 0 where
  pub last : Time
  pub consecutive : Consecutive size start ws last
  pub closed : last ≤ latest_end
  pub reached : latest_end < last + size
  pub count : last ≡ start + length ws * size

pub windows_from-Reach :
    (k size latest_end start : ℕ)
    → start ≤ latest_end
    → latest_end < start + suc k * size
    → Reach size latest_end start (windows_from k size latest_end (start + size))
unfolding windows_from
windows_from-Reach zero size latest_end start a b = record {
  last = start;
  consecutive = refl;
  closed = a;
  reached = omega (arith, b);
  count = omega arith;
}
windows_from-Reach (suc k) size latest_end start a b =
    elim (Bool-cases (leb (start + size) latest_end)) [
      | inr q ↦ rw q (record {
        last = start;
        consecutive = refl;
        closed = a;
        reached = ground (arith, q);
        count = omega arith;
      })
      | inl q ↦
          let r =
            windows_from-Reach k size latest_end (start + size) (ground (arith, q))
              (omega (arith, b)) in
          rw q (record {
            last = r.last;
            consecutive = (omega arith, refl, r.consecutive);
            closed = r.closed;
            reached = r.reached;
            count = omega (arith, r.count);
          })
    ]

a_multiple : (size x : ℕ) → x ≡ size → x % size ≢ 0 → ⊥
a_multiple size x e n = n (ap (λ y. y % size) e ∙ mod_self size)

mod_step :
    (latest_end start size : ℕ)
    → start + size ≤ latest_end
    → (latest_end - start) % size ≡ (latest_end - (start + size)) % size
mod_step latest_end start size h =
    let e : latest_end - start ≡ (latest_end - (start + size)) + 1 * size = omega arith in
    ap (λ x. x % size) e ∙ add-mul-mod_self_right (latest_end - (start + size)) 1 size

-- A window is marked as the latest if it ends at the last boundary, which happens only if the
-- boundary is a whole number of sizes away.
pub windows_from-latest :
    (k size latest_end start : ℕ)
    → start ≤ latest_end
    → (latest_end - start) % size ≢ 0
    → All (λ (w : Window). w.latest ≡ false) (windows_from k size latest_end (start + size))
unfolding windows_from
windows_from-latest zero size latest_end start a b = tt
windows_from-latest (suc k) size latest_end start a b =
    elim (Bool-cases (leb (start + size) latest_end)) [
      | inr q ↦ rw q tt
      | inl q ↦
          let step = mod_step latest_end start size (ground (arith, q)) in
          let away : start + size ≢ latest_end =
            λ e. a_multiple size (latest_end - start) (omega (arith, e)) b in
          rw q (
            ground (arith, away),
            windows_from-latest k size latest_end (start + size) (ground (arith, q))
                (λ e. b (step ∙ e)),
          )
    ]
