-- ===== src/Pipeline/Backoff.antt =====
-- Options.defaults and sleepBackoff of internal/pipeline/dispatcher.go: how long a destination that
-- fails is left alone. The jitter and the sleep itself are not modelled.
use native.Mathlib.Nat.{pow-suc, mul_assoc}
use vbilling.Prelude.{◌≡◌, sym, ap, ◌∙◌, ℕ, zero, suc, ◌*◌, ◌^◌, ◌≤◌, min, arith}
use vbilling.Prelude.Tests.{ltb, ◌==◌, if◌then◌else◌}
use vbilling.Usage.{Duration}

pub record Tuning : Type 0 where
  pub batch_size : ℕ
  pub min_backoff : Duration
  pub max_backoff : Duration
  pub idle_poll : Duration

unfoldable pub tuning_defaults : Tuning → Tuning
tuning_defaults o = record {
  batch_size = if o.batch_size == 0 then 500 else o.batch_size;
  min_backoff = if o.min_backoff == 0 then 1000000000 else o.min_backoff;
  max_backoff = if o.max_backoff == 0 then 5 * 60 * 1000000000 else o.max_backoff;
  idle_poll = if o.idle_poll == 0 then 5 * 1000000000 else o.idle_poll;
}

-- What sleepBackoff returns after it has slept.
unfoldable pub next_backoff : Tuning → Duration → Duration
next_backoff o prev =
    let raised = if ltb (prev * 2) o.min_backoff then o.min_backoff else prev * 2 in
    if ltb o.max_backoff raised then o.max_backoff else raised

-- The delay after `k + 1` failures in a row.
pub delay : Tuning → ℕ → Duration
delay o zero = next_backoff o 0
delay o (suc k) = next_backoff o (delay o k)

scaled_double : (m k : ℕ) → m * 2 ^ suc k ≡ m * 2 ^ k * 2
scaled_double m k = ap (λ x. m * x) (pow-suc 2 k) ∙ sym (mul_assoc m (2 ^ k) 2)

scaled_ge : (m k : ℕ) → m ≤ m * 2 ^ k
scaled_ge m zero = omega arith
scaled_ge m (suc k) = omega (arith, scaled_ge m k, scaled_double m k)

next_backoff-min :
    (o : Tuning) (x : ℕ)
    → o.min_backoff ≤ x
    → next_backoff o (min x o.max_backoff) ≡ min (x * 2) o.max_backoff
unfolding next_backoff
next_backoff-min o x h = ground arith

-- The delays double from the smallest one and stay at the largest: after `k + 1` failures in a row
-- the delay is the smallest one times `2 ^ k`, or the largest one if that is less.
pub delay-min : (o : Tuning) (k : ℕ) → delay o k ≡ min (o.min_backoff * 2 ^ k) o.max_backoff
unfolding delay
delay-min o zero = unfold next_backoff in ground arith
delay-min o (suc k) =
    ap (next_backoff o) (delay-min o k)
    ∙ next_backoff-min o (o.min_backoff * 2 ^ k) (scaled_ge o.min_backoff k)
    ∙ ap (λ x. min x o.max_backoff) (sym (scaled_double o.min_backoff k))
