-- ===== src/Usage/Windows.antt =====
-- What `Window` and `Overlap` of internal/usage/usage.go guarantee.
use native.Mathlib.Nat.{div-add-mod', mul-mod_left, mod-lt, add-mul-mod_self_right}
use vbilling.Prelude.{ℕ, ◌+◌, ◌*◌, ◌/◌, ◌%◌, ◌≤◌, ◌<◌, ◌≡◌, refl, sym, arith, List, [], ◌∷◌}
use vbilling.Usage.{Time, Duration, truncate, unix_epoch, window, overlap}

pub truncate-mul : (t size : ℕ) → 0 < size → truncate t size ≡ t / size * size
unfolding truncate
truncate-mul t size h = ground (arith, div-add-mod' t size)

pub truncate-mod : (t size : ℕ) → 0 < size → truncate t size % size ≡ 0
truncate-mod t size h = rw (truncate-mul t size h) (mul-mod_left (t / size) size)

pub truncate_bounds : (t size : ℕ) → 0 < size → (truncate t size ≤ t) × (t < truncate t size + size)
truncate_bounds t size h = omega (arith, truncate-mul t size h, div-add-mod' t size, mod-lt t h)

-- For a positive size the window contains the time, has that size, and starts at a multiple of
-- the size since the zero time.
pub window_contains :
    (t : Time) (size : Duration)
    → 0 < size
    → ((window t size).start ≤ t)
      × (t < (window t size).end)
      × ((window t size).end ≡ (window t size).start + size)
      × ((window t size).start % size ≡ 0)
unfolding window
window_contains t size h =
    ((truncate_bounds t size h).0, (truncate_bounds t size h).1, refl, truncate-mod t size h)

overlap_split :
    (start end ws mid we : Time)
    → ws ≤ mid
    → mid ≤ we
    → overlap start end ws mid + overlap start end mid we ≡ overlap start end ws we
unfolding overlap
overlap_split start end ws mid we h k = ground arith

-- Windows that follow one another from `ws`, each given by its end.
pub billed : Time → Time → Time → List Time → Duration
billed start end ws [] = 0
billed start end ws (we ∷ rest) = overlap start end ws we + billed start end we rest

abbrev pub Ascends : Time → List Time → Time → Type 0
Ascends ws [] last = ws ≡ last
Ascends ws (we ∷ rest) last = (ws ≤ we) × Ascends we rest last

Ascends-le : (ws : Time) (ends : List Time) (last : Time) → Ascends ws ends last → ws ≤ last
Ascends-le ws [] last h = omega arith
Ascends-le ws (we ∷ rest) last h = omega (arith, Ascends-le we rest last h.1)

overlap_self : (start end ws : Time) → overlap start end ws ws ≡ 0
unfolding overlap
overlap_self start end ws = ground arith

-- Whatever windows a stretch of time is cut into, an interval (open when its end is zero) is
-- billed over them for exactly what it overlaps of the whole stretch.
pub billed-overlap :
    (start end ws : Time) (ends : List Time) (last : Time)
    → Ascends ws ends last
    → billed start end ws ends ≡ overlap start end ws last
unfolding billed
billed-overlap start end ws [] last h = rw (sym h) (sym (overlap_self start end ws))
billed-overlap start end ws (we ∷ rest) last h = omega (
  arith,
  billed-overlap start end we rest last h.1,
  overlap_split start end ws we last h.0 (Ascends-le we rest last h.1),
)

-- A window opened at a whole number of sizes after the Unix epoch starts there only if the size
-- divides the epoch's distance from the zero time; otherwise it starts earlier by the remainder.
pub window_epoch_offset :
    (k : ℕ) (size : Duration)
    → 0 < size
    → (window (unix_epoch + k * size) size).start + unix_epoch % size ≡ unix_epoch + k * size
unfolding window
window_epoch_offset k size h = omega (
  arith,
  truncate-mul (unix_epoch + k * size) size h,
  div-add-mod' (unix_epoch + k * size) size,
  add-mul-mod_self_right unix_epoch k size,
)
