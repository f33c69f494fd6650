-- ===== src/Examples/UsageRuns.antt =====
-- The theorems on windows at concrete times.
use vbilling.Prelude.{◌+◌, ◌*◌, ◌%◌, ◌≡◌, refl, [], ◌∷◌, arith}
use vbilling.Usage.{unix_epoch, window, overlap}
use vbilling.Usage.Windows.{billed, billed-overlap, window_epoch_offset}

-- A pod that runs from 130 to 270, over the windows 100..200..300.
billed-overlap_example : billed 130 270 100 (200 ∷ 300 ∷ []) ≡ overlap 130 270 100 300
billed-overlap_example =
    billed-overlap 130 270 100 (200 ∷ 300 ∷ []) 300 (omega arith, (omega arith, refl))

-- Seven days.
window_epoch_offset_example :
    (window (unix_epoch + 3 * 604800000000000) 604800000000000).start + unix_epoch % 604800000000000
    ≡ unix_epoch + 3 * 604800000000000
window_epoch_offset_example = window_epoch_offset 3 604800000000000 (omega arith)
