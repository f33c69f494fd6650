-- ===== src/Examples/DeliveryRuns.antt =====
-- The theorems on the cache of delivered IDs at concrete inputs.
use vbilling.Prelude.{[], ◌∷◌}
use vbilling.Destinations.SentCache.{SentCache, new_sent_cache}
use vbilling.Destinations.SentCache.Ring.{IsRing, adds, adds-IsRing}

-- A full cache of two.
abbrev cache : SentCache
cache = adds ((65 ∷ []) ∷ (66 ∷ []) ∷ []) (new_sent_cache 2)

adds-IsRing_example :
    IsRing (adds ((65 ∷ []) ∷ (66 ∷ []) ∷ (65 ∷ []) ∷ (67 ∷ []) ∷ []) (new_sent_cache 2))
adds-IsRing_example = adds-IsRing 2 ((65 ∷ []) ∷ (66 ∷ []) ∷ (65 ∷ []) ∷ (67 ∷ []) ∷ [])
