-- ===== src/Examples/Framing.antt =====
-- A list of texts in one text, each ended by a zero: the encoding of the example codec.
use vbilling.Prelude.{ℕ, zero, suc, ◌≡◌, refl, ap, ◌∙◌, List, [], ◌∷◌, ◌++◌, map}
use vbilling.Prelude.Text.{Text, Map}

unfoldable pub frame : List Text → Text
frame [] = []
frame (t ∷ ts) = map suc t ++ zero ∷ frame ts

push : ℕ → List Text → List Text
push x [] = (x ∷ []) ∷ []
push x (t ∷ ts) = (x ∷ t) ∷ ts

unfoldable pub unframe : Text → List Text
unfolding push
unframe [] = []
unframe (zero ∷ bs) = [] ∷ unframe bs
unframe (suc x ∷ bs) = push x (unframe bs)

unframe-append : (t bs : Text) → unframe (map suc t ++ zero ∷ bs) ≡ t ∷ unframe bs
unfolding unframe
unframe-append [] bs = refl
unframe-append (x ∷ t) bs = ap (push x) (unframe-append t bs)

pub unframe-frame : (ts : List Text) → unframe (frame ts) ≡ ts
unfolding frame
unframe-frame [] = unfold unframe in refl
unframe-frame (t ∷ ts) = unframe-append t (frame ts) ∙ ap (◌∷◌ t) (unframe-frame ts)

unfoldable pub flat : Map Text → List Text
flat [] = []
flat ((k, v) ∷ m) = k ∷ v ∷ flat m

unfoldable pub pairs : List Text → Map Text
pairs [] = []
pairs (k ∷ []) = []
pairs (k ∷ v ∷ ts) = (k, v) ∷ pairs ts

pub pairs-flat : (m : Map Text) → pairs (flat m) ≡ m
unfolding flat pairs
pairs-flat [] = refl
pairs-flat ((k, v) ∷ m) = ap (◌∷◌ (k, v)) (pairs-flat m)
