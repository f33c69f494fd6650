-- ===== src/Spool/Codec/Lines.antt =====
-- Files as bytes and as lines: rendering lines and splitting them, whole and cut short.
use mathlib.Core.List.{append-nil}
use vbilling.Prelude.{ℕ, ◌≡◌, ◌≢◌, refl, ap, subst, List, [], ◌∷◌, ◌++◌, arith}
use vbilling.Prelude.Lists.{All}
use vbilling.Spool.Codec.{Bytes, newline, split_lines}

abbrev pub NoBreak : Bytes → Type 0
NoBreak l = All (λ x. x ≢ newline) l

unfoldable pub render : List Bytes → Bytes
render [] = []
render (l ∷ ls) = l ++ newline ∷ render ls

pub append-cons : (l : Bytes) (x : ℕ) (ys zs : Bytes) → (l ++ x ∷ ys) ++ zs ≡ l ++ x ∷ (ys ++ zs)
append-cons [] x ys zs = refl
append-cons (y ∷ l) x ys zs = ap (◌∷◌ y) (append-cons l x ys zs)

pub render-append : (xs ys : List Bytes) → render (xs ++ ys) ≡ render xs ++ render ys
unfolding render
render-append [] ys = refl
render-append (l ∷ xs) ys = rw (append-cons l newline (render xs) (render ys), render-append xs ys)

split_lines-cons :
    (l rest : Bytes)
    → NoBreak l
    → split_lines (l ++ newline ∷ rest)
      ≡ record { complete = l ∷ (split_lines rest).complete; torn = (split_lines rest).torn }
unfolding split_lines
split_lines-cons [] rest h = refl
split_lines-cons (b ∷ l) rest h = ground (arith, split_lines-cons l rest h.1)

split_lines-torn : (l : Bytes) → NoBreak l → split_lines l ≡ record { complete = []; torn = l }
unfolding split_lines
split_lines-torn [] h = refl
split_lines-torn (b ∷ l) h = ground (arith, split_lines-torn l h.1)

-- Lines without line breaks, then a last piece without one, read back as they are.
pub split_lines-render :
    (ls : List Bytes) (t : Bytes)
    → All NoBreak ls
    → NoBreak t
    → split_lines (render ls ++ t) ≡ record { complete = ls; torn = t }
unfolding render
split_lines-render [] t h k = split_lines-torn t k
split_lines-render (l ∷ ls) t h k =
    rw (append-cons l newline (render ls) t, split_lines-cons l (render ls ++ t) h.0)
      (rw (split_lines-render ls t h.1 k))

pub split_lines-render_whole :
    (ls : List Bytes)
    → All NoBreak ls
    → split_lines (render ls) ≡ record { complete = ls; torn = [] }
split_lines-render_whole ls h =
    subst (λ f. split_lines f ≡ record { complete = ls; torn = [] }) (append-nil (render ls))
      (split_lines-render ls [] h tt)
