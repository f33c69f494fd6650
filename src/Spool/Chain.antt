-- ===== src/Spool/Chain.antt =====
-- The hash chain of internal/spool/spool.go as a property of a list of records: the numbers follow
-- one another and each record names the hash of the one before.
use vbilling.Prelude.{
  ℕ, suc, ◌+◌, ◌≤◌, ◌<◌, ◌≡◌, refl, subst, none, some, List, [], ◌∷◌, ◌++◌, arith,
}
use vbilling.Prelude.Lists.{length, All, All-mono}
use vbilling.Prelude.Text.{Text}
use vbilling.Spool.Codec.{Bytes, Codec, Record, print_line}

module _ (c : Codec) where
  unfoldable pub body_of : Record → Bytes
  body_of r = elim (c.marshal r) [ none ↦ [] | some b ↦ b ]

  abbrev pub line_of : Record → Bytes
  line_of r = print_line c (body_of r)

  abbrev pub hash_of : Record → Text
  hash_of r = c.digest (body_of r)

  abbrev pub end_hash : Text → List Record → Text
  end_hash prev [] = prev
  end_hash prev (r ∷ rs) = end_hash (hash_of r) rs

  -- From the hash `prev` and the number `seq` of the record before.
  abbrev pub Linked : Text → ℕ → List Record → Type 0
  Linked prev seq [] = Unit
  Linked prev seq (r ∷ rs) =
      (r.seq ≡ suc seq)
      × (r.prev ≡ prev)
      × (c.marshal r ≡ some (body_of r))
      × Linked (hash_of r) (suc seq) rs

  pub end_hash-append :
      (prev : Text) (rs ts : List Record)
      → end_hash prev (rs ++ ts) ≡ end_hash (end_hash prev rs) ts
  end_hash-append prev [] ts = refl
  end_hash-append prev (r ∷ rs) ts = end_hash-append (hash_of r) rs ts

  pub Linked-append :
      (prev : Text) (seq : ℕ) (rs ts : List Record)
      → Linked prev seq rs
      → Linked (end_hash prev rs) (seq + length rs) ts
      → Linked prev seq (rs ++ ts)
  Linked-append prev seq [] ts h k = subst (λ n. Linked prev n ts) (omega arith) k
  Linked-append prev seq (r ∷ rs) ts h k = (
    h.0,
    h.1,
    h.2,
    Linked-append (hash_of r) (suc seq) rs ts h.3
        (subst (λ n. Linked (end_hash (hash_of r) rs) n ts) (omega arith) k),
  )

  pub Linked-prefix :
      (prev : Text) (seq : ℕ) (rs ts : List Record)
      → Linked prev seq (rs ++ ts)
      → Linked prev seq rs
  Linked-prefix prev seq [] ts h = tt
  Linked-prefix prev seq (r ∷ rs) ts h =
      (h.0, h.1, h.2, Linked-prefix (hash_of r) (suc seq) rs ts h.3)

  pub Linked-suffix :
      (prev : Text) (seq : ℕ) (rs ts : List Record)
      → Linked prev seq (rs ++ ts)
      → Linked (end_hash prev rs) (seq + length rs) ts
  Linked-suffix prev seq [] ts h = subst (λ n. Linked prev n ts) (omega arith) h
  Linked-suffix prev seq (r ∷ rs) ts h =
      subst (λ n. Linked (end_hash (hash_of r) rs) n ts) (omega arith)
        (Linked-suffix (hash_of r) (suc seq) rs ts h.3)

  pub Linked-seq :
      (prev : Text) (start : ℕ) (rs : List Record)
      → Linked prev start rs
      → All (λ (r : Record). (start < r.seq) × (r.seq ≤ start + length rs)) rs
  Linked-seq prev start [] h = tt
  Linked-seq prev start (r ∷ rs) h = (
    (omega (arith, h.0), omega (arith, h.0)),
    All-mono rs (λ x b. (omega (arith, b.0), omega (arith, b.1)))
        (Linked-seq (hash_of r) (suc start) rs h.3),
  )
