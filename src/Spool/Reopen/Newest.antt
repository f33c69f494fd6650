-- ===== src/Spool/Reopen/Newest.antt =====
-- Where the chain goes on after the segments that recover of internal/spool/spool.go has read.
use mathlib.Core.List.{append-nil}
use vbilling.Prelude.{
  ℕ, suc, ◌+◌, ◌≡◌, ◌∙◌, refl, sym, ap, subst, true, false, Option, none, some, List, [], ◌∷◌, ◌++◌,
  arith, inl, inr,
}
use vbilling.Prelude.Tests.{◌==◌, if◌then◌else◌, Option-cases}
use vbilling.Prelude.Lists.{length, length-append}
use vbilling.Prelude.Text.{Text}
use vbilling.Spool.Codec.{Codec, Record}
use vbilling.Spool.State.{Segment}
use vbilling.Spool.Chain.{end_hash, end_hash-append}
use vbilling.Spool.Ledger.{records_of, ledger_of, Chained, Holds}
use vbilling.Spool.Reopen.{newest_full, last_of, init_of, derive}

pub init-last : (g : Segment) (gs : List Segment) → init_of g gs ++ last_of g gs ∷ [] ≡ g ∷ gs
init-last g [] = refl
init-last g (h ∷ gs) = ap (λ l. g ∷ l) (init-last h gs)

module _ (c : Codec) where
  -- What the newest segment with a record says of a chain of records.
  abbrev pub Ends : Text → ℕ → List Record → Option Segment → Type 0
  Ends prev start rs none = rs ≡ []
  Ends prev start rs (some g) = (g.last ≡ start + length rs) × (g.last_hash ≡ end_hash c prev rs)

  Ends-one :
      (prev : Text) (start : ℕ) (rs : List Record) (g : Segment)
      → Holds c prev start rs g
      → Ends prev start rs (if g.last == 0 then none else some g)
  Ends-one prev start [] g h = let z : (g.last == 0) ≡ true = ground (arith, h.last) in rw z refl
  Ends-one prev start (r ∷ rs) g h =
      let z : (g.last == 0) ≡ false = ground (arith, h.last) in rw z (h.last, h.last_hash)

  newest_full-Ends :
      (prev : Text) (start : ℕ) (gs : List Segment)
      → Chained c prev start gs
      → Ends prev start (ledger_of c gs) (newest_full gs)
  unfolding newest_full ledger_of
  newest_full-Ends prev start [] h = refl
  newest_full-Ends prev start (g ∷ gs) h =
      let rs = records_of c g in
      let ih = newest_full-Ends (end_hash c prev rs) (start + length rs) gs h.1 in
      elim (Option-cases (newest_full gs)) [
        | inr (x, q) ↦
            let k : Ends (end_hash c prev rs) (start + length rs) (ledger_of c gs) (some x) =
              rw q at ih in
            rw (q, newest_full)
              (
                omega (arith, k.0, length-append rs (ledger_of c gs)),
                k.1 ∙ sym (end_hash-append c prev rs (ledger_of c gs)),
              )
        | inl q ↦
            let k : ledger_of c gs ≡ [] = rw q at ih in
            let whole : rs ++ ledger_of c gs ≡ rs = ap (λ l. rs ++ l) k ∙ append-nil rs in
            rw (q, newest_full)
              (subst (λ l. Ends prev start l (if g.last == 0 then none else some g)) (sym whole)
                (Ends-one prev start rs g h.0))
      ]

  none_before : (rs ts : List Record) → rs ++ ts ≡ [] → (rs ≡ []) × (ts ≡ [])
  none_before [] ts h = (refl, h)
  none_before (r ∷ rs) ts h = cc h

  last-first :
      (prev : Text) (start : ℕ) (g : Segment) (gs : List Segment)
      → Chained c prev start (g ∷ gs)
      → ledger_of c (g ∷ gs) ≡ []
      → (last_of g gs).first ≡ suc start
  unfolding ledger_of
  last-first prev start g [] h e = h.0.first
  last-first prev start g (k ∷ gs) h e =
      let rs = records_of c g in
      let (a, b) = none_before rs (ledger_of c (k ∷ gs)) e in
      let n : length rs ≡ 0 = ap length a in
      omega (arith, n, last-first (end_hash c prev rs) (start + length rs) k gs h.1 b)

  -- The number and the hash are those of the end of the chain.
  pub derive_lem :
      (anchor : Text) (base : ℕ) (g : Segment) (gs : List Segment)
      → Chained c anchor base (g ∷ gs)
      → let x = derive anchor (g ∷ gs) in
        (x.0 ≡ base + length (ledger_of c (g ∷ gs)))
        × (x.1 ≡ end_hash c anchor (ledger_of c (g ∷ gs)))
  unfolding derive
  derive_lem anchor base g gs h =
      let ends = newest_full-Ends anchor base (g ∷ gs) h in
      elim (Option-cases (newest_full (g ∷ gs))) [
        | inr (x, q) ↦
            let k : Ends anchor base (ledger_of c (g ∷ gs)) (some x) = rw q at ends in
            rw (q, derive) k
        | inl q ↦
            let k : ledger_of c (g ∷ gs) ≡ [] = rw q at ends in
            let n : length (ledger_of c (g ∷ gs)) ≡ 0 = ap length k in
            rw (q, derive)
              (omega (arith, n, last-first anchor base g gs h k), sym (ap (end_hash c anchor) k))
      ]
