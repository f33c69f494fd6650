-- ===== src/Pipeline/Loop/Covers.antt =====
-- Which records of the ledger a read covers, for the loop of internal/pipeline/dispatcher.go.
use vbilling.Prelude.{
  ℕ, suc, ◌+◌, ◌-◌, ◌≤◌, ◌<◌, ◌≡◌, ◌∙◌, sym, ap, subst, List, [], ◌∷◌, ◌++◌, arith,
}
use vbilling.Prelude.Lists.{length, take, drop, All, All-mono, take-append-drop, length-take}
use vbilling.Prelude.Text.{Text}
use vbilling.Spool.Codec.{Codec, Record}
use vbilling.Spool.Chain.{
  Linked-seq, hash_of, end_hash, Linked, Linked-append, Linked-prefix, Linked-suffix,
}
use vbilling.Spool.State.{Segment, Spool, segments}
use vbilling.Spool.Ledger.{Chained, records_of, ledger_of, ledger, IsSound}
use vbilling.Pipeline.Loop.{last_of}

module _ (c : Codec) where
  Chained-Linked :
      (prev : Text) (start : ℕ) (gs : List Segment)
      → Chained c prev start gs
      → Linked c prev start (ledger_of c gs)
  unfolding ledger_of
  Chained-Linked prev start [] h = tt
  Chained-Linked prev start (g ∷ gs) h =
      Linked-append c prev start (records_of c g) (ledger_of c gs) h.0.linked
        (Chained-Linked (end_hash c prev (records_of c g)) (start + length (records_of c g)) gs h.1)

  pub IsSound-Linked :
      (base : ℕ) (s : Spool) → IsSound c base s → Linked c s.anchor base (ledger c s)
  unfolding ledger
  IsSound-Linked base s v = Chained-Linked s.anchor base (segments s) v.chained

  pub last_of-Linked :
      (prev : Text) (start : ℕ) (r : Record) (rs : List Record)
      → Linked c prev start (r ∷ rs)
      → last_of r rs ≡ start + length (r ∷ rs)
  unfolding last_of
  last_of-Linked prev start r [] h = omega (arith, h.0)
  last_of-Linked prev start r (x ∷ rs) h =
      omega (arith, last_of-Linked (hash_of c r) (suc start) x rs h.3)

  -- The ledger around a read of `max` records from the number `at`.
  pub record Around (base at max : ℕ) (l : List Record) (prev : Text) : Type 0 where
    pub before : List Record
    pub after : List Record
    pub split : l ≡ before ++ (take max (drop (at - base) l) ++ after)
    pub early : All (λ (r : Record). r.seq ≤ at) before
    pub start : ℕ
    pub hash : Text
    pub read : Linked c hash start (take max (drop (at - base) l))
    pub late : All (λ (r : Record). start + length (take max (drop (at - base) l)) < r.seq) after
    pub reached : at ≤ base + length l → base ≤ at → start ≡ at

  pub Linked-Around :
      (base at max : ℕ) (l : List Record) (prev : Text)
      → Linked c prev base l
      → Around base at max l prev
  Linked-Around base at max l prev h =
      let k = at - base in
      let before = take k l in
      let rest = drop k l in
      let after = drop max rest in
      let e = take-append-drop k l in
      let whole = subst (Linked c prev base) (sym e) h in
      let h1 = Linked-prefix c prev base before rest whole in
      let h2 = Linked-suffix c prev base before rest whole in
      let start = base + length before in
      let hash = end_hash c prev before in
      let h3 = subst (Linked c hash start) (sym (take-append-drop max rest)) h2 in
      let read = Linked-prefix c hash start (take max rest) after h3 in
      let h4 = Linked-suffix c hash start (take max rest) after h3 in
      record {
        before = before;
        after = after;
        split = sym e ∙ ap (λ x. before ++ x) (sym (take-append-drop max rest));
        early =
            All-mono before (λ r b. omega (arith, b.1, b.0, length-take k l))
              (Linked-seq c prev base before h1);
        start = start;
        hash = hash;
        read = read;
        late =
            All-mono after (λ r b. b.0) (Linked-seq c _ (start + length (take max rest)) after h4);
        reached = λ h i. omega (arith, length-take k l);
      }
