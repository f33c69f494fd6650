-- ===== src/Spool/Read/Lines.antt =====
-- What the loop of readSegmentOpts (internal/spool/spool.go) reads from the lines of a chain of
-- records.
use mathlib.Core.List.{append_assoc, append-nil}
use vbilling.Prelude.{
  ℕ, suc, ◌+◌, ◌-◌, ◌≤◌, ◌<◌, ◌≡◌, ◌∙◌, sym, ap, some, List, [], ◌∷◌, ◌++◌, arith, inl, inr,
}
use vbilling.Prelude.Tests.{ltb, if◌then◌else◌, Bool-cases}
use vbilling.Prelude.Lists.{length, length-append, take, drop, drop_nil}
use vbilling.Prelude.Text.{Text}
use vbilling.Spool.Codec.{Bytes, Codec, Record}
use vbilling.Spool.Codec.Format.{parse_line-print_line, peek_seq-print_line}
use vbilling.Spool.Chain.{body_of, line_of, hash_of, Linked}
use vbilling.Spool.Ledger.{lines_of}
use vbilling.Spool.State.{ok}
use vbilling.Spool.Read.{
  Verdict, skip, give, in_range, look, judge, read_lines, verified, everything, collect,
}

module _ (c : Codec) (from upto : ℕ) where
  abbrev pub see : Bytes → Verdict
  see = judge c (verified c) everything from upto

  see-line_of :
      (r : Record)
      → c.marshal r ≡ some (body_of c r)
      → r.seq ≤ upto
      → see (line_of c r) ≡ (if ltb r.seq from then skip else give r)
  unfolding judge look in_range verified everything
  see-line_of r h le =
      rw (peek_seq-print_line c r (body_of c r) h, judge)
        (rw (parse_line-print_line c r (body_of c r) h, verified) (ground arith))

  next_drop :
      (seq : ℕ) (r : Record) (rs : List Record)
      → suc seq < from
      → drop (from - suc seq) (r ∷ rs) ≡ drop (from - suc (suc seq)) rs
  next_drop seq r rs h =
      let e : from - suc seq ≡ suc (from - suc (suc seq)) = omega arith in
      ap (λ k. drop k (r ∷ rs)) e

  no_drop : (seq : ℕ) (rs : List Record) → from ≤ suc seq → drop (from - suc seq) rs ≡ rs
  no_drop seq rs h = let e : from - suc seq ≡ 0 = omega arith in ap (λ k. drop k rs) e

  -- With room for `q + 1` more records.
  pub read_lines-lines_of :
      (max q : ℕ) (prev : Text) (seq : ℕ) (rs out : List Record)
      → Linked c prev seq rs
      → seq + length rs ≤ upto
      → length out + suc q ≡ max
      → read_lines see (collect max) out (lines_of c rs)
        ≡ ok (out ++ take (suc q) (drop (from - suc seq) rs))
  unfolding read_lines collect
  read_lines-lines_of max q prev seq [] out h le room =
      rw (drop_nil {A = Record} (from - suc seq)) (ap ok (sym (append-nil out)))
  read_lines-lines_of max q prev seq (r ∷ rs) out h le room =
      let s = see-line_of r h.2 (omega (arith, h.0)) in
      elim (Bool-cases (ltb r.seq from)) [
        | inl b ↦
            rw (s, read_lines)
              (rw b (
                read_lines-lines_of max q (hash_of c r) (suc seq) rs out h.3 (omega arith) room
                ∙ ap (λ l. ok (out ++ take (suc q) l))
                    (sym (next_drop seq r rs (ground (arith, h.0, b))))))
        | inr b ↦ elim (Bool-cases (ltb (length out + 1) max)) [
          | inl m ↦
              let ih =
                read_lines-lines_of max (q - 1) (hash_of c r) (suc seq) rs (out ++ r ∷ []) h.3
                  (omega arith) (ground (arith, m, length-append out (r ∷ []))) in
              let e : suc (q - 1) ≡ q = ground (arith, m) in
              rw (s, read_lines)
                (rw b (
                  rw m (
                    ih
                    ∙ ap ok (
                        ap (λ l. (out ++ r ∷ []) ++ take (suc (q - 1)) l)
                          (no_drop (suc seq) rs (ground (arith, h.0, b)))
                        ∙ append_assoc out (r ∷ []) (take (suc (q - 1)) rs)
                        ∙ ap (λ n. out ++ r ∷ take n rs) e
                        ∙ sym (
                            ap (λ l. out ++ take (suc q) l)
                              (no_drop seq (r ∷ rs) (ground (arith, h.0, b))))))))
          | inr m ↦
              let e : q ≡ 0 = ground (arith, m) in
              rw (s, read_lines)
                (rw b (
                  rw m (
                    ap ok (
                      ap (λ n. out ++ r ∷ take n rs) (sym e)
                      ∙ sym (
                          ap (λ l. out ++ take (suc q) l)
                            (no_drop seq (r ∷ rs) (ground (arith, h.0, b))))))))
        ]
      ]
