-- ===== src/Spool/Recover/Crash.antt =====
-- A crash in the middle of a write: what scanSegment makes of a file that ends in a part of a batch.
use mathlib.Core.List.{append_assoc, append-nil}
use vbilling.Prelude.{
  ℕ, zero, suc, ◌+◌, ◌≤◌, ◌<◌, ◌≡◌, ◌∙◌, refl, sym, subst, ap, Option, none, some, List, [], ◌∷◌,
  ◌++◌, arith, inl, inr, ◌⊎◌, true, false, Bool,
}
use vbilling.Prelude.Tests.{if◌then◌else◌}
use vbilling.Prelude.Lists.{
  All, All-append, All-mono, length, take, drop, take-map, take-append_le, take-append-drop,
  length-take, length-map, All-take, length-append,
}
use vbilling.Prelude.Text.{Text}
use vbilling.Spool.Codec.{Bytes, Codec, Commit, Record, newline, split_lines}
use vbilling.Spool.Codec.Lines.{
  NoBreak, append-cons, render, split_lines-render, split_lines-render_whole,
}
use vbilling.Spool.Chain.{line_of, hash_of, Linked, Linked-prefix, Linked-suffix}
use vbilling.Spool.Ledger.{lines_of, file_of, Linked-NoBreak}
use vbilling.Spool.Append.Batches.{file_of-append}
use vbilling.Spool.State.{Offset}
use vbilling.Spool.Recover.Scans.{
  scan_fold, scan_lines-fold, scan_fold-append, IsPlain, scan_fold-SameCommit, scan_fold-off,
  IsSettled, finish_cut,
}
use vbilling.Spool.Recover.{
  see_commit, advance, Scan, start_scan, commit_of, scan_step, finish_scan, scan_segment,
}

-- A prefix of a rendering is some of the lines, then a piece without a line break.
pub record Cut (ls : List Bytes) (f : Bytes) : Type 0 where
  pub count : ℕ
  pub rest : Bytes
  pub split : f ≡ render (take count ls) ++ rest
  pub no_break : NoBreak rest
  pub within : length f < length (render ls) → count < length ls

take-line :
    (l : Bytes) (rest : Bytes) (k : ℕ)
    → NoBreak l
    → ((take k (l ++ newline ∷ rest) ≡ take k l) × NoBreak (take k l) × (k ≤ length l))
      ⊎ ((j : ℕ) × (take k (l ++ newline ∷ rest) ≡ l ++ newline ∷ take j rest)
          × (k ≡ suc (length l) + j))
take-line l rest zero h = inl (refl, tt, omega arith)
take-line [] rest (suc k) h = inr (k, refl, omega arith)
take-line (x ∷ l) rest (suc k) h = elim (take-line l rest k h.1) [
  | inl (e, n, le) ↦ inl (ap (◌∷◌ x) e, (h.0, n), omega arith)
  | inr (j, e, q) ↦ inr (j, ap (◌∷◌ x) e, omega arith)
]

pub cut : (ls : List Bytes) (k : ℕ) → All NoBreak ls → Cut ls (take k (render ls))
unfolding render
cut [] zero h = record { count = 0; rest = []; split = refl; no_break = tt; within = λ p. p }
cut [] (suc k) h = record { count = 0; rest = []; split = refl; no_break = tt; within = λ p. p }
cut (l ∷ ls) k h = elim (take-line l (render ls) k h.0) [
  | inl (e, n, le) ↦ record {
    count = 0;
    rest = take k l;
    split = e;
    no_break = n;
    within = λ p. omega arith;
  }
  | inr (j, e, q) ↦
      let t = cut ls j h.1 in
      record {
        count = suc t.count;
        rest = t.rest;
        split =
            e
            ∙ ap (λ f. l ++ newline ∷ f) t.split
            ∙ sym (append-cons l newline (render (take t.count ls)) t.rest);
        no_break = t.no_break;
        within = λ p.
            let shorter : length (take j (render ls)) < length (render ls) = omega (
              arith,
              p,
              ap length e,
              length-append l (newline ∷ take j (render ls)),
              length-append l (newline ∷ render ls),
            ) in
            omega (arith, t.within shorter);
      }
]

grown_below :
    (b : Bool) (ixs : List Offset) (e : Offset) (n m : ℕ)
    → All (λ (ix : Offset). ix.off < n) ixs
    → n ≤ m
    → e.off < m
    → All (λ (ix : Offset). ix.off < m) (if b then ixs ++ e ∷ [] else ixs)
grown_below true ixs e n m h le lt =
    All-append (λ (ix : Offset). ix.off < m) ixs (e ∷ []) (All-mono ixs (λ ix p. omega arith) h)
      (lt, tt)
grown_below false ixs e n m h le lt = All-mono ixs (λ ix p. omega arith) h

module _ (c : Codec) (first : ℕ) where
  -- The records end in a commit, if there are any.
  abbrev pub IsClosed : List Record → Type 0
  IsClosed rs =
      (rs ≡ [])
      ⊎ ((ys : List Record) × (r : Record) × (k : Commit) × (rs ≡ ys ++ r ∷ [])
          × (commit_of r ≡ some k)
          × (0 < r.at))

  IsBelow : Scan → Type 0
  IsBelow sc = All (λ (ix : Offset). ix.off < sc.off) sc.index

  advance-IsBelow :
      (r : Record) (len : ℕ) (sc : Scan) → 0 < len → IsBelow sc → IsBelow (advance first r len sc)
  unfolding IsBelow advance
  advance-IsBelow r len sc pos h =
      grown_below _ sc.index (record { seq = r.seq; off = sc.off }) sc.off (sc.off + len) h
        (omega arith) (omega arith)

  see_commit-IsBelow :
      (r : Record) (hash : Text) (k : Option Commit) (sc : Scan)
      → IsBelow sc
      → IsBelow (see_commit r hash k sc)
  unfolding see_commit IsBelow
  see_commit-IsBelow r hash none sc h = h
  see_commit-IsBelow r hash (some k) sc h = h

  scan_fold-IsBelow :
      (rs : List Record) (sc : Scan) → IsBelow sc → IsBelow (scan_fold c first rs sc)
  unfolding scan_fold
  scan_fold-IsBelow [] sc h = h
  scan_fold-IsBelow (r ∷ rs) sc h =
      scan_fold-IsBelow rs (scan_step first r (hash_of c r) (length (line_of c r) + 1) sc) (
        unfold scan_step in
        see_commit-IsBelow r (hash_of c r) (commit_of r) _
          (advance-IsBelow r (length (line_of c r) + 1) sc (omega arith) h))

  commit-IsSettled :
      (r : Record) (hash : Text) (k : Commit) (len : ℕ) (sc : Scan)
      → commit_of r ≡ some k
      → 0 < r.at
      → 0 < len
      → IsBelow sc
      → IsSettled c first (scan_step first r hash len sc)
  unfolding scan_step see_commit
  commit-IsSettled r hash k len sc e at pos h =
      rw (e, see_commit)
        (record {
          good_end = refl;
          index = unfold IsBelow in advance-IsBelow r len sc pos h;
          first_at = λ p. unfold advance in ground arith;
        })

  pub scan_fold-IsSettled :
      (rs : List Record) → IsClosed rs → IsSettled c first (scan_fold c first rs start_scan)
  unfolding scan_fold
  scan_fold-IsSettled rs (inl e) =
      subst (λ xs. IsSettled c first (scan_fold c first xs start_scan)) (sym e)
        (record { good_end = refl; index = tt; first_at = λ h. h })
  scan_fold-IsSettled rs (inr (ys, r, k, e, commit, at)) =
      subst (λ xs. IsSettled c first (scan_fold c first xs start_scan)) (sym e)
        (rw (scan_fold-append c first ys (r ∷ []) start_scan) (
          commit-IsSettled r (hash_of c r) k (length (line_of c r) + 1) _ commit at (omega arith)
            (scan_fold-IsBelow ys start_scan (unfold IsBelow in tt))))

  -- The part of a batch that reached the disk: some of its events, and a piece of a line.
  partial_write :
      (rs evs : List Record) (last : Record) (k : ℕ) (prev : Text) (seq : ℕ)
      → Linked c prev seq (rs ++ (evs ++ last ∷ []))
      → k < length (file_of c (evs ++ last ∷ []))
      → (j : ℕ) × (rest : Bytes) × (file_of c rs ++ take k (file_of c (evs ++ last ∷ []))
          ≡ file_of c (rs ++ take j evs) ++ rest)
        × NoBreak rest
  partial_write rs evs last k prev seq h short =
      let ts = evs ++ last ∷ [] in
      let linked = Linked-suffix c prev seq rs ts h in
      let t = cut (lines_of c ts) k (Linked-NoBreak c _ _ ts linked) in
      let j_small : t.count ≤ length evs = omega (
        arith,
        short,
        length-take k (file_of c ts),
        length-map (line_of c) ts,
        length-append evs (last ∷ []),
        t.within (omega (arith, short, length-take k (file_of c ts))),
      ) in
      let es = take t.count evs in
      let shown : take t.count (lines_of c ts) ≡ lines_of c es =
        take-map (line_of c) t.count ts
        ∙ ap (lines_of c) (take-append_le t.count evs (last ∷ []) j_small) in
      (
        t.count,
        t.rest,
        ap (λ (f : Bytes). file_of c rs ++ f) t.split
            ∙ ap (λ (ls : List Bytes). file_of c rs ++ (render ls ++ t.rest)) shown
            ∙ sym (append_assoc (file_of c rs) (file_of c es) t.rest)
            ∙ ap (λ (f : Bytes). f ++ t.rest) (sym (file_of-append c rs es)),
        t.no_break,
      )

  pub scan_segment-split :
      (newest : Bool) (f torn : Bytes) (prev : Text) (seq : ℕ) (ts : List Record)
      → split_lines f ≡ record { complete = lines_of c ts; torn = torn }
      → Linked c prev seq ts
      → scan_segment c first newest f
        ≡ finish_scan first newest f torn (scan_fold c first ts start_scan)
  unfolding scan_segment
  scan_segment-split newest f torn prev seq ts e h =
      rw (e, scan_segment) (rw (scan_lines-fold c first prev seq ts start_scan h) (rw e))

  Linked-part :
      (prev : Text) (seq : ℕ) (rs evs : List Record) (last : Record) (j : ℕ)
      → Linked c prev seq (rs ++ (evs ++ last ∷ []))
      → Linked c prev seq (rs ++ take j evs)
  Linked-part prev seq rs evs last j h =
      Linked-prefix c prev seq (rs ++ take j evs) (drop j evs ++ last ∷ []) (
        subst (Linked c prev seq)
          (ap (λ (ts : List Record). rs ++ (ts ++ last ∷ [])) (sym (take-append-drop j evs))
            ∙ ap (λ (ts : List Record). rs ++ ts)
                (append_assoc (take j evs) (drop j evs) (last ∷ []))
            ∙ sym (append_assoc rs (take j evs) (drop j evs ++ last ∷ [])))
          h)

  -- A crash after any part of a batch has been written, its last record the commit: scanSegment
  -- makes of the file exactly what it made of it before the batch.
  pub crash_invisible :
      (prev : Text) (seq : ℕ) (rs evs : List Record) (last : Record) (k : ℕ)
      → Linked c prev seq (rs ++ (evs ++ last ∷ []))
      → IsClosed rs
      → All (IsPlain c first) evs
      → k < length (file_of c (evs ++ last ∷ []))
      → scan_segment c first true (file_of c rs ++ take k (file_of c (evs ++ last ∷ [])))
        ≡ scan_segment c first true (file_of c rs)
  crash_invisible prev seq rs evs last zero h closes plain short =
      ap (scan_segment c first true) (append-nil (file_of c rs))
  crash_invisible prev seq rs evs last (suc k) h closes plain short =
      let (j, rest, e, no_break) = partial_write rs evs last (suc k) prev seq h short in
      let es = take j evs in
      let linked = Linked-part prev seq rs evs last j h in
      let tail = take (suc k) (file_of c (evs ++ last ∷ [])) in
      scan_segment-split true (file_of c rs ++ tail) rest prev seq (rs ++ es)
        (rw e (
          split_lines-render (lines_of c (rs ++ es)) rest
            (Linked-NoBreak c prev seq (rs ++ es) linked) no_break))
        linked
      ∙ finish_cut c first (file_of c rs) tail rest (scan_fold c first rs start_scan)
          (scan_fold c first (rs ++ es) start_scan) (scan_fold-IsSettled rs closes)
          (rw (scan_fold-append c first rs es start_scan)
            (scan_fold-SameCommit c first es _ (All-take (IsPlain c first) j evs plain)))
          (omega (arith, scan_fold-off c first rs start_scan))
          (omega (arith, length-take (suc k) (file_of c (evs ++ last ∷ [])), short))
      ∙ sym (
          scan_segment-split true (file_of c rs) [] prev seq rs
            (split_lines-render_whole (lines_of c rs)
              (Linked-NoBreak c prev seq rs (Linked-prefix c prev seq rs (evs ++ last ∷ []) h)))
            (Linked-prefix c prev seq rs (evs ++ last ∷ []) h))
