-- ===== src/Spool/Reopen/Rescan.antt =====
-- What scanSegment of internal/spool/spool.go makes of the file of a closed chain of records.
use mathlib.Core.List.{append_assoc}
use vbilling.Prelude.{
  ℕ, suc, ◌+◌, ◌≡◌, ◌∙◌, refl, sym, ap, subst, Bool, true, false, Option, none, some, List, [], ◌∷◌,
  ◌++◌, arith, inl, inr,
}
use vbilling.Prelude.Tests.{ltb, if◌then◌else◌}
use vbilling.Prelude.Lists.{length, length-append, All, All-append}
use vbilling.Prelude.Text.{Text, Map}
use vbilling.Usage.{Time}
use vbilling.Spool.Codec.{Codec, Commit, Record}
use vbilling.Spool.Codec.Lines.{render, split_lines-render_whole}
use vbilling.Spool.Chain.{line_of, hash_of, end_hash-append, Linked, Linked-suffix}
use vbilling.Spool.Ledger.{file_of, lines_of, AtLine, Holds, last_seq, last_hash_of, Linked-NoBreak}
use vbilling.Spool.State.{Segment, Offset}
use vbilling.Spool.Append.Batches.{file_of-append}
use vbilling.Spool.Recover.{
  Scan, start_scan, commit_of, see_commit, advance, scan_step, finish_scan, close_scan,
  scan_segment,
}
use vbilling.Spool.Recover.Scans.{
  scan_fold, scan_fold-append, scan_fold-off, scan_step-off, length-line,
}
use vbilling.Spool.Recover.Crash.{IsClosed, scan_segment-split, scan_fold-IsSettled}

module _ (c : Codec) (start : ℕ) where
  last_seq-snoc :
      (ys : List Record) (r : Record) → last_seq c start (ys ++ r ∷ []) ≡ suc (start + length ys)
  last_seq-snoc [] r = omega arith
  last_seq-snoc (y ∷ ys) r = omega (arith, length-append ys (r ∷ []))

  last_hash_of-snoc :
      (prev : Text) (ys : List Record) (r : Record)
      → last_hash_of c prev (ys ++ r ∷ []) ≡ hash_of c r
  last_hash_of-snoc prev [] r = refl
  last_hash_of-snoc prev (y ∷ ys) r = end_hash-append c (hash_of c y) ys (r ∷ [])

  step-commit :
      (r : Record) (hash : Text) (k : Commit) (len : ℕ) (sc : Scan)
      → commit_of r ≡ some k
      → let next = scan_step (suc start) r hash len sc in
        (next.last_commit_seq ≡ r.seq) × (next.last_commit_hash ≡ hash)
  unfolding scan_step see_commit
  step-commit r hash k len sc e = rw (e, see_commit) (refl, refl)

  -- The scan's last commit is the last record of a closed chain.
  scan_fold-last :
      (prev : Text) (rs : List Record)
      → Linked c prev start rs
      → IsClosed c (suc start) rs
      → let sc = scan_fold c (suc start) rs start_scan in
        (sc.last_commit_seq ≡ last_seq c start rs) × (sc.last_commit_hash ≡ last_hash_of c prev rs)
  unfolding scan_fold
  scan_fold-last prev rs h (inl e) = rw e (refl, refl)
  scan_fold-last prev rs h (inr (ys, r, k, e, commit, at)) =
      let h' : Linked c prev start (ys ++ r ∷ []) = rw e at h in
      let l = Linked-suffix c prev start ys (r ∷ []) h' in
      let s =
        step-commit r (hash_of c r) k (length (line_of c r) + 1)
          (scan_fold c (suc start) ys start_scan) commit in
      rw e (
        rw (scan_fold-append c (suc start) ys (r ∷ []) start_scan, last_seq-snoc ys r) (s.0 ∙ l.0),
        rw (scan_fold-append c (suc start) ys (r ∷ []) start_scan, last_hash_of-snoc prev ys r) s.1,
      )

  entry-AtLine :
      (rs : List Record) (b : Bool) (ixs : List Offset) (e : Offset)
      → All (AtLine c start rs) ixs
      → AtLine c start rs e
      → All (AtLine c start rs) (if b then ixs ++ e ∷ [] else ixs)
  entry-AtLine rs false ixs e h k = h
  entry-AtLine rs true ixs e h k = All-append (AtLine c start rs) ixs (e ∷ []) h (k, tt)

  see_commit-index :
      (r : Record) (hash : Text) (k : Option Commit) (sc : Scan)
      → (see_commit r hash k sc).index ≡ sc.index
  unfolding see_commit
  see_commit-index r hash none sc = refl
  see_commit-index r hash (some k) sc = refl

  length_empty : length (file_of c []) ≡ 0
  unfolding render
  length_empty = refl

  -- Every entry of the index points at the line of its record.
  scan_fold-AtLine :
      (prev : Text) (rs bs ts : List Record) (sc : Scan)
      → rs ≡ bs ++ ts
      → Linked c prev (start + length bs) ts
      → sc.off ≡ length (file_of c bs)
      → All (AtLine c start rs) sc.index
      → All (AtLine c start rs) (scan_fold c (suc start) ts sc).index
  unfolding scan_fold scan_step advance
  scan_fold-AtLine prev rs bs [] sc e h off v = v
  scan_fold-AtLine prev rs bs (r ∷ ts) sc e h off v =
      let len = length (line_of c r) + 1 in
      let next = scan_step (suc start) r (hash_of c r) len sc in
      let bs' = bs ++ r ∷ [] in
      let size : next.off ≡ length (file_of c bs') =
        scan_step-off c (suc start) r (hash_of c r) len sc
        ∙ omega (
          arith,
          off,
          ap length (file_of-append c bs (r ∷ [])),
          length-line c r [],
          length-append (file_of c bs) (file_of c (r ∷ [])),
          length_empty,
        ) in
      let entry : All (AtLine c start rs) next.index =
        subst (All (AtLine c start rs))
          (sym (see_commit-index r (hash_of c r) (commit_of r) (advance (suc start) r len sc)))
          (entry-AtLine rs _ sc.index (record { seq = r.seq; off = sc.off }) v
            (bs, r ∷ ts, e, omega (arith, h.0), off)) in
      scan_fold-AtLine (hash_of c r) rs bs' ts next (e ∙ sym (append_assoc bs (r ∷ []) ts))
        (subst (λ n. Linked c (hash_of c r) n ts) (omega (arith, length-append bs (r ∷ []))) h.3)
        size entry

  -- The file of a closed chain reads back as a segment that holds it.
  pub scan_segment-Holds :
      (newest : Bool) (prev : Text) (rs : List Record)
      → Linked c prev start rs
      → IsClosed c (suc start) rs
      → (g : Segment) × (pending : Map Time) × (scan_segment c (suc start) newest (file_of c rs)
          ≡ some (g, pending))
        × Holds c prev start rs g
  unfolding finish_scan close_scan
  scan_segment-Holds newest prev rs h closed =
      let sc = scan_fold c (suc start) rs start_scan in
      let f = file_of c rs in
      let settled = scan_fold-IsSettled c (suc start) rs closed in
      let off : sc.off ≡ length f = scan_fold-off c (suc start) rs start_scan ∙ omega arith in
      let whole : ltb sc.good_end (length f) ≡ false = ground (arith, settled.good_end, off) in
      let last = scan_fold-last prev rs h closed in
      let e =
        scan_segment-split c (suc start) newest f [] prev start rs
          (split_lines-render_whole (lines_of c rs) (Linked-NoBreak c prev start rs h)) h in
      (
        close_scan (suc start) sc f,
        sc.pending,
        e ∙ finished newest whole,
        record {
          file = refl;
          linked = h;
          first = refl;
          last = last.0;
          last_hash = last.1;
          size = off;
          index =
              scan_fold-AtLine prev rs [] rs start_scan refl
                (subst (λ n. Linked c prev n rs) (omega arith) h) (sym length_empty) tt;
        },
      )
    where
      finished :
          (newest : Bool)
          → ltb (scan_fold c (suc start) rs start_scan).good_end (length (file_of c rs)) ≡ false
          → finish_scan (suc start) newest (file_of c rs) [] (scan_fold c (suc start) rs start_scan)
            ≡ some (
              close_scan (suc start) (scan_fold c (suc start) rs start_scan) (file_of c rs),
              (scan_fold c (suc start) rs start_scan).pending,
            )
      finished false w = refl
      finished true w = rw w refl
