-- ===== src/Spool/Recover/Scans.antt =====
-- What scanSegment computes on the lines of a chain: the last commit, the index and the offsets.
use mathlib.Core.List.{append_assoc, append-nil}
use vbilling.Prelude.{
  ℕ, suc, ◌+◌, ◌-◌, ◌≤◌, ◌<◌, ◌≡◌, ◌∙◌, refl, sym, subst, ap, Option, none, some, List, [], ◌∷◌,
  ◌++◌, arith, true, false, Bool, ◌%◌, ◌^◌,
}
use vbilling.Prelude.Tests.{lt→ltb, ltb, ◌==◌, if◌then◌else◌}
use vbilling.Prelude.Lists.{
  All, All-append, All-mono, length, take, length-append, take-append_length,
}
use vbilling.Prelude.Text.{Text}
use vbilling.Spool.Codec.{Bytes, Codec, Commit, Record, newline}
use vbilling.Spool.Codec.Lines.{render}
use vbilling.Spool.Codec.Format.{parse_line-print_line}
use vbilling.Spool.Chain.{body_of, line_of, hash_of, Linked}
use vbilling.Spool.Ledger.{lines_of, file_of}
use vbilling.Spool.State.{Offset, index_every}
use vbilling.Spool.Recover.{
  keep_before, see_commit, advance, Scan, commit_of, scan_step, scan_lines, finish_scan,
}

pub length-line :
    (c : Codec) (r : Record) (rs : List Record)
    → length (file_of c (r ∷ rs)) ≡ length (line_of c r) + 1 + length (file_of c rs)
unfolding render
length-line c r rs = omega (arith, length-append (line_of c r) (newline ∷ file_of c rs))

entry_split :
    (b : Bool) (ixs : List Offset) (e : Offset)
    → (if b then ixs ++ e ∷ [] else ixs) ≡ ixs ++ (if b then e ∷ [] else [])
entry_split true ixs e = refl
entry_split false ixs e = sym (append-nil ixs)

entry_later :
    (b : Bool) (n : ℕ) (e : Offset)
    → n ≤ e.off
    → All (λ (ix : Offset). n ≤ ix.off) (if b then e ∷ [] else [])
entry_later true n e h = (h, tt)
entry_later false n e h = tt

module _ (c : Codec) (first : ℕ) where
  -- What scanLines computes on the lines of a chain.
  unfoldable pub scan_fold : List Record → Scan → Scan
  scan_fold [] sc = sc
  scan_fold (r ∷ rs) sc =
      scan_fold rs (scan_step first r (hash_of c r) (length (line_of c r) + 1) sc)

  pub scan_lines-fold :
      (prev : Text) (seq : ℕ) (rs : List Record) (sc : Scan)
      → Linked c prev seq rs
      → scan_lines c first (lines_of c rs) sc ≡ some (scan_fold rs sc)
  unfolding scan_lines scan_fold
  scan_lines-fold prev seq [] sc h = refl
  scan_lines-fold prev seq (r ∷ rs) sc h =
      rw (parse_line-print_line c r (body_of c r) h.2, scan_lines)
        (scan_lines-fold (hash_of c r) (suc seq) rs _ h.3)

  pub scan_fold-append :
      (rs ts : List Record) (sc : Scan) → scan_fold (rs ++ ts) sc ≡ scan_fold ts (scan_fold rs sc)
  unfolding scan_fold
  scan_fold-append [] ts sc = refl
  scan_fold-append (r ∷ rs) ts sc = scan_fold-append rs ts _

  abbrev pub IsPlain : Record → Type 0
  IsPlain r = commit_of r ≡ none

  -- The scan's fields that tell where the last commit ended, and index entries past `a.off`.
  pub record SameCommit (a b : Scan) : Type 0 where
    pub good_end : b.good_end ≡ a.good_end
    pub last_commit_seq : b.last_commit_seq ≡ a.last_commit_seq
    pub last_commit_at : b.last_commit_at ≡ a.last_commit_at
    pub last_commit_hash : b.last_commit_hash ≡ a.last_commit_hash
    pub pending : b.pending ≡ a.pending
    pub first_at : 0 < a.first_at → b.first_at ≡ a.first_at
    pub off : a.off ≤ b.off
    pub more : List Offset
    pub index : b.index ≡ a.index ++ more
    pub later : All (λ ix. a.off ≤ ix.off) more

  SameCommit-refl : (a : Scan) → SameCommit a a
  SameCommit-refl a = record {
    good_end = refl;
    last_commit_seq = refl;
    last_commit_at = refl;
    last_commit_hash = refl;
    pending = refl;
    first_at = λ h. refl;
    off = omega arith;
    more = [];
    index = sym (append-nil a.index);
    later = tt;
  }

  SameCommit-trans : (x y z : Scan) → SameCommit x y → SameCommit y z → SameCommit x z
  SameCommit-trans x y z h k = record {
    good_end = k.good_end ∙ h.good_end;
    last_commit_seq = k.last_commit_seq ∙ h.last_commit_seq;
    last_commit_at = k.last_commit_at ∙ h.last_commit_at;
    last_commit_hash = k.last_commit_hash ∙ h.last_commit_hash;
    pending = k.pending ∙ h.pending;
    first_at = λ p. k.first_at (rw (h.first_at p) p) ∙ h.first_at p;
    off = omega (arith, h.off, k.off);
    more = h.more ++ k.more;
    index =
        k.index
        ∙ ap (λ (l : List Offset). l ++ k.more) h.index
        ∙ append_assoc x.index h.more k.more;
    later =
        All-append (λ (ix : Offset). x.off ≤ ix.off) h.more k.more h.later
          (All-mono k.more (λ ix p. omega (arith, h.off)) k.later);
  }

  advance-SameCommit : (r : Record) (len : ℕ) (sc : Scan) → SameCommit sc (advance first r len sc)
  unfolding advance
  advance-SameCommit r len sc =
      let b = (r.seq + 2 ^ 64 - first) % 2 ^ 64 % index_every == 0 in
      let e : Offset = record { seq = r.seq; off = sc.off } in
      record {
        good_end = refl;
        last_commit_seq = refl;
        last_commit_at = refl;
        last_commit_hash = refl;
        pending = refl;
        first_at = λ h. ground arith;
        off = omega arith;
        more = if b then e ∷ [] else [];
        index = entry_split b sc.index e;
        later = entry_later b sc.off e (omega arith);
      }

  scan_step-SameCommit :
      (r : Record) (hash : Text) (len : ℕ) (sc : Scan)
      → IsPlain r
      → SameCommit sc (scan_step first r hash len sc)
  unfolding scan_step see_commit
  scan_step-SameCommit r hash len sc h = rw (h, see_commit) (advance-SameCommit r len sc)

  pub scan_fold-SameCommit :
      (rs : List Record) (sc : Scan) → All IsPlain rs → SameCommit sc (scan_fold rs sc)
  unfolding scan_fold
  scan_fold-SameCommit [] sc h = SameCommit-refl sc
  scan_fold-SameCommit (r ∷ rs) sc h =
      let next = scan_step first r (hash_of c r) (length (line_of c r) + 1) sc in
      SameCommit-trans sc next (scan_fold rs next) (scan_step-SameCommit r _ _ sc h.0)
        (scan_fold-SameCommit rs next h.1)

  pub see_commit-off :
      (r : Record) (hash : Text) (k : Option Commit) (sc : Scan)
      → (see_commit r hash k sc).off ≡ sc.off
  unfolding see_commit
  see_commit-off r hash none sc = refl
  see_commit-off r hash (some k) sc = refl

  pub scan_step-off :
      (r : Record) (hash : Text) (len : ℕ) (sc : Scan)
      → (scan_step first r hash len sc).off ≡ sc.off + len
  unfolding scan_step advance
  scan_step-off r hash len sc = see_commit-off r hash (commit_of r) (advance first r len sc)

  pub scan_fold-off :
      (rs : List Record) (sc : Scan) → (scan_fold rs sc).off ≡ sc.off + length (file_of c rs)
  unfolding scan_fold
  scan_fold-off [] sc = unfold render in omega arith
  scan_fold-off (r ∷ rs) sc = omega (
    arith,
    scan_fold-off rs (scan_step first r (hash_of c r) (length (line_of c r) + 1) sc),
    scan_step-off r (hash_of c r) (length (line_of c r) + 1) sc,
    length-line c r rs,
  )

  -- A scan that has just seen a commit, or nothing.
  pub record IsSettled (sc : Scan) : Type 0 where
    pub good_end : sc.good_end ≡ sc.off
    pub index : All (λ ix. ix.off < sc.good_end) sc.index
    pub first_at : 0 < sc.last_commit_seq → 0 < sc.first_at

  keep_before-all :
      (n : ℕ) (ixs more : List Offset)
      → All (λ (ix : Offset). ix.off < n) ixs
      → All (λ (ix : Offset). n ≤ ix.off) more
      → keep_before n (ixs ++ more) ≡ ixs
  unfolding keep_before
  keep_before-all n [] [] h k = refl
  keep_before-all n [] (m ∷ more) h k = ground (arith, keep_before-all n [] more tt k.1)
  keep_before-all n (ix ∷ ixs) more h k = ground (arith, keep_before-all n ixs more h.1 k)

  pub finish_cut :
      (f tail torn : Bytes) (sc sc' : Scan)
      → IsSettled sc
      → SameCommit sc sc'
      → sc.off ≡ length f
      → 0 < length tail
      → finish_scan first true (f ++ tail) torn sc' ≡ finish_scan first true f [] sc
  unfolding finish_scan
  finish_cut f tail torn sc sc' v h off pos =
      let e1 : ltb sc'.good_end (length (f ++ tail)) ≡ true =
        lt→ltb _ _ (omega (arith, length-append f tail, h.good_end, v.good_end)) in
      let e2 : ltb sc.good_end (length f) ≡ false = ground (arith, v.good_end) in
      let e3 : take sc'.good_end (f ++ tail) ≡ f =
        subst (λ (n : ℕ). take n (f ++ tail) ≡ f) (omega (arith, h.good_end, v.good_end))
          (take-append_length f tail) in
      let e4 : keep_before sc'.good_end sc'.index ≡ sc.index =
        rw (h.index, h.good_end)
          (keep_before-all sc.good_end sc.index h.more v.index
            (All-mono h.more (λ ix p. omega (arith, v.good_end)) h.later)) in
      let e5 : (if sc'.last_commit_seq == 0 then 0 else sc'.first_at)
          ≡ (if sc.last_commit_seq == 0 then 0 else sc.first_at) =
        ground (arith, h.last_commit_seq, h.first_at, v.first_at) in
      rw (e1, e2, e3, e4)
        (λ i. some (
          record {
            first = first;
            last = h.last_commit_seq i;
            first_at = e5 i;
            last_at = h.last_commit_at i;
            last_hash = h.last_commit_hash i;
            size = (h.good_end ∙ v.good_end) i;
            index = sc.index;
            file = some f;
          },
          h.pending i,
        ))
