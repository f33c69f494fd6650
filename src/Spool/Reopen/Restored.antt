-- ===== src/Spool/Reopen/Restored.antt =====
-- What Open of internal/spool/spool.go makes of the files of a spool.
use vbilling.Prelude.{
  ℕ, suc, ◌+◌, ◌≡◌, ◌⊎◌, ◌∙◌, refl, sym, ap, subst, Bool, true, false, Option, none, some, List, [],
  ◌∷◌, ◌++◌, map, arith, inl, inr,
}
use vbilling.Prelude.Tests.{◌==◌, Option-cases}
use vbilling.Prelude.Lists.{length, All}
use vbilling.Prelude.Text.{Text, Map}
use vbilling.Usage.{Time}
use vbilling.Spool.Codec.{Bytes, Codec}
use vbilling.Spool.Chain.{end_hash}
use vbilling.Spool.Ledger.{AtLine, Chained, Holds, Holds-records_of, records_of, ledger_of, file_of}
use vbilling.Spool.State.{Spool, Segment, segments, stored}
use vbilling.Spool.Recover.{scan_segment, merge_watermarks}
use vbilling.Spool.Recover.Crash.{IsClosed}
use vbilling.Spool.Reopen.{Dir, find_known, recover_one, is_last, recover_segments}
use vbilling.Spool.Reopen.Rescan.{scan_segment-Holds}

abbrev pub or_no_bytes : Option Bytes → Bytes
or_no_bytes none = []
or_no_bytes (some f) = f

-- The bytes of a segment's file.
abbrev pub bytes_of : Segment → Bytes
bytes_of g = or_no_bytes g.file

abbrev pub files_of : List Segment → List (ℕ × Bytes)
files_of gs = map (λ g. (g.first, bytes_of g)) gs

-- The directory of a spool.
abbrev pub dir_of : Spool → Dir
dir_of s = record {
  files = files_of (segments s);
  manifest = s.manifest;
  cursor_file = s.cursor_file;
  dedupe_file = s.dedupe_file;
  dead_letters = s.dead_letters;
}

-- What a manifest says of the segment, if anything, is what it is.
abbrev pub Known : List Segment → Segment → Type 0
Known known g = elim (find_known g.first known) [ none ↦ Unit | some k ↦ k ≡ stored g ]

module _ (c : Codec) where
  -- The segment ends in a commit, or is empty.
  abbrev pub Settled : Segment → Type 0
  Settled g = IsClosed c g.first (records_of c g)

  -- The segment is read back as one that holds the same records.
  abbrev Again : Text → ℕ → Segment → Option (Segment × Map Time) → Type 0
  Again prev start g o =
      (h : Segment) × (pending : Map Time) × (o ≡ some (h, pending))
      × Holds c prev start (records_of c g) h

  scan-Again :
      (newest : Bool) (prev : Text) (start : ℕ) (g : Segment)
      → Holds c prev start (records_of c g) g
      → Settled g
      → Again prev start g (scan_segment c g.first newest (bytes_of g))
  scan-Again newest prev start g v closed =
      let rs = records_of c g in
      let closed' : IsClosed c (suc start) rs = subst (λ n. IsClosed c n rs) v.first closed in
      let (h, pending, e, holds) = scan_segment-Holds c start newest prev rs v.linked closed' in
      (h, pending, (λ i. scan_segment c (v.first i) newest (or_no_bytes (v.file i))) ∙ e, holds)

  recover_one-Again :
      (known : List Segment) (newest : Bool) (prev : Text) (start : ℕ) (g : Segment)
      → Holds c prev start (records_of c g) g
      → Settled g
      → (newest ≡ true) ⊎ Known known g
      → Again prev start g (recover_one c known g.first (bytes_of g) newest)
  unfolding recover_one
  recover_one-Again known true prev start g v closed k =
      let scan = scan-Again true prev start g v closed in
      elim (Option-cases (find_known g.first known)) [
        | inl q ↦ rw (q, recover_one) scan
        | inr (x, q) ↦ rw (q, recover_one) scan
      ]
  recover_one-Again known false prev start g v closed (inl n) = cc n
  recover_one-Again known false prev start g v closed (inr k) =
      elim (Option-cases (find_known g.first known)) [
        | inl q ↦ rw (q, recover_one) (scan-Again false prev start g v closed)
        | inr (x, q) ↦
            let same : x ≡ stored g = rw (q, Known) at k in
            let bytes : bytes_of g ≡ file_of c (records_of c g) = ap or_no_bytes v.file in
            let sized : (x.size == length (bytes_of g)) ≡ true =
              ground (arith, ap (λ (h : Segment). h.size) same, v.size, ap length bytes) in
            let holds : Holds c prev start (records_of c g)
                (record x { file = some (bytes_of g) }) =
              record {
                file = ap some bytes;
                linked = v.linked;
                first = ap (λ (h : Segment). h.first) same ∙ v.first;
                last = ap (λ (h : Segment). h.last) same ∙ v.last;
                last_hash = ap (λ (h : Segment). h.last_hash) same ∙ v.last_hash;
                size = ap (λ (h : Segment). h.size) same ∙ v.size;
                index =
                    subst (All (AtLine c start (records_of c g)))
                      (sym (ap (λ (h : Segment). h.index) same)) tt;
              } in
            rw (q, recover_one) (rw sized (record x { file = some (bytes_of g) }, [], refl, holds))
      ]

  -- All segments but the newest are as the manifest says.
  abbrev pub Knowns : List Segment → List Segment → Type 0
  Knowns known [] = Unit
  Knowns known (g ∷ []) = Unit
  Knowns known (g ∷ h ∷ gs) = Known known g × Knowns known (h ∷ gs)

  pub Knowns-append :
      (known gs : List Segment) (g : Segment) → All (Known known) gs → Knowns known (gs ++ g ∷ [])
  Knowns-append known [] g h = tt
  Knowns-append known (k ∷ []) g h = (h.0, tt)
  Knowns-append known (k ∷ l ∷ gs) g h = (h.0, Knowns-append known (l ∷ gs) g h.1)

  Knowns-head :
      (known : List Segment) (g : Segment) (gs : List Segment)
      → Knowns known (g ∷ gs)
      → ((is_last (files_of gs) ≡ true) ⊎ Known known g) × Knowns known gs
  unfolding is_last
  Knowns-head known g [] k = (inl refl, tt)
  Knowns-head known g (h ∷ gs) k = (inr k.0, k.1)

  -- The segments are read back as a chain of the same records, as many as before.
  abbrev pub AllAgain : Text → ℕ → List Segment → Option (List Segment × Map Time) → Type 0
  AllAgain prev start gs o =
      (hs : List Segment) × (wms : Map Time) × (o ≡ some (hs, wms))
      × Chained c prev start hs
      × (ledger_of c hs ≡ ledger_of c gs)
      × (length hs ≡ length gs)

  pub recover_segments-Again :
      (known : List Segment) (prev : Text) (start : ℕ) (gs : List Segment) (wms : Map Time)
      → Chained c prev start gs
      → All Settled gs
      → Knowns known gs
      → AllAgain prev start gs (recover_segments c known (files_of gs) wms)
  unfolding recover_segments ledger_of
  recover_segments-Again known prev start [] wms v closed k = ([], wms, refl, tt, refl, refl)
  recover_segments-Again known prev start (g ∷ gs) wms v closed k =
      let rs = records_of c g in
      let (at, k') = Knowns-head known g gs k in
      let (h, pending, e, holds) =
        recover_one-Again known (is_last (files_of gs)) prev start g v.0 closed.0 at in
      let (hs, wms', e', v', same, count) =
        recover_segments-Again known (end_hash c prev rs) (start + length rs) gs
          (merge_watermarks pending wms) v.1 closed.1 k' in
      let own : records_of c h ≡ rs = Holds-records_of c prev start rs h holds in
      (
        h ∷ hs,
        wms',
        rw (e, recover_segments) (rw e' refl),
        (
          subst (λ l. Holds c prev start l h) (sym own) holds,
          subst (λ l. Chained c (end_hash c prev l) (start + length l) hs) (sym own) v',
        ),
        (λ i. own i ++ same i),
        ap suc count,
      )
