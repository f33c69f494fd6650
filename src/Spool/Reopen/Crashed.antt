-- ===== src/Spool/Reopen/Crashed.antt =====
-- Open of internal/spool/spool.go after a crash in the middle of appendLocked.
use mathlib.Core.List.{map-append}
use vbilling.Prelude.{ℕ, ◌<◌, ◌≡◌, ◌∙◌, refl, sym, ap, true, some, List, [], ◌∷◌, ◌++◌, inl, inr}
use vbilling.Prelude.Tests.{Option-cases}
use vbilling.Prelude.Lists.{length, take, All}
use vbilling.Prelude.Text.{Text, Map}
use vbilling.Usage.{Time, Event}
use vbilling.Spool.Codec.{Bytes, Codec}
use vbilling.Spool.Ledger.{IsSound}
use vbilling.Spool.State.{Spool, Io, Options, Segment, segments}
use vbilling.Spool.Append.{Batch, bodies, start_batch, write_records}
use vbilling.Spool.Append.Success.{current-Holds}
use vbilling.Spool.Recover.{scan_segment, merge_watermarks}
use vbilling.Spool.Recover.Atomic.{crash_during_append}
use vbilling.Spool.Reopen.{
  Dir, anchor_of, find_known, is_last, open_spool, recover_one, recover_segments, recovered,
  segments_of, watermarks_of,
}
use vbilling.Spool.Reopen.Restored.{Known, Settled, bytes_of, or_no_bytes, dir_of, files_of}
use vbilling.Spool.Reopen.Opened.{Answers, Restored, open_spool-Restored}

-- The directory when `part` has reached the active file after what the spool knows of it.
unfoldable pub torn_dir : Bytes → Spool → Dir
torn_dir part s = record (dir_of s) {
  files = files_of s.older ++ (s.current.first, bytes_of s.current ++ part) ∷ [];
}

is_last-append :
    (fs : List (ℕ × Bytes)) (x y : ℕ × Bytes) → is_last (fs ++ x ∷ []) ≡ is_last (fs ++ y ∷ [])
unfolding is_last
is_last-append [] x y = refl
is_last-append (f ∷ fs) x y = refl

module _ (c : Codec) where
  recover_one-newest :
      (known : List Segment) (first : ℕ) (f g : Bytes)
      → scan_segment c first true f ≡ scan_segment c first true g
      → recover_one c known first f true ≡ recover_one c known first g true
  unfolding recover_one
  recover_one-newest known first f g e = elim (Option-cases (find_known first known)) [
    | inl q ↦ rw (q, recover_one) e
    | inr (x, q) ↦ rw (q, recover_one) e
  ]

  -- Of the newest file only what scanSegment makes of it counts.
  recover_segments-newest :
      (known : List Segment) (fs : List (ℕ × Bytes)) (first : ℕ) (f g : Bytes) (wms : Map Time)
      → scan_segment c first true f ≡ scan_segment c first true g
      → recover_segments c known (fs ++ (first, f) ∷ []) wms
        ≡ recover_segments c known (fs ++ (first, g) ∷ []) wms
  unfolding recover_segments
  recover_segments-newest known [] first f g wms e =
      let e' = recover_one-newest known first f g e in rw (e', recover_segments) refl
  recover_segments-newest known ((n, x) ∷ fs) first f g wms e =
      let b = is_last (fs ++ (first, g) ∷ []) in
      let last : recover_one c known n x (is_last (fs ++ (first, f) ∷ []))
          ≡ recover_one c known n x b =
        ap (recover_one c known n x) (is_last-append fs (first, f) (first, g)) in
      elim (Option-cases (recover_one c known n x b)) [
        | inl q ↦ rw (last ∙ q, q, recover_segments) refl
        | inr ((h, pending), q) ↦
            rw (last ∙ q, q, recover_segments)
              (rw (recover_segments-newest known fs first f g (merge_watermarks pending wms) e)
                refl)
      ]

  open_spool-torn_dir :
      (io : Io) (opts : Options) (part : Bytes) (s : Spool)
      → scan_segment c s.current.first true (bytes_of s.current ++ part)
        ≡ scan_segment c s.current.first true (bytes_of s.current)
      → open_spool c io opts (torn_dir part s) ≡ open_spool c io opts (dir_of s)
  unfolding open_spool torn_dir recovered
  open_spool-torn_dir io opts part s e =
      let known = segments_of s.manifest in
      let wms = watermarks_of s.manifest in
      let split : files_of s.older ++ (s.current.first, bytes_of s.current) ∷ []
          ≡ files_of (segments s) =
        sym (map-append (λ (g : Segment). (g.first, bytes_of g)) s.older (s.current ∷ [])) in
      let same : recover_segments c known (torn_dir part s).files wms
          ≡ recover_segments c known (files_of (segments s)) wms =
        recover_segments-newest known (files_of s.older) s.current.first
          (bytes_of s.current ++ part) (bytes_of s.current) wms e
        ∙ ap (λ fs. recover_segments c known fs wms) split in
      rw (same, open_spool) refl

  -- After a crash in the middle of appendLocked's write, whatever part of the batch has reached the
  -- file, Open makes of the directory a spool with the ledger from before the write, as it does of the
  -- directory without that part.
  pub open_after_crash :
      (io io' : Io) (base : ℕ) (source : Text) (window_end : Time) (events : List Event)
      (note : Text) (opts : Options) (s : Spool) (b : Batch) (k : ℕ)
      → Answers io'
      → IsSound c base s
      → All (Settled c) s.older
      → Settled c s.current
      → All (Known (segments_of s.manifest)) s.older
      → anchor_of s.manifest ≡ s.anchor
      → write_records c io.now s.current (bodies source window_end events note) (start_batch s)
        ≡ some b
      → k < length b.buf
      → (t : Spool) × (open_spool c io' opts (torn_dir (take k b.buf) s) ≡ some t)
        × Restored c base s t
  open_after_crash io io' base source window_end events note opts s b k a v older current known
        anchor w short =
      let holds = current-Holds c io base s v in
      let file : s.current.file ≡ some (bytes_of s.current) =
        holds.file ∙ ap some (sym (ap or_no_bytes holds.file)) in
      let seen =
        crash_during_append c io base source window_end events note s (bytes_of s.current) b k v
          file current w short in
      let (t, e, r) = open_spool-Restored c base io' opts s a v older current known anchor in
      (t, open_spool-torn_dir io' opts (take k b.buf) s seen ∙ e, r)
