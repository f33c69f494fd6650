-- ===== src/Spool/Append/Outcome.antt =====
-- appendLocked and AppendWindow of internal/spool/spool.go as a whole: what they do when they
-- succeed and when they fail.
use vbilling.Prelude.{
  ◌⊎◌, ℕ, ◌<◌, ◌≤◌, ◌≡◌, ◌∙◌, inl, inr, sym, subst, ap, Option, some, List, [], ◌∷◌, ◌++◌, arith,
  true, false, map,
}
use vbilling.Prelude.Tests.{Option-cases, if◌then◌else◌, ◌==◌}
use vbilling.Prelude.Lists.{length, take, take-append_length, length-append}
use vbilling.Prelude.Text.{Text, lookup, insert}
use vbilling.Prelude.Maps.{lookup-insert_self}
use vbilling.Usage.{Time, Event}
use vbilling.Spool.Codec.{Bytes, Codec}
use vbilling.Spool.State.{
  open_failed, >>=-ok, >>=-err, window_committed, spool_closed, Spool, Segment, Io, Result, Error,
  ok, err,
}
use vbilling.Spool.Ledger.{IsSound, ledger}
use vbilling.Spool.Append.{
  event_body, Body, bodies, write_records, append_file, undo_write, write_batch, write_file,
  maybe_rotate, append, append_window, already_committed, start_batch,
}
use vbilling.Spool.Append.Batches.{new_records}
use vbilling.Spool.Append.Success.{current-Holds, write_batch-extends}
use vbilling.Spool.Append.Rotation.{Unopened, SameLedger, SameLedger-refl, maybe_rotate-SameLedger}

undo_write_lem :
    (io : Io) (part f : Bytes) (g : Segment)
    → io.truncate_ok ≡ true
    → g.file ≡ some f
    → g.size ≡ length f
    → undo_write io part g ≡ g
unfolding undo_write append_file
undo_write_lem io part f g t e size = rw t (
    ap (λ (x : Option Bytes). record g { file = x })
      (rw e (rw (size, take-append_length f part)) ∙ sym e))

undone :
    (io : Io) (s : Spool) (part f : Bytes)
    → io.truncate_ok ≡ true
    → s.current.file ≡ some f
    → s.current.size ≡ length f
    → record s { current = undo_write io part s.current } ≡ s
undone io s part f t e size =
    ap (λ (g : Segment). record s { current = g }) (undo_write_lem io part f s.current t e size)

write_file-restores :
    (io : Io) (s : Spool) (buf f : Bytes) (e : Error)
    → io.truncate_ok ≡ true
    → s.current.file ≡ some f
    → s.current.size ≡ length f
    → (write_file io buf s).0 ≡ err e
    → (write_file io buf s).1 ≡ s
unfolding write_file
write_file-restores io s buf f e t file size h = elim (Option-cases io.write) [
  | inl w ↦ ground (arith, w, undone io s buf f t file size)
  | inr (k, w) ↦ ground (arith, w, undone io s (take k buf) f t file size)
]

err_inj : {A : Type 0} (a b : Error) (r : Result A) → r ≡ err a → r ≡ err b → a ≡ b
err_inj a b r f g = cc (f, g)

module _ (c : Codec) (io : Io) (source : Text) (window_end : Time) where
  write_batch-restores :
      (base : ℕ) (xs : List Body) (s s' : Spool) (e : Error)
      → IsSound c base s
      → io.truncate_ok ≡ true
      → write_batch c io source window_end xs s ≡ (err e, s')
      → s' ≡ s
  unfolding write_batch
  write_batch-restores base xs s s' e v t h =
      let g = current-Holds c io base s v in
      elim (Option-cases (write_records c io.now s.current xs (start_batch s))) [
        | inl w ↦ sym (ap (λ (p : Result (Unit {0}) × Spool). p.1) (rw (w, write_batch) at h))
        | inr (b, w) ↦ elim (>>=-err (write_file io b.buf) _ s s' e (rw (w, write_batch) at h)) [
          | inl (f, q) ↦ sym q ∙ write_file-restores io s b.buf _ e t g.file g.size f
          | inr (a, f, q) ↦ cc q
        ]
      ]

  abbrev rotated : Spool → Spool
  rotated s = (maybe_rotate io s).1

  bodies_pos :
      (events : List Event) (note : Text) → 0 < length (bodies source window_end events note)
  unfolding bodies
  bodies_pos events note = omega (arith, length-append (map event_body events) (_ ∷ []))

  -- What a successful append does to the ledger and to the watermarks.
  pub record Extends (base : ℕ) (events : List Event) (note : Text) (s s' : Spool) : Type 0 where
    pub sound : IsSound c base s'
    pub ledger :
        ledger c s'
        ≡ ledger c s ++ new_records c io.now s.seq s.head (bodies source window_end events note)
    pub watermarks :
        s'.watermarks
        ≡ (if window_end == 0 then s.watermarks else insert source window_end s.watermarks)
    pub open' : s'.closed ≡ s.closed
    pub recent_ids : s'.recent_ids ≡ s.recent_ids
    pub cursors : s'.cursors ≡ s.cursors

  pub append-Extends :
      (base : ℕ) (events : List Event) (note : Text) (s s' : Spool)
      → IsSound c base s
      → append c io source window_end events note s ≡ (ok tt, s')
      → Extends base events note s s'
  unfolding append
  append-Extends base events note s s' v h =
      let xs = bodies source window_end events note in
      let (a, r, w) = >>=-ok (maybe_rotate io) _ s s' tt h in
      let k : SameLedger c base s (rotated s) = elim (maybe_rotate-SameLedger c base io s v) [
        | inl k ↦ k
        | inr (f, u) ↦ cc (r, f)
      ] in
      let (v', l, m, o, d, u) =
        write_batch-extends c io base (rotated s) k.sound source window_end xs s'
          (bodies_pos events note) w in
      record {
        sound = v';
        ledger = l ∙ λ i. k.ledger i ++ new_records c io.now (k.seq i) (k.head i) xs;
        watermarks = m ∙ λ i.
            if window_end == 0 then k.watermarks i else insert source window_end (k.watermarks i);
        open' = o ∙ k.closed;
        recent_ids = d ∙ k.recent_ids;
        cursors = u ∙ k.cursors;
      }

  pub append-restores :
      (base : ℕ) (events : List Event) (note : Text) (s s' : Spool) (e : Error)
      → IsSound c base s
      → io.truncate_ok ≡ true
      → append c io source window_end events note s ≡ (err e, s')
      → SameLedger c base s s' ⊎ ((e ≡ open_failed) × Unopened c io s s')
  unfolding append
  append-restores base events note s s' e v t h =
      let rotation = maybe_rotate-SameLedger c base io s v in
      elim (>>=-err (maybe_rotate io) _ s s' e h) [
        | inl (f, q) ↦ elim rotation [
          | inl k ↦ inl (subst (SameLedger c base s) q k)
          | inr (g, u) ↦ inr (err_inj e open_failed _ f g, subst (Unopened c io s) q u)
        ]
        | inr (a, f, q) ↦ elim rotation [
          | inr (g, u) ↦ cc (f, g)
          | inl k ↦
              let same =
                write_batch-restores base (bodies source window_end events note) (rotated s) s' e
                  k.sound t q in
              inl (subst (SameLedger c base s) (sym same) k)
        ]
      ]

  append_window_cases :
      (events : List Event) (note : Text) (s s' : Spool) (r : Result (Unit {0}))
      → append_window c io source window_end events note s ≡ (r, s')
      → ((r ≡ err spool_closed) × (s' ≡ s))
        ⊎ ((r ≡ err window_committed) × (s' ≡ s))
        ⊎ ((s.closed ≡ false) × (append c io source window_end events note s ≡ (r, s')))
  unfolding append_window
  append_window_cases events note s s' r h = ground arith

  -- AppendWindow that succeeds appends the window's events and one commit to the ledger, in that
  -- order and with nothing else, continues the hash chain, and moves the source's watermark.
  pub append_window-Extends :
      (base : ℕ) (events : List Event) (note : Text) (s s' : Spool)
      → IsSound c base s
      → append_window c io source window_end events note s ≡ (ok tt, s')
      → Extends base events note s s'
  append_window-Extends base events note s s' v h =
      elim (append_window_cases events note s s' (ok tt) h) [
        | inl (f, q) ↦ cc f
        | inr (inl (f, q)) ↦ cc f
        | inr (inr (f, q)) ↦ append-Extends base events note s s' v q
      ]

  -- AppendWindow that fails, when the truncation that undoes a failed write works, leaves the ledger, the
  -- chain, the watermarks and the cursors as they were, the spool sound, and wakes no reader, but for
  -- one branch: when a rotation was due and the new file could not be opened, the table has one more
  -- segment, which has no file, the active file is closed, and nothing else has changed.
  pub append_window-restores :
      (base : ℕ) (events : List Event) (note : Text) (s s' : Spool) (e : Error)
      → IsSound c base s
      → io.truncate_ok ≡ true
      → append_window c io source window_end events note s ≡ (err e, s')
      → SameLedger c base s s' ⊎ ((e ≡ open_failed) × Unopened c io s s')
  append_window-restores base events note s s' e v t h =
      elim (append_window_cases events note s s' (err e) h) [
        | inl (f, q) ↦ inl (subst (SameLedger c base s) (sym q) (SameLedger-refl c base s v))
        | inr (inl (f, q)) ↦ inl (subst (SameLedger c base s) (sym q) (SameLedger-refl c base s v))
        | inr (inr (f, q)) ↦ append-restores base events note s s' e v t q
      ]

open_after :
    (c : Codec) (io : Io) (source : Text) (base : ℕ) (we : Time) (events : List Event) (note : Text)
    (s s' : Spool)
    → IsSound c base s
    → append_window c io source we events note s ≡ (ok tt, s')
    → s'.closed ≡ false
open_after c io source base we events note s s' v h =
    elim (append_window_cases c io source we events note s s' (ok tt) h) [
      | inl (f, q) ↦ cc f
      | inr (inl (f, q)) ↦ cc f
      | inr (inr (f, q)) ↦ (append-Extends c io source we base events note s s' v q).open' ∙ f
    ]

refused :
    (c : Codec) (io : Io) (source : Text) (wm we : Time) (events : List Event) (note : Text)
    (s : Spool)
    → s.closed ≡ false
    → lookup source s.watermarks ≡ some wm
    → 0 < we
    → we ≤ wm
    → append_window c io source we events note s ≡ (err window_committed, s)
unfolding append_window already_committed
refused c io source wm we events note s o e pos le = ground arith

watermark_after :
    (c : Codec) (io : Io) (source : Text) (base : ℕ) (we : Time) (events : List Event) (note : Text)
    (s s' : Spool)
    → IsSound c base s
    → append_window c io source we events note s ≡ (ok tt, s')
    → 0 < we
    → lookup source s'.watermarks ≡ some we
watermark_after c io source base we events note s s' v h pos =
    rw (append_window-Extends c io source we base events note s s' v h).watermarks
      (ground (arith, lookup-insert_self source we s.watermarks))

-- Once a window is committed, no later append of that window or an earlier one of the same source
-- succeeds: it is refused and the spool stays as it was.
pub append_window_once :
    (c : Codec) (io io' : Io) (source : Text) (base : ℕ) (we we' : Time)
    (events events' : List Event) (note note' : Text) (s s' : Spool)
    → IsSound c base s
    → append_window c io source we events note s ≡ (ok tt, s')
    → 0 < we'
    → we' ≤ we
    → append_window c io' source we' events' note' s' ≡ (err window_committed, s')
append_window_once c io io' source base we we' events events' note note' s s' v h pos le =
    refused c io' source we we' events' note' s'
      (open_after c io source base we events note s s' v h)
      (watermark_after c io source base we events note s s' v h (omega arith)) pos le
