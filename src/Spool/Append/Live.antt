-- ===== src/Spool/Append/Live.antt =====
-- AppendWindow of internal/spool/spool.go while the operating system refuses nothing.
use vbilling.Prelude.{
  ℕ, ◌+◌, ◌<◌, ◌≡◌, ◌++◌, map, Bool, Option, refl, sym, subst, inl, inr, true, false, none, some,
  List, [], ◌∷◌, arith,
}
use vbilling.Prelude.Tests.{Bool-cases}
use vbilling.Prelude.Text.{Text}
use vbilling.Prelude.Lists.{All}
use vbilling.Usage.{Time, year_10000, Event, Quantity, not_a_number, infinite, positive, negative}
use vbilling.Spool.Codec.{Codec, Record, Commit}
use vbilling.Spool.State.{Spool, Io, Result, ok, ◌>>=◌, write_manifest, Segment}
use vbilling.Spool.Append.{
  Batch, Body, event_body, add_line, already_committed, append, append_window, bodies, close_active,
  link, maybe_rotate, open_active, publish, rotate, rotate_due, start_batch, start_segment,
  write_batch, write_file, write_record, write_records,
}

-- Every call that an append makes works.
pub record Works (io : Io) : Type 0 where
  pub close_ok : io.close_ok ≡ true
  pub open_ok : io.open_ok ≡ true
  pub manifest_ok : io.manifest_ok ≡ true
  pub write : io.write ≡ none
  pub sync_ok : io.sync_ok ≡ true

-- The spool can take a batch.
pub record Ready (s : Spool) : Type 0 where
  pub not_closed : s.closed ≡ false
  pub active_open : s.active_open ≡ true

abbrev finite : Quantity → Bool
finite not_a_number = false
finite infinite = false
finite (positive n) = true
finite (negative n) = true

-- What json.Marshal can write: numbers that are finite, and times before the year 10000.
abbrev pub EventFits : Event → Type 0
EventFits e =
    (finite e.quantity ≡ true)
    × (e.window_start < year_10000)
    × (e.window_end < year_10000)
    × (e.recorded_at < year_10000)

abbrev MaybeEventFits : Option Event → Type 0
MaybeEventFits none = Unit
MaybeEventFits (some e) = EventFits e

abbrev MaybeCommitFits : Option Commit → Type 0
MaybeCommitFits none = Unit
MaybeCommitFits (some k) = k.window_end < year_10000

abbrev pub Encodable : Record → Type 0
Encodable r = (r.at < year_10000) × MaybeEventFits r.event × MaybeCommitFits r.commit

abbrev BodyFits : Body → Type 0
BodyFits b = MaybeEventFits b.event × MaybeCommitFits b.commit

events_fit :
    (es : List Event) (b : Body)
    → All EventFits es
    → BodyFits b
    → All BodyFits (map event_body es ++ b ∷ [])
events_fit [] b h k = (k, tt)
events_fit (e ∷ es) b h k = ((h.0, tt), events_fit es b h.1 k)

bodies-BodyFits :
    (source : Text) (window_end : Time) (es : List Event) (note : Text)
    → All EventFits es
    → window_end < year_10000
    → All BodyFits (bodies source window_end es note)
unfolding bodies
bodies-BodyFits source window_end es note h k = events_fit es _ h (tt, k)

module _ (io : Io) (k : Works io) where
  rotate_live : (s : Spool) → Ready s → ((rotate io s).0 ≡ ok tt) × Ready (rotate io s).1
  unfolding rotate close_active open_active start_segment write_manifest ◌>>=◌
  rotate_live s r =
      rw (r.active_open, k.close_ok, k.open_ok, k.manifest_ok)
        (refl, record { not_closed = r.not_closed; active_open = refl })

  maybe_rotate_live :
      (s : Spool) → Ready s → ((maybe_rotate io s).0 ≡ ok tt) × Ready (maybe_rotate io s).1
  unfolding maybe_rotate
  maybe_rotate_live s r = elim (Bool-cases (rotate_due io s)) [
    | inl q ↦ rw q (rotate_live s r)
    | inr q ↦ rw q (refl, r)
  ]

  write_file_live :
      (buf : List ℕ) (s : Spool)
      → Ready s
      → ((write_file io buf s).0 ≡ ok tt) × Ready (write_file io buf s).1
  unfolding write_file
  write_file_live buf s r = elim (Bool-cases s.opts.no_sync) [
    | inl q ↦
        rw (r.active_open, k.write, q)
          (refl, record { not_closed = r.not_closed; active_open = r.active_open })
    | inr q ↦
        rw (r.active_open, k.write, q, k.sync_ok)
          (refl, record { not_closed = r.not_closed; active_open = r.active_open })
  ]

  module _ (c : Codec)
      (encodes : (r : Record) → Encodable r → (json : List ℕ) × (c.marshal r ≡ some json))
      (clock : io.now < year_10000) where
    write_records_live :
        (g : Segment) (xs : List Body) (b : Batch)
        → All BodyFits xs
        → (b' : Batch) × (write_records c io.now g xs b ≡ some b')
    unfolding write_records write_record
    write_records_live g [] b h = (b, refl)
    write_records_live g (x ∷ xs) b h =
        let r = link io.now (b.seq + 1) b.head x in
        let fits : Encodable r = unfold link in (clock, h.0.0, h.0.1) in
        let (json, q) = encodes r fits in
        let (b', w) = write_records_live g xs (add_line c g b json) h.1 in
        (b', rw (q, write_records) w)

    module _ (source : Text) (window_end : Time) where
      write_batch_live :
          (xs : List Body) (s : Spool)
          → All BodyFits xs
          → Ready s
          → let x = write_batch c io source window_end xs s in (x.0 ≡ ok tt) × Ready x.1
      unfolding write_batch ◌>>=◌ publish
      write_batch_live xs s h r =
          let (b, q) = write_records_live s.current xs (start_batch s) h in
          let (e, r') = write_file_live b.buf s r in
          rw (q, write_batch)
            (rw e (refl, record { not_closed = r'.not_closed; active_open = r'.active_open }))

      append_live :
          (events : List Event) (note : Text) (s : Spool)
          → All EventFits events
          → window_end < year_10000
          → Ready s
          → let x = append c io source window_end events note s in (x.0 ≡ ok tt) × Ready x.1
      unfolding append ◌>>=◌
      append_live events note s h t r =
          let (e, r') = maybe_rotate_live s r in
          rw e (
            write_batch_live (bodies source window_end events note) (maybe_rotate io s).1
              (bodies-BodyFits source window_end events note h t) r')

      -- While no call of the operating system fails and the quantities are finite and the times before
      -- the year 10000, AppendWindow commits on a spool that is open, whatever segment it has to begin,
      -- unless the window is committed already, and the spool can take the next batch.
      pub append_window_live :
          (events : List Event) (note : Text) (s : Spool)
          → All EventFits events
          → window_end < year_10000
          → Ready s
          → already_committed source window_end s ≡ false
          → let x = append_window c io source window_end events note s in (x.0 ≡ ok tt) × Ready x.1
      unfolding append_window
      append_window_live events note s h t r a =
          let e : append_window c io source window_end events note s
              ≡ append c io source window_end events note s =
            ground (arith, r.not_closed, a) in
          subst (λ (x : Result Unit × Spool). (x.0 ≡ ok tt) × Ready x.1) (sym e)
            (append_live events note s h t r)
