-- ===== src/Spool/Lifecycle.antt =====
-- Stats and Close of internal/spool/spool.go.
use vbilling.Prelude.{ℕ, ◌+◌, ◌≡◌, refl, ap, true, false, not, ◌&&◌, List, [], ◌∷◌, inl, inr}
use vbilling.Prelude.Tests.{◌==◌, if◌then◌else◌, Bool-cases}
use vbilling.Prelude.Lists.{length}
use vbilling.Prelude.Text.{Text, Map}
use vbilling.Usage.{Time, Event}
use vbilling.Spool.Codec.{Codec}
use vbilling.Spool.State.{
  Spool, Io, Op, Result, ok, err, spool_closed, close_failed, Segment, segments, write_manifest,
}
use vbilling.Spool.Append.{append_window}
use vbilling.Spool.Ingest.{append_ingest}
use vbilling.Spool.Ledger.{ledger, ledger_of}

pub record Stats : Type 0 where
  pub committed : ℕ
  pub first_seq : ℕ
  pub segments : ℕ
  pub bytes : ℕ
  pub watermarks : Map Time
  pub cursors : Map ℕ
  pub oldest_at : Time

-- The loop over the segments: their sizes, and the first number that is not 0.
count_segments : List Segment → Stats → Stats
count_segments [] st = st
count_segments (g ∷ gs) st =
    let st' = record st { bytes = st.bytes + g.size } in
    count_segments gs (
      if not (g.last == 0) && st.first_seq == 0
      then record st' { first_seq = g.first; oldest_at = g.first_at }
      else st')

unfoldable pub stats : Spool → Stats
unfolding count_segments
stats s = count_segments (segments s) (record {
  committed = s.committed;
  first_seq = 0;
  segments = length (segments s);
  bytes = 0;
  watermarks = s.watermarks;
  cursors = s.cursors;
  oldest_at = 0;
})

closing : Io → Result (Unit {0}) × Spool → Result (Unit {0}) × Spool
closing io (r, t) = (
  elim r [
    | err e ↦ err e
    | ok u ↦ if t.active_open && io.close_ok then ok tt else err close_failed
  ],
  record t { active_open = false },
)

unfoldable pub close : Io → Op (Unit {0})
unfolding closing write_manifest
close io s =
    if s.closed then (ok tt, s) else closing io (write_manifest io (record s { closed = true }))

-- What Close leaves of the spool besides its handle and the manifest.
close_frame :
    (io : Io) (s : Spool) → ((close io s).1.closed ≡ true) × (segments (close io s).1 ≡ segments s)
unfolding close closing write_manifest
close_frame io s = elim (Bool-cases s.closed) [
  | inl b ↦ rw (b, close) (refl, refl)
  | inr b ↦ elim (Bool-cases io.manifest_ok) [
    | inl m ↦ rw (b, m, close) (refl, refl)
    | inr m ↦ rw (b, m, close) (refl, refl)
  ]
]

closed_again : (io : Io) (t : Spool) → t.closed ≡ true → close io t ≡ (ok tt, t)
unfolding close
closed_again io t h = rw (h, close) refl

-- After Close, whether or not it succeeded, every append is refused and changes nothing, Close has
-- nothing left to do, and the ledger is what it was.
pub close_final :
    (c : Codec) (io io' : Io) (source : Text) (window_end : Time) (events : List Event)
    (note : Text) (s : Spool)
    → let t = (close io s).1 in
      (append_window c io' source window_end events note t ≡ (err spool_closed, t))
      × (append_ingest c io' source events t ≡ (err spool_closed, t))
      × (close io' t ≡ (ok tt, t))
      × (ledger c t ≡ ledger c s)
unfolding append_window append_ingest ledger
close_final c io io' source window_end events note s =
    let (shut, same) = close_frame io s in
    (
      rw (shut, append_window) refl,
      rw (shut, append_ingest) refl,
      closed_again io' (close io s).1 shut,
      ap (ledger_of c) same,
    )
