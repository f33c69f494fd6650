-- ===== src/Spool/Append/Rotation.antt =====
-- Rotation to a new segment leaves the ledger and all that readers see alone, but for the segment
-- without a file that it leaves behind when it cannot open that file.
use mathlib.Core.List.{append-nil}
use vbilling.Prelude.{
  ◌&&◌, ℕ, ◌+◌, ◌≡◌, ◌⊎◌, inl, inr, refl, sym, ap, subst, Option, some, [], ◌∷◌, ◌++◌, arith, Bool,
  true, false,
}
use vbilling.Prelude.Tests.{Bool-cases}
use vbilling.Prelude.Lists.{length}
use vbilling.Spool.Codec.{Codec, split_lines}
use vbilling.Spool.Codec.Lines.{render}
use vbilling.Spool.Chain.{end_hash}
use vbilling.Spool.State.{
  Spool, Io, Manifest, Segment, new_segment, created, write_manifest, segments, err, open_failed,
  ◌>>=◌,
}
use vbilling.Spool.Ledger.{
  Holds, IsSound, file_records, records_of, ledger, ledger_of, ledger_of-append, Chained-append,
}
use vbilling.Spool.Append.{
  maybe_rotate, rotate, rotate_due, close_active, start_segment, open_active,
}

module _ (c : Codec) where
  -- The ledger, the chain's end, and what the readers and the sources see.
  pub record SameLedger (base : ℕ) (s s' : Spool) : Type 0 where
    pub sound : IsSound c base s'
    pub ledger : ledger c s' ≡ ledger c s
    pub seq : s'.seq ≡ s.seq
    pub head : s'.head ≡ s.head
    pub anchor : s'.anchor ≡ s.anchor
    pub committed : s'.committed ≡ s.committed
    pub watermarks : s'.watermarks ≡ s.watermarks
    pub cursors : s'.cursors ≡ s.cursors
    pub recent_ids : s'.recent_ids ≡ s.recent_ids
    pub wakeups : s'.wakeups ≡ s.wakeups
    pub closed : s'.closed ≡ s.closed

  pub SameLedger-refl : (base : ℕ) (s : Spool) → IsSound c base s → SameLedger base s s
  SameLedger-refl base s v = record {
    sound = v;
    ledger = refl;
    seq = refl;
    head = refl;
    anchor = refl;
    committed = refl;
    watermarks = refl;
    cursors = refl;
    recent_ids = refl;
    wakeups = refl;
    closed = refl;
  }

  file_records-empty : file_records c [] ≡ []
  unfolding file_records split_lines
  file_records-empty = refl

  -- A new segment whose file has been created.
  abbrev empty_segment : ℕ → Segment
  empty_segment n = record (new_segment n) { file = some [] }

  abbrev pub started : Spool → Spool
  started s = record (start_segment s) { current = empty_segment (s.seq + 1) }

  ledger-started : (s : Spool) → ledger c (started s) ≡ ledger c s
  unfolding ledger start_segment records_of
  ledger-started s =
      rw (ledger_of-append c (s.older ++ s.current ∷ []) (empty_segment (s.seq + 1) ∷ []))
        (rw file_records-empty (append-nil (ledger_of c (s.older ++ s.current ∷ []))))

  empty_segment-Holds :
      (base : ℕ) (s : Spool)
      → IsSound c base s
      → Holds c
          (end_hash c s.anchor (ledger c s))
          (base + length (ledger c s))
          []
          (empty_segment (s.seq + 1))
  unfolding new_segment
  empty_segment-Holds base s v = record {
    file = unfold render in refl;
    linked = tt;
    first = omega (arith, v.seq);
    last = refl;
    last_hash = refl;
    size = unfold render in refl;
    index = tt;
  }

  records_of-empty_segment : (n : ℕ) → records_of c (empty_segment n) ≡ []
  unfolding records_of
  records_of-empty_segment n = file_records-empty

  pub started-IsSound : (base : ℕ) (s : Spool) → IsSound c base s → IsSound c base (started s)
  unfolding start_segment ledger
  started-IsSound base s v = record {
    chained = (Chained-append c s.anchor base (segments s) (empty_segment (s.seq + 1) ∷ [])).1 (
      v.chained,
      (
        subst
            (λ rs.
              Holds c (end_hash c s.anchor (ledger c s)) (base + length (ledger c s)) rs
                (empty_segment (s.seq + 1)))
            (sym (records_of-empty_segment (s.seq + 1))) (empty_segment-Holds base s v),
        tt,
      ),
    );
    seq = rw (ledger-started s) v.seq;
    head = rw (ledger-started s) v.head;
    committed = v.committed;
  }

  started-SameLedger : (base : ℕ) (s : Spool) → IsSound c base s → SameLedger base s (started s)
  unfolding start_segment
  started-SameLedger base s v = record {
    sound = started-IsSound base s v;
    ledger = ledger-started s;
    seq = refl;
    head = refl;
    anchor = refl;
    committed = refl;
    watermarks = refl;
    cursors = refl;
    recent_ids = refl;
    wakeups = refl;
    closed = refl;
  }

  -- The handle and the manifest are no part of the ledger.
  handle-SameLedger :
      (base : ℕ) (s t : Spool) (open' : Bool) (m : Option Manifest)
      → SameLedger base s t
      → SameLedger base s (record t { active_open = open'; manifest = m })
  unfolding ledger
  handle-SameLedger base s t open' m v = record {
    sound = record {
      chained = v.sound.chained;
      seq = v.sound.seq;
      head = v.sound.head;
      committed = v.sound.committed;
    };
    ledger = v.ledger;
    seq = v.seq;
    head = v.head;
    anchor = v.anchor;
    committed = v.committed;
    watermarks = v.watermarks;
    cursors = v.cursors;
    recent_ids = v.recent_ids;
    wakeups = v.wakeups;
    closed = v.closed;
  }

  -- A rotation that could not open the file of the new segment, which stays in the table without one.
  pub record Unopened (io : Io) (s s' : Spool) : Type 0 where
    pub due : rotate_due io s ≡ true
    pub refused : io.open_ok ≡ false
    pub table : s' ≡ record (start_segment s) { active_open = false }

  rotate_refused :
      (io : Io) (s : Spool)
      → (s.active_open && io.close_ok) ≡ true
      → io.open_ok ≡ false
      → rotate io s ≡ (err open_failed, record (start_segment s) { active_open = false })
  unfolding rotate close_active open_active start_segment ◌>>=◌
  rotate_refused io s a b = rw a (rw b refl)

  rotate-SameLedger :
      (base : ℕ) (io : Io) (s : Spool)
      → IsSound c base s
      → rotate_due io s ≡ true
      → SameLedger base s (rotate io s).1
        ⊎ (((rotate io s).0 ≡ err open_failed) × Unopened io s (rotate io s).1)
  unfolding rotate close_active open_active start_segment write_manifest ◌>>=◌ created new_segment
  rotate-SameLedger base io s v d = elim (Bool-cases (s.active_open && io.close_ok)) [
    | inr a ↦ rw a (inl (handle-SameLedger base s s false s.manifest (SameLedger-refl base s v)))
    | inl a ↦ elim (Bool-cases io.open_ok) [
      | inr b ↦
          let e = rotate_refused io s a b in
          inr (ap (λ p. p.0) e, record { due = d; refused = b; table = ap (λ p. p.1) e })
      | inl b ↦
          let k = started-SameLedger base s v in
          elim (Bool-cases io.manifest_ok) [
            | inl e ↦ rw a (rw b (rw e (inl (handle-SameLedger base s (started s) true _ k))))
            | inr e ↦
                rw a (rw b (rw e (inl (handle-SameLedger base s (started s) true s.manifest k))))
          ]
    ]
  ]

  -- Whether or not a rotation is due, and whether or not it succeeds.
  pub maybe_rotate-SameLedger :
      (base : ℕ) (io : Io) (s : Spool)
      → IsSound c base s
      → SameLedger base s (maybe_rotate io s).1
        ⊎ (((maybe_rotate io s).0 ≡ err open_failed) × Unopened io s (maybe_rotate io s).1)
  unfolding maybe_rotate
  maybe_rotate-SameLedger base io s v = elim (Bool-cases (rotate_due io s)) [
    | inl e ↦ rw e (rotate-SameLedger base io s v e)
    | inr e ↦ rw e (inl (SameLedger-refl base s v))
  ]
