-- ===== src/Spool/Append/Success.antt =====
-- A batch that reaches the disk extends the ledger by exactly its records and keeps it sound.
use mathlib.Core.List.{append_assoc, append-nil}
use vbilling.Prelude.{
  inl, inr, ℕ, ◌+◌, ◌<◌, ◌≡◌, ◌∙◌, refl, sym, subst, ap, some, List, [], ◌∷◌, ◌++◌, arith,
}
use vbilling.Prelude.Tests.{Option-cases, ◌==◌, if◌then◌else◌}
use vbilling.Prelude.Lists.{length, All-append, All-mono, length-append}
use vbilling.Prelude.Text.{Text, insert}
use vbilling.Usage.{Time}
use vbilling.Spool.Codec.{Codec, Record}
use vbilling.Spool.Codec.Lines.{render}
use vbilling.Spool.Chain.{hash_of, end_hash, end_hash-append, Linked-append}
use vbilling.Spool.State.{◌>>=◌, Spool, Segment, Io, ok}
use vbilling.Spool.Ledger.{
  file_of, last_seq, last_hash_of, AtLine, Holds, IsSound, records_of, ledger, ledger_of,
  Holds-records_of, ledger_of-append, Chained-append,
}
use vbilling.Spool.Append.{
  Batch, Body, write_records, append_file, publish_segment, publish, write_batch, write_file,
  start_batch,
}
use vbilling.Spool.Append.Batches.{
  Progress, length-new_records, new_records, file_of-append, AtLine-append, write_records-Progress,
}

last_seq-append :
    (c : Codec) (start : ℕ) (rs ts : List Record)
    → 0 < length ts
    → last_seq c start (rs ++ ts) ≡ start + length (rs ++ ts)
last_seq-append c start [] [] h = elim h [ ]
last_seq-append c start [] (t ∷ ts) h = refl
last_seq-append c start (r ∷ rs) ts h = refl

module _ (c : Codec) (io : Io) where
  last_hash_of-append :
      (prev : Text) (old new : List Record)
      → 0 < length new
      → last_hash_of c prev (old ++ new) ≡ end_hash c (end_hash c prev old) new
  last_hash_of-append prev old [] h = elim h [ ]
  last_hash_of-append prev [] (r ∷ new) h = refl
  last_hash_of-append prev (o ∷ old) (r ∷ new) h = end_hash-append c (hash_of c o) old (r ∷ new)

  Holds-publish :
      (prev : Text) (start : ℕ) (old new : List Record) (g : Segment) (b : Batch)
      → Holds c prev start old g
      → Progress c io.now g start old (end_hash c prev old) new b
      → 0 < length new
      → Holds c prev start (old ++ new) (publish_segment io b (append_file b.buf g))
  unfolding publish_segment append_file
  Holds-publish prev start old new g b h p pos = record {
    file = rw (h.file, file_of-append c old new) (rw p.buf);
    linked = Linked-append c prev start old new h.linked p.linked;
    first = h.first;
    last = rw (last_seq-append c start old new pos) p.seq;
    last_hash = p.head ∙ sym (last_hash_of-append prev old new pos);
    size = omega (
      arith,
      h.size,
      ap length p.buf,
      ap length (file_of-append c old new),
      length-append (file_of c old) (file_of c new),
    );
    index =
        All-append (AtLine c start (old ++ new)) g.index b.new_index
          (All-mono g.index (AtLine-append c start old new) h.index) p.index;
  }

  write_batch_cases :
      (source : Text) (window_end : Time) (xs : List Body) (s s' : Spool)
      → write_batch c io source window_end xs s ≡ (ok tt, s')
      → (b : Batch) × (write_records c io.now s.current xs (start_batch s) ≡ some b)
        × (s' ≡ publish io source window_end b (record s { current = append_file b.buf s.current }))
  unfolding write_batch write_file ◌>>=◌
  write_batch_cases source window_end xs s s' h =
      elim (Option-cases (write_records c io.now s.current xs (start_batch s))) [
        | inl e ↦ cc (rw (e, write_batch) at h)
        | inr (b, e) ↦ (b, e, ground (arith, e))
      ]

  ledger_snoc : (s : Spool) → ledger c s ≡ ledger_of c s.older ++ records_of c s.current
  unfolding ledger
  ledger_snoc s =
      rw (ledger_of-append c s.older (s.current ∷ []))
        (unfold ledger_of in rw (append-nil (records_of c s.current)))

  pub current-Holds :
      (base : ℕ) (s : Spool)
      → IsSound c base s
      → Holds c
          (end_hash c s.anchor (ledger_of c s.older))
          (base + length (ledger_of c s.older))
          (records_of c s.current)
          s.current
  current-Holds base s v =
      ((Chained-append c s.anchor base s.older (s.current ∷ [])).0 v.chained).1.0

  pub start-Progress :
      (base : ℕ) (s : Spool)
      → IsSound c base s
      → Progress c io.now s.current
          (base + length (ledger_of c s.older))
          (records_of c s.current)
          (end_hash c (end_hash c s.anchor (ledger_of c s.older)) (records_of c s.current))
          []
          (start_batch s)
  unfolding start_batch
  start-Progress base s v = record {
    buf = unfold render in refl;
    seq = omega (
      arith,
      v.seq,
      ap length (ledger_snoc s),
      length-append (records_of c s.current) [],
      length-append (ledger_of c s.older) (records_of c s.current),
    );
    head =
        rw (← end_hash-append c s.anchor (ledger_of c s.older) (records_of c s.current))
          (rw (← ledger_snoc s) v.head);
    linked = tt;
    index = tt;
  }

  module _ (base : ℕ) (s : Spool) (v : IsSound c base s) (source : Text) (window_end : Time) where
    published : Batch → Spool
    published b =
        publish io source window_end b (record s { current = append_file b.buf s.current })

    module _ (b : Batch) (new : List Record)
        (p : Progress c io.now s.current
          (base + length (ledger_of c s.older))
          (records_of c s.current)
          (end_hash c (end_hash c s.anchor (ledger_of c s.older)) (records_of c s.current))
          new
          b)
        (pos : 0 < length new) where
      published-Holds :
          Holds c
            (end_hash c s.anchor (ledger_of c s.older))
            (base + length (ledger_of c s.older))
            (records_of c s.current ++ new)
            (published b).current
      unfolding published publish
      published-Holds = Holds-publish _ _ _ new s.current b (current-Holds base s v) p pos

      records_of-published : records_of c (published b).current ≡ records_of c s.current ++ new
      records_of-published = Holds-records_of c _ _ _ _ published-Holds

      ledger-published : ledger c (published b) ≡ ledger c s ++ new
      unfolding published publish
      ledger-published =
          ledger_snoc (published b)
          ∙ ap (λ rs. ledger_of c s.older ++ rs) records_of-published
          ∙ sym (append_assoc (ledger_of c s.older) (records_of c s.current) new)
          ∙ ap (λ rs. rs ++ new) (sym (ledger_snoc s))

      published-IsSound : IsSound c base (published b)
      unfolding published publish
      published-IsSound = record {
        chained = (Chained-append c s.anchor base s.older ((published b).current ∷ [])).1 (
          ((Chained-append c s.anchor base s.older (s.current ∷ [])).0 v.chained).0,
          (
            subst
                (λ rs.
                  Holds c (end_hash c s.anchor (ledger_of c s.older))
                    (base + length (ledger_of c s.older)) rs (published b).current)
                (sym records_of-published) published-Holds,
            tt,
          ),
        );
        seq = omega (
          arith,
          p.seq,
          ap length ledger-published,
          ap length (ledger_snoc s),
          length-append (ledger c s) new,
          length-append (ledger_of c s.older) (records_of c s.current),
          length-append (records_of c s.current) new,
        );
        head =
            rw
              (
                ledger-published,
                end_hash-append c s.anchor (ledger c s) new,
                ledger_snoc s,
                end_hash-append c s.anchor (ledger_of c s.older) (records_of c s.current),
              )
              p.head;
        committed = refl;
      }

    -- What a batch written in full leaves behind.
    pub write_batch-extends :
        (xs : List Body) (s' : Spool)
        → 0 < length xs
        → write_batch c io source window_end xs s ≡ (ok tt, s')
        → IsSound c base s'
          × (ledger c s' ≡ ledger c s ++ new_records c io.now s.seq s.head xs)
          × (s'.watermarks
              ≡ (if window_end == 0 then s.watermarks else insert source window_end s.watermarks))
          × (s'.closed ≡ s.closed)
          × (s'.recent_ids ≡ s.recent_ids)
          × (s'.cursors ≡ s.cursors)
    unfolding start_batch published
    write_batch-extends xs s' pos h =
        let (b, e, eq) = write_batch_cases source window_end xs s s' h in
        let new = new_records c io.now s.seq s.head xs in
        let p =
          write_records-Progress c io.now s.current (base + length (ledger_of c s.older))
            (records_of c s.current)
            (end_hash c (end_hash c s.anchor (ledger_of c s.older)) (records_of c s.current)) []
            (start_batch s) b xs (current-Holds base s v).size (start-Progress base s v) e in
        let pos' : 0 < length new = omega (arith, length-new_records c io.now s.seq s.head xs) in
        subst
          (λ t.
            IsSound c base t
            × (ledger c t ≡ ledger c s ++ new)
            × (t.watermarks
                ≡ (if window_end == 0 then s.watermarks else insert source window_end s.watermarks))
            × (t.closed ≡ s.closed)
            × (t.recent_ids ≡ s.recent_ids)
            × (t.cursors ≡ s.cursors))
          (sym eq)
          (
            published-IsSound b new p pos',
            ledger-published b new p pos',
            unfold publish in refl,
            unfold publish in refl,
            unfold publish in refl,
            unfold publish in refl,
          )
