-- ===== src/Spool/Ingest/Idempotent.antt =====
-- What the dedupe of AppendIngest guarantees.
use Prim.Native.Nat.{suc}
use vbilling.Prelude.{
  ℕ, ◌+◌, ◌≡◌, ◌∙◌, refl, sym, subst, ap, true, false, List, [], ◌∷◌, ◌++◌, arith, inl, inr,
}
use vbilling.Prelude.Tests.{Bool-cases, ◌==◌, if◌then◌else◌}
use vbilling.Prelude.Lists.{length, length-map, All, All-mono}
use vbilling.Prelude.Text.{Text}
use vbilling.Usage.{Event}
use vbilling.Spool.Codec.{Codec}
use vbilling.Spool.State.{Spool, Io, Result, ok, >>=-ok}
use vbilling.Spool.Ledger.{IsSound, ledger}
use vbilling.Spool.Append.{append, bodies}
use vbilling.Spool.Append.Batches.{new_records}
use vbilling.Spool.Append.Outcome.{append-Extends}
use vbilling.Spool.Ingest.{
  append_ingest, ingest_kept, record_dedupe, known, Sifted, sift, record_ids, ids,
}
use vbilling.Spool.Ingest.Sift.{
  length-sift, Parted, sift-Parted, Fresh, sift-Fresh, sift-Remembered, Remembered-known,
  sift_all_known,
}

-- Remembering IDs is no part of the ledger.
record_dedupe_ok :
    (c : Codec) (io : Io) (base : ℕ) (keep : List Event) (s : Spool)
    → IsSound c base s
    → (record_dedupe io keep s).0 ≡ ok tt
    → let t = (record_dedupe io keep s).1 in
      IsSound c base t
      × (ledger c t ≡ ledger c s)
      × (t.closed ≡ s.closed)
      × (t.recent_ids ≡ record_ids io.now keep s.recent_ids)
unfolding record_dedupe ledger
record_dedupe_ok c io base keep s v h = elim (Bool-cases io.dedupe_open_ok) [
  | inr e ↦ cc (rw (e, record_dedupe) at h)
  | inl e ↦ elim (Bool-cases io.dedupe_write_ok) [
    | inr f ↦ cc (rw (e, record_dedupe) at (rw (f, record_dedupe) at h))
    | inl f ↦
        rw (e, record_dedupe)
          (rw (f, record_dedupe)
            (
              record { chained = v.chained; seq = v.seq; head = v.head; committed = v.committed },
              refl,
              refl,
              refl,
            ))
  ]
]

record Kept (c : Codec) (io : Io) (source : Text) (base : ℕ) (keep : List Event) (s s' : Spool)
    : Type 0 where
  sound : IsSound c base s'
  recent_ids : s'.recent_ids ≡ record_ids io.now keep s.recent_ids
  open' : s'.closed ≡ s.closed
  ledger : ledger c s' ≡ (
      if length keep == 0
      then ledger c s
      else ledger c s ++ new_records c io.now s.seq s.head (bodies source 0 keep []))

if_suc : {A : Type 0} (n : ℕ) (x y : A) → (if suc n == 0 then x else y) ≡ y
if_suc n x y = ground arith

ok_inj :
    {A : Type 0} (a b : A) (r : Result A × Spool) (t : Spool) → r ≡ (ok b, t) → r.0 ≡ ok a → a ≡ b
ok_inj a b r t h e = cc (ap (λ p. p.0) h)

Kept-refl :
    (c : Codec) (io : Io) (source : Text) (base : ℕ) (s : Spool)
    → IsSound c base s
    → Kept c io source base [] s s
Kept-refl c io source base s v = record {
  sound = v;
  recent_ids = unfold record_ids in refl;
  open' = refl;
  ledger = refl;
}

ingest_kept-Kept :
    (c : Codec) (io : Io) (source : Text) (base : ℕ) (duplicates : List Text) (keep : List Event)
    (s s' : Spool) (r : List Text × List Text)
    → IsSound c base s
    → ingest_kept c io source duplicates keep s ≡ (ok r, s')
    → (r ≡ (ids keep, duplicates)) × Kept c io source base keep s s'
unfolding ingest_kept
ingest_kept-Kept c io source base duplicates [] s s' r v h =
    let q = ap (λ (p : Result (List Text × List Text) × Spool). p.1) h in
    (
      sym (ok_inj _ _ _ _ h refl),
      subst (Kept c io source base [] s) q (Kept-refl c io source base s v),
    )
ingest_kept-Kept c io source base duplicates (e ∷ es) s s' r v h =
    let (a, f, q) = >>=-ok (append c io source 0 (e ∷ es) []) _ s s' r h in
    let s1 = (append c io source 0 (e ∷ es) [] s).1 in
    let (b, g, k) = >>=-ok (record_dedupe io (e ∷ es)) _ s1 s' r q in
    let x = append-Extends c io source 0 base (e ∷ es) [] s s1 v (λ i. (f i, s1)) in
    let d = record_dedupe_ok c io base (e ∷ es) s1 x.sound g in
    (
      sym (ok_inj _ _ _ _ k refl),
      subst (Kept c io source base (e ∷ es) s) (ap (λ p. p.1) k) (record {
        sound = d.0;
        recent_ids = d.3 ∙ ap (record_ids io.now (e ∷ es)) x.recent_ids;
        open' = d.2 ∙ x.open';
        ledger = d.1 ∙ x.ledger ∙ sym (if_suc (length es) _ _);
      }),
    )

-- What an ingested batch leaves behind: it parts, in its order, into its new events, which are `keep`,
-- and those whose IDs are duplicates.
pub record Ingested (c : Codec) (io : Io) (source : Text) (base : ℕ) (events : List Event)
    (s s' : Spool) (accepted duplicates : List Text) : Type 0 where
  pub keep : List Event
  pub parted : Parted s.recent_ids [] events keep duplicates
  pub accepted_ids : accepted ≡ ids keep
  pub fresh : Fresh s.recent_ids [] keep
  pub count : length accepted + length duplicates ≡ length events
  pub sound : IsSound c base s'
  pub remembered : All (λ (e : Event). known e.id s'.recent_ids ≡ true) events
  pub open' : s'.closed ≡ false
  pub ledger : ledger c s' ≡ (
      if length keep == 0
      then ledger c s
      else ledger c s ++ new_records c io.now s.seq s.head (bodies source 0 keep []))

ingest_sifted :
    (c : Codec) (io : Io) (source : Text) (events : List Event) (s : Spool) (t : Sifted)
    → sift s.recent_ids [] events ≡ t
    → s.closed ≡ false
    → append_ingest c io source events s ≡ ingest_kept c io source t.duplicates t.keep s
unfolding append_ingest
ingest_sifted c io source events s t e o =
    subst
      (λ (t : Sifted).
        append_ingest c io source events s ≡ ingest_kept c io source t.duplicates t.keep s)
      e (simp o)

ingest_open :
    (c : Codec) (io : Io) (source : Text) (events : List Event) (s s' : Spool)
    (r : List Text × List Text)
    → append_ingest c io source events s ≡ (ok r, s')
    → s.closed ≡ false
unfolding append_ingest
ingest_open c io source events s s' r h = ground arith

-- AppendIngest that succeeds keeps the ledger sound and parts the batch, in its order: the events whose
-- IDs are new, each ID once, are appended unchanged and closed by one commit, or nothing if there are
-- none, and their IDs reported as accepted; the IDs of the others are reported as duplicates. Every
-- ID of the batch is remembered.
pub append_ingest-Ingested :
    (c : Codec) (io : Io) (source : Text) (base : ℕ) (events : List Event) (s s' : Spool)
    (accepted duplicates : List Text)
    → IsSound c base s
    → append_ingest c io source events s ≡ (ok (accepted, duplicates), s')
    → Ingested c io source base events s s' accepted duplicates
append_ingest-Ingested c io source base events s s' accepted duplicates v h =
    let t = sift s.recent_ids [] events in
    let o = ingest_open c io source events s s' (accepted, duplicates) h in
    let (r, k) =
      ingest_kept-Kept c io source base t.duplicates t.keep s s' (accepted, duplicates) v
        (sym (ingest_sifted c io source events s t refl o) ∙ h) in
    record {
      keep = t.keep;
      parted =
          subst (Parted s.recent_ids [] events t.keep)
            (sym (ap (λ (p : List Text × List Text). p.1) r)) (sift-Parted s.recent_ids [] events);
      accepted_ids = ap (λ (p : List Text × List Text). p.0) r;
      fresh = sift-Fresh s.recent_ids [] events;
      count = ground (
        arith,
        ap (λ (p : List Text × List Text). length p.0) r,
        ap (λ (p : List Text × List Text). length p.1) r,
        length-map (λ (e : Event). e.id) t.keep,
        length-sift s.recent_ids [] events,
      );
      sound = k.sound;
      remembered =
          All-mono events (λ e p. Remembered-known io.now e t.keep s.recent_ids _ k.recent_ids p)
            (sift-Remembered io.now s.recent_ids [] events);
      open' = k.open' ∙ o;
      ledger = k.ledger;
    }

-- Pushing a batch again after it was accepted, in whole or in part, appends nothing: every event is
-- reported as a duplicate.
pub append_ingest_again :
    (c : Codec) (io io' : Io) (source : Text) (base : ℕ) (events : List Event) (s s' : Spool)
    (accepted duplicates : List Text)
    → IsSound c base s
    → append_ingest c io source events s ≡ (ok (accepted, duplicates), s')
    → append_ingest c io' source events s' ≡ (ok ([], ids events), s')
append_ingest_again c io io' source base events s s' accepted duplicates v h =
    let t = append_ingest-Ingested c io source base events s s' accepted duplicates v h in
    ingest_sifted c io' source events s' (record { keep = []; duplicates = ids events })
      (sift_all_known s'.recent_ids events t.remembered) t.open'
    ∙ (unfold ingest_kept in refl)
