-- ===== src/Spool/Append/Batches.antt =====
-- What the loop over a batch in appendLocked writes: the lines of the records that continue the
-- chain, and index entries that point at them.
use mathlib.Core.List.{append_assoc, append-nil, map-append}
use mathlib.Core.Option.{some-injective}
use vbilling.Prelude.{
  suc, ℕ, ◌+◌, ◌≡◌, ◌∙◌, inl, inr, refl, subst, ap, some, List, [], ◌∷◌, ◌++◌, arith, Bool, true,
  false, ◌-◌, ◌%◌,
}
use vbilling.Prelude.Tests.{Option-cases, ◌==◌, if◌then◌else◌}
use vbilling.Prelude.Lists.{length, All, All-append, All-mono, length-append}
use vbilling.Prelude.Text.{Text}
use vbilling.Usage.{Time}
use vbilling.Spool.Codec.{Codec, Record}
use vbilling.Spool.Codec.Lines.{render, render-append}
use vbilling.Spool.Chain.{
  body_of, line_of, hash_of, end_hash, Linked, end_hash-append, Linked-append,
}
use vbilling.Spool.State.{Segment, Offset, index_every}
use vbilling.Spool.Ledger.{lines_of, file_of, AtLine}
use vbilling.Spool.Append.{Batch, Body, link, add_line, write_record, write_records}

module _ (c : Codec) (now : Time) where
  -- The records that a batch adds after the record `seq` with the hash `head`.
  abbrev pub new_records : ℕ → Text → List Body → List Record
  new_records seq head [] = []
  new_records seq head (x ∷ xs) =
      let r = link now (seq + 1) head x in r ∷ new_records (seq + 1) (hash_of c r) xs

  module _ (g : Segment) (start : ℕ) (old : List Record) (prev : Text) where
    -- After `done` has been put into the buffer.
    pub record Progress (done : List Record) (b : Batch) : Type 0 where
      pub buf : b.buf ≡ file_of c done
      pub seq : b.seq ≡ start + length (old ++ done)
      pub head : b.head ≡ end_hash c prev done
      pub linked : Linked c prev (start + length old) done
      pub index : All (AtLine c start (old ++ done)) b.new_index

pub file_of-append :
    (c : Codec) (rs ts : List Record) → file_of c (rs ++ ts) ≡ file_of c rs ++ file_of c ts
file_of-append c rs ts =
    rw (map-append (line_of c) rs ts) (render-append (lines_of c rs) (lines_of c ts))

pub AtLine-append :
    (c : Codec) (start : ℕ) (rs ts : List Record) (ix : Offset)
    → AtLine c start rs ix
    → AtLine c start (rs ++ ts) ix
AtLine-append c start rs ts ix (before, after, split, seq, off) =
    (before, after ++ ts, rw split (append_assoc before after ts), seq, off)

module _ (c : Codec) (now : Time) (g : Segment) (start : ℕ) (old : List Record) (prev : Text) where
  grown_index :
      (done : List Record) (b : Batch) (r : Record) (add : Bool)
      → g.size ≡ length (file_of c old)
      → Progress c now g start old prev done b
      → r.seq ≡ b.seq + 1
      → All (AtLine c start ((old ++ done) ++ r ∷ [])) (
          if add
          then b.new_index ++ record { seq = b.seq + 1; off = g.size + length b.buf } ∷ []
          else b.new_index)
  grown_index done b r false size p e =
      All-mono b.new_index (AtLine-append c start (old ++ done) (r ∷ [])) p.index
  grown_index done b r true size p e =
      All-append (AtLine c start ((old ++ done) ++ r ∷ [])) b.new_index _
        (All-mono b.new_index (AtLine-append c start (old ++ done) (r ∷ [])) p.index)
        (
          (
            old ++ done,
            r ∷ [],
            refl,
            omega (arith, p.seq),
            omega (
              arith,
              size,
              ap length p.buf,
              ap length (file_of-append c old done),
              length-append (file_of c old) (file_of c done),
            ),
          ),
          tt,
        )

  add_line-Progress :
      (done : List Record) (b : Batch) (r : Record)
      → g.size ≡ length (file_of c old)
      → Progress c now g start old prev done b
      → r.seq ≡ b.seq + 1
      → r.prev ≡ b.head
      → c.marshal r ≡ some (body_of c r)
      → Progress c now g start old prev (done ++ r ∷ []) (add_line c g b (body_of c r))
  unfolding add_line
  add_line-Progress done b r size p es ep em = record {
    buf = rw (p.buf, file_of-append c done (r ∷ [])) (unfold render in refl);
    seq = omega (
      arith,
      p.seq,
      length-append old (done ++ r ∷ []),
      length-append done (r ∷ []),
      length-append old done,
    );
    head = rw (end_hash-append c prev done (r ∷ [])) refl;
    linked =
        Linked-append c prev (start + length old) done (r ∷ []) p.linked
          (omega (arith, es, p.seq, length-append old done), ep ∙ p.head, em, tt);
    index =
        subst
          (λ rs. All (AtLine c start rs) (
            if (b.seq + 1 - g.first) % index_every == 0
            then b.new_index ++ record { seq = b.seq + 1; off = g.size + length b.buf } ∷ []
            else b.new_index))
          (append_assoc old done (r ∷ []))
          (grown_index done b r ((b.seq + 1 - g.first) % index_every == 0) size p es);
  }

  write_record_cases :
      (b b' : Batch) (x : Body)
      → write_record c now g x b ≡ some b'
      → let r = link now (b.seq + 1) b.head x in
        (c.marshal r ≡ some (body_of c r)) × (b' ≡ add_line c g b (body_of c r))
  unfolding write_record body_of
  write_record_cases b b' x h = ground arith

  pub write_records-Progress :
      (done : List Record) (b b' : Batch) (xs : List Body)
      → g.size ≡ length (file_of c old)
      → Progress c now g start old prev done b
      → write_records c now g xs b ≡ some b'
      → Progress c now g start old prev (done ++ new_records c now b.seq b.head xs) b'
  unfolding write_records add_line
  write_records-Progress done b b' [] size p h =
      rw (append-nil done) (subst (Progress c now g start old prev done) (some-injective b b' h) p)
  write_records-Progress done b b' (x ∷ xs) size p h =
      elim (Option-cases (write_record c now g x b)) [
        | inl e ↦ cc (rw (e, write_records) at h)
        | inr (b1, e) ↦
            let r = link now (b.seq + 1) b.head x in
            let (em, eb) = write_record_cases b b1 x e in
            subst (λ rs. Progress c now g start old prev rs b')
              (append_assoc done (r ∷ []) (new_records c now (b.seq + 1) (hash_of c r) xs))
              (write_records-Progress (done ++ r ∷ []) (add_line c g b (body_of c r)) b' xs size
                (add_line-Progress done b r size p (unfold link in refl) (unfold link in refl) em)
                (subst (λ (d : Batch). write_records c now g xs d ≡ some b') eb
                  (rw (e, write_records) at h)))
      ]

pub length-new_records :
    (c : Codec) (now : Time) (seq : ℕ) (head : Text) (xs : List Body)
    → length (new_records c now seq head xs) ≡ length xs
length-new_records c now seq head [] = refl
length-new_records c now seq head (x ∷ xs) =
    ap suc (length-new_records c now (seq + 1) (hash_of c (link now (seq + 1) head x)) xs)
