-- ===== src/Spool/Ingest/Sift.antt =====
-- What the filter of AppendIngest (internal/spool/spool.go) keeps.
use vbilling.Prelude.{
  ◌+◌, ◌≡◌, refl, sym, subst, Bool, true, false, List, [], ◌∷◌, arith, inl, inr, ◌||◌,
}
use vbilling.Prelude.Tests.{Bool-cases}
use vbilling.Prelude.Lists.{length, All, All-mono}
use vbilling.Prelude.Maps.{lookup-insert}
use vbilling.Prelude.Text.{Text, member, Map, text_eq, text_eq_refl, insert}
use vbilling.Usage.{Time, Event}
use vbilling.Spool.Ingest.{known, sift, record_ids, ids}

-- Every event of the batch is kept or reported as a duplicate, and none twice.
pub length-sift :
    (recent : Map Time) (seen : List Text) (es : List Event)
    → length (sift recent seen es).keep + length (sift recent seen es).duplicates ≡ length es
unfolding sift
length-sift recent seen [] = omega arith
length-sift recent seen (e ∷ es) =
    ground (arith, length-sift recent seen es, length-sift recent (e.id ∷ seen) es)

-- The batch, in its order, is `keep` and the events whose IDs are `duplicates`: an event whose ID is
-- neither remembered nor that of an event before it in the batch, in `seen`, goes whole into `keep`,
-- and of every other one the ID into `duplicates`.
pub data Parted (recent : Map Time) : List Text → List Event → List Event → List Text → Type 0 where
  nothing : (seen : List Text) → Parted recent seen [] [] []
  kept :
      (seen : List Text) (e : Event) (es keep : List Event) (duplicates : List Text)
      → known e.id recent ≡ false
      → member e.id seen ≡ false
      → Parted recent (e.id ∷ seen) es keep duplicates
      → Parted recent seen (e ∷ es) (e ∷ keep) duplicates
  duplicated :
      (seen : List Text) (e : Event) (es keep : List Event) (duplicates : List Text)
      → (known e.id recent || member e.id seen) ≡ true
      → Parted recent seen es keep duplicates
      → Parted recent seen (e ∷ es) keep (e.id ∷ duplicates)

both_false : (a b : Bool) → (a || b) ≡ false → (a ≡ false) × (b ≡ false)
both_false a b h = (ground arith, ground arith)

pub sift-Parted :
    (recent : Map Time) (seen : List Text) (es : List Event)
    → Parted recent seen es (sift recent seen es).keep (sift recent seen es).duplicates
unfolding sift
sift-Parted recent seen [] = nothing seen
sift-Parted recent seen (e ∷ es) = elim (Bool-cases (known e.id recent || member e.id seen)) [
  | inl b ↦ rw b (duplicated seen e es _ _ b (sift-Parted recent seen es))
  | inr b ↦
      let (k, m) = both_false (known e.id recent) (member e.id seen) b in
      rw b (kept seen e es _ _ k m (sift-Parted recent (e.id ∷ seen) es))
]

-- The kept IDs are new: not remembered, not among `seen`, and not kept twice.
abbrev pub Fresh : Map Time → List Text → List Event → Type 0
Fresh recent seen [] = Unit
Fresh recent seen (e ∷ es) =
    (known e.id recent ≡ false) × (member e.id seen ≡ false) × Fresh recent (e.id ∷ seen) es

pub sift-Fresh :
    (recent : Map Time) (seen : List Text) (es : List Event)
    → Fresh recent seen (sift recent seen es).keep
unfolding sift
sift-Fresh recent seen [] = tt
sift-Fresh recent seen (e ∷ es) = elim (Bool-cases (known e.id recent)) [
  | inl k ↦ rw k (sift-Fresh recent seen es)
  | inr k ↦ rw k (elim (Bool-cases (member e.id seen)) [
    | inl m ↦ rw m (sift-Fresh recent seen es)
    | inr m ↦ rw m (k, m, sift-Fresh recent (e.id ∷ seen) es)
  ])
]

known-insert :
    (id j : Text) (now : Time) (m : Map Time)
    → known j (insert id now m) ≡ text_eq id j || known j m
unfolding known
known-insert id j now m = ground (arith, lookup-insert id j now m)

known-record_ids :
    (now : Time) (es : List Event) (m : Map Time) (j : Text)
    → known j (record_ids now es m) ≡ member j (ids es) || known j m
unfolding record_ids member
known-record_ids now [] m j = refl
known-record_ids now (e ∷ es) m j =
    ground (arith, known-record_ids now es (insert e.id now m) j, known-insert e.id j now m)

-- After a batch all of its IDs are remembered, or among `seen`.
abbrev Remembered : Time → List Event → Map Time → List Text → Event → Type 0
Remembered now keep recent seen e =
    (known e.id (record_ids now keep recent) || member e.id seen) ≡ true

Remembered-mono :
    (now : Time) (e j : Event) (keep : List Event) (recent : Map Time) (seen : List Text)
    → Remembered now keep recent (e.id ∷ seen) j
    → Remembered now (e ∷ keep) recent seen j
unfolding member
Remembered-mono now e j keep recent seen h =
    ground
      (arith, known-record_ids now keep recent j.id, known-record_ids now (e ∷ keep) recent j.id)

Remembered-self :
    (now : Time) (e : Event) (keep : List Event) (recent : Map Time) (seen : List Text)
    → Remembered now (e ∷ keep) recent seen e
unfolding member
Remembered-self now e keep recent seen =
    ground (arith, known-record_ids now (e ∷ keep) recent e.id, text_eq_refl e.id)

Remembered-dup :
    (now : Time) (e : Event) (keep : List Event) (recent : Map Time) (seen : List Text)
    → (known e.id recent || member e.id seen) ≡ true
    → Remembered now keep recent seen e
Remembered-dup now e keep recent seen h = ground (arith, known-record_ids now keep recent e.id)

keep_dup :
    (recent : Map Time) (seen : List Text) (e : Event) (es : List Event)
    → (known e.id recent || member e.id seen) ≡ true
    → (sift recent seen (e ∷ es)).keep ≡ (sift recent seen es).keep
unfolding sift
keep_dup recent seen e es h = rw h

keep_new :
    (recent : Map Time) (seen : List Text) (e : Event) (es : List Event)
    → (known e.id recent || member e.id seen) ≡ false
    → (sift recent seen (e ∷ es)).keep ≡ e ∷ (sift recent (e.id ∷ seen) es).keep
unfolding sift
keep_new recent seen e es h = rw h

pub sift-Remembered :
    (now : Time) (recent : Map Time) (seen : List Text) (es : List Event)
    → All (Remembered now (sift recent seen es).keep recent seen) es
sift-Remembered now recent seen [] = tt
sift-Remembered now recent seen (e ∷ es) =
    elim (Bool-cases (known e.id recent || member e.id seen)) [
      | inl dup ↦
          subst (λ k. All (Remembered now k recent seen) (e ∷ es))
            (sym (keep_dup recent seen e es dup))
            (
              Remembered-dup now e (sift recent seen es).keep recent seen dup,
              sift-Remembered now recent seen es,
            )
      | inr new ↦
          let keep = (sift recent (e.id ∷ seen) es).keep in
          subst (λ k. All (Remembered now k recent seen) (e ∷ es))
            (sym (keep_new recent seen e es new))
            (
              Remembered-self now e keep recent seen,
              All-mono es (λ j p. Remembered-mono now e j keep recent seen p)
                  (sift-Remembered now recent (e.id ∷ seen) es),
            )
    ]

pub Remembered-known :
    (now : Time) (e : Event) (keep : List Event) (recent recent' : Map Time)
    → recent' ≡ record_ids now keep recent
    → Remembered now keep recent [] e
    → known e.id recent' ≡ true
unfolding member
Remembered-known now e keep recent recent' q h = rw q (ground arith)

-- A batch of remembered IDs is all duplicates.
pub sift_all_known :
    (m : Map Time) (es : List Event)
    → All (λ (e : Event). known e.id m ≡ true) es
    → sift m [] es ≡ record { keep = []; duplicates = ids es }
unfolding sift
sift_all_known m [] h = refl
sift_all_known m (e ∷ es) h = rw h.0 (rw (sift_all_known m es h.1))
