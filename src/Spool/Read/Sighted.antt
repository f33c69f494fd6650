-- ===== src/Spool/Read/Sighted.antt =====
-- Read (internal/spool/spool.go) when a file cannot be opened.
use vbilling.Prelude.{ℕ, ◌≡◌, ◌∙◌, ◌⊎◌, refl, true, false, ◌||◌, List, [], ◌∷◌, inl, inr, max}
use vbilling.Prelude.Tests.{leb, ltb, ◌==◌, Bool-cases}
use vbilling.Prelude.Lists.{length}
use vbilling.Spool.Codec.{Codec, Record}
use vbilling.Spool.State.{Spool, Io, Segment, Result, Error, ok, err}
use vbilling.Spool.Read.{read, read_segment, read_segment_opts, read_segments}

-- Without the operating system's help a read returns nothing.
read_segment-blind :
    (c : Codec) (io : Io) (from upto max : ℕ) (out out' : List Record) (g : Segment)
    → io.read_ok ≡ false
    → read_segment c io from upto max out g ≡ ok out'
    → out' ≡ out
unfolding read_segment read_segment_opts
read_segment-blind c io from upto max out out' g blind h =
    elim (Bool-cases (g.last == 0 || ltb g.last from || ltb upto g.first)) [
      | inl b ↦ cc (rw (b, read_segment_opts) at h)
      | inr b ↦ cc (rw blind at (rw (b, read_segment_opts) at h))
    ]

pub Result-cases :
    {A : Type 0} (r : Result A) → ((a : A) × (r ≡ ok a)) ⊎ ((e : Error) × (r ≡ err e))
Result-cases (ok a) = inl (a, refl)
Result-cases (err e) = inr (e, refl)

read_segments-blind :
    (c : Codec) (io : Io) (from upto max : ℕ) (gs : List Segment) (out out' : List Record)
    → io.read_ok ≡ false
    → read_segments c io from upto max out gs ≡ ok out'
    → out' ≡ out
unfolding read_segments
read_segments-blind c io from upto max [] out out' blind h = cc h
read_segments-blind c io from upto max (g ∷ gs) out out' blind h =
    elim (Bool-cases (ltb (length out) max)) [
      | inr b ↦ cc (rw b at h)
      | inl b ↦ elim (Result-cases (read_segment c io from upto max out g)) [
        | inr (e, q) ↦ cc (rw q at (rw b at h))
        | inl (mid, q) ↦
            read_segments-blind c io from upto max gs mid out' blind (rw q at (rw b at h))
            ∙ read_segment-blind c io from upto max out mid g blind q
      ]
    ]

-- A read that returns a record could use the files.
pub read-sighted :
    (c : Codec) (io : Io) (after max : ℕ) (s : Spool) (r : Record) (rs : List Record)
    → read c io after max s ≡ ok (r ∷ rs)
    → io.read_ok ≡ true
unfolding read
read-sighted c io after max s r rs h = elim (Bool-cases io.read_ok) [
  | inl b ↦ b
  | inr b ↦ elim (Bool-cases (leb s.committed after || max == 0)) [
    | inl e ↦ cc (rw (e, read) at h)
    | inr e ↦ cc (read_segments-blind c io _ _ max _ [] (r ∷ rs) b (rw (e, read) at h))
  ]
]
