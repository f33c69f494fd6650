-- ===== src/Pipeline/Loop/Books.antt =====
-- What the cursors and dead letters of a spool (internal/spool/spool.go) leave alone.
use vbilling.Prelude.{ℕ, ◌≡◌, ◌∙◌, refl, sym, ap, subst, some, arith, inl, inr, max}
use vbilling.Prelude.Tests.{leb, Bool-cases}
use vbilling.Prelude.Text.{Text, lookup}
use vbilling.Prelude.Maps.{lookup-insert_self}
use vbilling.Spool.Codec.{Codec}
use vbilling.Spool.State.{Spool, Io}
use vbilling.Spool.Ledger.{ledger, IsSound}
use vbilling.Spool.Cursors.{cursor, cursor_of, ack, write_cursors}
use vbilling.Pipeline.Deliver.{letters}

-- A spool of which only the cursors and the dead letters have changed.
abbrev pub SameBooks : Spool → Spool → Type 0
SameBooks s t =
    record t { cursors = s.cursors; cursor_file = s.cursor_file; dead_letters = s.dead_letters } ≡ s

abbrev forget : Spool → Spool → Spool
forget s t = record t {
  cursors = s.cursors;
  cursor_file = s.cursor_file;
  dead_letters = s.dead_letters;
}

pub SameBooks-trans : (s t u : Spool) → SameBooks s t → SameBooks t u → SameBooks s u
SameBooks-trans s t u a b = ap (forget s) b ∙ a

pub SameBooks-ledger : (c : Codec) (s t : Spool) → SameBooks s t → ledger c t ≡ ledger c s
unfolding ledger
SameBooks-ledger c s t b = ap (ledger c) b

pub SameBooks-IsSound :
    (c : Codec) (base : ℕ) (s t : Spool) → SameBooks s t → IsSound c base s → IsSound c base t
unfolding ledger
SameBooks-IsSound c base s t b v =
    let u = subst (IsSound c base) (sym b) v in
    record { chained = u.chained; seq = u.seq; head = u.head; committed = u.committed }

pub ack-SameBooks : (io : Io) (d : Text) (n : ℕ) (s : Spool) → SameBooks s (ack io d n s).1
unfolding ack write_cursors
ack-SameBooks io d n s = elim (Bool-cases (leb n (cursor_of d s.cursors))) [
  | inl b ↦ rw (b, ack) refl
  | inr b ↦ elim (Bool-cases io.cursors_ok) [
    | inl w ↦ rw (b, ack) (rw w refl)
    | inr w ↦ rw (b, ack) (rw w refl)
  ]
]

pub ack-letters :
    (io : Io) (d : Text) (n : ℕ) (s : Spool) → letters d (ack io d n s).1 ≡ letters d s
unfolding ack write_cursors letters
ack-letters io d n s = elim (Bool-cases (leb n (cursor_of d s.cursors))) [
  | inl b ↦ rw (b, ack) refl
  | inr b ↦ elim (Bool-cases io.cursors_ok) [
    | inl w ↦ rw (b, ack) (rw w refl)
    | inr w ↦ rw (b, ack) (rw w refl)
  ]
]

pub ack-lookup :
    (io : Io) (d : Text) (n m : ℕ) (s : Spool)
    → lookup d s.cursors ≡ some m
    → lookup d (ack io d n s).1.cursors ≡ some (max m n)
unfolding ack write_cursors cursor_of
ack-lookup io d n m s h = ground (arith, h, lookup-insert_self d n s.cursors)

pub cursor-known :
    (io : Io) (d : Text) (m : ℕ) (s : Spool) → lookup d s.cursors ≡ some m → cursor io d s ≡ (m, s)
unfolding cursor
cursor-known io d m s h = rw (h, cursor) refl
