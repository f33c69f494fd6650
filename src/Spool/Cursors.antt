-- ===== src/Spool/Cursors.antt =====
-- The destinations' cursors of internal/spool/spool.go: Cursor, SetCursor, Ack and loadCursors.
use vbilling.Prelude.{ℕ, ◌≤◌, ◌<◌, ◌≡◌, Option, none, some, [], ◌∷◌, arith, max}
use vbilling.Prelude.Tests.{ltb, leb, if◌then◌else◌}
use vbilling.Prelude.Maps.{lookup-insert}
use vbilling.Prelude.Text.{Text, Map, text_eq, text_eq_iff, text_eq_refl, lookup, insert}
use vbilling.Spool.State.{Spool, Io, Op, ok, err, cursors_failed}

-- Go's reading of a missing key.
unfoldable pub cursor_of : Text → Map ℕ → ℕ
cursor_of dest m = elim (lookup dest m) [ none ↦ 0 | some n ↦ n ]

unfoldable pub write_cursors : Io → Op (Unit {0})
write_cursors io s =
    if io.cursors_ok
    then (ok tt, record s { cursor_file = some s.cursors })
    else (err cursors_failed, s)

-- A destination seen for the first time starts at the head. An error of the write is ignored.
unfoldable pub cursor : Io → Text → Spool → ℕ × Spool
unfolding write_cursors
cursor io dest s = elim (lookup dest s.cursors) [
  | some n ↦ (n, s)
  | none ↦
      (s.committed, (write_cursors io (record s { cursors = insert dest s.committed s.cursors })).1)
]

unfoldable pub set_cursor : Io → Text → ℕ → Op (Unit {0})
unfolding write_cursors
set_cursor io dest seq s =
    let n = if ltb s.committed seq then s.committed else seq in
    write_cursors io (record s { cursors = insert dest n s.cursors })

unfoldable pub ack : Io → Text → ℕ → Op (Unit {0})
unfolding write_cursors cursor_of
ack io dest seq s =
    if leb seq (cursor_of dest s.cursors)
    then (ok tt, s)
    else write_cursors io (record s { cursors = insert dest seq s.cursors })

unfoldable pub clamp : ℕ → Map ℕ → Map ℕ
clamp top [] = []
clamp top ((k, v) ∷ m) = (k, if ltb top v then top else v) ∷ clamp top m

-- loadCursors; a cursor ahead of a truncated tail comes back to the head.
unfoldable pub load_cursors : Spool → Spool
unfolding clamp
load_cursors s = elim s.cursor_file [
  | none ↦ s
  | some m ↦ record s { cursors = clamp s.committed m }
]

-- Ack, whether or not the file can be written, leaves the destination's cursor at the larger of
-- its value and the acknowledged number, so it never moves back, and no other cursor moves.
pub ack-max :
    (io : Io) (dest d : Text) (seq : ℕ) (s : Spool)
    → cursor_of d (ack io dest seq s).1.cursors
      ≡ (if text_eq dest d then max (cursor_of d s.cursors) seq else cursor_of d s.cursors)
unfolding ack
ack-max io dest d seq s = ground (arith, text_eq_iff dest d, lookup-insert dest d seq s.cursors)

abbrev pub CursorsBelow : Spool → Type 0
CursorsBelow s = (d : Text) → cursor_of d s.cursors ≤ s.committed

ack-CursorsBelow :
    (io : Io) (dest : Text) (seq : ℕ) (s : Spool)
    → seq ≤ s.committed
    → CursorsBelow s
    → CursorsBelow (ack io dest seq s).1
unfolding ack cursor_of
ack-CursorsBelow io dest seq s h v d = ground (arith, lookup-insert dest d seq s.cursors, v d)

set_cursor-CursorsBelow :
    (io : Io) (dest : Text) (seq : ℕ) (s : Spool)
    → CursorsBelow s
    → CursorsBelow (set_cursor io dest seq s).1
unfolding set_cursor cursor_of
set_cursor-CursorsBelow io dest seq s v d =
    ground
      (arith, lookup-insert dest d s.committed s.cursors, lookup-insert dest d seq s.cursors, v d)

cursor-CursorsBelow :
    (io : Io) (dest : Text) (s : Spool) → CursorsBelow s → CursorsBelow (cursor io dest s).1
unfolding cursor cursor_of
cursor-CursorsBelow io dest s v d = ground (arith, lookup-insert dest d s.committed s.cursors, v d)

pub lookup-clamp : (top : ℕ) (d : Text) (m : Map ℕ) → cursor_of d (clamp top m) ≤ top
unfolding clamp cursor_of lookup
lookup-clamp top d [] = omega arith
lookup-clamp top d ((k, v) ∷ m) = ground (arith, lookup-clamp top d m)

-- A rewind that falls between a destination's read and its acknowledgement is undone: the
-- acknowledgement moves the cursor forward again, past what the operator asked to replay.
pub rewind_undone_by_ack :
    (io io' : Io) (dest : Text) (back seq : ℕ) (s : Spool)
    → back < seq
    → back ≤ s.committed
    → cursor_of dest (ack io' dest seq (set_cursor io dest back s).1).1.cursors ≡ seq
unfolding ack set_cursor
rewind_undone_by_ack io io' dest back seq s h k = ground (
  arith,
  text_eq_refl dest,
  lookup-insert dest dest back s.cursors,
  lookup-insert dest dest s.committed s.cursors,
  lookup-insert dest dest seq (insert dest back s.cursors),
)

-- No cursor passes the committed end: acknowledging what was read, a rewind to any number, a first
-- look at a destination, and reloading the cursors after a restart all keep it so.
pub cursor_ops-CursorsBelow :
    (io : Io) (dest : Text) (seq n : ℕ) (s : Spool)
    → seq ≤ s.committed
    → CursorsBelow s
    → CursorsBelow (ack io dest seq s).1
      × CursorsBelow (set_cursor io dest n s).1
      × CursorsBelow (cursor io dest s).1
      × CursorsBelow (load_cursors s)
unfolding load_cursors
cursor_ops-CursorsBelow io dest seq n s h v = (
  ack-CursorsBelow io dest seq s h v,
  set_cursor-CursorsBelow io dest n s v,
  cursor-CursorsBelow io dest s v,
  loaded s.cursor_file,
)
  where
    loaded :
        (file : Option (Map ℕ))
        → CursorsBelow
            (elim file [ none ↦ s | some m ↦ record s { cursors = clamp s.committed m } ])
    loaded none = v
    loaded (some m) = λ d. lookup-clamp s.committed d m
