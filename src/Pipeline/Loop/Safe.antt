-- ===== src/Pipeline/Loop/Safe.antt =====
-- What a turn of the loop of internal/pipeline/dispatcher.go never loses.
use Prim.Native.Nat
use vbilling.Prelude.{
  ℕ, ◌-◌, ◌≤◌, ◌<◌, ◌≡◌, ◌∙◌, ◌⊎◌, refl, sym, ap, subst, true, some, List, [], ◌∷◌, arith, inl, inr,
  max,
}
use mathlib.Core.Option.{some-injective}
use vbilling.Prelude.Tests.{Bool-cases, Option-cases}
use vbilling.Prelude.Lists.{length, take, drop, All, All-append, All-mono, All-zip}
use vbilling.Prelude.Text.{lookup}
use vbilling.Usage.{Event}
use vbilling.Spool.Codec.{Codec, Record}
use vbilling.Spool.Chain.{Linked}
use vbilling.Spool.State.{Spool, Io, DeadLetter, Result, ok}
use vbilling.Spool.Ledger.{ledger, IsSound}
use vbilling.Spool.Cursors.{ack}
use vbilling.Spool.Read.{read}
use vbilling.Spool.Read.Whole.{read-ledger}
use vbilling.Pipeline.Backoff.{Tuning}
use vbilling.Pipeline.Deliver.{Destination, Setup, Dispatch, done, letters, deliver}
use vbilling.Pipeline.Deliver.Steps.{
  Promises, Parked, Parked-append_left, Parked-append_right, Moves, Moves-world, Delivery-cases,
}
use vbilling.Pipeline.Deliver.Handled.{deliver-Handled, deliver-Grows}
use vbilling.Pipeline.Loop.{
  Status, Lane, accepts, event_of, batch_of, put_event, last_of, delivery, acknowledge, turn_on,
  turn_from, turn,
}
use vbilling.Pipeline.Loop.Covers.{Linked-Around, IsSound-Linked, last_of-Linked}
use vbilling.Spool.Read.Sighted.{read-sighted, Result-cases}
use vbilling.Pipeline.Loop.Books.{
  SameBooks, SameBooks-trans, SameBooks-ledger, SameBooks-IsSound, ack-SameBooks, ack-letters,
  ack-lookup, cursor-known,
}

-- The event of the record, if the destination takes it.
unfoldable pub Wanted : {W : Type 0} → Destination W → Record → Event → Type 0
Wanted d r e = (event_of r ≡ some e) × (accepts d e.metric ≡ true)

ok_inj : {A : Type 0} {a b : A} → ◌≡◌ {A = Result A} (ok a) (ok b) → a ≡ b
ok_inj h = cc h

module _ {W : Type 0} (c : Codec) (setup : Setup W) (Accepted : W → Event → Type 0) where
  abbrev pub Settled : Dispatch W → Event → Type 0
  Settled s e = Accepted s.world e ⊎ Parked e (letters setup.dest.name s.spool)

  -- Every event for the destination among the records after `origin`, up to and with `n`, was
  -- accepted or is a dead letter.
  abbrev pub Done : ℕ → ℕ → Dispatch W → Record → Type 0
  Done origin n s r = origin < r.seq → r.seq ≤ n → (e : Event) → Wanted setup.dest r e → Settled s e

  abbrev pub UpTo : ℕ → ℕ → Dispatch W → Type 0
  UpTo origin n s = All (Done origin n s) (ledger c s.spool)

  -- A step of the loop that loses nothing.
  pub record Keeps (s t : Dispatch W) : Type 0 where
    pub books : SameBooks s.spool t.spool
    pub settled : (e : Event) → Settled s e → Settled t e

  Keeps-refl : (s : Dispatch W) → Keeps s s
  Keeps-refl s = record { books = refl; settled = λ e h. h }

  Keeps-trans : (s t u : Dispatch W) → Keeps s t → Keeps t u → Keeps s u
  Keeps-trans s t u a b = record {
    books = SameBooks-trans s.spool t.spool u.spool a.books b.books;
    settled = λ e h. b.settled e (a.settled e h);
  }

  Keeps-UpTo : (origin n : ℕ) (s t : Dispatch W) → Keeps s t → UpTo origin n s → UpTo origin n t
  Keeps-UpTo origin n s t k u =
      subst (All (Done origin n t)) (sym (SameBooks-ledger c s.spool t.spool k.books))
        (All-mono (ledger c s.spool) (λ r h a b e w. k.settled e (h a b e w)) u)

  Moves-Keeps :
      (new : List DeadLetter) (s t : Dispatch W) → Moves setup Accepted new s t → Keeps s t
  Moves-Keeps new s t m = record {
    books =
        ap
          (λ (x : Spool). record x { cursors = s.spool.cursors; cursor_file = s.spool.cursor_file })
          m.others;
    settled = λ e h. elim h [
      | inl a ↦ inl (m.kept e a)
      | inr q ↦ inr (subst (Parked e) (sym m.parked) (Parked-append_left e _ new q))
    ];
  }

  -- The events of a batch are those that the destination wants.
  batch_of-Wanted :
      (P : Event → Type 0) (rs : List Record)
      → All P (batch_of setup.dest rs).events
      → All (λ r. (e : Event) → Wanted setup.dest r e → P e) rs
  unfolding batch_of Wanted put_event
  batch_of-Wanted P [] h = tt
  batch_of-Wanted P (r ∷ rs) h = elim (Option-cases (event_of r)) [
    | inl q ↦ (λ e w. cc (q, w.0), batch_of-Wanted P rs (rw (q, batch_of) at h))
    | inr (f, q) ↦ elim (Bool-cases (accepts setup.dest f.metric)) [
      | inl b ↦
          let k = rw (b, put_event) at (rw (q, batch_of) at h) in
          (λ e w. subst P (some-injective f e (sym q ∙ w.0)) k.0, batch_of-Wanted P rs k.1)
      | inr b ↦ (
        λ e w. cc (
          b,
          w.1,
          ap (λ (x : Event). accepts setup.dest x.metric) (some-injective f e (sym q ∙ w.0)),
        ),
        batch_of-Wanted P rs (rw (b, put_event) at (rw (q, batch_of) at h)),
      )
    ]
  ]

  pub record Safe (origin n : ℕ) (s t : Dispatch W) : Type 0 where
    pub keeps : Keeps s t
    pub upto : ℕ
    pub known : lookup setup.dest.name t.spool.cursors ≡ some upto
    pub forward : n ≤ upto
    pub done : UpTo origin upto t

  Safe-still :
      (origin n : ℕ) (s t : Dispatch W)
      → Keeps s t
      → t.spool.cursors ≡ s.spool.cursors
      → lookup setup.dest.name s.spool.cursors ≡ some n
      → UpTo origin n s
      → Safe origin n s t
  Safe-still origin n s t k q h u = record {
    keeps = k;
    upto = n;
    known = ap (lookup setup.dest.name) q ∙ h;
    forward = omega arith;
    done = Keeps-UpTo origin n s t k u;
  }

  Safe-after :
      (origin n : ℕ) (s s' t : Dispatch W) → Keeps s s' → Safe origin n s' t → Safe origin n s t
  Safe-after origin n s s' t k f = record {
    keeps = Keeps-trans s s' t k f.keeps;
    upto = f.upto;
    known = f.known;
    forward = f.forward;
    done = f.done;
  }

  -- A read batch whose events are settled extends what is done to its last record.
  extended :
      (origin base n max : ℕ) (s : Dispatch W) (r : Record) (rs : List Record)
      → IsSound c base s.spool
      → take max (drop (n - base) (ledger c s.spool)) ≡ r ∷ rs
      → All (λ r. (e : Event) → Wanted setup.dest r e → Settled s e) (r ∷ rs)
      → UpTo origin n s
      → UpTo origin (Nat.max n (last_of r rs)) s
  extended origin base n max s r rs v e settled u =
      let l = ledger c s.spool in
      let a = Linked-Around c base n max l s.spool.anchor (IsSound-Linked c base s.spool v) in
      let last = last_of-Linked c a.hash a.start r rs (subst (Linked c a.hash a.start) e a.read) in
      let Part : Record → Type 0 = λ x.
        (x.seq ≤ n)
        ⊎ ((f : Event) → Wanted setup.dest x f → Settled s f)
        ⊎ (last_of r rs < x.seq) in
      let parts : All Part l = subst (All Part) (sym a.split) (
        All-append Part a.before _ (All-mono a.before (λ x h. inl h) a.early) (
          All-append Part (take max (drop (n - base) l)) a.after
            (subst (All Part) (sym e) (All-mono (r ∷ rs) (λ x h. inr (inl h)) settled))
            (All-mono a.after (λ x h. inr (inr (omega (arith, h, last, ap (λ y. length y) e))))
              a.late))) in
      All-zip l
        (λ x old part above below f w. elim part [
          | inl h ↦ old above h f w
          | inr (inl h) ↦ h f w
          | inr (inr h) ↦ old above (omega arith) f w
        ])
        u parts

  module _ (p : Promises setup Accepted) where
    asked : (s : Dispatch W) → Keeps s (record s { world = (setup.ask s.world).1 })
    asked s = record {
      books = refl;
      settled = λ e h. elim h [ inl a ↦ inl (p.ask_keeps s.world e a) | inr q ↦ inr q ];
    }

    delivery-Moves :
        (es : List Event) (s : Dispatch W)
        → (new : List DeadLetter) × Moves setup Accepted new s (delivery setup es s).1
    unfolding delivery
    delivery-Moves [] s = ([], Moves-world setup Accepted s s refl (λ e h. h))
    delivery-Moves (e ∷ es) s = deliver-Grows setup Accepted p (length (e ∷ es)) (e ∷ es) s

    delivery-Settled :
        (es : List Event) (n : ℕ) (s : Dispatch W)
        → (delivery setup es s).0 ≡ done n
        → All (Settled (delivery setup es s).1) es
    unfolding delivery
    delivery-Settled [] n s h = tt
    delivery-Settled (e ∷ es) n s h =
        let t = (deliver setup (length (e ∷ es)) (e ∷ es) s).1 in
        let k = deliver-Handled setup Accepted p (length (e ∷ es)) n (e ∷ es) s t (λ i. (h i, t)) in
        All-mono (e ∷ es)
          (λ f x. elim x [
            | inl a ↦ inl a
            | inr q ↦ inr (
                subst (Parked f) (sym k.moves.parked)
                  (Parked-append_right f (letters setup.dest.name s.spool) k.new q))
          ])
          k.settled

    Moves-cursors :
        (new : List DeadLetter) (s t : Dispatch W)
        → Moves setup Accepted new s t
        → t.spool.cursors ≡ s.spool.cursors
    Moves-cursors new s t m = ap (λ (x : Spool). x.cursors) m.others

    acknowledged :
        (io : Io) (origin n last : ℕ) (s t : Dispatch W) (w : W)
        → Keeps s t
        → Keeps t (record t { world = w })
        → lookup setup.dest.name t.spool.cursors ≡ some n
        → UpTo origin (Nat.max n last) t
        → Safe origin n s (record t { spool = (ack io setup.dest.name last t.spool).1; world = w })
    acknowledged io origin n last s t w k kw h u =
        let u' = record t { spool = (ack io setup.dest.name last t.spool).1; world = w } in
        let ka : Keeps (record t { world = w }) u' = record {
          books = ack-SameBooks io setup.dest.name last t.spool;
          settled = λ e x. elim x [
            | inl a ↦ inl a
            | inr q ↦ inr (subst (Parked e) (sym (ack-letters io setup.dest.name last t.spool)) q)
          ];
        } in
        let kt = Keeps-trans t (record t { world = w }) u' kw ka in
        record {
          keeps = Keeps-trans s t u' k kt;
          upto = Nat.max n last;
          known = ack-lookup io setup.dest.name last n t.spool h;
          forward = omega arith;
          done = Keeps-UpTo origin (Nat.max n last) t u' kt u;
        }

    turn_on-Safe :
        (origin base n max : ℕ) (recs : List Record) (s : Dispatch W) (st : Status)
        → IsSound c base s.spool
        → take max (drop (n - base) (ledger c s.spool)) ≡ recs
        → lookup setup.dest.name s.spool.cursors ≡ some n
        → UpTo origin n s
        → Safe origin n s (turn_on setup recs s st).1.dispatch
    unfolding turn_on
    turn_on-Safe origin base n max [] s st v e h u = Safe-still origin n s s (Keeps-refl s) refl h u
    turn_on-Safe origin base n max (r ∷ rs) s st v e h u =
        let es = (batch_of setup.dest (r ∷ rs)).events in
        let d = delivery setup es s in
        let t = d.1 in
        let (new, m) = delivery-Moves es s in
        let k = Moves-Keeps new s t m in
        let q = Moves-cursors new s t m in
        elim (Delivery-cases d.0) [
          | inr (inr x) ↦ rw (x, turn_on) (Safe-still origin n s t k q h u)
          | inr (inl (f, x)) ↦
              rw (x, turn_on) (Safe-still origin n s _ (Keeps-trans s t _ k (asked t)) q h u)
          | inl (dead, x) ↦
              let io = (setup.ask t.world).0 in
              let last = last_of r rs in
              let v' = SameBooks-IsSound c base s.spool t.spool k.books v in
              let e' =
                ap (λ l. take max (drop (n - base) l)) (SameBooks-ledger c s.spool t.spool k.books)
                ∙ e in
              let wants = batch_of-Wanted (Settled t) (r ∷ rs) (delivery-Settled es dead s x) in
              let u' =
                extended origin base n max t r rs v' e' wants (Keeps-UpTo origin n s t k u) in
              let a =
                acknowledged io origin n last s t (setup.ask t.world).1 k (asked t)
                  (ap (lookup setup.dest.name) q ∙ h) u' in
              elim (Result-cases (ack io setup.dest.name last t.spool).0) [
                | inl (y, f) ↦ rw (x, turn_on) (rw (f, acknowledge) a)
                | inr (y, f) ↦ rw (x, turn_on) (rw (f, acknowledge) a)
              ]
        ]

    turn_from-Safe :
        (o : Tuning) (io : Io) (origin base n : ℕ) (lane : Lane W) (w : W)
        → Keeps lane.dispatch (record lane.dispatch { world = w })
        → IsSound c base lane.dispatch.spool
        → lookup setup.dest.name lane.dispatch.spool.cursors ≡ some n
        → UpTo origin n lane.dispatch
        → Safe origin n lane.dispatch
            (turn_from setup c o io w (n, lane.dispatch.spool) lane).1.dispatch
    unfolding turn_from
    turn_from-Safe o io origin base n lane w k v h u =
        let s = lane.dispatch in
        let s' = record s { world = w } in
        elim (Result-cases (read c io n o.batch_size s.spool)) [
          | inr (e, q) ↦ rw (q, turn_from) (Safe-still origin n s s' k refl h u)
          | inl ([], q) ↦ rw (q, turn_from) (Safe-still origin n s s' k refl h u)
          | inl (r ∷ rs, q) ↦
              let sight = read-sighted c io n o.batch_size s.spool r rs q in
              let e = ok_inj (sym (read-ledger c io base n o.batch_size s.spool v sight) ∙ q) in
              let f =
                turn_on-Safe origin base n o.batch_size (r ∷ rs) s' lane.status v e h
                  (Keeps-UpTo origin n s s' k u) in
              rw (q, turn_from) (Safe-after origin n s s' _ k f)
        ]

    -- A turn of the loop loses nothing, however it ends: if every event before the destination's
    -- cursor that it takes was accepted or is a dead letter, this still holds after the turn, at a
    -- cursor that is not smaller; the ledger does not change.
    pub turn-Safe :
        (o : Tuning) (origin base n : ℕ) (lane : Lane W)
        → IsSound c base lane.dispatch.spool
        → lookup setup.dest.name lane.dispatch.spool.cursors ≡ some n
        → UpTo origin n lane.dispatch
        → Safe origin n lane.dispatch (turn setup c o lane).1.dispatch
    unfolding turn
    turn-Safe o origin base n lane v h u =
        let s = lane.dispatch in
        let (io, w) = setup.ask s.world in
        subst (λ x. Safe origin n s (turn_from setup c o io w x lane).1.dispatch)
          (sym (cursor-known io setup.dest.name n s.spool h))
          (turn_from-Safe o io origin base n lane w (asked s) v h u)
