-- ===== src/Pipeline/Deliver/Steps.antt =====
-- What the steps of `deliver` (internal/pipeline/dispatcher.go) do: what a destination promises, how
-- a step moves the state, and when a batch counts as handled.
use mathlib.Core.List.{append_assoc, append-nil}
use vbilling.Prelude.{
  ◌≡◌, ◌∙◌, refl, sym, ap, ◌⊎◌, inl, inr, ℕ, ◌+◌, none, some, List, [], ◌∷◌, ◌++◌, arith,
}
use vbilling.Prelude.Lists.{length, length-append, All, All-mono, All-append}
use vbilling.Prelude.Text.{Text, Map, lookup}
use vbilling.Usage.{Event, Tenant}
use vbilling.Spool.State.{Spool, DeadLetter}
use vbilling.Pipeline.Deliver.{
  Refusal, Setup, Dispatch, Delivery, Failure, done, failed, exhausted, letters,
}

-- A dead letter with this event.
abbrev pub Parked : Event → List DeadLetter → Type 0
Parked e [] = ⊥
Parked e (d ∷ ds) = (d.event ≡ e) ⊎ Parked e ds

pub Parked-append_left : (e : Event) (xs ys : List DeadLetter) → Parked e xs → Parked e (xs ++ ys)
Parked-append_left e [] ys p = elim p [ ]
Parked-append_left e (d ∷ xs) ys (inl p) = inl p
Parked-append_left e (d ∷ xs) ys (inr p) = inr (Parked-append_left e xs ys p)

pub Parked-append_right : (e : Event) (xs ys : List DeadLetter) → Parked e ys → Parked e (xs ++ ys)
Parked-append_right e [] ys p = p
Parked-append_right e (d ∷ xs) ys p = inr (Parked-append_right e xs ys p)

pub Delivery-cases :
    (d : Delivery) → ((n : ℕ) × (d ≡ done n)) ⊎ ((f : Failure) × (d ≡ failed f)) ⊎ (d ≡ exhausted)
Delivery-cases (done n) = inl (n, refl)
Delivery-cases (failed f) = inr (inl (f, refl))
Delivery-cases exhausted = inr (inr refl)

module _ {W : Type 0} (setup : Setup W) (Accepted : W → Event → Type 0) where
  -- What a destination promises: what it accepted it keeps; no error means that it accepted the
  -- whole batch, and a PartialError that it accepted every event not listed.
  pub record Promises : Type 0 where
    pub ensure_keeps :
        (t : Tenant) (w : W) (e : Event)
        → Accepted w e
        → Accepted (setup.dest.ensure_tenant t w).1 e
    pub send_keeps :
        (es : List Event) (w : W) (e : Event)
        → Accepted w e
        → Accepted (setup.dest.send_events es w).1 e
    pub ask_keeps : (w : W) (e : Event) → Accepted w e → Accepted (setup.ask w).1 e
    pub sent :
        (es : List Event) (w : W)
        → (setup.dest.send_events es w).0 ≡ none
        → All (Accepted (setup.dest.send_events es w).1) es
    pub sent_partial :
        (es : List Event) (w : W) (x : Refusal) (rejected : Map Text)
        → (setup.dest.send_events es w).0 ≡ some x
        → x.partial ≡ some rejected
        → All
            (λ (e : Event).
              lookup e.id rejected ≡ none → Accepted (setup.dest.send_events es w).1 e)
            es

  -- From `s` to `t` the destination keeps what it accepted, its dead letters grow by `new`, and
  -- nothing else in the spool changes.
  pub record Moves (new : List DeadLetter) (s t : Dispatch W) : Type 0 where
    pub parked : letters setup.dest.name t.spool ≡ letters setup.dest.name s.spool ++ new
    pub kept : (e : Event) → Accepted s.world e → Accepted t.world e
    pub others : record t.spool { dead_letters = s.spool.dead_letters } ≡ s.spool

  -- A step that leaves the spool alone.
  pub Moves-world :
      (s t : Dispatch W)
      → t.spool ≡ s.spool
      → ((e : Event) → Accepted s.world e → Accepted t.world e)
      → Moves [] s t
  Moves-world s t q k = record {
    parked = ap (letters setup.dest.name) q ∙ sym (append-nil (letters setup.dest.name s.spool));
    kept = k;
    others = ap (λ (x : Spool). record x { dead_letters = s.spool.dead_letters }) q;
  }

  pub Moves-trans :
      (xs ys : List DeadLetter) (s t u : Dispatch W)
      → Moves xs s t
      → Moves ys t u
      → Moves (xs ++ ys) s u
  Moves-trans xs ys s t u a b = record {
    parked =
        b.parked
        ∙ ap (λ l. l ++ ys) a.parked
        ∙ append_assoc (letters setup.dest.name s.spool) xs ys;
    kept = λ e h. b.kept e (a.kept e h);
    others =
        ap (λ (x : Spool). record x { dead_letters = s.spool.dead_letters }) b.others ∙ a.others;
  }

  -- Each event of the batch was accepted or is among the `n` new dead letters.
  pub record Handled (events : List Event) (n : ℕ) (s t : Dispatch W) : Type 0 where
    pub new : List DeadLetter
    pub moves : Moves new s t
    pub count : length new ≡ n
    pub settled : All (λ e. Accepted t.world e ⊎ Parked e new) events

  pub Handled-append :
      (es fs : List Event) (a b n : ℕ) (s t u : Dispatch W)
      → n ≡ a + b
      → Handled es a s t
      → Handled fs b t u
      → Handled (es ++ fs) n s u
  Handled-append es fs a b n s t u c p q = record {
    new = p.new ++ q.new;
    moves = Moves-trans p.new q.new s t u p.moves q.moves;
    count = omega (arith, length-append p.new q.new, p.count, q.count);
    settled =
        All-append _ es fs
          (All-mono es
            (λ e x. elim x [
              | inl h ↦ inl (q.moves.kept e h)
              | inr h ↦ inr (Parked-append_left e p.new q.new h)
            ])
            p.settled)
          (All-mono fs
            (λ e x. elim x [ inl h ↦ inl h | inr h ↦ inr (Parked-append_right e p.new q.new h) ])
            q.settled);
  }

  -- A step before a batch that parks nothing.
  pub Handled-after :
      (es : List Event) (n : ℕ) (s t u : Dispatch W)
      → Moves [] s t
      → Handled es n t u
      → Handled es n s u
  Handled-after es n s t u m h = record {
    new = h.new;
    moves = Moves-trans [] h.new s t u m h.moves;
    count = h.count;
    settled = h.settled;
  }
