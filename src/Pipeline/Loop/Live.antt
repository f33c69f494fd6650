-- ===== src/Pipeline/Loop/Live.antt =====
-- How the loop of internal/pipeline/dispatcher.go catches up with the ledger when nothing fails.
use vbilling.Prelude.{
  ℕ, zero, suc, ◌+◌, ◌-◌, ◌*◌, ◌≤◌, ◌<◌, ◌≡◌, ◌∙◌, refl, sym, ap, subst, true, some, none, List, [],
  ◌∷◌, arith, inl, inr, min, max,
}
use vbilling.Prelude.Tests.{leb, Bool-cases, Option-cases}
use vbilling.Prelude.Lists.{length, take, drop, length-take, length-drop}
use vbilling.Prelude.Text.{Text, member, lookup}
use vbilling.Usage.{Event, Tenant}
use vbilling.Spool.Codec.{Codec, Record}
use vbilling.Spool.State.{Spool, Io, ok}
use vbilling.Spool.Chain.{Linked}
use vbilling.Spool.Ledger.{ledger, IsSound}
use vbilling.Spool.Cursors.{cursor_of, ack, write_cursors}
use vbilling.Spool.Read.{read}
use vbilling.Spool.Read.Whole.{read-ledger}
use vbilling.Pipeline.Backoff.{Tuning}
use vbilling.Pipeline.Tenants.{TenantRegistry, get, needs_ensure}
use vbilling.Pipeline.Deliver.{
  Setup, Dispatch, done, ensure_one, ensure_each, ensure_tenants, send, deliver_step, deliver,
}
use vbilling.Pipeline.Loop.{
  Status, Lane, advanced, batch_of, last_of, delivery, acknowledge, turn_on, turn_from, turn,
}
use vbilling.Pipeline.Loop.Covers.{Linked-Around, IsSound-Linked, last_of-Linked}
use vbilling.Pipeline.Loop.Books.{SameBooks-IsSound, ack-SameBooks, ack-lookup, cursor-known}

first_of {ℓ} : {A : Type ℓ} (xs : List A) → 0 < length xs → (x : A) × (ys : List A) × (xs ≡ x ∷ ys)
first_of [] h = elim h [ ]
first_of (x ∷ xs) h = (x, xs, refl)

module _ {W : Type 0} (setup : Setup W) where
  -- A destination that accepts all it is sent, and an operating system that refuses nothing.
  pub record IsHealthy : Type 0 where
    pub ensures : (t : Tenant) (w : W) → (setup.dest.ensure_tenant t w).0 ≡ none
    pub sends : (es : List Event) (w : W) → (setup.dest.send_events es w).0 ≡ none
    pub reads : (w : W) → (setup.ask w).0.read_ok ≡ true
    pub saves : (w : W) → (setup.ask w).0.cursors_ok ≡ true

  module _ (healthy : IsHealthy) where
    ensure_one_ok : (id : Text) (r : TenantRegistry) (w : W) → (ensure_one setup id r w).0 ≡ none
    unfolding ensure_one
    ensure_one_ok id r w =
        elim (Bool-cases (needs_ensure setup.fingerprint setup.dest.name (get id r) r)) [
          | inr b ↦ rw (b, ensure_one) refl
          | inl b ↦ rw (b, ensure_one) (rw (healthy.ensures (get id r) w) refl)
        ]

    ensure_each_ok :
        (seen : List Text) (es : List Event) (r : TenantRegistry) (w : W)
        → (ensure_each setup seen es r w).0 ≡ none
    unfolding ensure_each
    ensure_each_ok seen [] r w = refl
    ensure_each_ok seen (e ∷ es) r w = elim (Bool-cases (member e.tenant seen)) [
      | inl b ↦ rw (b, ensure_each) (ensure_each_ok seen es r w)
      | inr b ↦
          let o = ensure_one setup e.tenant r w in
          rw (b, ensure_each)
            (rw (ensure_one_ok e.tenant r w) (ensure_each_ok (e.tenant ∷ seen) es o.1 o.2))
    ]

    ensure_tenants_ok :
        (es : List Event) (s : Dispatch W)
        → ((ensure_tenants setup es s).0 ≡ none) × ((ensure_tenants setup es s).1.spool ≡ s.spool)
    unfolding ensure_tenants
    ensure_tenants_ok es s = elim (Option-cases s.tenants) [
      | inl q ↦ rw (q, ensure_tenants) (refl, refl)
      | inr (r, q) ↦ rw (q, ensure_tenants) (ensure_each_ok [] es r s.world, refl)
    ]

    delivery_ok :
        (es : List Event) (s : Dispatch W)
        → ((delivery setup es s).0 ≡ done 0) × ((delivery setup es s).1.spool ≡ s.spool)
    unfolding delivery deliver deliver_step send
    delivery_ok [] s = (refl, refl)
    delivery_ok (e ∷ es) s =
        let (q, k) = ensure_tenants_ok (e ∷ es) s in
        let t = (ensure_tenants setup (e ∷ es) s).1 in
        rw (q, deliver_step) (rw (healthy.sends (e ∷ es) t.world, send) (refl, k))

    ack_ok :
        (io : Io) (d : Text) (n : ℕ) (s : Spool) → io.cursors_ok ≡ true → (ack io d n s).0 ≡ ok tt
    unfolding ack write_cursors
    ack_ok io d n s h = elim (Bool-cases (leb n (cursor_of d s.cursors))) [
      | inl b ↦ rw (b, ack) refl
      | inr b ↦ rw (b, ack) (rw h refl)
    ]

    turn_on_ok :
        (r : Record) (rs : List Record) (s : Dispatch W) (st : Status)
        → let x = turn_on setup (r ∷ rs) s st in
          (x.0 ≡ advanced)
          × ((io : Io) × (x.1.dispatch.spool ≡ (ack io setup.dest.name (last_of r rs) s.spool).1))
    unfolding turn_on
    turn_on_ok r rs s st =
        let es = (batch_of setup.dest (r ∷ rs)).events in
        let (q, k) = delivery_ok es s in
        let t = (delivery setup es s).1 in
        let io = (setup.ask t.world).0 in
        let saved = ack_ok io setup.dest.name (last_of r rs) t.spool (healthy.saves t.world) in
        rw (q, turn_on)
          (rw (saved, acknowledge)
            (refl, (io, ap (λ x. (ack io setup.dest.name (last_of r rs) x).1) k)))

    module _ (c : Codec) (o : Tuning) (base : ℕ) where
      -- What a turn has done when the destination is behind.
      pub record Advanced (n : ℕ) (s t : Spool) : Type 0 where
        pub sound : IsSound c base t
        pub committed : t.committed ≡ s.committed
        pub cursor : lookup setup.dest.name t.cursors ≡ some (min (n + o.batch_size) s.committed)

      last_read :
          (n : ℕ) (s : Spool) (r : Record) (rs : List Record)
          → IsSound c base s
          → base ≤ n
          → n < s.committed
          → take o.batch_size (drop (n - base) (ledger c s)) ≡ r ∷ rs
          → last_of r rs ≡ min (n + o.batch_size) s.committed
      last_read n s r rs v b lt e =
          let l = ledger c s in
          let a = Linked-Around c base n o.batch_size l s.anchor (IsSound-Linked c base s v) in
          omega (
            arith,
            last_of-Linked c a.hash a.start r rs (subst (Linked c a.hash a.start) e a.read),
            a.reached (omega (arith, v.seq, v.committed)) b,
            ap (λ x. length x) e,
            length-take o.batch_size (drop (n - base) l),
            length-drop (n - base) l,
            v.seq,
            v.committed,
          )

      read_some :
          (n : ℕ) (l : List Record)
          → 0 < o.batch_size
          → n - base < length l
          → (r : Record) × (rs : List Record) × (take o.batch_size (drop (n - base) l) ≡ r ∷ rs)
      read_some n l pos lt =
          first_of (take o.batch_size (drop (n - base) l))
            (omega (arith, length-take o.batch_size (drop (n - base) l), length-drop (n - base) l))

      turn_from_ok :
          (io : Io) (n : ℕ) (lane : Lane W) (w : W)
          → io.read_ok ≡ true
          → IsSound c base lane.dispatch.spool
          → base ≤ n
          → n < lane.dispatch.spool.committed
          → 0 < o.batch_size
          → lookup setup.dest.name lane.dispatch.spool.cursors ≡ some n
          → let x = turn_from setup c o io w (n, lane.dispatch.spool) lane in
            (x.0 ≡ advanced) × Advanced n lane.dispatch.spool x.1.dispatch.spool
      unfolding turn_from
      turn_from_ok io n lane w sight v b lt pos h =
          let s = lane.dispatch.spool in
          let (r, rs, e) = read_some n (ledger c s) pos (omega (arith, v.seq, v.committed)) in
          let (q, (io', f)) = turn_on_ok r rs (record lane.dispatch { world = w }) lane.status in
          let books = ack-SameBooks io' setup.dest.name (last_of r rs) s in
          let last = last_read n s r rs v b lt e in
          let m : max n (last_of r rs) ≡ min (n + o.batch_size) s.committed = omega arith in
          let t : Advanced n s (ack io' setup.dest.name (last_of r rs) s).1 = record {
            sound = SameBooks-IsSound c base s _ books v;
            committed = ap (λ (x : Spool). x.committed) books;
            cursor = ack-lookup io' setup.dest.name (last_of r rs) n s h ∙ ap some m;
          } in
          rw (read-ledger c io base n o.batch_size s v sight, turn_from)
            (rw e (q, subst (Advanced n s) (sym f) t))

      -- A turn on a destination that is behind advances its cursor by a full batch, or to the
      -- committed end, if nothing fails.
      pub turn_advances :
          (n : ℕ) (lane : Lane W)
          → IsSound c base lane.dispatch.spool
          → base ≤ n
          → n < lane.dispatch.spool.committed
          → 0 < o.batch_size
          → lookup setup.dest.name lane.dispatch.spool.cursors ≡ some n
          → let x = turn setup c o lane in
            (x.0 ≡ advanced) × Advanced n lane.dispatch.spool x.1.dispatch.spool
      unfolding turn
      turn_advances n lane v b lt pos h =
          let s = lane.dispatch in
          let (io, w) = setup.ask s.world in
          subst
            (λ y.
              let x = turn_from setup c o io w y lane in
              (x.0 ≡ advanced) × Advanced n s.spool x.1.dispatch.spool)
            (sym (cursor-known io setup.dest.name n s.spool h))
            (turn_from_ok io n lane w (healthy.reads s.world) v b lt pos h)

      unfoldable pub turns : ℕ → Lane W → Lane W
      turns zero lane = lane
      turns (suc k) lane = turns k (turn setup c o lane).1

      read_at_end :
          (io : Io) (n : ℕ) (s : Spool) → s.committed ≤ n → read c io n o.batch_size s ≡ ok []
      unfolding read
      read_at_end io n s le = let z : leb s.committed n ≡ true = ground arith in rw (z, read) refl

      turn_at_end :
          (n : ℕ) (lane : Lane W)
          → lane.dispatch.spool.committed ≤ n
          → lookup setup.dest.name lane.dispatch.spool.cursors ≡ some n
          → (turn setup c o lane).1.dispatch.spool ≡ lane.dispatch.spool
      unfolding turn turn_on
      turn_at_end n lane le h =
          let s = lane.dispatch in
          let (io, w) = setup.ask s.world in
          subst (λ y. (turn_from setup c o io w y lane).1.dispatch.spool ≡ s.spool)
            (sym (cursor-known io setup.dest.name n s.spool h))
            (rw (read_at_end io n s.spool le, turn_from) refl)

      turn_forward :
          (n : ℕ) (lane : Lane W)
          → IsSound c base lane.dispatch.spool
          → base ≤ n
          → n ≤ lane.dispatch.spool.committed
          → 0 < o.batch_size
          → lookup setup.dest.name lane.dispatch.spool.cursors ≡ some n
          → Advanced n lane.dispatch.spool (turn setup c o lane).1.dispatch.spool
      turn_forward n lane v b le pos h =
          let s = lane.dispatch.spool in
          elim (Bool-cases (leb s.committed n)) [
            | inr z ↦ (turn_advances n lane v b (ground arith) pos h).1
            | inl z ↦
                let e : n ≡ min (n + o.batch_size) s.committed = ground arith in
                subst (Advanced n s) (sym (turn_at_end n lane (ground arith) h))
                  (record { sound = v; committed = refl; cursor = h ∙ ap some e })
          ]

      -- Nothing is delivered late forever: while nothing fails, `k` turns bring the cursor `k` full
      -- batches forward or to the committed end, so a destination that is behind catches up after
      -- as many turns as it lags behind in batches.
      pub turns_catch_up :
          (k n : ℕ) (lane : Lane W)
          → IsSound c base lane.dispatch.spool
          → base ≤ n
          → n ≤ lane.dispatch.spool.committed
          → 0 < o.batch_size
          → lookup setup.dest.name lane.dispatch.spool.cursors ≡ some n
          → lookup setup.dest.name (turns k lane).dispatch.spool.cursors
            ≡ some (min (n + k * o.batch_size) lane.dispatch.spool.committed)
      unfolding turns
      turns_catch_up zero n lane v b le pos h =
          let e : n ≡ min (n + 0 * o.batch_size) lane.dispatch.spool.committed = omega arith in
          h ∙ ap some e
      turns_catch_up (suc k) n lane v b le pos h =
          let a = turn_forward n lane v b le pos h in
          let top = lane.dispatch.spool.committed in
          let m = min (n + o.batch_size) top in
          let e : min (m + k * o.batch_size) top ≡ min (n + suc k * o.batch_size) top =
            omega arith in
          turns_catch_up k m (turn setup c o lane).1 a.sound (omega arith)
            (omega (arith, a.committed)) pos a.cursor
          ∙ ap (λ x. some (min (m + k * o.batch_size) x)) a.committed
          ∙ ap some e
