-- ===== src/Controller/Meter/Committed.antt =====
-- What the windows that CollectDue of internal/controller/controller.go commits add to the ledger.
use mathlib.Core.List.{append_assoc, append-nil}
use vbilling.Prelude.{
  ℕ, ◌+◌, ◌<◌, ◌≡◌, ◌∙◌, ◌⊎◌, refl, sym, ap, true, false, Option, none, some, List, [], ◌∷◌, ◌++◌,
  arith, inl, inr, map,
}
use vbilling.Prelude.Tests.{◌==◌}
use vbilling.Prelude.Text.{Text, lookup, text_eq}
use vbilling.Prelude.Maps.{lookup-insert_self}
use vbilling.Usage.{Time, Event}
use vbilling.Spool.Codec.{Codec, Record, Commit}
use vbilling.Spool.State.{Spool, Io, Result, ok, err}
use vbilling.Spool.Ledger.{IsSound, ledger}
use vbilling.Spool.Append.{bodies, link, event_body, commit_body, append_window}
use vbilling.Spool.Append.Batches.{new_records}
use vbilling.Spool.Append.Rotation.{SameLedger, SameLedger-refl}
use vbilling.Spool.Append.Outcome.{Extends, append_window-Extends, append_window-restores}
use vbilling.Spool.Read.Sighted.{Result-cases}
use vbilling.Pipeline.Loop.{event_of}
use vbilling.Controller.Plan.{Window}
use vbilling.Controller.Plan.Windows.{Consecutive}
use vbilling.Controller.Meter.{Meter, source_collector, watermark, commit_windows}

abbrev put_some : Option Event → List Event → List Event
put_some none l = l
put_some (some e) l = e ∷ l

-- The events in a list of records, in order.
abbrev pub events_in : List Record → List Event
events_in [] = []
events_in (r ∷ rs) = put_some (event_of r) (events_in rs)

put_some-append : (o : Option Event) (l m : List Event) → put_some o (l ++ m) ≡ put_some o l ++ m
put_some-append none l m = refl
put_some-append (some e) l m = refl

pub events_in-append : (rs ts : List Record) → events_in (rs ++ ts) ≡ events_in rs ++ events_in ts
events_in-append [] ts = refl
events_in-append (r ∷ rs) ts =
    ap (put_some (event_of r)) (events_in-append rs ts)
    ∙ put_some-append (event_of r) (events_in rs) (events_in ts)

events_in-new_records :
    (c : Codec) (now : Time) (seq : ℕ) (head : Text) (k : Commit) (events : List Event)
    → events_in (new_records c now seq head (map event_body events ++ commit_body k ∷ [])) ≡ events
unfolding link event_of text_eq
events_in-new_records c now seq head k [] = refl
events_in-new_records c now seq head k (e ∷ es) =
    ap (λ l. e ∷ l) (events_in-new_records c now (seq + 1) _ k es)

-- The events of the windows, in order.
abbrev pub events_over : (Time → List Event) → List Window → List Event
events_over f [] = []
events_over f (w ∷ ws) = f w.end ++ events_over f ws

-- The watermark after the windows `done`, which end at `end`.
abbrev pub moved : List Window → Time → Option Time → Option Time
moved [] end old = old
moved (w ∷ ws) end old = some end

moved-some :
    (size start end : Time) (done : List Window)
    → Consecutive size start done end
    → moved done end (some start) ≡ some end
moved-some size start end [] h = ap some h
moved-some size start end (w ∷ ws) h = refl

pair_of : {A : Type 0} (x : Result A × Spool) (r : Result A) → x.0 ≡ r → x ≡ (r, x.1)
pair_of x r q = ap (λ (y : Result _). let p : Result _ × Spool = (y, x.1) in p) q

module _ (c : Codec) (base size : ℕ) (by_window : Time → List Event) where
  -- A front part of the windows is committed, each window once and in order; the rest is not.
  pub record Committed (start : Time) (ws : List Window) (s t : Spool) : Type 0 where
    pub done : List Window
    pub rest : List Window
    pub split : ws ≡ done ++ rest
    pub end : Time
    pub consecutive : Consecutive size start done end
    pub sound : IsSound c base t
    pub events : events_in (ledger c t) ≡ events_in (ledger c s) ++ events_over by_window done
    pub watermark : watermark source_collector t ≡ moved done end (watermark source_collector s)
    pub cursors : t.cursors ≡ s.cursors

  pub Committed-none :
      (start : Time) (ws : List Window) (s t : Spool)
      → SameLedger c base s t
      → Committed start ws s t
  Committed-none start ws s t k = record {
    done = [];
    rest = ws;
    split = refl;
    end = start;
    consecutive = refl;
    sound = k.sound;
    events = ap events_in k.ledger ∙ sym (append-nil (events_in (ledger c s)));
    watermark = ap (lookup source_collector) k.watermarks;
    cursors = k.cursors;
  }

  Committed-cons :
      (io : Io) (note : Text) (start : Time) (w : Window) (ws : List Window) (s t u : Spool)
      → 0 < size
      → w.start ≡ start
      → w.end ≡ start + size
      → Extends c io source_collector w.end base (by_window w.end) note s t
      → (k : Committed (start + size) ws t u)
      → (l : Committed start (w ∷ ws) s u) × (l.rest ≡ k.rest)
  Committed-cons io note start w ws s t u pos a b x k =
      let new =
        new_records c io.now s.seq s.head (bodies source_collector w.end (by_window w.end) note) in
      let added : events_in (ledger c t) ≡ events_in (ledger c s) ++ by_window w.end =
        ap events_in x.ledger
        ∙ events_in-append (ledger c s) new
        ∙ ap (λ l. events_in (ledger c s) ++ l)
            (unfold bodies in events_in-new_records c io.now s.seq s.head _ (by_window w.end)) in
      let now : watermark source_collector t ≡ some (start + size) =
        let nonzero : (w.end == 0) ≡ false = ground (arith, b, pos) in
        ap (lookup source_collector) x.watermarks
        ∙ rw nonzero (lookup-insert_self source_collector w.end s.watermarks ∙ ap some b) in
      (
        record {
          done = w ∷ k.done;
          rest = k.rest;
          split = ap (λ l. w ∷ l) k.split;
          end = k.end;
          consecutive = (a, b, k.consecutive);
          sound = k.sound;
          events =
              k.events
              ∙ ap (λ l. l ++ events_over by_window k.done) added
              ∙ append_assoc (events_in (ledger c s)) (by_window w.end)
                  (events_over by_window k.done);
          watermark =
              k.watermark
              ∙ ap (moved k.done k.end) now
              ∙ moved-some size (start + size) k.end k.done k.consecutive;
          cursors = k.cursors ∙ x.cursors;
        },
        refl,
      )

  module _ {W : Type 0} (ask : W → Io × W) (undo : (w : W) → (ask w).0.truncate_ok ≡ true)
      (opens : (w : W) → (ask w).0.open_ok ≡ true) (pos : 0 < size) where
    pub commit_windows-Committed :
        (note : Text) (start last : Time) (ws : List Window) (m : Meter W)
        → IsSound c base m.spool
        → Consecutive size start ws last
        → let x = commit_windows c ask by_window note ws m in
          (k : Committed start ws m.spool x.1.spool) × ((x.0 ≡ false) ⊎ (k.rest ≡ []))
    unfolding commit_windows Committed-none
    commit_windows-Committed note start last [] m v h =
        (Committed-none start [] m.spool m.spool (SameLedger-refl c base m.spool v), inr refl)
    commit_windows-Committed note start last (w ∷ ws) m v h =
        let (io, world) = ask m.world in
        let x = append_window c io source_collector w.end (by_window w.end) note m.spool in
        elim (Result-cases x.0) [
          | inr (e, q) ↦
              let k : SameLedger c base m.spool x.1 =
                elim (append_window-restores c io source_collector w.end base (by_window w.end) note
                  m.spool x.1 e v (undo m.world) (pair_of x (err e) q)) [
                    | inl k ↦ k
                    | inr (f, u) ↦ cc (u.refused, opens m.world)
                  ] in
              rw (q, commit_windows) (Committed-none start (w ∷ ws) m.spool x.1 k, inl refl)
          | inl (u, q) ↦
              let k =
                append_window-Extends c io source_collector w.end base (by_window w.end) note
                  m.spool x.1 v (pair_of x (ok u) q) in
              let m' = record m { spool = x.1; world = world; last_window = w.end } in
              let (l, f) = commit_windows-Committed [] (start + size) last ws m' k.sound h.2 in
              let (l', e) = Committed-cons io note start w ws m.spool x.1 _ pos h.0 h.1 k l in
              rw (q, commit_windows) (l', elim f [ inl g ↦ inl g | inr g ↦ inr (e ∙ g) ])
        ]
