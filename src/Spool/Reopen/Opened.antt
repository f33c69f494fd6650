-- ===== src/Spool/Reopen/Opened.antt =====
-- Open of internal/spool/spool.go as a whole, after a stop and after a crash.
use vbilling.Prelude.{
  ℕ, ◌+◌, ◌≤◌, ◌≡◌, ◌∙◌, refl, sym, ap, subst, true, some, List, [], ◌∷◌, arith, inl, inr,
}
use vbilling.Prelude.Tests.{Option-cases}
use vbilling.Prelude.Lists.{length, length-append, All, All-append}
use vbilling.Prelude.Text.{Text, Map, lookup}
use vbilling.Usage.{Time}
use vbilling.Spool.Codec.{Codec}
use vbilling.Spool.Chain.{end_hash}
use vbilling.Spool.Ledger
use vbilling.Spool.Ledger.{IsSound, Chained, ledger_of, ledger}
use vbilling.Spool.State.{Spool, Io, Options, Segment, segments, defaults}
use vbilling.Spool.Append.Live
use vbilling.Spool.Cursors.{CursorsBelow, clamp, cursor_of, load_cursors, lookup-clamp}
use vbilling.Spool.Reopen.{
  Dir, recover_segments, with_active, recovered, load_lines, deduped, open_spool, anchor_of,
  segments_of, watermarks_of, load_dedupe,
}
use vbilling.Spool.Reopen.Newest.{derive_lem, init-last}
use vbilling.Spool.Reopen.Restored.{Known, Knowns-append, Settled, dir_of, recover_segments-Again}

-- Reading, writing and opening files works.
pub record Answers (io : Io) : Type 0 where
  pub read_ok : io.read_ok ≡ true
  pub open_ok : io.open_ok ≡ true
  pub dedupe_write_ok : io.dedupe_write_ok ≡ true

module _ (c : Codec) (base : ℕ) where
  -- The ledger as it was, on a spool that can take the next batch, and no cursor past its end.
  pub record Restored (s t : Spool) : Type 0 where
    pub sound : IsSound c base t
    pub ledger : ledger c t ≡ ledger c s
    pub anchor : t.anchor ≡ s.anchor
    pub ready : Live.Ready t
    pub cursors : CursorsBelow t

  recovered-IsSound :
      (opts : Options) (s : Spool) (g : Segment) (gs : List Segment) (wms : Map Time)
      → anchor_of s.manifest ≡ s.anchor
      → Chained c s.anchor base (g ∷ gs)
      → ledger_of c (g ∷ gs) ≡ ledger c s
      → Restored s (recovered opts (dir_of s) (g ∷ gs) wms)
  unfolding recovered with_active ledger
  recovered-IsSound opts s g gs wms a v same =
      let e = init-last g gs in
      let v' : Chained c (anchor_of s.manifest) base (g ∷ gs) =
        subst (λ x. Chained c x base (g ∷ gs)) (sym a) v in
      let (n, h) = derive_lem c (anchor_of s.manifest) base g gs v' in
      record {
        sound = record {
          chained = subst (Chained c (anchor_of s.manifest) base) (sym e) v';
          seq = n ∙ ap (λ l. base + length (ledger_of c l)) (sym e);
          head = h ∙ ap (λ l. end_hash c (anchor_of s.manifest) (ledger_of c l)) (sym e);
          committed = refl;
        };
        ledger = ap (ledger_of c) e ∙ same;
        anchor = a;
        ready = record { not_closed = refl; active_open = refl };
        cursors = λ d. unfold cursor_of lookup in omega arith;
      }

  with_cursors :
      (s t : Spool) (cursors : Map ℕ)
      → ((d : Text) → cursor_of d cursors ≤ t.committed)
      → Restored s t
      → Restored s (record t { cursors = cursors })
  unfolding Ledger.ledger
  with_cursors s t cursors below r = record {
    sound = record {
      chained = r.sound.chained;
      seq = r.sound.seq;
      head = r.sound.head;
      committed = r.sound.committed;
    };
    ledger = r.ledger;
    anchor = r.anchor;
    ready = record { not_closed = r.ready.not_closed; active_open = r.ready.active_open };
    cursors = below;
  }

  load_cursors-Restored : (s t : Spool) → Restored s t → Restored s (load_cursors t)
  unfolding load_cursors
  load_cursors-Restored s t r = elim (Option-cases t.cursor_file) [
    | inl q ↦ rw (q, load_cursors) r
    | inr (m, q) ↦
        rw (q, load_cursors)
          (with_cursors s t (clamp t.committed m) (λ d. lookup-clamp t.committed d m) r)
  ]

  load_lines-Restored :
      (io : Io) (s t : Spool) (lines : List (Time × Text))
      → io.dedupe_write_ok ≡ true
      → Restored s t
      → (u : Spool) × (load_lines io lines t ≡ some u) × Restored s u
  unfolding load_lines Ledger.ledger
  load_lines-Restored io s t [] w r = (t, refl, r)
  load_lines-Restored io s t (l ∷ ls) w r =
      let x = load_dedupe io.now t.opts.dedupe_window (l ∷ ls) [] in
      (
        record t { recent_ids = x.0; dedupe_file = x.1 },
        rw w refl,
        record {
          sound = record {
            chained = r.sound.chained;
            seq = r.sound.seq;
            head = r.sound.head;
            committed = r.sound.committed;
          };
          ledger = r.ledger;
          anchor = r.anchor;
          ready = record { not_closed = r.ready.not_closed; active_open = r.ready.active_open };
          cursors = r.cursors;
        },
      )

  recovered-Restored :
      (io : Io) (opts : Options) (s : Spool) (hs : List Segment) (wms : Map Time)
      → io.dedupe_write_ok ≡ true
      → anchor_of s.manifest ≡ s.anchor
      → Chained c s.anchor base hs
      → ledger_of c hs ≡ ledger c s
      → length hs ≡ length (segments s)
      → (t : Spool) × (deduped io (load_cursors (recovered opts (dir_of s) hs wms)) ≡ some t)
        × Restored s t
  unfolding deduped
  recovered-Restored io opts s [] wms w a v same count =
      elim (never (count ∙ length-append s.older (s.current ∷ []))) [ ]
    where
      never : 0 ≡ length s.older + 1 → ⊥
      never h = omega (arith, h)
  recovered-Restored io opts s (h ∷ hs) wms w a v same count =
      let t = recovered opts (dir_of s) (h ∷ hs) wms in
      let u = load_cursors t in
      load_lines-Restored io s u u.dedupe_file w
        (load_cursors-Restored s t (recovered-IsSound opts s h hs wms a v same))

  opened :
      (io : Io) (opts : Options) (d : Dir) (gs : List Segment) (wms : Map Time) (t : Spool)
      → Answers io
      → recover_segments c (segments_of d.manifest) d.files (watermarks_of d.manifest)
        ≡ some (gs, wms)
      → deduped io (load_cursors (recovered (defaults opts) d gs wms)) ≡ some t
      → open_spool c io opts d ≡ some t
  unfolding open_spool
  opened io opts d gs wms t k e f = ground (arith, k.read_ok, k.open_ok, e, f)

  -- When the files can be read and written, Open makes of the directory of a sound spool, whose
  -- segments end in commits and whose manifest says of closed segments what they are, a spool with the
  -- same ledger and anchor, whose invariants hold, which can take the next batch, and in which no
  -- cursor is past the end.
  pub open_spool-Restored :
      (io : Io) (opts : Options) (s : Spool)
      → Answers io
      → IsSound c base s
      → All (Settled c) s.older
      → Settled c s.current
      → All (Known (segments_of s.manifest)) s.older
      → anchor_of s.manifest ≡ s.anchor
      → (t : Spool) × (open_spool c io opts (dir_of s) ≡ some t) × Restored s t
  unfolding open_spool ledger
  open_spool-Restored io opts s k v older current known a =
      let closed = All-append (Settled c) s.older (s.current ∷ []) older (current, tt) in
      let (hs, wms, e, chained, same, count) =
        recover_segments-Again c (segments_of s.manifest) s.anchor base (segments s)
          (watermarks_of s.manifest) v.chained closed
          (Knowns-append c (segments_of s.manifest) s.older s.current known) in
      let (t, d, r) =
        recovered-Restored io (defaults opts) s hs wms k.dedupe_write_ok a chained same count in
      (t, opened io opts (dir_of s) hs wms t k e d, r)
