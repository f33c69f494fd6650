-- ===== src/Spool/Compact/Consumed.antt =====
-- What Compact of internal/spool/spool.go removes from the ledger.
use mathlib.Core.List.{append_assoc}
use mathlib.Core.Option.{some-injective}
use vbilling.Prelude.{
  ℕ, suc, ◌+◌, ◌≤◌, ◌<◌, ◌≡◌, ◌∙◌, refl, sym, ap, subst, true, false, ◌||◌, some, List, [], ◌∷◌,
  ◌++◌, arith, inl, inr,
}
use vbilling.Prelude.Tests.{ltb, ◌==◌, if◌then◌else◌, Bool-cases, Option-cases}
use vbilling.Prelude.Lists.{length, All, All-append, All-mono, length-append}
use vbilling.Prelude.Text.{Text, Map, text_eq, lookup}
use vbilling.Usage.{Time, Duration}
use vbilling.Spool.Codec.{Codec, Record}
use vbilling.Spool.Chain.{Linked-seq, body_of, hash_of, end_hash, end_hash-append}
use vbilling.Spool.State.{Spool, Io, ok, Segment, segments, write_manifest}
use vbilling.Spool.Ledger.{
  Holds, Chained, IsSound, records_of, ledger_of, ledger, ledger_of-append, Chained-append,
}
use vbilling.Spool.Compact.{
  min_cursor, keeps, moved_anchor, Sweep, sweep, any_expired, compact_dedupe, drop_gone, swept,
  counted, compact,
}
use vbilling.Spool.Read.Sighted.{Result-cases}

min_cursor_le : (m : ℕ) (cursors : Map ℕ) (ds : List Text) → min_cursor m cursors ds ≤ m
unfolding min_cursor
min_cursor_le m cursors [] = omega arith
min_cursor_le m cursors (d ∷ ds) = elim (Option-cases (lookup d cursors)) [
  | inl q ↦ rw (q, min_cursor) (min_cursor_le m cursors ds)
  | inr (n, q) ↦
      rw (q, min_cursor) (ground (arith, min_cursor_le (if ltb n m then n else m) cursors ds))
]

-- No consumer with a cursor is behind the least one.
min_cursor-All :
    (b m : ℕ) (cursors : Map ℕ) (ds : List Text)
    → b ≤ min_cursor m cursors ds
    → All (λ (d : Text). (n : ℕ) → lookup d cursors ≡ some n → b ≤ n) ds
unfolding min_cursor
min_cursor-All b m cursors [] h = tt
min_cursor-All b m cursors (d ∷ ds) h = elim (Option-cases (lookup d cursors)) [
  | inl q ↦ ((λ n e. cc), min_cursor-All b m cursors ds (rw (q, min_cursor) at h))
  | inr (k, q) ↦
      let m' = if ltb k m then k else m in
      let h' : b ≤ min_cursor m' cursors ds = rw (q, min_cursor) at h in
      (
        (λ n e. ground (arith, some-injective k n (sym q ∙ e), h', min_cursor_le m' cursors ds)),
        min_cursor-All b m' cursors ds h',
      )
]

text_eq_some : (t : Text) → 0 < length t → text_eq t [] ≡ false
unfolding text_eq
text_eq_some [] h = elim h [ ]
text_eq_some (x ∷ t) h = refl

module _ (c : Codec) where
  -- What a sweep of `gs`, after a record with the hash `prev`, has cut off.
  record Cut (upto : ℕ) (prev : Text) (gs : List Segment) (w : Sweep) : Type 0 where
    pub cut : List Segment
    pub split : gs ≡ cut ++ w.kept
    pub count : length cut ≡ length w.gone
    pub anchor : w.anchor ≡ end_hash c prev (ledger_of c cut)
    pub low : All (λ (r : Record). r.seq ≤ upto) (ledger_of c cut)

  end_hash_full : (r : Record) (rs : List Record) → 0 < length (end_hash c (hash_of c r) rs)
  end_hash_full r [] = omega (arith, c.digest_length (body_of c r))
  end_hash_full r (x ∷ rs) = end_hash_full x rs

  moved_anchor-end_hash :
      (prev : Text) (start : ℕ) (rs : List Record) (g : Segment)
      → Holds c prev start rs g
      → moved_anchor prev g ≡ end_hash c prev rs
  unfolding moved_anchor text_eq
  moved_anchor-end_hash prev start [] g h = rw (h.last_hash, moved_anchor) refl
  moved_anchor-end_hash prev start (r ∷ rs) g h =
      rw (h.last_hash, moved_anchor)
        (rw (text_eq_some (end_hash c (hash_of c r) rs) (end_hash_full r rs)) refl)

  Holds-low :
      (now : Time) (retention : Duration) (upto : ℕ) (prev : Text) (start : ℕ) (rs : List Record)
      (g : Segment)
      → Holds c prev start rs g
      → keeps now retention upto g ≡ false
      → All (λ (r : Record). r.seq ≤ upto) rs
  unfolding keeps
  Holds-low now retention upto prev start [] g h k = tt
  Holds-low now retention upto prev start (r ∷ rs) g h k =
      let u : start + length (r ∷ rs) ≤ upto = ground (arith, h.last) in
      All-mono (r ∷ rs) (λ x b. omega (arith, b.1)) (Linked-seq c prev start (r ∷ rs) h.linked)

  sweep-Cut :
      (io : Io) (retention : Duration) (upto start : ℕ) (prev : Text) (gs : List Segment)
      → Chained c prev start gs
      → Cut upto prev gs (sweep io retention upto prev gs)
  unfolding sweep ledger_of
  sweep-Cut io retention upto start prev [] h = record {
    cut = [];
    split = refl;
    count = refl;
    anchor = refl;
    low = tt;
  }
  sweep-Cut io retention upto start prev (g ∷ gs) h =
      elim (Bool-cases (keeps io.now retention upto g)) [
        | inl k ↦
            rw (k, sweep) (record { cut = []; split = refl; count = refl; anchor = refl; low = tt })
        | inr k ↦ elim (Bool-cases (io.remove_ok g.first)) [
          | inr q ↦
              rw (k, sweep)
                (rw q (record { cut = []; split = refl; count = refl; anchor = refl; low = tt }))
          | inl q ↦
              let rs = records_of c g in
              let m = moved_anchor-end_hash prev start rs g h.0 in
              let r = sweep-Cut io retention upto (start + length rs) (end_hash c prev rs) gs h.1 in
              let r' = subst (λ a. Cut upto a gs (sweep io retention upto a gs)) (sym m) r in
              rw (k, sweep)
                (rw q (record {
                  cut = g ∷ r'.cut;
                  split = ap (λ xs. g ∷ xs) r'.split;
                  count = ap suc r'.count;
                  anchor =
                      r'.anchor
                      ∙ ap (λ a. end_hash c a (ledger_of c r'.cut)) m
                      ∙ sym (end_hash-append c prev rs (ledger_of c r'.cut));
                  low =
                      All-append (λ (r : Record). r.seq ≤ upto) rs (ledger_of c r'.cut)
                        (Holds-low io.now retention upto prev start rs g h.0 k) r'.low;
                }))
        ]
      ]

  -- The state after a compaction that has gone through, but for its lists of names and its files.
  record Shed (gs : List Segment) (a : Text) (s t : Spool) : Type 0 where
    pub older : t.older ≡ gs
    pub current : t.current ≡ s.current
    pub anchor : t.anchor ≡ a
    pub seq : t.seq ≡ s.seq
    pub head : t.head ≡ s.head
    pub committed : t.committed ≡ s.committed
    pub cursors : t.cursors ≡ s.cursors

  -- What Compact has removed: the first records of the ledger, all read by every consumer that has a
  -- cursor. What is left is sound, from the number after the last that is gone.
  pub record Compacted (consumers : List Text) (base : ℕ) (s t : Spool) : Type 0 where
    pub gone : List Record
    pub split : ledger c s ≡ gone ++ ledger c t
    pub sound : IsSound c (base + length gone) t
    pub consumed :
        All
          (λ (d : Text).
            (n : ℕ) → lookup d s.cursors ≡ some n → All (λ (r : Record). r.seq ≤ n) gone)
          consumers
    pub cursors : t.cursors ≡ s.cursors
    pub committed : t.committed ≡ s.committed

  Shed-Compacted :
      (consumers : List Text) (base : ℕ) (s t : Spool) (w : Sweep)
      → IsSound c base s
      → Cut (min_cursor s.committed s.cursors consumers) s.anchor s.older w
      → Shed w.kept w.anchor s t
      → Compacted consumers base s t
  unfolding ledger
  Shed-Compacted consumers base s t w v k h =
      let gone = ledger_of c k.cut in
      let same : segments t ≡ w.kept ++ s.current ∷ [] =
        ap (λ gs. gs ++ t.current ∷ []) h.older ∙ ap (λ g. w.kept ++ g ∷ []) h.current in
      let all : segments s ≡ k.cut ++ segments t =
        ap (λ gs. gs ++ s.current ∷ []) k.split
        ∙ append_assoc k.cut w.kept (s.current ∷ [])
        ∙ ap (λ gs. k.cut ++ gs) (sym same) in
      let split : ledger c s ≡ gone ++ ledger c t =
        ap (ledger_of c) all ∙ ledger_of-append c k.cut (segments t) in
      let chain =
        ((Chained-append c s.anchor base k.cut (segments t)).0
          (subst (Chained c s.anchor base) all v.chained)).1 in
      let anchor = h.anchor ∙ k.anchor in
      record {
        gone = gone;
        split = split;
        sound = record {
          chained = subst (λ a. Chained c a (base + length gone) (segments t)) (sym anchor) chain;
          seq =
              omega
                (arith, h.seq, v.seq, ap (λ l. length l) split, length-append gone (ledger c t));
          head =
              h.head
              ∙ v.head
              ∙ ap (end_hash c s.anchor) split
              ∙ end_hash-append c s.anchor gone (ledger c t)
              ∙ ap (λ a. end_hash c a (ledger c t)) (sym anchor);
          committed = h.committed ∙ v.committed ∙ sym h.seq;
        };
        consumed =
            All-mono consumers (λ d b n e. All-mono gone (λ r l. omega (arith, l, b n e)) k.low)
              (min_cursor-All (min_cursor s.committed s.cursors consumers) s.committed s.cursors
                consumers (omega arith));
        cursors = h.cursors;
        committed = h.committed;
      }

  compact_dedupe_frame :
      (io : Io) (s : Spool)
      → record (compact_dedupe io s).1 { recent_ids = s.recent_ids; dedupe_file = s.dedupe_file }
        ≡ s
  unfolding compact_dedupe
  compact_dedupe_frame io s =
      elim (Bool-cases (any_expired io.now s.opts.dedupe_window s.recent_ids)) [
        | inr q ↦ rw q refl
        | inl q ↦
            rw q (elim (Bool-cases io.dedupe_write_ok) [ inl d ↦ rw d refl | inr d ↦ rw d refl ])
      ]

  compact_dedupe-Shed :
      (io : Io) (gs : List Segment) (anchor : Text) (s t : Spool)
      → Shed gs anchor s t
      → Shed gs anchor s (compact_dedupe io t).1
  compact_dedupe-Shed io gs anchor s t h =
      let e = compact_dedupe_frame io t in
      record {
        older = ap (λ (x : Spool). x.older) e ∙ h.older;
        current = ap (λ (x : Spool). x.current) e ∙ h.current;
        anchor = ap (λ (x : Spool). x.anchor) e ∙ h.anchor;
        seq = ap (λ (x : Spool). x.seq) e ∙ h.seq;
        head = ap (λ (x : Spool). x.head) e ∙ h.head;
        committed = ap (λ (x : Spool). x.committed) e ∙ h.committed;
        cursors = ap (λ (x : Spool). x.cursors) e ∙ h.cursors;
      }

  Shed-keep :
      (gs : List Segment) (anchor : Text) (s : Spool)
      → Shed gs anchor s (record s { older = gs; anchor = anchor })
  Shed-keep gs anchor s = record {
    older = refl;
    current = refl;
    anchor = refl;
    seq = refl;
    head = refl;
    committed = refl;
    cursors = refl;
  }

  no_segments : (gs hs : List Segment) → (length gs == 0) ≡ true → gs ++ hs ≡ hs
  no_segments [] hs h = refl
  no_segments (g ∷ gs) hs h = ground arith

  drop_gone-Shed :
      (io : Io) (w : Sweep) (s t : Spool)
      → Shed (w.gone ++ w.kept) w.anchor s t
      → Shed w.kept w.anchor s (drop_gone io w t).2
  unfolding drop_gone counted write_manifest
  drop_gone-Shed io w s t h = elim (Bool-cases (length w.gone == 0)) [
    | inl q ↦ rw q (record {
      older = h.older ∙ no_segments w.gone w.kept q;
      current = h.current;
      anchor = h.anchor;
      seq = h.seq;
      head = h.head;
      committed = h.committed;
      cursors = h.cursors;
    })
    | inr q ↦
        let r : Shed w.kept w.anchor s (record t { older = w.kept }) = record {
          older = refl;
          current = h.current;
          anchor = h.anchor;
          seq = h.seq;
          head = h.head;
          committed = h.committed;
          cursors = h.cursors;
        } in
        rw q (elim (Bool-cases io.manifest_ok) [
          | inr m ↦ rw m r
          | inl m ↦ rw m (record {
            older = r.older;
            current = r.current;
            anchor = r.anchor;
            seq = r.seq;
            head = r.head;
            committed = r.committed;
            cursors = r.cursors;
          })
        ])
  ]

  swept-Shed :
      (io : Io) (w : Sweep) (s t : Spool) (n : ℕ)
      → swept io w s ≡ (n, ok tt, t)
      → Shed w.kept w.anchor s t
  unfolding swept
  swept-Shed io w s t n h =
      let s' = record s { older = w.gone ++ w.kept; anchor = w.anchor } in
      let k =
        compact_dedupe-Shed io (w.gone ++ w.kept) w.anchor s s'
          (Shed-keep (w.gone ++ w.kept) w.anchor s) in
      elim (Bool-cases w.failed) [
        | inl f ↦ cc (rw (f, swept) at h)
        | inr f ↦ elim (Result-cases (compact_dedupe io s').0) [
          | inr (e, q) ↦ cc (rw (f, q, swept) at h)
          | inl (u, q) ↦
              subst (Shed w.kept w.anchor s) (ap (λ x. x.2) (rw (f, q, swept) at h))
                (drop_gone-Shed io w s (compact_dedupe io s').1 k)
        ]
      ]

  -- When Compact succeeds it has cut off the front of the ledger only: the records that it removed
  -- were all read by every consumer with a cursor, the others are as they were, and the chain, its
  -- anchor and the numbers still fit.
  pub compact-Compacted :
      (io : Io) (consumers : List Text) (base n : ℕ) (s t : Spool)
      → IsSound c base s
      → compact io consumers s ≡ (n, ok tt, t)
      → Compacted consumers base s t
  unfolding compact counted
  compact-Compacted io consumers base n s t v h =
      let upto = min_cursor s.committed s.cursors consumers in
      let w = sweep io s.opts.retention upto s.anchor s.older in
      elim (Bool-cases (s.opts.retention == 0 || ltb (length (segments s)) 2)) [
        | inl q ↦
            let idle : Sweep = record {
              gone = [];
              kept = s.older;
              anchor = s.anchor;
              failed = false;
            } in
            Shed-Compacted consumers base s t idle v
              (record {
                cut = [];
                split = refl;
                count = refl;
                anchor = unfold ledger_of in refl;
                low = unfold ledger_of in tt;
              })
              (subst (Shed s.older s.anchor s) (ap (λ x. x.2) (rw (q, compact) at h))
                (compact_dedupe-Shed io s.older s.anchor s s (Shed-keep s.older s.anchor s)))
        | inr q ↦
            Shed-Compacted consumers base s t w v
              (sweep-Cut io s.opts.retention upto base s.anchor s.older
                ((Chained-append c s.anchor base s.older (s.current ∷ [])).0 v.chained).0)
              (swept-Shed io w s t n (rw (q, compact) at h))
      ]
