-- ===== src/Spool/Recover/Atomic.antt =====
-- A crash while appendLocked writes its batch (internal/spool/spool.go).
use mathlib.Core.Option.{some-injective}
use vbilling.Prelude.{
  ℕ, ◌+◌, ◌<◌, ◌≡◌, ◌∙◌, refl, sym, subst, ap, some, List, [], ◌∷◌, ◌++◌, map, true,
}
use vbilling.Prelude.Lists.{length, take, All}
use vbilling.Prelude.Text.{Text, text_eq}
use vbilling.Usage.{Time, Event}
use vbilling.Spool.Codec.{Bytes, Codec, Commit, Record}
use vbilling.Spool.Chain.{hash_of, end_hash, Linked, Linked-append}
use vbilling.Spool.State.{Spool, Io}
use vbilling.Spool.Ledger.{file_of, records_of, ledger_of, IsSound}
use vbilling.Spool.Append.{Batch, event_body, commit_body, link, bodies, write_records, start_batch}
use vbilling.Spool.Append.Batches.{new_records, write_records-Progress}
use vbilling.Spool.Append.Success.{current-Holds, start-Progress}
use vbilling.Spool.Recover.{commit_of, scan_segment}
use vbilling.Spool.Recover.Scans.{IsPlain}
use vbilling.Spool.Recover.Crash.{IsClosed, crash_invisible}

module _ (c : Codec) (now : Time) (first : ℕ) (k : Commit) where
  -- A batch is plain records and then its commit.
  record BatchShape (rs : List Record) : Type 0 where
    evs : List Record
    last : Record
    shape : rs ≡ evs ++ last ∷ []
    plain : All (IsPlain c first) evs
    commit : commit_of last ≡ some k

  new_records-BatchShape :
      (seq : ℕ) (head : Text) (events : List Event)
      → BatchShape (new_records c now seq head (map event_body events ++ commit_body k ∷ []))
  unfolding link commit_of text_eq
  new_records-BatchShape seq head [] = record {
    evs = [];
    last = link now (seq + 1) head (commit_body k);
    shape = refl;
    plain = tt;
    commit = refl;
  }
  new_records-BatchShape seq head (e ∷ es) =
      let r = link now (seq + 1) head (event_body e) in
      let t = new_records-BatchShape (seq + 1) (hash_of c r) es in
      record {
        evs = r ∷ t.evs;
        last = t.last;
        shape = ap (◌∷◌ r) t.shape;
        plain = (refl, t.plain);
        commit = t.commit;
      }

-- If the process dies after any part of the write, short of all of it, reading the segment back
-- gives exactly what it gave before the write: the same records, end, hash and watermarks.
pub crash_during_append :
    (c : Codec) (io : Io) (base : ℕ) (source : Text) (window_end : Time) (events : List Event)
    (note : Text) (s : Spool) (f : Bytes) (b : Batch) (k : ℕ)
    → IsSound c base s
    → s.current.file ≡ some f
    → IsClosed c s.current.first (records_of c s.current)
    → write_records c io.now s.current (bodies source window_end events note) (start_batch s)
      ≡ some b
    → k < length b.buf
    → scan_segment c s.current.first true (f ++ take k b.buf)
      ≡ scan_segment c s.current.first true f
unfolding bodies start_batch
crash_during_append c io base source window_end events note s f b k v file closed w short =
    let first = s.current.first in
    let old = records_of c s.current in
    let h = current-Holds c io base s v in
    let prev = end_hash c s.anchor (ledger_of c s.older) in
    let start = base + length (ledger_of c s.older) in
    let p =
      write_records-Progress c io.now s.current start old (end_hash c prev old) [] (start_batch s) b
        (bodies source window_end events note) h.size (start-Progress c io base s v) w in
    let t = new_records-BatchShape c io.now first _ s.seq s.head events in
    let written : b.buf ≡ file_of c (t.evs ++ t.last ∷ []) = p.buf ∙ ap (file_of c) t.shape in
    let linked : Linked c prev start (old ++ (t.evs ++ t.last ∷ [])) =
      Linked-append c prev start old (t.evs ++ t.last ∷ []) h.linked
        (subst (Linked c (end_hash c prev old) (start + length old)) t.shape p.linked) in
    subst
      (λ (x : Bytes). scan_segment c first true (x ++ take k b.buf) ≡ scan_segment c first true x)
      (sym (some-injective f (file_of c old) (sym file ∙ h.file)))
      (subst
        (λ (y : Bytes).
          scan_segment c first true (file_of c old ++ take k y)
          ≡ scan_segment c first true (file_of c old))
        (sym written)
        (crash_invisible c first prev start old t.evs t.last k linked closed t.plain
          (subst (λ (y : Bytes). k < length y) written short)))
