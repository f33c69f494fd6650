-- ===== src/Examples/LoopRuns.antt =====
-- Turns of the loop over a ledger with a batch of the two events "A" and "B", for a destination that
-- has none of it yet.
use vbilling.Prelude.{ℕ, ◌≡◌, ◌<◌, ◌≤◌, refl, none, some, List, [], ◌∷◌, arith, min, ◌+◌, ◌*◌}
use vbilling.Prelude.Lists.{length, take, drop, All-all}
use vbilling.Prelude.Text.{Text, lookup, insert}
use vbilling.Spool.State.{err, spool_closed, Spool, ok, ◌>>=◌, new_segment}
use vbilling.Spool.Append.{
  already_committed, append, maybe_rotate, rotate_due, write_batch, write_file, publish,
  append_window, bodies, write_records, start_batch,
}
use vbilling.Spool.Ledger.{IsSound, ledger}
use vbilling.Spool.Append.Outcome.{append_window-Extends}
use vbilling.Spool.Read.{read}
use vbilling.Spool.Lifecycle.{close, close_final}
use vbilling.Spool.Ingest.{append_ingest}
use vbilling.Spool.Verify.{verify}
use vbilling.Spool.Verify.Sound.{verify-ledger}
use vbilling.Spool.Read.Whole.{read-ledger}
use vbilling.Pipeline.Backoff.{Tuning}
use vbilling.Pipeline.Deliver.{Setup}
use vbilling.Pipeline.Loop.{Status, Lane, advanced, turn}
use vbilling.Pipeline.Loop.Safe.{UpTo, Safe, turn-Safe}
use vbilling.Pipeline.Loop.Live.{IsHealthy, Advanced, turn_advances, turns, turns_catch_up}
use vbilling.Examples.Plain.{plain}
use vbilling.Examples.SpoolRuns.{fresh, after, appends, healthy, source, batch, fresh-IsSound}
use vbilling.Examples.PipelineRuns.{Stored, backend, backend-Promises}

abbrev dest : Text
dest = 115 ∷ []

abbrev behind : Spool
behind = record after { cursors = (dest, 0) ∷ [] }

behind-IsSound : IsSound plain 0 behind
unfolding ledger
behind-IsSound =
    let e =
      append_window-Extends plain healthy source 200 0 batch [] fresh after fresh-IsSound appends in
    let v = e.sound in
    record { chained = v.chained; seq = v.seq; head = v.head; committed = v.committed }

abbrev options : Tuning
options = record { batch_size = 2; min_backoff = 1; max_backoff = 8; idle_poll = 5 }

abbrev status : Status
status = record {
  cursor = 0;
  delivered = 0;
  skipped = 0;
  dead_lettered = 0;
  last_success = 0;
  last_error = none;
  last_error_at = 0;
  consecutive_failures = 0;
  oldest_pending = 0;
}

abbrev lane : Lane (List Text)
lane = record { dispatch = record { spool = behind; tenants = none; world = [] }; status = status }

read-ledger_example : read plain healthy 1 5 behind ≡ ok (take 5 (drop 1 (ledger plain behind)))
read-ledger_example = read-ledger plain healthy 0 1 5 behind behind-IsSound refl

none_between : (n : ℕ) → 0 < n → n ≤ 0 → ⊥
none_between n a b = omega arith

nothing_before : UpTo plain backend Stored 0 0 lane.dispatch
nothing_before = All-all (ledger plain behind) (λ r a b e w. elim (none_between r.seq a b) [ ])

not_seen : lookup backend.dest.name behind.cursors ≡ some 0
unfolding backend lookup
not_seen = refl

turn-Safe_example :
    Safe plain backend Stored 0 0 lane.dispatch (turn backend plain options lane).1.dispatch
turn-Safe_example =
    turn-Safe plain backend Stored backend-Promises options 0 0 0 lane behind-IsSound not_seen
      nothing_before

-- A backend that accepts everything.
calm : Setup (List Text)
calm = record {
  dest = record {
    name = dest;
    ensure_tenant = λ t w. (none, w);
    send_events = λ es w. (none, w);
    filter = none;
  };
  ask = λ w. (healthy, w);
  fingerprint = λ t. t.id;
}

calm-IsHealthy : IsHealthy calm
unfolding calm
calm-IsHealthy = record {
  ensures = λ t w. refl;
  sends = λ es w. refl;
  reads = λ w. refl;
  saves = λ w. refl;
}

unseen : lookup calm.dest.name behind.cursors ≡ some 0
unfolding calm lookup
unseen = refl

three_records : behind.committed ≡ 3
unfolding append_window already_committed lookup append ◌>>=◌ maybe_rotate rotate_due write_batch
    write_records bodies write_file publish insert plain new_segment start_batch
three_records = refl

turn_advances_example :
    ((turn calm plain options lane).0 ≡ advanced)
    × Advanced calm calm-IsHealthy plain options 0 0 behind
        (turn calm plain options lane).1.dispatch.spool
turn_advances_example =
    turn_advances calm calm-IsHealthy plain options 0 0 lane behind-IsSound (omega arith)
      (omega (arith, three_records)) (omega arith) unseen

-- Three records in batches of two.
turns_catch_up_example :
    lookup calm.dest.name (turns calm calm-IsHealthy plain options 0 2 lane).dispatch.spool.cursors
    ≡ some (min (0 + 2 * 2) behind.committed)
turns_catch_up_example =
    turns_catch_up calm calm-IsHealthy plain options 0 2 0 lane behind-IsSound (omega arith)
      (omega (arith, three_records)) (omega arith) unseen

verify-ledger_example :
    ((verify plain healthy behind).errors ≡ [])
    × ((verify plain healthy behind).records ≡ length (ledger plain behind))
    × ((verify plain healthy behind).prev ≡ behind.head)
verify-ledger_example = verify-ledger plain healthy 0 behind behind-IsSound refl

close_final_example :
    let t = (close healthy behind).1 in
    (append_window plain healthy source 300 batch [] t ≡ (err spool_closed, t))
    × (append_ingest plain healthy source batch t ≡ (err spool_closed, t))
    × (close healthy t ≡ (ok tt, t))
    × (ledger plain t ≡ ledger plain behind)
close_final_example = close_final plain healthy healthy source 300 batch [] behind
