-- ===== src/Pipeline/Loop.antt =====
-- One turn of the loop of internal/pipeline/dispatcher.go for a destination: read from the cursor,
-- deliver, acknowledge. Waiting, logging and metrics are left out. The clock and the operating
-- system are asked before the read, after a failure and before the acknowledgement.
pub mod Covers
pub mod Books
pub mod Safe
pub mod Live
use vbilling.Prelude.{ℕ, suc, ◌+◌, ◌-◌, Bool, true, false, Option, none, some, List, [], ◌∷◌}
use vbilling.Prelude.Tests.{if◌then◌else◌}
use vbilling.Prelude.Lists.{length}
use vbilling.Prelude.Text.{Text, text_eq}
use vbilling.Usage.{Time, Event}
use vbilling.Spool.Codec.{Codec, Record, type_event}
use vbilling.Spool.State.{Spool, Io, Result, ok, err}
use vbilling.Spool.Cursors.{cursor, ack}
use vbilling.Spool.Read.{read}
use vbilling.Pipeline.Deliver.{
  Destination, Setup, Dispatch, Delivery, done, failed, exhausted, Failure, deliver,
}
use vbilling.Pipeline.Backoff.{Tuning}

pub record Status : Type 0 where
  pub cursor : ℕ
  pub delivered : ℕ
  pub skipped : ℕ
  pub dead_lettered : ℕ
  pub last_success : Time
  pub last_error : Option Failure
  pub last_error_at : Time
  pub consecutive_failures : ℕ
  pub oldest_pending : Time

pub record Lane (W : Type 0) : Type 0 where
  pub dispatch : Dispatch W
  pub status : Status

-- How a turn ends; all but `advanced` wait before the next one. `starved` is the model's: the
-- delivery ran out of fuel.
pub data Turn : Type 0 where
  unread idle refused unacked advanced starved : Turn

-- destinations.Accepts
unfoldable pub accepts : {W : Type 0} → Destination W → Text → Bool
accepts d metric = elim d.filter [ none ↦ true | some f ↦ f metric ]

unfoldable pub event_of : Record → Option Event
event_of r = if text_eq r.type type_event then r.event else none

pub record Batched : Type 0 where
  pub events : List Event
  pub skipped : ℕ

put_event : {W : Type 0} → Destination W → Event → Batched → Batched
unfolding accepts
put_event d e b =
    if accepts d e.metric
    then record b { events = e ∷ b.events }
    else record b { skipped = b.skipped + 1 }

-- The events for the destination, and how many it does not take.
unfoldable pub batch_of : {W : Type 0} → Destination W → List Record → Batched
unfolding put_event event_of
batch_of d [] = record { events = []; skipped = 0 }
batch_of d (r ∷ rs) =
    let rest = batch_of d rs in elim (event_of r) [ none ↦ rest | some e ↦ put_event d e rest ]

unfoldable pub last_of : Record → List Record → ℕ
last_of r [] = r.seq
last_of r (x ∷ xs) = last_of x xs

module _ {W : Type 0} (setup : Setup W) where
  unfoldable pub delivery : List Event → Dispatch W → Delivery × Dispatch W
  delivery [] s = (done 0, s)
  delivery (e ∷ es) s = deliver setup (length (e ∷ es)) (e ∷ es) s

  pending : List Event → Status → Status
  pending [] st = st
  pending (e ∷ es) st = record st { oldest_pending = e.recorded_at }

  -- The acknowledgement of a batch with `dead` dead letters.
  unfoldable pub acknowledge : ℕ → Batched → ℕ → Dispatch W → Status → Turn × Lane W
  acknowledge last b dead s st =
      let (io, w) = setup.ask s.world in
      let st' = record st {
        delivered = st.delivered + (length b.events - dead);
        dead_lettered = st.dead_lettered + dead;
      } in
      let (r, t) = ack io setup.dest.name last s.spool in
      let s' = record s { spool = t; world = w } in
      elim r [
        | err e ↦ (unacked, record { dispatch = s'; status = st' })
        | ok u ↦ (
          advanced,
          record {
            dispatch = s';
            status = record st' {
              cursor = last;
              skipped = st'.skipped + b.skipped;
              last_success = io.now;
              consecutive_failures = 0;
              oldest_pending = 0;
            };
          },
        )
      ]

  failure : Failure → Dispatch W → Status → Turn × Lane W
  failure f s st =
      let (io, w) = setup.ask s.world in
      (
        refused,
        record {
          dispatch = record s { world = w };
          status = record st {
            last_error = some f;
            last_error_at = io.now;
            consecutive_failures = st.consecutive_failures + 1;
          };
        },
      )

  unfoldable pub turn_on : List Record → Dispatch W → Status → Turn × Lane W
  unfolding acknowledge failure delivery pending
  turn_on [] s st = (idle, record { dispatch = s; status = st })
  turn_on (r ∷ rs) s st =
      let b = batch_of setup.dest (r ∷ rs) in
      let (d, t) = delivery b.events s in
      let st' = pending b.events st in
      elim d [
        | done dead ↦ acknowledge (last_of r rs) b dead t st'
        | failed f ↦ failure f t st'
        | exhausted ↦ (starved, record { dispatch = t; status = st' })
      ]

  -- The turn from the cursor on.
  unfoldable pub turn_from : Codec → Tuning → Io → W → ℕ × Spool → Lane W → Turn × Lane W
  unfolding turn_on
  turn_from c o io w (at, t) lane =
      let s = record lane.dispatch { spool = t; world = w } in
      elim (read c io at o.batch_size t) [
        | err e ↦ (unread, record lane { dispatch = s })
        | ok recs ↦ turn_on recs s lane.status
      ]

  unfoldable pub turn : Codec → Tuning → Lane W → Turn × Lane W
  unfolding turn_from
  turn c o lane =
      let (io, w) = setup.ask lane.dispatch.world in
      turn_from c o io w (cursor io setup.dest.name lane.dispatch.spool) lane
