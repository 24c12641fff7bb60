-- ===== src/OutputQueue.antt =====
-- The output queue of crates/bastet-core/src/process_queue.rs: one thread sends, another receives, and
-- they share a count of bytes and a flag. Each operation on the shared state is one step, so that the
-- lists of steps are the interleavings of the two threads; what a thread does on its own belongs to the
-- step before. So a value counts as delivered at the second test of the flag, the last read of the
-- shared state before it is returned.
pub mod Invariant
pub mod Order
pub mod Failure
use bastet_workstation.Common.{
  ℕ, zero, suc, ◌+◌, ◌-◌, ◌*◌, ◌^◌, Bool, true, false, not, ◌||◌, List, [], ◌∷◌, ◌++◌, map, length,
  leb, ltb, if◌then◌else◌,
}

abbrev pub output_queue_bytes : ℕ
output_queue_bytes = 16 * 1024 * 1024

abbrev pub output_queue_items : ℕ
output_queue_items = 128

pub record Envelope (A : Type 0) : Type 0 where
  pub value : A
  pub size : ℕ

-- Where `send` is: before its first test, behind it, with the bytes reserved, with an envelope that
-- the channel refused, and before it sets the flag.
pub data Sending (A : Type 0) : Type 0 where
  idle : Sending A
  reserving : Envelope A → Sending A
  offering : Envelope A → Sending A
  refused : Envelope A → Sending A
  failing : Sending A

-- Where `recv_timeout` is: outside, in the channel's `recv_timeout`, with an envelope, and before the
-- envelope is dropped.
pub data Receiving (A : Type 0) : Type 0 where
  away : Receiving A
  waiting : Receiving A
  holding : Envelope A → Receiving A
  dropping : ℕ → Receiving A

-- `accepted` are the values for which `send` returned true, `delivered` those that `recv_timeout`
-- returned. `is_closed` says that the receiver was dropped.
pub record Queue (A : Type 0) : Type 0 where
  pub used : ℕ
  pub is_failed : Bool
  pub is_closed : Bool
  pub channel : List (Envelope A)
  pub sending : Sending A
  pub receiving : Receiving A
  pub accepted : List A
  pub delivered : List A

pub data Event (A : Type 0) : Type 0 where
  send : A → ℕ → Event A
  reserve offer give_back fail poll take give_up check release close discard : Event A

-- `AtomicUsize::fetch_sub`, which wraps.
abbrev pub fetch_sub : ℕ → ℕ → ℕ
fetch_sub used size = if leb size used then used - size else used + 2 ^ 64 - size

module _ {A : Type 0} where
  abbrev pub empty_queue : Queue A
  empty_queue = record {
    used = 0;
    is_failed = false;
    is_closed = false;
    channel = [];
    sending = idle;
    receiving = away;
    accepted = [];
    delivered = [];
  }

  -- `self.failed.load(..)` at the start of `send`.
  abbrev pub start_send : A → ℕ → Sending A → Queue A → Queue A
  start_send value size idle q =
      if q.is_failed
      then q
      else record q { sending = reserving (record { value = value; size = size }) }
  start_send value size _ q = q

  -- `self.used.fetch_update(..)`
  abbrev pub reserve_bytes : Sending A → Queue A → Queue A
  reserve_bytes (reserving e) q =
      if leb (q.used + e.size) output_queue_bytes
      then record q { used = q.used + e.size; sending = offering e }
      else record q { sending = failing }
  reserve_bytes _ q = q

  -- `self.sender.try_send(envelope)`
  abbrev pub offer_envelope : Sending A → Queue A → Queue A
  offer_envelope (offering e) q =
      if q.is_closed || leb output_queue_items (length q.channel)
      then record q { sending = refused e }
      else record q {
        channel = q.channel ++ e ∷ [];
        sending = idle;
        accepted = q.accepted ++ e.value ∷ [];
      }
  offer_envelope _ q = q

  -- `Envelope::drop` of the envelope in the error of `try_send`.
  abbrev pub drop_refused : Sending A → Queue A → Queue A
  drop_refused (refused e) q = record q { used = fetch_sub q.used e.size; sending = failing }
  drop_refused _ q = q

  -- `self.failed.store(true, ..)`
  abbrev pub set_failed : Sending A → Queue A → Queue A
  set_failed failing q = record q { is_failed = true; sending = idle }
  set_failed _ q = q

  -- The first `is_failed` of `recv_timeout`.
  abbrev pub start_receive : Receiving A → Queue A → Queue A
  start_receive away q = if q.is_failed || q.is_closed then q else record q { receiving = waiting }
  start_receive _ q = q

  -- `self.receiver.recv_timeout(timeout)?`
  abbrev pub take_envelope : Receiving A → List (Envelope A) → Queue A → Queue A
  take_envelope waiting (e ∷ es) q = record q { channel = es; receiving = holding e }
  take_envelope _ _ q = q

  abbrev pub time_out : Receiving A → Queue A → Queue A
  time_out waiting q = record q { receiving = away }
  time_out _ q = q

  -- The second `is_failed` and `envelope.value.take()`.
  abbrev pub check_envelope : Receiving A → Queue A → Queue A
  check_envelope (holding e) q =
      if q.is_failed
      then record q { receiving = dropping e.size }
      else record q { receiving = dropping e.size; delivered = q.delivered ++ e.value ∷ [] }
  check_envelope _ q = q

  -- `Envelope::drop`
  abbrev pub drop_envelope : Receiving A → Queue A → Queue A
  drop_envelope (dropping size) q = record q { used = fetch_sub q.used size; receiving = away }
  drop_envelope _ q = q

  -- The receiver is dropped: the channel refuses what is sent from now on.
  abbrev pub close_receiver : Receiving A → Queue A → Queue A
  close_receiver away q = record q { is_closed = true }
  close_receiver _ q = q

  -- `Envelope::drop` of the next envelope in a channel without a receiver.
  abbrev pub discard_envelope : List (Envelope A) → Queue A → Queue A
  discard_envelope [] q = q
  discard_envelope (e ∷ es) q =
      if q.is_closed then record q { channel = es; used = fetch_sub q.used e.size } else q

  unfoldable pub queue_step : Queue A → Event A → Queue A
  queue_step q (send value size) = start_send value size q.sending q
  queue_step q reserve = reserve_bytes q.sending q
  queue_step q offer = offer_envelope q.sending q
  queue_step q give_back = drop_refused q.sending q
  queue_step q fail = set_failed q.sending q
  queue_step q poll = start_receive q.receiving q
  queue_step q take = take_envelope q.receiving q.channel q
  queue_step q give_up = time_out q.receiving q
  queue_step q check = check_envelope q.receiving q
  queue_step q release = drop_envelope q.receiving q
  queue_step q close = close_receiver q.receiving q
  queue_step q discard = discard_envelope q.channel q

  unfoldable pub queue_run : Queue A → List (Event A) → Queue A
  queue_run q [] = q
  queue_run q (e ∷ es) = queue_run (queue_step q e) es
