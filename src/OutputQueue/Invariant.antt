-- ===== src/OutputQueue/Invariant.antt =====
-- What holds of the output queue in every interleaving.
use bastet_workstation.Common.{
  ℕ, ◌+◌, ◌≤◌, ◌≡◌, refl, inl, inr, List, [], ◌∷◌, ◌++◌, length, arith, Bool-cases, ◌||◌, leb,
}
use bastet_workstation.OutputQueue.{
  Envelope, Sending, offering, Receiving, holding, dropping, Queue, Event, send, reserve, offer,
  give_back, refused, fail, poll, take, give_up, check, release, close, discard, output_queue_bytes,
  output_queue_items, empty_queue, start_send, reserve_bytes, offer_envelope, drop_refused,
  discard_envelope, set_failed, start_receive, take_envelope, time_out, check_envelope,
  drop_envelope, close_receiver, queue_step, queue_run,
}

module _ {A : Type 0} where
  abbrev pub total : List (Envelope A) → ℕ
  total [] = 0
  total (e ∷ es) = e.size + total es

  abbrev pub sender_bytes : Sending A → ℕ
  sender_bytes (offering e) = e.size
  sender_bytes (refused e) = e.size
  sender_bytes _ = 0

  abbrev pub receiver_bytes : Receiving A → ℕ
  receiver_bytes (holding e) = e.size
  receiver_bytes (dropping size) = size
  receiver_bytes _ = 0

  -- The count is that of the envelopes that exist, and within the bound; and the channel is short.
  pub record IsBounded (q : Queue A) : Type 0 where
    pub account : q.used ≡ total q.channel + (sender_bytes q.sending + receiver_bytes q.receiving)
    pub bounded : q.used ≤ output_queue_bytes
    pub short : length q.channel ≤ output_queue_items

  total-append :
      (es : List (Envelope A)) (e : Envelope A) → total (es ++ e ∷ []) ≡ total es + e.size
  total-append [] e = ground arith
  total-append (x ∷ es) e = let rest = total-append es e in omega (arith, rest)

  length-snoc : (es : List (Envelope A)) (e : Envelope A) → length (es ++ e ∷ []) ≡ length es + 1
  length-snoc [] e = refl
  length-snoc (x ∷ es) e = let rest = length-snoc es e in omega (arith, rest)

  reserve_bytes-IsBounded :
      (s : Sending A) (q : Queue A) → q.sending ≡ s → IsBounded q → IsBounded (reserve_bytes s q)
  reserve_bytes-IsBounded s q at b =
      let account = b.account in
      let bounded = b.bounded in
      let short = b.short in
      record { account = ground arith; bounded = ground arith; short = ground arith }

  drop_refused-IsBounded :
      (s : Sending A) (q : Queue A) → q.sending ≡ s → IsBounded q → IsBounded (drop_refused s q)
  drop_refused-IsBounded s q at b =
      let account = b.account in
      let bounded = b.bounded in
      let short = b.short in
      record { account = ground arith; bounded = ground arith; short = ground arith }

  discard_envelope-IsBounded :
      (es : List (Envelope A)) (q : Queue A)
      → q.channel ≡ es
      → IsBounded q
      → IsBounded (discard_envelope es q)
  discard_envelope-IsBounded es q in_channel b =
      let account = b.account in
      let bounded = b.bounded in
      let short = b.short in
      record { account = ground arith; bounded = ground arith; short = ground arith }

  set_failed-IsBounded :
      (s : Sending A) (q : Queue A) → q.sending ≡ s → IsBounded q → IsBounded (set_failed s q)
  set_failed-IsBounded s q at b =
      let account = b.account in
      let bounded = b.bounded in
      let short = b.short in
      record { account = ground arith; bounded = ground arith; short = ground arith }

  start_receive-IsBounded :
      (s : Receiving A) (q : Queue A)
      → q.receiving ≡ s
      → IsBounded q
      → IsBounded (start_receive s q)
  start_receive-IsBounded s q at b =
      let account = b.account in
      let bounded = b.bounded in
      let short = b.short in
      record { account = ground arith; bounded = ground arith; short = ground arith }

  time_out-IsBounded :
      (s : Receiving A) (q : Queue A) → q.receiving ≡ s → IsBounded q → IsBounded (time_out s q)
  time_out-IsBounded s q at b =
      let account = b.account in
      let bounded = b.bounded in
      let short = b.short in
      record { account = ground arith; bounded = ground arith; short = ground arith }

  check_envelope-IsBounded :
      (s : Receiving A) (q : Queue A)
      → q.receiving ≡ s
      → IsBounded q
      → IsBounded (check_envelope s q)
  check_envelope-IsBounded s q at b =
      let account = b.account in
      let bounded = b.bounded in
      let short = b.short in
      record { account = ground arith; bounded = ground arith; short = ground arith }

  drop_envelope-IsBounded :
      (s : Receiving A) (q : Queue A)
      → q.receiving ≡ s
      → IsBounded q
      → IsBounded (drop_envelope s q)
  drop_envelope-IsBounded s q at b =
      let account = b.account in
      let bounded = b.bounded in
      let short = b.short in
      record { account = ground arith; bounded = ground arith; short = ground arith }

  close_receiver-IsBounded :
      (s : Receiving A) (q : Queue A)
      → q.receiving ≡ s
      → IsBounded q
      → IsBounded (close_receiver s q)
  close_receiver-IsBounded s q at b =
      let account = b.account in
      let bounded = b.bounded in
      let short = b.short in
      record { account = ground arith; bounded = ground arith; short = ground arith }

  offer_envelope-IsBounded :
      (s : Sending A) (q : Queue A) → q.sending ≡ s → IsBounded q → IsBounded (offer_envelope s q)
  offer_envelope-IsBounded (offering e) q at b =
      let account = b.account in
      let bounded = b.bounded in
      let short = b.short in
      let grown = total-append q.channel e in
      let longer = length-snoc q.channel e in
      elim (Bool-cases (q.is_closed || leb output_queue_items (length q.channel))) [
        | inl full ↦
            rw full (record { account = ground arith; bounded = ground arith; short = short })
        | inr room ↦
            rw room (record { account = ground arith; bounded = bounded; short = ground arith })
      ]
  offer_envelope-IsBounded _ q at b = b

  take_envelope-IsBounded :
      (s : Receiving A) (es : List (Envelope A)) (q : Queue A)
      → q.receiving ≡ s
      → q.channel ≡ es
      → IsBounded q
      → IsBounded (take_envelope s es q)
  take_envelope-IsBounded s es q at in_channel b =
      let account = b.account in
      let bounded = b.bounded in
      let short = b.short in
      record { account = ground arith; bounded = ground arith; short = ground arith }

  start_send-IsBounded :
      (value : A) (size : ℕ) (s : Sending A) (q : Queue A)
      → q.sending ≡ s
      → IsBounded q
      → IsBounded (start_send value size s q)
  start_send-IsBounded value size s q at b =
      let account = b.account in
      let bounded = b.bounded in
      let short = b.short in
      record { account = ground arith; bounded = ground arith; short = ground arith }

  queue_step-IsBounded : (q : Queue A) (e : Event A) → IsBounded q → IsBounded (queue_step q e)
  unfolding queue_step
  queue_step-IsBounded q (send value size) b = start_send-IsBounded value size q.sending q refl b
  queue_step-IsBounded q reserve b = reserve_bytes-IsBounded q.sending q refl b
  queue_step-IsBounded q offer b = offer_envelope-IsBounded q.sending q refl b
  queue_step-IsBounded q give_back b = drop_refused-IsBounded q.sending q refl b
  queue_step-IsBounded q fail b = set_failed-IsBounded q.sending q refl b
  queue_step-IsBounded q poll b = start_receive-IsBounded q.receiving q refl b
  queue_step-IsBounded q take b = take_envelope-IsBounded q.receiving q.channel q refl refl b
  queue_step-IsBounded q give_up b = time_out-IsBounded q.receiving q refl b
  queue_step-IsBounded q check b = check_envelope-IsBounded q.receiving q refl b
  queue_step-IsBounded q release b = drop_envelope-IsBounded q.receiving q refl b
  queue_step-IsBounded q close b = close_receiver-IsBounded q.receiving q refl b
  queue_step-IsBounded q discard b = discard_envelope-IsBounded q.channel q refl b

  run_keeps : (q : Queue A) (es : List (Event A)) → IsBounded q → IsBounded (queue_run q es)
  unfolding queue_run
  run_keeps q [] b = b
  run_keeps q (e ∷ es) b = run_keeps (queue_step q e) es (queue_step-IsBounded q e b)

  -- In every interleaving of one sender and one receiver, from the empty queue, the byte count is that
  -- of the envelopes in the channel and in the hands of the two threads, it is at most 16 MiB, and the
  -- channel holds at most 128 envelopes.
  pub queue_run-IsBounded : (es : List (Event A)) → IsBounded (queue_run empty_queue es)
  queue_run-IsBounded es =
      run_keeps empty_queue es
        (record { account = refl; bounded = omega arith; short = omega arith })
