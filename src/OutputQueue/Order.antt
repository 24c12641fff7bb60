-- ===== src/OutputQueue/Order.antt =====
-- The order of what the output queue delivers.
use mathlib.Core.List.{append_assoc}
use bastet_workstation.Common.{
  ℕ, ◌≡◌, refl, sym, ap, ◌∙◌, ◌⊎◌, inl, inr, true, false, ◌||◌, List, [], ◌∷◌, ◌++◌, map, length,
  arith, Bool-cases, leb,
}
use bastet_workstation.OutputQueue.{
  Envelope, Sending, offering, Receiving, away, waiting, holding, dropping, Queue, Event, send,
  reserve, offer, give_back, fail, poll, take, give_up, check, release, close, discard,
  output_queue_items, empty_queue, start_send, reserve_bytes, offer_envelope, drop_refused,
  discard_envelope, set_failed, start_receive, take_envelope, time_out, check_envelope,
  drop_envelope, close_receiver, queue_step, queue_run,
}

module _ {A : Type 0} where
  abbrev pub envelope_value : Envelope A → A
  envelope_value e = e.value

  abbrev pub in_hand : Receiving A → List (Envelope A) → List A
  in_hand (holding e) es = e.value ∷ map envelope_value es
  in_hand _ es = map envelope_value es

  -- What was delivered is the beginning of what was accepted; and all that was accepted and not
  -- delivered is still on its way, unless the stream failed or the receiver was dropped.
  pub record InOrder (q : Queue A) : Type 0 where
    pub prefix : (lost : List A) × (q.accepted ≡ q.delivered ++ lost)
    pub whole :
        ((q.is_failed || q.is_closed) ≡ true)
        ⊎ (q.accepted ≡ q.delivered ++ in_hand q.receiving q.channel)
    pub closed_away : (q.is_closed ≡ false) ⊎ (q.receiving ≡ away)

  map-snoc :
      (es : List (Envelope A)) (e : Envelope A)
      → map envelope_value (es ++ e ∷ []) ≡ map envelope_value es ++ e.value ∷ []
  map-snoc [] e = refl
  map-snoc (x ∷ es) e = ap (λ l. x.value ∷ l) (map-snoc es e)

  in_hand-snoc :
      (r : Receiving A) (es : List (Envelope A)) (e : Envelope A)
      → in_hand r (es ++ e ∷ []) ≡ in_hand r es ++ e.value ∷ []
  in_hand-snoc away es e = map-snoc es e
  in_hand-snoc waiting es e = map-snoc es e
  in_hand-snoc (holding h) es e = ap (λ l. h.value ∷ l) (map-snoc es e)
  in_hand-snoc (dropping n) es e = map-snoc es e

  start_send-InOrder :
      (value : A) (size : ℕ) (s : Sending A) (q : Queue A)
      → q.sending ≡ s
      → InOrder q
      → InOrder (start_send value size s q)
  start_send-InOrder value size s q at o =
      let (lost, kept) = o.prefix in
      let whole = o.whole in
      let closed_away = o.closed_away in
      record { prefix = (lost, ground arith); whole = ground arith; closed_away = ground arith }

  reserve_bytes-InOrder :
      (s : Sending A) (q : Queue A) → q.sending ≡ s → InOrder q → InOrder (reserve_bytes s q)
  reserve_bytes-InOrder s q at o =
      let (lost, kept) = o.prefix in
      let whole = o.whole in
      let closed_away = o.closed_away in
      record { prefix = (lost, ground arith); whole = ground arith; closed_away = ground arith }

  drop_refused-InOrder :
      (s : Sending A) (q : Queue A) → q.sending ≡ s → InOrder q → InOrder (drop_refused s q)
  drop_refused-InOrder s q at o =
      let (lost, kept) = o.prefix in
      let whole = o.whole in
      let closed_away = o.closed_away in
      record { prefix = (lost, ground arith); whole = ground arith; closed_away = ground arith }

  discard_envelope-InOrder :
      (es : List (Envelope A)) (q : Queue A)
      → q.channel ≡ es
      → InOrder q
      → InOrder (discard_envelope es q)
  discard_envelope-InOrder es q in_channel o =
      let (lost, kept) = o.prefix in
      let whole = o.whole in
      let closed_away = o.closed_away in
      record { prefix = (lost, ground arith); whole = ground arith; closed_away = ground arith }

  set_failed-InOrder :
      (s : Sending A) (q : Queue A) → q.sending ≡ s → InOrder q → InOrder (set_failed s q)
  set_failed-InOrder s q at o =
      let (lost, kept) = o.prefix in
      let whole = o.whole in
      let closed_away = o.closed_away in
      record { prefix = (lost, ground arith); whole = ground arith; closed_away = ground arith }

  start_receive-InOrder :
      (s : Receiving A) (q : Queue A) → q.receiving ≡ s → InOrder q → InOrder (start_receive s q)
  start_receive-InOrder s q at o =
      let (lost, kept) = o.prefix in
      let whole = o.whole in
      let closed_away = o.closed_away in
      record { prefix = (lost, ground arith); whole = ground arith; closed_away = ground arith }

  time_out-InOrder :
      (s : Receiving A) (q : Queue A) → q.receiving ≡ s → InOrder q → InOrder (time_out s q)
  time_out-InOrder s q at o =
      let (lost, kept) = o.prefix in
      let whole = o.whole in
      let closed_away = o.closed_away in
      record { prefix = (lost, ground arith); whole = ground arith; closed_away = ground arith }

  drop_envelope-InOrder :
      (s : Receiving A) (q : Queue A) → q.receiving ≡ s → InOrder q → InOrder (drop_envelope s q)
  drop_envelope-InOrder s q at o =
      let (lost, kept) = o.prefix in
      let whole = o.whole in
      let closed_away = o.closed_away in
      record { prefix = (lost, ground arith); whole = ground arith; closed_away = ground arith }

  close_receiver-InOrder :
      (s : Receiving A) (q : Queue A) → q.receiving ≡ s → InOrder q → InOrder (close_receiver s q)
  close_receiver-InOrder s q at o =
      let (lost, kept) = o.prefix in
      let whole = o.whole in
      let closed_away = o.closed_away in
      record { prefix = (lost, ground arith); whole = ground arith; closed_away = ground arith }

  take_envelope-InOrder :
      (s : Receiving A) (es : List (Envelope A)) (q : Queue A)
      → q.receiving ≡ s
      → q.channel ≡ es
      → InOrder q
      → InOrder (take_envelope s es q)
  take_envelope-InOrder waiting (e ∷ es) q at in_channel o =
      let closed_away = o.closed_away in
      record {
        prefix = o.prefix;
        whole = elim o.whole [ inl over ↦ inl over | inr all ↦ inr (all ∙ rw (at, in_channel)) ];
        closed_away = ground arith;
      }
  take_envelope-InOrder _ _ q at in_channel o = o

  offer_envelope-InOrder :
      (s : Sending A) (q : Queue A) → q.sending ≡ s → InOrder q → InOrder (offer_envelope s q)
  offer_envelope-InOrder (offering e) q at o =
      let (lost, kept) = o.prefix in
      let whole = o.whole in
      let closed_away = o.closed_away in
      elim (Bool-cases (q.is_closed || leb output_queue_items (length q.channel))) [
        | inl full ↦
            rw full (record { prefix = (lost, kept); whole = whole; closed_away = closed_away })
        | inr room ↦ rw room (record {
          prefix = (
            lost ++ e.value ∷ [],
            ap (λ l. l ++ e.value ∷ []) kept ∙ append_assoc q.delivered lost (e.value ∷ []),
          );
          whole = elim whole [
            | inl over ↦ inl over
            | inr all ↦ inr (
                ap (λ l. l ++ e.value ∷ []) all
                ∙ append_assoc q.delivered (in_hand q.receiving q.channel) (e.value ∷ [])
                ∙ ap (λ l. q.delivered ++ l) (sym (in_hand-snoc q.receiving q.channel e)))
          ];
          closed_away = closed_away;
        })
      ]
  offer_envelope-InOrder _ q at o = o

  check_envelope-InOrder :
      (s : Receiving A) (q : Queue A) → q.receiving ≡ s → InOrder q → InOrder (check_envelope s q)
  check_envelope-InOrder (holding e) q at o =
      let (lost, kept) = o.prefix in
      let whole = o.whole in
      let closed_away = o.closed_away in
      let open' : q.is_closed ≡ false = ground arith in
      elim (Bool-cases q.is_failed) [
        | inl over ↦
            rw over (record { prefix = (lost, kept); whole = inl refl; closed_away = inl open' })
        | inr fresh ↦ elim whole [
          | inl bad ↦ absurd (ground arith)
          | inr all ↦
              let moved =
                all
                ∙ ap (λ r. q.delivered ++ in_hand r q.channel) at
                ∙ sym (append_assoc q.delivered (e.value ∷ []) (map envelope_value q.channel)) in
              rw fresh (record {
                prefix = (map envelope_value q.channel, moved);
                whole = inr moved;
                closed_away = inl open';
              })
        ]
      ]
  check_envelope-InOrder _ q at o = o

  queue_step-InOrder : (q : Queue A) (e : Event A) → InOrder q → InOrder (queue_step q e)
  unfolding queue_step
  queue_step-InOrder q (send value size) o = start_send-InOrder value size q.sending q refl o
  queue_step-InOrder q reserve o = reserve_bytes-InOrder q.sending q refl o
  queue_step-InOrder q offer o = offer_envelope-InOrder q.sending q refl o
  queue_step-InOrder q give_back o = drop_refused-InOrder q.sending q refl o
  queue_step-InOrder q fail o = set_failed-InOrder q.sending q refl o
  queue_step-InOrder q poll o = start_receive-InOrder q.receiving q refl o
  queue_step-InOrder q take o = take_envelope-InOrder q.receiving q.channel q refl refl o
  queue_step-InOrder q give_up o = time_out-InOrder q.receiving q refl o
  queue_step-InOrder q check o = check_envelope-InOrder q.receiving q refl o
  queue_step-InOrder q release o = drop_envelope-InOrder q.receiving q refl o
  queue_step-InOrder q close o = close_receiver-InOrder q.receiving q refl o
  queue_step-InOrder q discard o = discard_envelope-InOrder q.channel q refl o

  run_keeps_order : (q : Queue A) (es : List (Event A)) → InOrder q → InOrder (queue_run q es)
  unfolding queue_run
  run_keeps_order q [] o = o
  run_keeps_order q (e ∷ es) o = run_keeps_order (queue_step q e) es (queue_step-InOrder q e o)

  -- In every interleaving of one sender and one receiver, from the empty queue, the delivered values
  -- are the first of the accepted values, in their order; and unless the stream has failed or the
  -- receiver was dropped, the accepted values that were not delivered are in the receiver's hand and
  -- in the channel.
  pub queue_run-InOrder : (es : List (Event A)) → InOrder (queue_run empty_queue es)
  queue_run-InOrder es =
      run_keeps_order empty_queue es
        (record { prefix = ([], refl); whole = inr refl; closed_away = inl refl })
