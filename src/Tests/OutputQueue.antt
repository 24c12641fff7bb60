-- ===== src/Tests/OutputQueue.antt =====
-- The theorems on the output queue at two values, of which the second is too large.
use bastet_workstation.Common.{ℕ, ◌≡◌, refl, true, List, [], ◌∷◌}
use bastet_workstation.OutputQueue.{
  Queue, Event, send, reserve, offer, fail, poll, take, check, release, close, discard, give_back,
  empty_queue, queue_run, queue_step,
}
use bastet_workstation.OutputQueue.Invariant.{IsBounded, queue_run-IsBounded}
use bastet_workstation.OutputQueue.Order.{InOrder, queue_run-InOrder}
use bastet_workstation.OutputQueue.Failure.{failed_for_ever}

abbrev overflow : List (Event ℕ)
overflow =
    send 7 3
    ∷ reserve
    ∷ poll
    ∷ offer
    ∷ take
    ∷ check
    ∷ send 8 20000000
    ∷ reserve
    ∷ release
    ∷ fail
    ∷ []

queue_run-IsBounded_example : IsBounded (queue_run empty_queue overflow)
queue_run-IsBounded_example = queue_run-IsBounded overflow

queue_run-InOrder_example : InOrder (queue_run empty_queue overflow)
queue_run-InOrder_example = queue_run-InOrder overflow

first_is_delivered : (queue_run empty_queue overflow).delivered ≡ 7 ∷ []
unfolding queue_run queue_step
first_is_delivered = refl

-- The receiver is dropped between the reservation and the offer of the second value.
abbrev dropped_receiver : List (Event ℕ)
dropped_receiver =
    send 7 3
    ∷ reserve
    ∷ offer
    ∷ send 8 5
    ∷ reserve
    ∷ close
    ∷ offer
    ∷ discard
    ∷ give_back
    ∷ fail
    ∷ []

bytes_are_given_back : (queue_run empty_queue dropped_receiver).used ≡ 0
unfolding queue_run queue_step
bytes_are_given_back = refl

abbrev failed_queue : Queue ℕ
failed_queue = record empty_queue { is_failed = true }

failed_for_ever_example :
    ((queue_run failed_queue overflow).is_failed ≡ true)
    × ((queue_run failed_queue overflow).delivered ≡ [])
failed_for_ever_example = failed_for_ever failed_queue overflow refl
