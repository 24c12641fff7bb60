-- ===== src/OutputQueue/Failure.antt =====
-- The failure flag of the output queue is never taken back.
use bastet_workstation.Common.{◌≡◌, refl, ◌∙◌, true, List, [], ◌∷◌, arith}
use bastet_workstation.OutputQueue.{
  Queue, Event, send, reserve, offer, give_back, fail, poll, take, give_up, check, release, close,
  discard, queue_step, queue_run,
}

module _ {A : Type 0} where
  failed_step :
      (q : Queue A) (e : Event A)
      → q.is_failed ≡ true
      → ((queue_step q e).is_failed ≡ true) × ((queue_step q e).delivered ≡ q.delivered)
  unfolding queue_step
  failed_step q (send value size) h = (ground arith, ground arith)
  failed_step q reserve h = (ground arith, ground arith)
  failed_step q offer h = (ground arith, ground arith)
  failed_step q give_back h = (ground arith, ground arith)
  failed_step q fail h = (ground arith, ground arith)
  failed_step q poll h = (ground arith, ground arith)
  failed_step q take h = (ground arith, ground arith)
  failed_step q give_up h = (ground arith, ground arith)
  failed_step q check h = (ground arith, ground arith)
  failed_step q release h = (ground arith, ground arith)
  failed_step q close h = (ground arith, ground arith)
  failed_step q discard h = (ground arith, ground arith)

  -- Once the stream has failed, it stays failed, and nothing more is delivered.
  pub failed_for_ever :
      (q : Queue A) (es : List (Event A))
      → q.is_failed ≡ true
      → ((queue_run q es).is_failed ≡ true) × ((queue_run q es).delivered ≡ q.delivered)
  unfolding queue_run
  failed_for_ever q [] h = (h, refl)
  failed_for_ever q (e ∷ es) h =
      let (still, kept) = failed_step q e h in
      let (failed, same) = failed_for_ever (queue_step q e) es still in (failed, same ∙ kept)
