-- ===== src/EventLoop/Wakeup.antt =====
-- No callback waits in the queue of a loop that sleeps without a wakeup.
use lucky.Base.{◌+◌, ◌≤◌, ◌<◌, ◌≡◌, ◌≢◌, refl, [], Bool, true, false, arith}
use lucky.EventLoop.{
  handel_wakeup_read, push_pending, wakeup_if_needed, queue_in_loop, take_pending, end_pending,
  is_loop_thread, wakeup,
}
use lucky.EventLoop.Steps.{
  Phase, waiting, handling, calling, World, Step, push, signal, return_wait, queue_handling,
  wakeup_handler, swap, call, queue_calling, finish, Reach, here, next,
}

module _ {T : Type 0} where
  abbrev is_calling : Phase T → Bool
  is_calling waiting = false
  is_calling handling = false
  is_calling (calling rest) = true

  abbrev is_waiting : Phase T → Bool
  is_waiting waiting = true
  is_waiting handling = false
  is_waiting (calling rest) = false

  -- `isCallPendFunc_` tells the phase. Unless the loop is in its handlers, so that the swap is
  -- still to come, a queued callback has written to `wakeupFd_` or has a thread about to.
  pub record Awake (s : World T) : Type 0 where
    pub flag : s.eventloop.is_call_pend_func ≡ is_calling s.phase
    pub woken :
        s.phase ≢ handling → s.eventloop.pend_funcs ≢ [] → 0 < s.eventloop.signals + s.wakers

  Step-Awake : {s t : World T} → Step s t → Awake s → Awake t
  unfolding handel_wakeup_read push_pending wakeup_if_needed queue_in_loop take_pending end_pending
      is_loop_thread wakeup
  Step-Awake (push cb) a = record { flag = a.flag; woken = λ _ _. omega arith }
  Step-Awake (signal tid n other some_waker) a = record {
    flag = ground arith;
    woken = λ p q. ground arith;
  }
  Step-Awake (return_wait e) a = record { flag = ground arith; woken = λ p q. ground arith }
  Step-Awake (queue_handling cb e) a = record { flag = ground arith; woken = λ p q. ground arith }
  Step-Awake (wakeup_handler e) a = record { flag = a.flag; woken = λ p q. omega arith }
  Step-Awake (swap e) a = record { flag = refl; woken = λ p q. ground arith }
  Step-Awake (call cb rest e) a = record { flag = ground arith; woken = λ p q. ground arith }
  Step-Awake (queue_calling cb rest e) a = record {
    flag = ground arith;
    woken = λ p q. ground arith;
  }
  Step-Awake (finish e) a = record { flag = refl; woken = λ p q. ground arith }

  Reach-Awake : {s t : World T} → Awake s → Reach s t → Awake t
  Reach-Awake a here = a
  Reach-Awake a (next r st) = Step-Awake st (Reach-Awake a r)

  -- However the loop and the threads that queue callbacks interleave, a loop that is back in
  -- `epoll_wait` with callbacks in its queue has been signalled, or a thread is about to signal.
  pub no_lost_wakeup :
      {s t : World T}
      → Awake s
      → Reach s t
      → t.phase ≡ waiting
      → t.eventloop.pend_funcs ≢ []
      → 0 < t.eventloop.signals + t.wakers
  no_lost_wakeup a r at_wait queued =
      (Reach-Awake a r).woken (λ e. waiting≢handling at_wait e) queued
    where
      waiting≢handling : {p : Phase T} → p ≡ waiting → p ≡ handling → ⊥
      waiting≢handling e f = cc

  signals-Step : {s t : World T} → Step s t → s.eventloop.signals ≤ t.eventloop.signals
  unfolding handel_wakeup_read push_pending wakeup_if_needed queue_in_loop take_pending end_pending
      is_loop_thread wakeup
  signals-Step (push cb) = omega arith
  signals-Step (signal tid n other some_waker) = ground arith
  signals-Step (return_wait e) = omega arith
  signals-Step (queue_handling cb e) = ground arith
  signals-Step (wakeup_handler e) = omega arith
  signals-Step (swap e) = omega arith
  signals-Step (call cb rest e) = omega arith
  signals-Step (queue_calling cb rest e) = ground arith
  signals-Step (finish e) = omega arith

  -- No step of the loop or of another thread takes a signal back, the handler of `wakeupFd_`
  -- included: once signalled, the descriptor stays readable in every later wait.
  pub signals-Reach : {s t : World T} → Reach s t → s.eventloop.signals ≤ t.eventloop.signals
  signals-Reach here = omega arith
  signals-Reach (next r st) = omega (arith, signals-Reach r, signals-Step st)
