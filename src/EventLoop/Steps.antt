-- ===== src/EventLoop/Steps.antt =====
-- One loop and the threads around it, as interleaved steps of the code's parts.
use lucky.Base.{ℕ, suc, ◌≡◌, ◌≢◌, List, [], ◌∷◌, ◌++◌}
use lucky.EventLoop.{
  EventLoop, handel_wakeup_read, push_pending, wakeup_if_needed, queue_in_loop, take_pending,
  end_pending,
}

-- Where the loop's thread is: in `epoll_wait`, in the handlers of a round, or in `doPendFunc` with
-- the callbacks that it has still to run.
pub data Phase (T : Type 0) : Type 0 where
  waiting : Phase T
  handling : Phase T
  calling : List T → Phase T

-- `wakers` counts the other threads between the two parts of `queueinLoop`; `queued` and `ran` are
-- the callbacks handed over and run so far, in order.
pub record World (T : Type 0) : Type 0 where
  pub eventloop : EventLoop T
  pub phase : Phase T
  pub wakers : ℕ
  pub queued : List T
  pub ran : List T

module _ {T : Type 0} where
  pub data Step (s : World T) : World T → Type 0 where
    -- another thread queues a callback: first under the lock, then the test and the wakeup
    push :
        (cb : T)
        → Step s (record s {
          eventloop = push_pending cb s.eventloop;
          wakers = suc s.wakers;
          queued = s.queued ++ (cb ∷ []);
        })
    signal :
        (tid n : ℕ)
        → tid ≢ s.eventloop.thread_id
        → s.wakers ≡ suc n
        → Step s (record s { eventloop = wakeup_if_needed tid s.eventloop; wakers = n })
    -- `epoll_wait` returns, for whatever reason
    return_wait : s.phase ≡ waiting → Step s (record s { phase = handling })
    -- a handler queues a callback for its own loop, or is the handler of `wakeupFd_`
    queue_handling :
        (cb : T)
        → s.phase ≡ handling
        → Step s (record s {
          eventloop = queue_in_loop s.eventloop.thread_id cb s.eventloop;
          queued = s.queued ++ (cb ∷ []);
        })
    wakeup_handler :
        s.phase ≡ handling → Step s (record s { eventloop = handel_wakeup_read s.eventloop })
    -- `doPendFunc`: the swap, one callback, what that callback queues, and the end
    swap :
        s.phase ≡ handling
        → Step s (record s {
          eventloop = (take_pending s.eventloop).1;
          phase = calling (take_pending s.eventloop).0;
        })
    call :
        (cb : T) (rest : List T)
        → s.phase ≡ calling (cb ∷ rest)
        → Step s (record s { phase = calling rest; ran = s.ran ++ (cb ∷ []) })
    queue_calling :
        (cb : T) (rest : List T)
        → s.phase ≡ calling rest
        → Step s (record s {
          eventloop = queue_in_loop s.eventloop.thread_id cb s.eventloop;
          queued = s.queued ++ (cb ∷ []);
        })
    finish :
        s.phase ≡ calling []
        → Step s (record s { eventloop = end_pending s.eventloop; phase = waiting })

  pub data Reach (s : World T) : World T → Type 0 where
    here : Reach s s
    next : {t u : World T} → Reach s t → Step t u → Reach s u
