-- ===== src/EventLoop/Pending.antt =====
-- Callbacks run once, in the order in which they were queued.
use mathlib.Core.List.{append_assoc, append-nil}
use lucky.Base.{ℕ, ◌≡◌, sym, ◌∙◌, ap, List, [], ◌∷◌, ◌++◌, arith}
use lucky.EventLoop.{
  EventLoop, handel_wakeup_read, push_pending, wakeup_if_needed, queue_in_loop, take_pending,
  end_pending, wakeup,
}
use lucky.EventLoop.Steps.{
  Phase, waiting, handling, calling, World, Step, push, signal, return_wait, queue_handling,
  wakeup_handler, swap, call, queue_calling, finish, Reach, here, next,
}

module _ {T : Type 0} where
  -- The callbacks taken from the queue and not yet run.
  abbrev pub taken : Phase T → List T
  taken waiting = []
  taken handling = []
  taken (calling rest) = rest

  pub record InOrder (s : World T) : Type 0 where
    pub accounted : s.ran ++ (taken s.phase ++ s.eventloop.pend_funcs) ≡ s.queued

  pend_funcs-queue_in_loop :
      (tid : ℕ) (cb : T) (l : EventLoop T)
      → (queue_in_loop tid cb l).pend_funcs ≡ l.pend_funcs ++ (cb ∷ [])
  unfolding queue_in_loop wakeup_if_needed push_pending wakeup
  pend_funcs-queue_in_loop tid cb l = ground arith

  pend_funcs-wakeup_if_needed :
      (tid : ℕ) (l : EventLoop T) → (wakeup_if_needed tid l).pend_funcs ≡ l.pend_funcs
  unfolding wakeup_if_needed wakeup
  pend_funcs-wakeup_if_needed tid l = ground arith

  queue_end :
      (ran taken pending queued : List T) (cb : T)
      → ran ++ (taken ++ pending) ≡ queued
      → ran ++ (taken ++ (pending ++ (cb ∷ []))) ≡ queued ++ (cb ∷ [])
  queue_end ran taken pending queued cb e =
      ap (λ l. ran ++ l) (sym (append_assoc taken pending (cb ∷ [])))
      ∙ sym (append_assoc ran (taken ++ pending) (cb ∷ []))
      ∙ ap (λ l. l ++ (cb ∷ [])) e

  Step-InOrder : {s t : World T} → Step s t → InOrder s → InOrder t
  unfolding push_pending take_pending end_pending handel_wakeup_read
  Step-InOrder {s} (push cb) a = record {
    accounted = queue_end s.ran (taken s.phase) s.eventloop.pend_funcs s.queued cb a.accounted;
  }
  Step-InOrder {s} (signal tid n other some_waker) a = record {
    accounted = rw (pend_funcs-wakeup_if_needed tid s.eventloop) a.accounted;
  }
  Step-InOrder {s} (return_wait e) a = record {
    accounted = ap (λ p. s.ran ++ (taken p ++ s.eventloop.pend_funcs)) (sym e) ∙ a.accounted;
  }
  Step-InOrder {s} (queue_handling cb e) a = record {
    accounted =
        rw (pend_funcs-queue_in_loop s.eventloop.thread_id cb s.eventloop)
          (queue_end s.ran (taken s.phase) s.eventloop.pend_funcs s.queued cb a.accounted);
  }
  Step-InOrder (wakeup_handler e) a = record { accounted = a.accounted }
  Step-InOrder {s} (swap e) a = record {
    accounted =
        ap (λ l. s.ran ++ l) (append-nil s.eventloop.pend_funcs)
        ∙ ap (λ p. s.ran ++ (taken p ++ s.eventloop.pend_funcs)) (sym e)
        ∙ a.accounted;
  }
  Step-InOrder {s} (call cb rest e) a = record {
    accounted =
        append_assoc s.ran (cb ∷ []) (rest ++ s.eventloop.pend_funcs)
        ∙ ap (λ p. s.ran ++ (taken p ++ s.eventloop.pend_funcs)) (sym e)
        ∙ a.accounted;
  }
  Step-InOrder {s} (queue_calling cb rest e) a = record {
    accounted =
        rw (pend_funcs-queue_in_loop s.eventloop.thread_id cb s.eventloop)
          (queue_end s.ran (taken s.phase) s.eventloop.pend_funcs s.queued cb a.accounted);
  }
  Step-InOrder {s} (finish e) a = record {
    accounted = ap (λ p. s.ran ++ (taken p ++ s.eventloop.pend_funcs)) (sym e) ∙ a.accounted;
  }

  -- However the loop and the threads that queue callbacks interleave, the callbacks that ran, those
  -- that `doPendFunc` has taken and those in the queue are together exactly the ones queued, once
  -- each and in the order in which they were queued.
  pub Reach-InOrder : {s t : World T} → InOrder s → Reach s t → InOrder t
  Reach-InOrder a here = a
  Reach-InOrder a (next r st) = Step-InOrder st (Reach-InOrder a r)
