-- ===== src/EventLoop.antt =====
-- include/EventLoop.h and src/EventLoop.cpp: a loop bound to one thread, its Epoller, and the
-- callbacks that wait for it. A callback in `pendFuncs_` is a value of the type `T`, and running
-- one is an argument. The current thread's id (include/ThreadID.h) is an argument, too.
pub mod Steps
pub mod Wakeup
pub mod Pending
pub mod Functors
pub mod Ending
mod Examples
use lucky.Base.{
  ℕ, zero, suc, ◌+◌, Bool, true, false, not, ◌||◌, List, [], ◌∷◌, ◌++◌, Option, none, some, ◌==◌,
  if◌then◌else◌, Result, ok, err, exit, ◌>>=◌,
}
use lucky.Filed
use lucky.Filed.{Filed, wakeup_read}
use lucky.Filed.Masks.{enable_reading, disable_all}
use lucky.Epoller
use lucky.Epoller.{Epoller, Control, Waited, Report}
use lucky.Epoller.Interest.{change_and_update}

-- `signals` counts the 8-byte writes to `wakeupFd_`; `wakeup_filed` is the pointer of
-- `wakeupFiled_`; `registered` says whether the thread's `t_LoopinThread` is this loop.
pub record EventLoop (T : Type 0) : Type 0 where
  pub looping : Bool
  pub quit : Bool
  pub thread_id : ℕ
  pub epoll_return_time : ℕ
  pub epoller : Epoller
  pub wakeup_filed : ℕ
  pub active_fileds : List ℕ
  pub is_call_pend_func : Bool
  pub pend_funcs : List T
  pub signals : ℕ
  pub registered : Bool

module _ {T : Type 0} where
  -- The constructor, in a thread where `other` says whether a loop exists already, once
  -- `createEventfd` and `new Epoller` have succeeded.
  unfoldable pub init : Control → Bool → ℕ → ℕ → Epoller → Result (EventLoop T)
  init control other tid wakeup_filed e = if other then err exit else (do
    let f = e.objects wakeup_filed
    let bound = Epoller.set_object wakeup_filed (Filed.set_read_callback wakeup_read f) e
    watching ← change_and_update control enable_reading wakeup_filed bound
    ok (record {
      looping = false;
      quit = false;
      thread_id = tid;
      epoll_return_time = 0;
      epoller = watching;
      wakeup_filed = wakeup_filed;
      active_fileds = [];
      is_call_pend_func = false;
      pend_funcs = [];
      signals = 0;
      registered = true;
    }))

  -- The destructor.
  unfoldable pub close : Control → EventLoop T → Result (EventLoop T)
  close control l = do
    e₁ ← change_and_update control disable_all l.wakeup_filed l.epoller
    e₂ ← Epoller.remove control l.wakeup_filed e₁
    ok (record l { epoller = e₂; registered = false })

  unfoldable pub is_loop_thread : ℕ → EventLoop T → Bool
  is_loop_thread tid l = l.thread_id == tid

  unfoldable pub wakeup : EventLoop T → EventLoop T
  wakeup l = record l { signals = l.signals + 1 }

  -- The handler of `wakeupFd_` writes to it, as `wakeup` does.
  unfoldable pub handel_wakeup_read : EventLoop T → EventLoop T
  handel_wakeup_read l = record l { signals = l.signals + 1 }

  unfoldable pub stop : ℕ → EventLoop T → EventLoop T
  stop tid l =
      let l' = record l { quit = true } in if not (is_loop_thread tid l') then wakeup l' else l'

  -- The part of `queueinLoop` under the lock, and the part behind it.
  unfoldable pub push_pending : T → EventLoop T → EventLoop T
  push_pending cb l = record l { pend_funcs = l.pend_funcs ++ (cb ∷ []) }

  unfoldable pub wakeup_if_needed : ℕ → EventLoop T → EventLoop T
  wakeup_if_needed tid l = if not (is_loop_thread tid l) || l.is_call_pend_func then wakeup l else l

  unfoldable pub queue_in_loop : ℕ → T → EventLoop T → EventLoop T
  queue_in_loop tid cb l = wakeup_if_needed tid (push_pending cb l)

  unfoldable pub update : Control → ℕ → EventLoop T → Result (EventLoop T)
  update control p l = do e ← Epoller.update control p l.epoller; ok (record l { epoller = e })

  unfoldable pub remove : Control → ℕ → EventLoop T → Result (EventLoop T)
  remove control p l = do e ← Epoller.remove control p l.epoller; ok (record l { epoller = e })

  -- The swap at the start of `doPendFunc`, and its end.
  unfoldable pub take_pending : EventLoop T → List T × EventLoop T
  take_pending l = (l.pend_funcs, record l { is_call_pend_func = true; pend_funcs = [] })

  unfoldable pub end_pending : EventLoop T → EventLoop T
  end_pending l = record l { is_call_pend_func = false }

-- `W` is the state that callbacks and handlers change; `loop_of` finds the loop in it, and
-- `with_loop` puts one there. `exec` runs a callback on the loop's thread, and `handle` is
-- `handleEvent` of a Filed at the time of the events.
module _ {T W : Type 0} (loop_of : W → EventLoop T) (with_loop : EventLoop T → W → W)
    (exec : T → W → Result W) (handle : ℕ → ℕ → W → Result W) where
  pub run_in_loop : ℕ → T → W → Result W
  run_in_loop tid cb w =
      if is_loop_thread tid (loop_of w)
      then exec cb w
      else ok (with_loop (queue_in_loop tid cb (loop_of w)) w)

  pub run_functors : List T → W → Result W
  run_functors [] w = ok w
  run_functors (functor ∷ functors) w = do w' ← exec functor w; run_functors functors w'

  pub do_pend_func : W → Result W
  do_pend_func w = do
    let (functors, l) = take_pending (loop_of w)
    w₁ ← run_functors functors (with_loop l w)
    ok (with_loop (end_pending (loop_of w₁)) w₁)

  pub handle_active : List ℕ → W → Result W
  handle_active [] w = ok w
  handle_active (p ∷ ps) w = do w' ← handle p (loop_of w).epoll_return_time w; handle_active ps w'

  -- One round of the `while` loop; `wait` is what `epoll_wait` does in it, at the time `now`.
  pub round : Waited × ℕ → W → Result W
  round (wait, now) w = do
    (report, active, e) ← Epoller.epoll wait [] (loop_of w).epoller
    let l = record (loop_of w) { epoller = e; active_fileds = active; epoll_return_time = now }
    w₁ ← handle_active active (with_loop l w)
    do_pend_func w₁

  -- The loop over the waits to come; it runs out of them only by waiting for ever.
  pub rounds : List (Waited × ℕ) → W → Result W
  rounds [] w = ok w
  rounds (wait ∷ waits) w = elim (loop_of w).quit [
    | true ↦ ok (with_loop (record (loop_of w) { looping = false }) w)
    | false ↦ round wait w >>= λ w'. rounds waits w'
  ]

  pub loop : List (Waited × ℕ) → W → Result W
  loop waits w = rounds waits (with_loop (record (loop_of w) { looping = true; quit = false }) w)
