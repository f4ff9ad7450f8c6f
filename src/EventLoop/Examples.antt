-- ===== src/EventLoop/Examples.antt =====
-- The loop's theorems at concrete inputs.
use mathlib.Core.List.{append-nil}
use lucky.Base.{
  ℕ, ◌+◌, ◌≤◌, ◌<◌, ◌≡◌, refl, List, [], ◌∷◌, true, false, ok, replicate, none, ◌==◌, ap, sym, ◌∙◌,
  Result, ok-injective, ◌>>=◌, Bool-cases, inl, inr, arith, pos, if◌then◌else◌,
}
use lucky.Filed
use lucky.Epoller.{Epoller, Waited}
use lucky.EventLoop.{
  EventLoop, push_pending, stop, wakeup, round, loop, wakeup_if_needed, handel_wakeup_read,
  take_pending, is_loop_thread,
}
use lucky.EventLoop.Steps.{
  waiting, handling, calling, World, push, signal, return_wait, wakeup_handler, swap, call, Reach,
  here, next,
}
use lucky.EventLoop.Wakeup.{Awake, no_lost_wakeup, signals-Reach}
use lucky.EventLoop.Pending.{InOrder, Reach-InOrder}
use lucky.EventLoop.Ending.{Quits, loop_ends}
use lucky.EventLoop.Functors.{itself, instead}

abbrev idle_epoller : Epoller
idle_epoller = record {
  event_list = replicate 16 (0, 0);
  fileds = λ fd. none;
  objects = λ p. Filed.init p;
  interest = λ fd. none;
}

-- A loop of thread 1 with the given queue, whose callbacks are numbers.
abbrev idle : List ℕ → EventLoop ℕ
idle pending = record {
  looping = true;
  quit = false;
  thread_id = 1;
  epoll_return_time = 0;
  epoller = idle_epoller;
  wakeup_filed = 3;
  active_fileds = [];
  is_call_pend_func = false;
  pend_funcs = pending;
  signals = 0;
  registered = true;
}

abbrev start : World ℕ
start = record { eventloop = idle []; phase = waiting; wakers = 0; queued = []; ran = [] }

start-Awake : Awake start
start-Awake = record { flag = refl; woken = λ p q. absurd (q refl) }

start-InOrder : InOrder start
start-InOrder = record { accounted = refl }

-- Another thread queues callback 5 while the loop waits, and has not signalled yet.
abbrev pushed : World ℕ
pushed = record {
  eventloop = push_pending 5 (idle []);
  phase = waiting;
  wakers = 1;
  queued = 5 ∷ [];
  ran = [];
}

Reach-pushed : Reach start pushed
Reach-pushed = next here (push 5)

no_lost_wakeup_example : 0 < pushed.eventloop.signals + 1
unfolding push_pending
no_lost_wakeup_example = no_lost_wakeup start-Awake Reach-pushed refl (λ e. cc)

-- The thread signals; the loop wakes, runs the handler of `wakeupFd_`, and then the callback, while
-- callback 6 comes in behind it.
abbrev signalled : World ℕ
signalled = record pushed { eventloop = wakeup_if_needed 2 pushed.eventloop; wakers = 0 }

abbrev awake : World ℕ
awake = record signalled { phase = handling }

abbrev read : World ℕ
read = record awake { eventloop = handel_wakeup_read awake.eventloop }

abbrev swapped : World ℕ
swapped = record read {
  eventloop = (take_pending read.eventloop).1;
  phase = calling (take_pending read.eventloop).0;
}

abbrev called : World ℕ
called = record swapped { phase = calling []; ran = 5 ∷ [] }

abbrev again : World ℕ
again = record called {
  eventloop = push_pending 6 called.eventloop;
  wakers = 1;
  queued = 5 ∷ 6 ∷ [];
}

Reach-read : Reach signalled read
Reach-read = next (next here (return_wait refl)) (wakeup_handler refl)

Reach-again : Reach start again
unfolding push_pending wakeup_if_needed handel_wakeup_read take_pending wakeup is_loop_thread
Reach-again =
    next
      (next
        (next
          (next (next (next Reach-pushed (signal 2 0 (λ e. cc) refl)) (return_wait refl))
            (wakeup_handler refl))
          (swap refl))
        (call 5 [] refl))
      (push 6)

signals-Reach_example : signalled.eventloop.signals ≤ signalled.eventloop.signals + 1
unfolding handel_wakeup_read
signals-Reach_example = signals-Reach Reach-read

Reach-InOrder_example : InOrder again
Reach-InOrder_example = Reach-InOrder start-InOrder Reach-again

-- Callback 9 calls `quit` on the loop's thread, and every other does nothing.
abbrev exec_quit : ℕ → EventLoop ℕ → Result (EventLoop ℕ)
exec_quit cb l = if cb == 9 then ok (stop l.thread_id l) else ok l

abbrev ignore : ℕ → ℕ → EventLoop ℕ → Result (EventLoop ℕ)
ignore p now l = ok l

stop-quit : (tid : ℕ) (l : EventLoop ℕ) → (stop tid l).quit ≡ true
unfolding stop wakeup
stop-quit tid l = ground arith

exec_quit-Quits : Quits itself instead exec_quit ignore 9
exec_quit-Quits = record {
  quits = λ l l' done. ap (λ l. l.quit) (sym (ok-injective done)) ∙ stop-quit l.thread_id l;
  keeps = λ cb l l' done e. elim (Bool-cases (cb == 9)) [
    | inl same ↦
        ap (λ l. l.quit)
          (sym (
            ok-injective (sym (ap (λ b. if b then ok (stop l.thread_id l) else ok l) same) ∙ done)))
        ∙ stop-quit l.thread_id l
    | inr other ↦
        ap (λ l. l.quit)
          (sym (
            ok-injective
              (sym (ap (λ b. if b then ok (stop l.thread_id l) else ok l) other) ∙ done)))
        ∙ e
  ];
  found = λ l old. refl;
  adds = λ p now l l' done.
      ([], ap (λ l. l.pend_funcs) (sym (ok-injective done)) ∙ sym (append-nil l.pend_funcs));
}

abbrev timed_out : Waited
timed_out = record { result = pos 0; ready = []; errno = 0 }

loop_ends_example :
    loop itself instead exec_quit ignore ((timed_out, 5) ∷ (timed_out, 6) ∷ []) (idle (3 ∷ 9 ∷ []))
    ≡ (round itself instead exec_quit ignore (timed_out, 5) (idle (3 ∷ 9 ∷ [])) >>= λ l'.
        ok (record l' { looping = false }))
loop_ends_example =
    loop_ends itself instead exec_quit ignore 9 exec_quit-Quits (timed_out, 5) (timed_out, 6) []
      (3 ∷ []) [] (idle (3 ∷ 9 ∷ [])) refl
