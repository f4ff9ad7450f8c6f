-- ===== src/Server/Calls.antt =====
-- The calls that wait in a loop, as src/Connection.cpp and src/Server.cpp bind them, and what they
-- do to any loop's queue and signals.
use lucky.Base.{ℕ, ◌≡◌, sym, subst, Result, ok, ok-injective, bind_ok, ℕ_discrete}
use lucky.Epoller.{Control, put}
use lucky.Epoller.Consistency.{put_self, put_ne}
use lucky.EventLoop.{EventLoop}
use lucky.EventLoop.Functors.{Adds, queue_in_loop-Adds}
use lucky.Connection.{
  Context, Task, send_task, shutdown_task, write_complete_task, high_water_mark_task,
  established_task, destroyed_task, remove_task, listen_task, shutdown_in_loop, send_in_loop,
}
use lucky.Connection.Handlers.{
  Invocation, on_write_complete, on_high_water_mark, connect_established, connect_destroyed,
}
use lucky.Connection.Calls.{
  AddsTo, epoller-Adds, ok-Adds, shutdown_in_loop-Adds, send_in_loop-Adds, connect_established-Adds,
  connect_destroyed-Adds,
}
use lucky.Server.{World, context, remove_connection_in_loop}
use lucky.Server.Tasks.{Surroundings, on_its_loop, run_task}

-- A loop that is put in the place of another.
put-Adds :
    (io j : ℕ) (l : EventLoop Task) (w : World)
    → Adds (w.loops j) l
    → Adds (w.loops io) (put w.loops j l io)
put-Adds io j l w a = elim (ℕ_discrete io j) [
  | yes same ↦
      subst (λ (k : ℕ). Adds (w.loops k) (put w.loops j l k)) (sym same)
        (subst (Adds (w.loops j)) (sym (put_self w.loops j l)) a)
  | no apart ↦
      subst (Adds (w.loops io)) (sym (put_ne w.loops j io l apart))
        (epoller-Adds (w.loops io) (w.loops io).epoller)
]

on_its_loop-Adds :
    (io id : ℕ) (method : Context → Result Context) (w : World) {w' : World}
    → ((c : Context) → method (context id w) ≡ ok c → AddsTo (context id w) c)
    → on_its_loop id method w ≡ ok w'
    → Adds (w.loops io) (w'.loops io)
on_its_loop-Adds io id method w a done =
    let (c, ran, same) = bind_ok (method (context id w)) _ done in
    subst (λ (x : World). Adds (w.loops io) (x.loops io)) (ok-injective same)
      (put-Adds io (w.owner id) c.eventloop w (a c ran))

module _ (user : ℕ → Invocation → Context → Result Context) (control : Control) (tid : ℕ)
    (at : Surroundings)
    (fair : (cb : ℕ) (how : Invocation) (c c' : Context)
      → user cb how c ≡ ok c'
      → Adds c.eventloop c'.eventloop)
    (listens : (l l' : EventLoop Task) → at.listen l ≡ ok l' → Adds l l') where
  -- Where the user's callbacks and `Acceptor::listen` do no more to a loop than to queue, neither
  -- do the calls that the library binds, whichever loop one looks at.
  pub run_task-Adds :
      (io : ℕ) (task : Task) (w w' : World)
      → run_task user control tid at task w ≡ ok w'
      → Adds (w.loops io) (w'.loops io)
  unfolding run_task remove_connection_in_loop
  run_task-Adds io (send_task id address len) w w' done =
      on_its_loop-Adds io id (send_in_loop control tid at.write at.errno (at.memory address) len) w
        (λ c.
          send_in_loop-Adds control tid at.write at.errno (at.memory address) len (context id w))
        done
  run_task-Adds io (shutdown_task id) w w' done =
      on_its_loop-Adds io id (λ c. ok (shutdown_in_loop c)) w
        (λ c.
          ok-Adds (context id w).eventloop {c₁ = shutdown_in_loop (context id w)}
            (shutdown_in_loop-Adds (context id w)))
        done
  run_task-Adds io (write_complete_task cb id) w w' done =
      on_its_loop-Adds io id (user cb on_write_complete) w
        (λ c ran. fair cb on_write_complete (context id w) c ran) done
  run_task-Adds io (high_water_mark_task cb id size) w w' done =
      on_its_loop-Adds io id (user cb (on_high_water_mark size)) w
        (λ c ran. fair cb (on_high_water_mark size) (context id w) c ran) done
  run_task-Adds io (established_task id) w w' done =
      on_its_loop-Adds io id (connect_established user control) w
        (λ c. connect_established-Adds user control fair (context id w)) done
  run_task-Adds io (destroyed_task id) w w' done =
      on_its_loop-Adds io id (connect_destroyed user control) w
        (λ c. connect_destroyed-Adds user control fair (context id w)) done
  run_task-Adds io (remove_task id) w w' done =
      subst (λ (x : World). Adds (w.loops io) (x.loops io)) (ok-injective done)
        (put-Adds io (w.owner id) _ w
          (queue_in_loop-Adds tid (destroyed_task id) (w.loops (w.owner id))))
  run_task-Adds io listen_task w w' done =
      let (l, ran, same) = bind_ok (at.listen (w.loops w.server.base_loop)) _ done in
      subst (λ (x : World). Adds (w.loops io) (x.loops io)) (ok-injective same)
        (put-Adds io w.server.base_loop l w (listens (w.loops w.server.base_loop) l ran))
