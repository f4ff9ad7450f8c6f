-- ===== src/Server/Starting.antt =====
-- The start of the server.
use lucky.Base.{
  ℕ, ◌+◌, ◌≡◌, sym, ◌∙◌, ap, Bool, true, false, ◌==◌, ==_ne, if◌then◌else◌, Option, none, Result,
  ok, ◌>>=◌, bind_ok, ok-injective, Bool-cases, inl, inr, arith,
}
use lucky.Epoller.{Control, put}
use lucky.EventLoop
use lucky.EventLoop.{EventLoop}
use lucky.Connection.{Context, Task, listen_task}
use lucky.Connection.Handlers.{Invocation}
use lucky.ManagerPool
use lucky.Server.{World, start}

module _ (user : ℕ → Invocation → Context → Result Context) (control : Control) (tid : ℕ)
    (listen : EventLoop Task → Result (EventLoop Task)) (start_loop : ℕ → ℕ)
    (has_callback : Bool) where
  -- What the first start makes of the base loop, and of the world with it.
  abbrev listening : World → Result (EventLoop Task)
  listening w =
      let l = w.loops w.server.base_loop in
      if EventLoop.is_loop_thread tid l
      then listen l
      else ok (EventLoop.queue_in_loop tid listen_task l)

  abbrev started_with : World → EventLoop Task → World × Option ℕ
  started_with w l =
      let (pool, called) = ManagerPool.start start_loop has_callback w.server.pool in
      (
        record w {
          server = record (w.server) { started = w.server.started + 1; pool = pool };
          loops = put w.loops w.server.base_loop l;
        },
        called,
      )

  start_first :
      (w : World)
      → (w.server.started == 0) ≡ true
      → start user control tid listen start_loop has_callback w
        ≡ (listening w >>= λ l. ok (started_with w l))
  unfolding start
  start_first w first = simp first

  start_later :
      (w : World)
      → (w.server.started == 0) ≡ false
      → start user control tid listen start_loop has_callback w
        ≡ ok (record w { server = record (w.server) { started = w.server.started + 1 } }, none)
  unfolding start
  start_later w later = simp later

  -- Each start counts.
  start-started :
      (w : World) (r : World × Option ℕ)
      → start user control tid listen start_loop has_callback w ≡ ok r
      → r.0.server.started ≡ w.server.started + 1
  start-started w r done = elim (Bool-cases (w.server.started == 0)) [
    | inl first ↦
        let (l, listened, made) =
          bind_ok (listening w) (λ l. ok (started_with w l)) (sym (start_first w first) ∙ done) in
        ap (λ r. r.0.server.started) (sym (ok-injective made))
    | inr later ↦
        ap (λ r. r.0.server.started) (sym (ok-injective (sym (start_later w later) ∙ done)))
  ]

  -- After a start of the server that returned, a second one returns, too, and does no more than to
  -- count: no thread is started and nothing listens twice.
  start_again :
      (w : World) (r : World × Option ℕ)
      → start user control tid listen start_loop has_callback w ≡ ok r
      → start user control tid listen start_loop has_callback r.0
        ≡ ok
            (record (r.0) { server = record (r.0.server) { started = w.server.started + 2 } }, none)
  start_again w r done =
      let counted : r.0.server.started ≡ w.server.started + 1 = start-started w r done in
      let sum : r.0.server.started + 1 ≡ w.server.started + 2 = omega arith in
      start_later r.0 (==_ne r.0.server.started 0 (omega arith))
      ∙ (λ i. ok (record (r.0) { server = record (r.0.server) { started = sum i } }, none))
