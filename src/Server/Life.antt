-- ===== src/Server/Life.antt =====
-- The end of a connection, over the two loops that it takes: the close on the loop of the
-- connection, the removal on the base loop, and the take-down on the loop of the connection again.
use lucky.Base.{ℕ, ◌≡◌, ◌≢◌, refl, sym, ◌∙◌, ap, subst, false, none, some, Result, ok, ◌>>=◌}
use lucky.Filed.{none_event}
use lucky.Filed.Dispatch.{SameHandlers}
use lucky.Filed.Masks.{Interest}
use lucky.Epoller.{Control, put}
use lucky.Epoller.Consistency.{Documented, put_self, put_ne}
use lucky.Epoller.Runs.{InStep}
use lucky.EventLoop
use lucky.EventLoop.{EventLoop}
use lucky.Connection.{Context, Task, filed_of, queue, destroyed_task, remove_task}
use lucky.Connection.Handlers.{
  Invocation, on_connection, on_close, invoke, handle_close, connect_destroyed,
}
use lucky.Connection.Stream.{Sound, SameConn, SameConn-filed, queue-SameConn}
use lucky.Connection.Lifecycle.{Polite, handle_close_lem, connect_destroyed_lem}
use lucky.Server.{lookup, World, context, put_context, remove_connection, remove_connection_in_loop}
use lucky.Server.Handing.{context-put}
use lucky.Server.Names.{Named}
use lucky.Server.Removing.{Queued, queue_in_loop-Queued, in_loop-Removed}
use lucky.Server.Tasks.{Surroundings, but_close, close_connection, run_task}

-- A loop other than the connection's own is no part of its context.
context-other :
    (id p : ℕ) (l : EventLoop Task) (w : World)
    → w.owner id ≢ p
    → context id (record w { loops = put w.loops p l }) ≡ context id w
context-other id p l w apart =
    λ i. record (context id w) { eventloop = put_ne w.loops p (w.owner id) l apart i }

-- Neither the Epoller nor the kernel knows the descriptor of the connection.
abbrev pub Unknown : Context → Type 0
Unknown c =
    (c.eventloop.epoller.fileds (filed_of c).fd ≡ none)
    × (c.eventloop.epoller.interest (filed_of c).fd ≡ none)

module _ (user : ℕ → Invocation → Context → Result Context) (control : Control)
    (doc : Documented control) where
  -- A connection callback that returns and may queue callbacks, and does not touch the connection.
  abbrev pub Aloof : ℕ → Type 0
  Aloof cb = (c : Context) → (c' : Context) × (user cb on_connection c ≡ ok c') × SameConn c c'

  Aloof-Polite : (cb : ℕ) → Aloof cb → Polite user control doc cb
  Aloof-Polite cb aloof c s =
      let (c', called, same) = aloof c in
      (c', called, subst InStep (sym same.epoller) s, ap (λ conn. conn.filed) same.conn)

  -- A closed connection: nothing is asked for, as the kernel knows.
  record Closed (cb : ℕ) (c c₂ : Context) : Type 0 where
    in_step : InStep c₂.eventloop.epoller
    asks : (filed_of c₂).events ≡ none_event
    handlers : SameHandlers (filed_of c) (filed_of c₂)
    place : c₂.conn.filed ≡ c.conn.filed
    callback : c₂.conn.connection_callback ≡ some cb
    name : c₂.conn.name ≡ c.conn.name

  handle_close-Closed :
      (tid cb r : ℕ) (c : Context)
      → Sound c
      → c.conn.connection_callback ≡ some cb
      → c.conn.close_callback ≡ some r
      → Aloof cb
      → (c₂ : Context) × (handle_close (but_close user control tid) control c ≡ ok c₂)
        × Closed cb c c₂
  unfolding invoke
  handle_close-Closed tid cb r c s tells closes aloof =
      let calls = but_close user control tid in
      let (c₁, done, found) = handle_close_lem calls control doc c s in
      let (c₂, called, same) = aloof c₁ in
      let conn = same.conn ∙ found.conn in
      (
        c₂,
        done
            ∙ ap
                (λ set. invoke calls set on_connection c₁ >>= λ c₂.
                  invoke calls c₂.conn.close_callback on_close c₂)
                tells
            ∙ ap (λ out. out >>= λ c₂. invoke calls c₂.conn.close_callback on_close c₂) called
            ∙ ap (λ set. invoke calls set on_close c₂)
                (ap (λ conn. conn.close_callback) conn ∙ closes),
        record {
          in_step = subst InStep (sym same.epoller) found.in_step;
          asks = (λ i. ((same.epoller i).objects (same.conn i).filed).events) ∙ found.asks;
          handlers =
              subst (λ f. SameHandlers (filed_of c) f) (sym (SameConn-filed same)) found.handlers;
          place = ap (λ conn. conn.filed) conn;
          callback = ap (λ conn. conn.connection_callback) conn ∙ tells;
          name = ap (λ conn. conn.name) conn;
        },
      )

  -- The removal leaves the connection as it is, with its take-down in its loop's queue.
  context-removed :
      (tid id : ℕ) (w : World)
      → context id (remove_connection_in_loop user control tid id w)
        ≡ queue tid (destroyed_task id) (context id w)
  unfolding remove_connection_in_loop queue
  context-removed tid id w = λ i. record (context id w) {
    eventloop =
        put_self w.loops (w.owner id)
          (EventLoop.queue_in_loop tid (destroyed_task id) (w.loops (w.owner id))) i;
  }

  -- The take-down of a closed connection, from the queue of its loop.
  destroyed-Closed :
      (tid_io tid_b id cb : ℕ) (at : Surroundings) (c : Context) (w : World)
      → Closed cb c (context id w)
      → Aloof cb
      → let w₂ = remove_connection_in_loop user control tid_b id w in
        (w₃ : World) × (run_task user control tid_io at (destroyed_task id) w₂ ≡ ok w₃)
        × Unknown (context id w₃)
  unfolding run_task
  destroyed-Closed tid_io tid_b id cb at c w d aloof =
      let w₂ : World = remove_connection_in_loop user control tid_b id w in
      let c₂ : Context = queue tid_b (destroyed_task id) (context id w) in
      let same : SameConn (context id w) c₂ =
        queue-SameConn tid_b (destroyed_task id) (context id w) in
      let nothing : Interest = record { reading = false; writing = false } in
      let (c₃, done, _, gone, unwatched) =
        connect_destroyed_lem user control doc c₂ nothing cb
          (subst InStep (sym same.epoller) d.in_step)
          ((λ i. ((same.epoller i).objects (same.conn i).filed).events) ∙ d.asks)
          (ap (λ conn. conn.connection_callback) same.conn ∙ d.callback) (Aloof-Polite cb aloof) in
      let at_end = context-put id c₃ w₂ in
      (
        put_context id c₃ w₂,
        ap (λ c. connect_destroyed user control c >>= λ c₃. ok (put_context id c₃ w₂))
              (context-removed tid_b id w)
            ∙ ap (λ out. out >>= λ c₃. ok (put_context id c₃ w₂)) done,
        subst Unknown (sym at_end) (gone, unwatched),
      )

  -- On another thread than the base loop's, the removal waits for the base loop.
  remove_elsewhere :
      (tid id : ℕ) (w : World)
      → EventLoop.is_loop_thread tid (w.loops w.server.base_loop) ≡ false
      → remove_connection user control tid id w ≡ record w {
        loops =
            put w.loops w.server.base_loop
              (EventLoop.queue_in_loop tid (remove_task id) (w.loops w.server.base_loop));
      }
  unfolding remove_connection
  remove_elsewhere tid id w elsewhere = rw elsewhere refl

  -- A sound connection of a server whose names are in order, on a loop other than the base loop,
  -- with a close callback and a connection callback that leaves it alone, and `epoll_ctl` as
  -- documented: when the thread of its loop handles its close, this returns, and the base loop gets
  -- the removal behind what waits there, with the signal that it needs, while the connection's
  -- Filed keeps its handlers; when that runs, the name is
  -- out of the map, and the connection's loop gets the take-down, with the signal that it needs;
  -- and when that runs, neither the connection's Epoller nor the kernel knows its descriptor.
  pub close_connection_lem :
      (tid_io tid_b id cb r : ℕ) (at : Surroundings) (w : World)
      → Named w.server
      → Sound (context id w)
      → w.owner id ≢ w.server.base_loop
      → EventLoop.is_loop_thread tid_io (w.loops w.server.base_loop) ≡ false
      → (w.conns id).connection_callback ≡ some cb
      → (w.conns id).close_callback ≡ some r
      → Aloof cb
      → let base = w.server.base_loop in
        let io = w.owner id in
        (w₁ w₂ w₃ : World) × (close_connection user control tid_io id w ≡ ok w₁)
        × Queued tid_io (remove_task id) (w.loops base) (w₁.loops base)
        × SameHandlers (filed_of (context id w)) ((w₁.loops io).epoller.objects (w.conns id).filed)
        × (run_task user control tid_b at (remove_task id) w₁ ≡ ok w₂)
        × (lookup (w.conns id).name w₂.server.connections ≡ none)
        × Queued tid_b (destroyed_task id) (w₁.loops io) (w₂.loops io)
        × (run_task user control tid_io at (destroyed_task id) w₂ ≡ ok w₃)
        × Unknown (context id w₃)
  unfolding close_connection run_task
  close_connection_lem tid_io tid_b id cb r at w n s apart elsewhere tells closes aloof =
      let base = w.server.base_loop in
      let (c, done, d) = handle_close-Closed tid_io cb r (context id w) s tells closes aloof in
      let w' : World = put_context id c w in
      let kept : w'.loops base ≡ w.loops base =
        put_ne w.loops (w.owner id) base c.eventloop (λ e. apart (sym e)) in
      let asked : EventLoop Task =
        EventLoop.queue_in_loop tid_io (remove_task id) (w'.loops base) in
      let w₁ : World = record w' { loops = put w'.loops base asked } in
      let here : context id w₁ ≡ c = context-other id base asked w' apart ∙ context-put id c w in
      let removed = in_loop-Removed user control tid_b id w₁ n in
      let (w₃, ended, unknown) =
        destroyed-Closed tid_io tid_b id cb at (context id w) w₁
          (subst (λ c₂. Closed cb (context id w) c₂) (sym here) d) aloof in
      (
        w₁,
        remove_connection_in_loop user control tid_b id w₁,
        w₃,
        ap (λ out. out >>= λ c. ok (remove_connection user control tid_io id (put_context id c w)))
              done
            ∙ ap ok (
                remove_elsewhere tid_io id w'
                  (ap (EventLoop.is_loop_thread tid_io) kept ∙ elsewhere)),
        subst (λ l. Queued tid_io (remove_task id) l (w₁.loops base)) kept
            (subst (λ l. Queued tid_io (remove_task id) (w'.loops base) l)
              (sym (put_self w'.loops base asked))
              (queue_in_loop-Queued tid_io (remove_task id) (w'.loops base))),
        subst
            (λ p.
              SameHandlers (filed_of (context id w)) ((w₁.loops (w.owner id)).epoller.objects p))
            (ap (λ c. c.conn.filed) here ∙ d.place)
            (subst (λ c. SameHandlers (filed_of (context id w)) (filed_of c)) (sym here)
              d.handlers),
        refl,
        ap
              (λ label.
                lookup label
                  (remove_connection_in_loop user control tid_b id w₁).server.connections)
              (sym (ap (λ c. c.conn.name) here ∙ d.name))
            ∙ removed.gone,
        removed.queued,
        ended,
        unknown,
      )
