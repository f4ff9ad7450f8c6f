-- ===== src/Server/Newborn.antt =====
-- The connection that `newConnection` makes, as its loop finds it.
use lucky.Base.{
  subst, sym, ℕ, ◌+◌, ◌-◌, ◌^◌, ◌<◌, ◌≡◌, refl, ◌∙◌, ap, false, some, ◌==◌, lt→ltb, arith, Result,
  ok,
}
use lucky.Address.{Address}
use lucky.Buffer.Content.{fresh, init-fresh}
use lucky.Filed
use lucky.Epoller.{Control, put, set_object}
use lucky.Epoller.Consistency.{put_self}
use lucky.EventLoop
use lucky.EventLoop.{EventLoop}
use lucky.Connection
use lucky.Connection.{Context, Task, queue, established_task, filed_of}
use lucky.Connection.Handlers.{Invocation, connect_established}
use lucky.ManagerPool
use lucky.ManagerPool.{ManagerPool}
use lucky.Server
use lucky.Server.{
  Text, lookup, assign, Server, World, Fresh, context, put_context, next_id, with_callbacks,
  make_connection, new_connection,
}
use lucky.Server.Accepting.{made}
use lucky.Server.Names.{lookup-assign_self}
use lucky.Server.Removing.{Queued, queue_in_loop-Queued}
use lucky.Server.Handing.{run_elsewhere, context-put}

-- The connection with the pointers `born` on the loop `l`.
abbrev pub newborn : Server → Fresh → ℕ → Text → ℕ → Address → Address → EventLoop Task → Context
newborn s born on_remove label sockfd local_addr peer_addr l =
    let c : Context =
      made (fresh 1032) born.id label born.filed local_addr peer_addr
        (record l { epoller = set_object born.filed (Filed.init sockfd) l.epoller }) in
    record c { conn = with_callbacks s on_remove c.conn }

init-made :
    (id : ℕ) (label : Text) (p : ℕ) (local_addr peer_addr : Address) (l : EventLoop Task)
    → Connection.init id label p local_addr peer_addr (some l)
      ≡ ok (made (fresh 1032) id label p local_addr peer_addr l)
unfolding Connection.init
init-made id label p local_addr peer_addr l = rw (init-fresh 1024 (omega arith)) refl

module _ (user : ℕ → Invocation → Context → Result Context) (control : Control) (tid : ℕ)
    (born : Fresh) (on_remove sockfd : ℕ) (local_addr peer_addr : Address) (w : World) where
  pub new_connection-newborn :
      (io : ℕ) (pool : ManagerPool)
      → w.server.next_conn_id + 1 < 2 ^ 31
      → ManagerPool.get_next_loop w.server.pool ≡ ok (io, pool)
      → EventLoop.is_loop_thread tid (w.loops io) ≡ false
      → let label = Server.conn_name w.server w.server.next_conn_id in
        (w' : World) × (new_connection user control tid born on_remove sockfd local_addr peer_addr w
          ≡ ok w')
        × (context born.id w'
            ≡ queue tid
                (established_task born.id)
                (newborn w.server born on_remove label sockfd local_addr peer_addr (w.loops io)))
        × (lookup label w'.server.connections ≡ some born.id)
        × Queued tid (established_task born.id) (w.loops io) (w'.loops io)
  unfolding new_connection make_connection next_id EventLoop.is_loop_thread with_callbacks queue
  new_connection-newborn io pool small dealt elsewhere =
      let label : Text = Server.conn_name w.server w.server.next_conn_id in
      let l : EventLoop Task = w.loops io in
      let s : Server = record (w.server) {
        pool = pool;
        next_conn_id = w.server.next_conn_id + 1;
        connections = assign label born.id w.server.connections;
      } in
      let c : Context = newborn w.server born on_remove label sockfd local_addr peer_addr l in
      let waiting = queue_in_loop-Queued tid (established_task born.id) c.eventloop in
      let waits : Queued tid (established_task born.id) l
          (queue tid (established_task born.id) c).eventloop =
        record { pend_funcs = waiting.pend_funcs; signals = waiting.signals } in
      let before : World = record w { server = s; owner = put w.owner born.id io } in
      let w₁ : World = put_context born.id c before in
      let at : context born.id w₁ ≡ c = context-put born.id c before in
      let (w', done, h) =
        run_elsewhere tid born.id (established_task born.id) (connect_established user control) w₁
          (ap (λ c. c.eventloop.thread_id == tid) at ∙ elsewhere) in
      (
        w',
        rw
            (
              dealt,
              lt→ltb w.server.next_conn_id (2 ^ 31 - 1) (omega arith),
              init-made born.id label born.filed local_addr peer_addr
                  (record l { epoller = set_object born.filed (Filed.init sockfd) l.epoller }),
            )
            done,
        h.whole ∙ ap (queue tid (established_task born.id)) at,
        ap (λ (s : Server). lookup label s.connections) h.server
            ∙ lookup-assign_self label born.id w.server.connections,
        subst (Queued tid (established_task born.id) l)
            (sym (
              ap (λ (k : ℕ). w'.loops k)
                (sym (ap (λ f. f born.id) h.owner ∙ put_self w.owner born.id io))
              ∙ ap (λ c. c.eventloop) (h.whole ∙ ap (queue tid (established_task born.id)) at)))
            waits,
      )
