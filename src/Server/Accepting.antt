-- ===== src/Server/Accepting.antt =====
-- `newConnection`, for a connection that goes to a loop of another thread.
use lucky.Base.{
  ℕ, ◌+◌, ◌-◌, ◌*◌, ◌^◌, ◌<◌, ◌≡◌, ◌≢◌, refl, sym, ◌∙◌, ap, subst, [], ◌∷◌, ◌++◌, true, false, ◌==◌,
  none, some, arith, length, lt→ltb, Result, ok, inl, inr,
}
use lucky.Address.{Address}
use lucky.Buffer
use lucky.Buffer.Content.{IsValid, content, init_lem}
use lucky.Filed
use lucky.Filed.{connection_read, connection_write, connection_close, connection_error}
use lucky.Epoller.{Control, put, set_object}
use lucky.Epoller.Consistency.{put_self, put_ne}
use lucky.EventLoop
use lucky.EventLoop.{EventLoop}
use lucky.Connection
use lucky.Connection.{Connection, Context, Task, connecting, established_task}
use lucky.Connection.Handlers.{Invocation, connect_established}
use lucky.ManagerPool
use lucky.ManagerPool.{ManagerPool}
use lucky.Server
use lucky.Server.{
  Text, lookup, assign, Server, World, Fresh, context, put_context, next_id, with_callbacks,
  make_connection, new_connection, run_in_loop, eq_text,
}
use lucky.Server.Handing.{run_elsewhere}
use lucky.Server.Names.{Named, next-unused, lookup-assign_self, lookup-assign_other, text_cases}

-- What the constructor of a Connection leaves behind.
pub record Made (name : Text) (l : EventLoop Task) (c : Context) : Type 0 where
  pub named : c.conn.name ≡ name
  pub state : c.conn.state ≡ connecting
  pub output : IsValid c.conn.output_buffer × (content c.conn.output_buffer ≡ [])
  pub input : IsValid c.conn.input_buffer × (content c.conn.input_buffer ≡ [])
  pub thread_id : c.eventloop.thread_id ≡ l.thread_id
  pub pend_funcs : c.eventloop.pend_funcs ≡ l.pend_funcs
  pub signals : c.eventloop.signals ≡ l.signals
  pub nothing_sent : c.wire ≡ []

abbrev pub made : Buffer.Buffer → ℕ → Text → ℕ → Address → Address → EventLoop Task → Context
made b id name p local_addr peer_addr l = record {
  conn = record {
    id = id;
    name = name;
    state = connecting;
    reading = true;
    filed = p;
    local_addr = local_addr;
    peer_addr = peer_addr;
    connection_callback = none;
    message_callback = none;
    write_complete_callback = none;
    close_callback = none;
    high_water_mark_callback = none;
    high_water_mark = 64 * 1024 * 1024;
    keep_alive = true;
    input_buffer = b;
    output_buffer = b;
  };
  eventloop = record l {
    epoller =
        set_object p
          (Filed.set_error_callback (connection_error id) (
            Filed.set_close_callback (connection_close id) (
              Filed.set_write_callback (connection_write id)
                (Filed.set_read_callback (connection_read id) (l.epoller.objects p)))))
          l.epoller;
  };
  wire = [];
  write_shut = false;
}

Connection-init :
    (id : ℕ) (name : Text) (p : ℕ) (local_addr peer_addr : Address) (l : EventLoop Task)
    → (c : Context) × (Connection.init id name p local_addr peer_addr (some l) ≡ ok c)
      × Made name l c
unfolding Connection.init
Connection-init id name p local_addr peer_addr l =
    let (b, done, valid, empty, _) = init_lem 1024 (omega arith) in
    (
      made b id name p local_addr peer_addr l,
      rw done refl,
      record {
        named = refl;
        state = refl;
        output = (valid, empty);
        input = (valid, empty);
        thread_id = refl;
        pend_funcs = refl;
        signals = refl;
        nothing_sent = refl;
      },
    )

-- What a connection that goes to the loop `io` leaves behind.
pub record Accepted (io id on_remove : ℕ) (label : Text) (w w' : World) : Type 0 where
  pub named : Named w'.server
  pub unused : lookup label w.server.connections ≡ none
  pub found : lookup label w'.server.connections ≡ some id
  pub others :
      (l : Text) → label ≢ l → lookup l w'.server.connections ≡ lookup l w.server.connections
  pub owner : w'.owner id ≡ io
  pub queued : (w'.loops io).pend_funcs ≡ (w.loops io).pend_funcs ++ (established_task id ∷ [])
  pub woken : (w'.loops io).signals ≡ (w.loops io).signals + 1
  pub loops : (j : ℕ) → j ≢ io → w'.loops j ≡ w.loops j
  pub conn_name : (w'.conns id).name ≡ label
  pub state : (w'.conns id).state ≡ connecting
  pub closes : (w'.conns id).close_callback ≡ some on_remove
  pub connection_callback : (w'.conns id).connection_callback ≡ w.server.connection_callback
  pub message_callback : (w'.conns id).message_callback ≡ w.server.message_callback
  pub write_complete_callback :
      (w'.conns id).write_complete_callback ≡ w.server.write_complete_callback

-- The server with one more connection, under its next name.
Named-next :
    (s s' : Server) (id : ℕ)
    → Named s
    → s.next_conn_id + 1 < 2 ^ 31
    → s'.ip_port ≡ s.ip_port
    → s'.name ≡ s.name
    → s'.next_conn_id ≡ s.next_conn_id + 1
    → s'.connections ≡ assign (Server.conn_name s s.next_conn_id) id s.connections
    → Named s'
unfolding Server.conn_name
Named-next s s' id n small address name next connections = record {
  short = omega (arith, ap length address, n.short);
  bounded = omega arith;
  numbered = λ label found at. elim (text_cases (Server.conn_name s s.next_conn_id) label) [
    | inl same ↦ (s.next_conn_id, omega arith, sym same ∙ sym (renamed s.next_conn_id))
    | inr apart ↦
        let (k, less, named) = n.numbered label found (
          sym (lookup-assign_other (Server.conn_name s s.next_conn_id) label id s.connections apart)
          ∙ ap (lookup label) (sym connections)
          ∙ at) in
        (k, omega arith, named ∙ sym (renamed k))
  ];
}
  where
    renamed : (k : ℕ) → Server.conn_name s' k ≡ Server.conn_name s k
    renamed k = rw (address, name) refl

module _ (user : ℕ → Invocation → Context → Result Context) (control : Control) (tid : ℕ)
    (fresh : Fresh) (on_remove sockfd : ℕ) (local_addr peer_addr : Address) (w : World) where
  -- A connection that goes to a loop of another thread: `newConnection` returns; the connection's
  -- name, made from the next number, was not in use and finds it afterwards, and the other names
  -- are as they were; the loop that was dealt has one more callback, behind those that wait, and
  -- one more signal, and no other loop is touched; and the connection is connecting, with the
  -- server's connection, message and write-complete callbacks and the close callback. It is assumed
  -- that the names were made this way so far, and that the number does not overflow an `int`.
  pub new_connection_lem :
      (io : ℕ) (pool : ManagerPool)
      → Named w.server
      → w.server.next_conn_id + 1 < 2 ^ 31
      → ManagerPool.get_next_loop w.server.pool ≡ ok (io, pool)
      → EventLoop.is_loop_thread tid (w.loops io) ≡ false
      → (w' : World) × (new_connection user control tid fresh on_remove sockfd local_addr peer_addr
            w
          ≡ ok w')
        × Accepted io fresh.id on_remove (Server.conn_name w.server w.server.next_conn_id) w w'
  unfolding new_connection make_connection next_id with_callbacks EventLoop.is_loop_thread
      Connection.set_close_callback Connection.set_write_complete_callback
      Connection.set_message_callback Connection.set_connection_callback
  new_connection_lem io pool n small dealt elsewhere =
      let label : Text = Server.conn_name w.server w.server.next_conn_id in
      let l : EventLoop Task = w.loops io in
      let (c, init_done, m) =
        Connection-init fresh.id label fresh.filed local_addr peer_addr
          (record l { epoller = set_object fresh.filed (Filed.init sockfd) l.epoller }) in
      let s : Server = record (w.server) {
        pool = pool;
        next_conn_id = w.server.next_conn_id + 1;
        connections = assign label fresh.id w.server.connections;
      } in
      let conn : Connection = with_callbacks s on_remove c.conn in
      let w₁ : World =
        put_context fresh.id (record c { conn = conn })
          (record w { server = s; owner = put w.owner fresh.id io }) in
      let owner : w₁.owner fresh.id ≡ io = put_self w.owner fresh.id io in
      let at_loop : w₁.loops io ≡ c.eventloop =
        ap (λ k. put w.loops k c.eventloop io) owner ∙ put_self w.loops io c.eventloop in
      let elsewhere₁ : EventLoop.is_loop_thread tid (w₁.loops (w₁.owner fresh.id)) ≡ false =
        ap (λ k. EventLoop.is_loop_thread tid (w₁.loops k)) owner
        ∙ ap (EventLoop.is_loop_thread tid) at_loop
        ∙ ap (λ k. k == tid) m.thread_id
        ∙ elsewhere in
      let at_conn : w₁.conns fresh.id ≡ conn = put_self w.conns fresh.id conn in
      let (w', done, h) =
        run_elsewhere tid fresh.id (established_task fresh.id) (connect_established user control) w₁
          elsewhere₁ in
      (
        w',
        rw (dealt, lt→ltb w.server.next_conn_id (2 ^ 31 - 1) (omega arith), init_done) done,
        record {
          named =
              subst Named (sym h.server)
                (Named-next w.server s fresh.id n small refl refl refl refl);
          unused = next-unused w.server n;
          found =
              ap (λ s. lookup label s.connections) h.server
              ∙ lookup-assign_self label fresh.id w.server.connections;
          others = λ k apart.
              ap (λ s. lookup k s.connections) h.server
              ∙ lookup-assign_other label k fresh.id w.server.connections apart;
          owner = ap (λ f. f fresh.id) h.owner ∙ owner;
          queued =
              ap (λ k. (w'.loops k).pend_funcs) (sym owner)
              ∙ h.queued
              ∙ ap (λ k. (w₁.loops k).pend_funcs ++ (established_task fresh.id ∷ [])) owner
              ∙ ap (λ x. x.pend_funcs ++ (established_task fresh.id ∷ [])) at_loop
              ∙ ap (λ fs. fs ++ (established_task fresh.id ∷ [])) m.pend_funcs;
          woken =
              ap (λ k. (w'.loops k).signals) (sym owner)
              ∙ h.woken
              ∙ ap (λ k. (w₁.loops k).signals + 1) owner
              ∙ ap (λ x. x.signals + 1) at_loop
              ∙ ap (λ k. k + 1) m.signals;
          loops = λ j apart.
              h.loops j (λ e. apart (e ∙ owner))
              ∙ put_ne w.loops (w₁.owner fresh.id) j c.eventloop (λ e. apart (e ∙ owner));
          conn_name = ap (λ x. x.name) (h.conn ∙ at_conn) ∙ m.named;
          state = ap (λ x. x.state) (h.conn ∙ at_conn) ∙ m.state;
          closes = ap (λ x. x.close_callback) (h.conn ∙ at_conn);
          connection_callback = ap (λ x. x.connection_callback) (h.conn ∙ at_conn);
          message_callback = ap (λ x. x.message_callback) (h.conn ∙ at_conn);
          write_complete_callback = ap (λ x. x.write_complete_callback) (h.conn ∙ at_conn);
        },
      )
