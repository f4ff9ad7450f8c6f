-- ===== src/EchoServer/Accepted.antt =====
-- The echo server from `newConnection` on the base loop to the events on the connection's loop.
use lucky.Base.{
  Bool, ℕ, ◌+◌, ◌^◌, ◌≤◌, ◌<◌, ◌≡◌, refl, sym, ◌∙◌, ap, subst, List, [], true, false, some, ◌==◌,
  arith, length, Result, ok, ◌>>=◌,
}
use lucky.Address.{Address}
use lucky.Buffer
use lucky.Buffer.{Sent, cheap_prepend, max_size}
use lucky.Buffer.Content.{IsValid, content, fresh, fresh-IsValid}
use lucky.Filed
use lucky.Filed.{Filed, connection_read, connection_write}
use lucky.Epoller.{Control}
use lucky.Epoller.Consistency.{Documented}
use lucky.Epoller.Newcomer.{Unseen, Joins, Joins-InStep}
use lucky.Epoller.Runs.{InStep}
use lucky.EventLoop
use lucky.EventLoop.{EventLoop}
use lucky.Connection
use lucky.Connection.{Connection, Context, Task, queue, established_task, filed_of}
use lucky.Connection.Handlers.{Invocation}
use lucky.Connection.Stream.{
  stream, SameConn, SameConn-filed, SameConn-Sound, SameConn-stream, queue-SameConn,
}
use lucky.ManagerPool
use lucky.ManagerPool.{ManagerPool}
use lucky.Server
use lucky.Server.{Text, Server, World, Fresh, lookup, context, new_connection}
use lucky.Server.Removing.{Queued}
use lucky.Server.Tasks.{Surroundings, run_task}
use lucky.Server.Newborn.{newborn, new_connection-newborn}
use lucky.EchoServer
use lucky.EchoServer.{Event, callbacks, serve}
use lucky.EchoServer.Echoing.{AllPlausible, all_arrived}
use lucky.EchoServer.Established.{MadeByEcho, established-serve}

MadeByEcho-SameConn :
    {tid : ℕ} {c c' : Context} → SameConn c c' → MadeByEcho tid c → MadeByEcho tid c'
unfolding EventLoop.is_loop_thread
MadeByEcho-SameConn {tid} {c} {c'} same m =
    let input : c'.conn.input_buffer ≡ c.conn.input_buffer =
      ap (λ conn. conn.input_buffer) same.conn in
    let filed : filed_of c' ≡ filed_of c = SameConn-filed same in
    record {
      sound = SameConn-Sound same m.sound;
      here = ap (λ n. n == tid) same.thread ∙ m.here;
      tells = ap (λ conn. conn.connection_callback) same.conn ∙ m.tells;
      reads =
          ap (λ (f : Filed). f.read_callback) filed
          ∙ m.reads
          ∙ ap (λ (conn : Connection). some (connection_read conn.id)) (sym same.conn);
      writes =
          ap (λ (f : Filed). f.write_callback) filed
          ∙ m.writes
          ∙ ap (λ (conn : Connection). some (connection_write conn.id)) (sym same.conn);
      listens = ap (λ conn. conn.message_callback) same.conn ∙ m.listens;
      input = subst IsValid (sym input) m.input;
      read = ap content input ∙ m.read;
      front = ap (λ b. b.writer_index) input ∙ m.front;
      nothing_owed = SameConn-stream same ∙ m.nothing_owed;
    }

module _ (s : Server) (born : Fresh) (on_remove : ℕ) (label : Text) (sockfd : ℕ)
    (local_addr peer_addr : Address) (l : EventLoop Task) where
  abbrev child : Context
  child = newborn s born on_remove label sockfd local_addr peer_addr l

  -- The new Filed has its place in the Epoller.
  child-Joins : Joins born.filed sockfd l.epoller child.eventloop.epoller
  unfolding Filed.init Filed.set_read_callback Filed.set_write_callback Filed.set_close_callback
      Filed.set_error_callback
  child-Joins = record {
    fd_of = ground arith;
    index_of = ground arith;
    others = λ q apart. ground (arith, apart);
    fileds = refl;
    interest = refl;
  }

  child_asks : (filed_of child).events ≡ 0
  unfolding Filed.init Filed.set_read_callback Filed.set_write_callback Filed.set_close_callback
      Filed.set_error_callback Server.with_callbacks Connection.set_close_callback
      Connection.set_write_complete_callback Connection.set_message_callback
      Connection.set_connection_callback
  child_asks = ground arith

  child_handlers :
      ((filed_of child).read_callback ≡ some (connection_read child.conn.id))
      × ((filed_of child).write_callback ≡ some (connection_write child.conn.id))
  unfolding Filed.init Filed.set_read_callback Filed.set_write_callback Filed.set_close_callback
      Filed.set_error_callback Server.with_callbacks Connection.set_close_callback
      Connection.set_write_complete_callback Connection.set_message_callback
      Connection.set_connection_callback
  child_handlers = (ground arith, ground arith)

  child_id : child.conn.id ≡ born.id
  unfolding Server.with_callbacks Connection.set_close_callback
      Connection.set_write_complete_callback Connection.set_message_callback
      Connection.set_connection_callback
  child_id = refl

  born_front : child.conn.output_buffer.writer_index ≡ cheap_prepend
  unfolding Server.with_callbacks Connection.set_close_callback
      Connection.set_write_complete_callback Connection.set_message_callback
      Connection.set_connection_callback
  born_front = refl

  child-MadeByEcho :
      (tid : ℕ)
      → EventLoop.is_loop_thread tid l ≡ true
      → InStep l.epoller
      → Unseen born.filed sockfd l.epoller
      → s.connection_callback ≡ some EchoServer.connection_callback
      → s.message_callback ≡ some EchoServer.message_callback
      → MadeByEcho tid child
  unfolding Server.with_callbacks Connection.set_close_callback
      Connection.set_write_complete_callback Connection.set_message_callback
      Connection.set_connection_callback Buffer.buffer_code EventLoop.is_loop_thread
  child-MadeByEcho tid here in_step unseen tells listens =
      let valid : IsValid (fresh 1032) = fresh-IsValid 1032 (omega arith) (omega arith) in
      record {
        sound = record {
          in_step =
              Joins-InStep born.filed sockfd l.epoller child.eventloop.epoller in_step unseen
                child-Joins;
          interest = record { reading = false; writing = false };
          asks = child_asks;
          output = valid;
          wanted = refl;
        };
        here = here;
        tells = tells;
        reads = child_handlers.0;
        writes = child_handlers.1;
        listens = listens;
        input = valid;
        read = refl;
        front = refl;
        nothing_owed = refl;
      }

module _ (control : Control) (doc : Documented control)
    (user : ℕ → Invocation → Context → Result Context) (tid tid_io : ℕ) where
  -- A server with the echo server's callbacks that takes in a connection, on a thread other than
  -- that of the loop that the connection goes to, for a descriptor that this loop does not know,
  -- while the numbers of connections fit an `int`, the kernel is in step with the Fileds of that
  -- loop, `epoll_ctl` is as documented, and a connection under the new name exists as long as it
  -- stands in the server's map: `newConnection` returns, with the set-up of the connection behind
  -- what waits in the queue of its loop and the signal that this needs; and when the loop's thread
  -- then runs the set-up that waits for it, and `handleEvent` of the connection's Filed for any
  -- sequence of arrivals and reports of writability (no hang-up, error or failed read among them),
  -- nothing faults, and what the peer has been sent, with what still waits, is exactly what arrived
  -- from it, in order; once the output is empty, the peer has been sent all of it. It is assumed of
  -- the events that each arrival has between 1 and 65536 bytes, that a direct write takes all or
  -- nothing without an error and a later write no more than it is offered, and that all that
  -- arrives fits a vector.
  pub new_connection-serve :
      (born : Fresh) (on_remove sockfd : ℕ) (local_addr peer_addr : Address) (w : World) (io : ℕ)
      (pool : ManagerPool) (accept : World → Result World) (alive : ℕ → World → Bool)
      (at : Surroundings) (write : List ℕ → Sent) (errno address : ℕ) (events : List Event)
      → w.server.next_conn_id + 1 < 2 ^ 31
      → ManagerPool.get_next_loop w.server.pool ≡ ok (io, pool)
      → EventLoop.is_loop_thread tid (w.loops io) ≡ false
      → EventLoop.is_loop_thread tid_io (w.loops io) ≡ true
      → InStep (w.loops io).epoller
      → Unseen born.filed sockfd (w.loops io).epoller
      → w.server.connection_callback ≡ some EchoServer.connection_callback
      → w.server.message_callback ≡ some EchoServer.message_callback
      → ((v : World)
          → lookup (Server.conn_name w.server w.server.next_conn_id) v.server.connections
            ≡ some born.id
          → alive born.id v ≡ true)
      → AllPlausible events
      → cheap_prepend + length (all_arrived events) ≤ max_size
      → (w₁ w' : World) × (new_connection user control tid born on_remove sockfd local_addr
            peer_addr w
          ≡ ok w₁)
        × Queued tid (established_task born.id) (w.loops io) (w₁.loops io)
        × ((run_task
                (callbacks control tid_io write errno address)
                control
                tid_io
                at
                (established_task born.id)
                w₁
              >>= serve control tid_io accept alive born.id events)
            ≡ ok w')
        × (stream (context born.id w') ≡ all_arrived events)
        × (content (w'.conns born.id).output_buffer ≡ [] → w'.wires born.id ≡ all_arrived events)
  new_connection-serve born on_remove sockfd local_addr peer_addr w io pool accept alive at write
        errno address events small dealt elsewhere here in_step unseen tells listens held plausible
        legal =
      let label : Text = Server.conn_name w.server w.server.next_conn_id in
      let l : EventLoop Task = w.loops io in
      let c : Context = newborn w.server born on_remove label sockfd local_addr peer_addr l in
      let (w₁, done, there, listed, waits) =
        new_connection-newborn user control tid born on_remove sockfd local_addr peer_addr w io pool
          small dealt elsewhere in
      let same : SameConn c (queue tid (established_task born.id) c) =
        queue-SameConn tid (established_task born.id) c in
      let m : MadeByEcho tid_io (context born.id w₁) = subst (MadeByEcho tid_io) (sym there) (
        MadeByEcho-SameConn same (
          child-MadeByEcho w.server born on_remove label sockfd local_addr peer_addr l tid_io here
            in_step unseen tells listens)) in
      let whole = ap (λ c. c.conn) there ∙ same.conn in
      let front : (w₁.conns born.id).output_buffer.writer_index ≡ cheap_prepend =
        ap (λ conn. conn.output_buffer.writer_index) whole
        ∙ born_front w.server born on_remove label sockfd local_addr peer_addr l in
      let named : (w₁.conns born.id).id ≡ born.id =
        ap (λ conn. conn.id) whole
        ∙ child_id w.server born on_remove label sockfd local_addr peer_addr l in
      let (w', ran, all, sent) =
        established-serve control doc tid_io accept alive at born.id label write errno address
          events w₁ held listed named m plausible (omega arith) in
      (w₁, w', done, waits, ran, all, sent)
