-- ===== src/EchoServer/Established.antt =====
-- From the set-up of a connection of the echo server to its last event.
use lucky.Base.{
  Bool, ℕ, ◌+◌, ◌≤◌, ◌≡◌, sym, ◌∙◌, ap, subst, List, [], ◌++◌, true, not, ◌==◌, some, length,
  Result, ok, ◌>>=◌,
}
use lucky.Buffer
use lucky.Buffer.{Buffer, cheap_prepend, max_size, Sent}
use lucky.Buffer.Content.{IsValid, content}
use lucky.Filed.{connection_read, connection_write}
use lucky.Filed.Masks.{wish, enable_reading}
use lucky.Epoller.{Control}
use lucky.Epoller.Consistency.{Documented}
use lucky.EventLoop
use lucky.Connection.{Context, filed_of, established_task}
use lucky.Connection.Handlers.{Invocation, invoke, connect_established}
use lucky.Connection.Stream.{Sound, stream}
use lucky.Connection.Lifecycle.{connect_established_lem}
use lucky.EchoServer
use lucky.EchoServer.{Event, callbacks, serve}
use lucky.EchoServer.Waiting.{Waiting}
use lucky.Server.{Text, World, lookup, context, put_context}
use lucky.Server.Handing.{context-put}
use lucky.Server.Tasks.{Surroundings, run_task}
use lucky.EchoServer.Serving.{serve_lem}
use lucky.EchoServer.Echoing.{AllPlausible, all_arrived}

-- A connection that the echo server has made, before its set-up, on the thread `tid`.
pub record MadeByEcho (tid : ℕ) (c : Context) : Type 0 where
  pub sound : Sound c
  pub here : EventLoop.is_loop_thread tid c.eventloop ≡ true
  pub tells : c.conn.connection_callback ≡ some EchoServer.connection_callback
  pub reads : (filed_of c).read_callback ≡ some (connection_read c.conn.id)
  pub writes : (filed_of c).write_callback ≡ some (connection_write c.conn.id)
  pub listens : c.conn.message_callback ≡ some EchoServer.message_callback
  pub input : IsValid c.conn.input_buffer
  pub read : content c.conn.input_buffer ≡ []
  pub front : c.conn.input_buffer.writer_index ≡ cheap_prepend
  pub nothing_owed : stream c ≡ []

module _ (control : Control) (doc : Documented control) (tid : ℕ) where
  established_lem :
      (write : List ℕ → Sent) (errno address : ℕ) (c : Context)
      → MadeByEcho tid c
      → (c' : Context) × (connect_established (callbacks control tid write errno address) control c
          ≡ ok c')
        × Waiting tid c'
        × (stream c' ≡ [])
        × (c'.conn.output_buffer ≡ c.conn.output_buffer)
        × (c'.conn.id ≡ c.conn.id)
  unfolding invoke callbacks EventLoop.is_loop_thread
  established_lem write errno address c m =
      let (c₁, done, f, tied, target) =
        connect_established_lem (callbacks control tid write errno address) control doc c
          m.sound.interest m.sound.in_step m.sound.asks in
      let id : c₁.conn.id ≡ c.conn.id = ap (λ conn. conn.id) f.conn in
      let output : c₁.conn.output_buffer ≡ c.conn.output_buffer =
        ap (λ conn. conn.output_buffer) f.conn in
      let input : c₁.conn.input_buffer ≡ c.conn.input_buffer =
        ap (λ conn. conn.input_buffer) f.conn in
      (
        c₁,
        done
            ∙ ap
                (λ cb.
                  invoke (callbacks control tid write errno address) cb Invocation.on_connection c₁)
                m.tells,
        record {
          sound = record {
            in_step = f.in_step;
            interest = wish enable_reading m.sound.interest;
            asks = f.asks;
            output = subst IsValid (sym output) m.sound.output;
            wanted = m.sound.wanted ∙ ap (λ b. not (Buffer.readable_bytes b == 0)) (sym output);
          };
          live = ap (λ conn. conn.state) f.conn;
          here = ap (λ n. n == tid) f.thread ∙ m.here;
          bound = record {
            read = f.handlers.read ∙ m.reads ∙ ap (λ i. some (connection_read i)) (sym id);
            write = f.handlers.write ∙ m.writes ∙ ap (λ i. some (connection_write i)) (sym id);
            tied = tied;
            target = target ∙ ap some (sym id);
          };
          listens = ap (λ conn. conn.message_callback) f.conn ∙ m.listens;
          input = subst IsValid (sym input) m.input;
          read = ap content input ∙ m.read;
          front = ap (λ b. b.writer_index) input ∙ m.front;
        },
        ap (λ l. l ++ content c₁.conn.output_buffer) f.wire
            ∙ ap (λ b. c.wire ++ content b) output
            ∙ m.nothing_owed,
        output,
        id,
      )

  -- A connection that the echo server has made and that stands in the server's map and so exists,
  -- sound, on its loop's thread, with empty buffers and nothing sent, with its handlers in its
  -- Filed and `epoll_ctl` as documented: its set-up and any sequence of events after it run without
  -- a fault, while each arrival has between 1 and 65536 bytes, a direct write takes all or nothing
  -- without an error, a later write takes no more than it is offered, and the output with all that
  -- arrives stays within what a vector can hold. What the peer has been sent, and what still waits,
  -- is then exactly what arrived, in order; and once the output is empty, the peer has been sent
  -- all of it.
  pub established-serve :
      (accept : World → Result World) (alive : ℕ → World → Bool) (at : Surroundings) (id : ℕ)
      (label : Text) (write : List ℕ → Sent) (errno address : ℕ) (events : List Event) (w : World)
      → ((v : World) → lookup label v.server.connections ≡ some id → alive id v ≡ true)
      → lookup label w.server.connections ≡ some id
      → (w.conns id).id ≡ id
      → MadeByEcho tid (context id w)
      → AllPlausible events
      → (w.conns id).output_buffer.writer_index + length (all_arrived events) ≤ max_size
      → (w' : World) × ((run_task
              (callbacks control tid write errno address)
              control
              tid
              at
              (established_task id)
              w
            >>= serve control tid accept alive id events)
          ≡ ok w')
        × (stream (context id w') ≡ all_arrived events)
        × (content (w'.conns id).output_buffer ≡ [] → w'.wires id ≡ all_arrived events)
  unfolding run_task
  established-serve accept alive at id label write errno address events w held listed named m p
        legal =
      let (c, done, waiting, owed, same, same_id) =
        established_lem write errno address (context id w) m in
      let w₁ : World = put_context id c w in
      let here : context id w₁ ≡ c = context-put id c w in
      let (w', rest, _, all, sent) =
        serve_lem control doc tid accept alive id label held events w₁
          (subst (Waiting tid) (sym here) waiting) (ap (λ c. c.conn.id) here ∙ same_id ∙ named)
          listed p
          (subst (λ (b : Buffer). b.writer_index + length (all_arrived events) ≤ max_size)
            (sym (ap (λ c. c.conn.output_buffer) here ∙ same)) legal) in
      let nothing : stream (context id w₁) ++ all_arrived events ≡ all_arrived events =
        ap (λ c. stream c ++ all_arrived events) here ∙ ap (λ l. l ++ all_arrived events) owed in
      (w', rw done rest, all ∙ nothing, λ empty. sent empty ∙ nothing)
