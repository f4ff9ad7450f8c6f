-- ===== src/Server/Hangup.antt =====
-- The peer ends the stream: from the event on the connection's Filed to the take-down.
use mathlib.Core.Path.{fun_ext, subst}
use lucky.Base.{
  Bool, ℕ, ◌≡◌, ◌≢◌, refl, sym, ◌∙◌, ap, List, [], true, false, none, some, arith, Result, ok,
  ◌>>=◌,
}
use lucky.Buffer.{Buffer, Sent, received}
use lucky.Buffer.Content.{IsValid}
use lucky.Filed.{epollin}
use lucky.Filed.Dispatch.{SameHandlers}
use lucky.Epoller.{Control, put}
use lucky.Epoller.Consistency.{Documented, put_ne}
use lucky.EventLoop
use lucky.Connection.{Context, filed_of, remove_task, destroyed_task}
use lucky.Connection.Handlers.{Invocation, handle_close, handle_read}
use lucky.Connection.Binding.{Bound, with_revents, with_revents-Sound}
use lucky.Connection.Stream.{Sound}
use lucky.Connection.Lifecycle.{handle_read_lem}
use lucky.Server.{World, lookup, context, put_context, remove_connection}
use lucky.Server.Handing.{context-put}
use lucky.Server.Names.{Named}
use lucky.Server.Removing.{Queued}
use lucky.Server.Tasks.{Surroundings, but_close, close_connection, run_task}
use lucky.Server.Events.{noted, read_connection, handle_filed}
use lucky.Server.Ready.{filed_at, filed_at-put, ready_at}
use lucky.Server.Life.{Unknown, Aloof, close_connection_lem}

-- Of two states put for a connection the later counts.
put_twice {ℓ} : {V : Type ℓ} (m : ℕ → V) (k : ℕ) (u v : V) → put (put m k u) k v ≡ put m k v
put_twice m k u v = fun_ext λ j. ground arith

put_context-twice :
    (id : ℕ) (c c' : Context) (w : World)
    → put_context id c' (put_context id c w) ≡ put_context id c' w
put_context-twice id c c' w = λ i. record w {
  conns = put_twice w.conns id c.conn c'.conn i;
  loops = put_twice w.loops (w.owner id) c.eventloop c'.eventloop i;
  wires = put_twice w.wires id c.wire c'.wire i;
  shut = put_twice w.shut id c.write_shut c'.write_shut i;
}

-- The connection with what `readFd` made of its input.
abbrev after : Buffer → ℕ → Context → Context
after b revents c = record (with_revents revents c) { conn = record (c.conn) { input_buffer = b } }

after-Sound : (b : Buffer) (revents : ℕ) (c : Context) → Sound c → Sound (after b revents c)
after-Sound b revents c s =
    let t : Sound (with_revents revents c) = with_revents-Sound revents c s in
    record {
      in_step = t.in_step;
      interest = t.interest;
      asks = t.asks;
      output = t.output;
      wanted = t.wanted;
    }

module _ (user : ℕ → Invocation → Context → Result Context) (control : Control) (tid : ℕ)
    (write : List ℕ → Sent) (accept : World → Result World) (alive : ℕ → World → Bool) where
  -- A read of nothing closes the connection.
  read_connection-end :
      (id io time : ℕ) (w : World)
      → IsValid (w.conns id).input_buffer
      → (b : Buffer) × (read_connection user control tid io
            (λ blocks. received [])
            write
            accept
            alive
            time
            id
            (noted epollin id w)
          ≡ close_connection user control tid id
              (put_context id (after b epollin (context id w)) (noted epollin id w)))
  unfolding read_connection close_connection
  read_connection-end id io time w v =
      let c₀ : Context = with_revents epollin (context id w) in
      let w₀ : World = noted epollin id w in
      let calls = but_close user control tid in
      let (b, _, _, out) =
        handle_read_lem calls control (λ blocks. received []) time c₀ v
          (omega arith, omega arith) in
      let c₁ : Context = after b epollin (context id w) in
      let ends : Context → Result World =
        λ c. ok (remove_connection user control tid id (put_context id c w₀)) in
      (
        b,
        ap (λ c. handle_read calls control (λ blocks. received []) time c >>= ends)
              (context-put id c₀ w)
            ∙ ap (λ r. r >>= ends) out
            ∙ ap
                (λ (e : Context → World). handle_close calls control c₁ >>= λ c.
                  ok (remove_connection user control tid id (e c)))
                (fun_ext λ c. sym (put_context-twice id c₁ c w₀))
            ∙ ap
                (λ c₁'. handle_close calls control c₁' >>= λ c.
                  ok (
                    remove_connection user control tid id
                      (put_context id c (put_context id c₁ w₀))))
                (sym (context-put id c₁ w₀)),
      )

  module _ (doc : Documented control) where
    -- A sound connection of a server whose names are in order, which exists, with its handlers in
    -- its Filed and the Filed tied to it and a valid input, on a loop other than the base loop,
    -- with a close callback and a connection callback that leaves it alone, and `epoll_ctl` as
    -- documented: when its loop hands its Filed a read event and `readv` delivers nothing,
    -- `handleEvent` returns, and the base loop gets the removal behind what waits there, with the
    -- signal that it needs; when that runs, the name is out of the map, and the connection's loop
    -- gets the take-down, with the signal that it needs; and when that runs, neither the
    -- connection's Epoller nor the kernel knows its descriptor.
    pub hangup_lem :
        (tid_b id cb r time : ℕ) (at : Surroundings) (w : World)
        → Named w.server
        → Sound (context id w)
        → IsValid (w.conns id).input_buffer
        → Bound (context id w)
        → (w.conns id).id ≡ id
        → alive id (noted epollin id w) ≡ true
        → w.owner id ≢ w.server.base_loop
        → EventLoop.is_loop_thread tid (w.loops w.server.base_loop) ≡ false
        → (w.conns id).connection_callback ≡ some cb
        → (w.conns id).close_callback ≡ some r
        → Aloof user control doc cb
        → let base = w.server.base_loop in
          let io = w.owner id in
          (w₁ w₂ w₃ : World) × (handle_filed user control tid io
              (λ blocks. received [])
              write
              accept
              alive
              (w.conns id).filed
              time
              (noted epollin id w)
            ≡ ok w₁)
          × Queued tid (remove_task id) (w.loops base) (w₁.loops base)
          × (run_task user control tid_b at (remove_task id) w₁ ≡ ok w₂)
          × (lookup (w.conns id).name w₂.server.connections ≡ none)
          × Queued tid_b (destroyed_task id) (w₁.loops io) (w₂.loops io)
          × (run_task user control tid at (destroyed_task id) w₂ ≡ ok w₃)
          × Unknown (context id w₃)
    hangup_lem tid_b id cb r time at w n s v bound named lives apart elsewhere tells closes aloof =
        let base = w.server.base_loop in
        let w₀ : World = noted epollin id w in
        let (b, closed) = read_connection-end id (w.owner id) time w v in
        let c₁ : Context = after b epollin (context id w) in
        let w_b : World = put_context id c₁ w₀ in
        let here : context id w_b ≡ c₁ = context-put id c₁ w₀ in
        let base_kept : w_b.loops base ≡ w.loops base =
          put_ne w₀.loops (w.owner id) base c₁.eventloop (λ e. apart (sym e))
          ∙ put_ne w.loops (w.owner id) base (with_revents epollin (context id w)).eventloop
              (λ e. apart (sym e)) in
        let (w₁, w₂, w₃, done, asked, same, removed, gone, taken, ended, unknown) =
          close_connection_lem user control doc tid tid_b id cb r at w_b n
            (subst Sound (sym here) (after-Sound b epollin (context id w) s)) apart
            (ap (EventLoop.is_loop_thread tid) base_kept ∙ elsewhere)
            (ap (λ c. c.conn.connection_callback) here ∙ tells)
            (ap (λ c. c.conn.close_callback) here ∙ closes) aloof in
        let same₀ : SameHandlers (filed_at (w.owner id) (w.conns id).filed w₀)
            (filed_at (w.owner id) (w.conns id).filed w₁) =
          subst
            (λ p.
              SameHandlers (filed_at (w.owner id) (w.conns id).filed w₀)
                (filed_at (w.owner id) p w₁))
            (ap (λ c. c.conn.filed) here)
            (subst (λ f. SameHandlers f (filed_at (w.owner id) (w_b.conns id).filed w₁))
              (ap filed_of here
                ∙ sym (
                    filed_at-put id (with_revents epollin (context id w)) w (w.conns id).filed
                      refl))
              same) in
        (
          w₁,
          w₂,
          w₃,
          ready_at user control tid (λ blocks. received []) write accept alive id epollin time w w₁
              w₁ bound named lives refl refl (closed ∙ done) same₀ refl,
          subst (λ l. Queued tid (remove_task id) l (w₁.loops base)) base_kept asked,
          removed,
          ap (λ c. lookup c.conn.name w₂.server.connections) (sym here) ∙ gone,
          taken,
          ended,
          unknown,
        )
