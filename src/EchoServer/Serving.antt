-- ===== src/EchoServer/Serving.antt =====
-- What the echo server owes: the peer gets back what it sent, whatever events come in which order.
use mathlib.Core.Path.{subst}
use mathlib.Core.List.{append_assoc, append-nil}
use lucky.Base.{
  Bool, ℕ, ◌+◌, ◌≤◌, ◌≡◌, refl, sym, ◌∙◌, ap, List, [], ◌∷◌, ◌++◌, true, bit_or, some, arith,
  length, length-append, Result, ok,
}
use lucky.Buffer.{received, max_size}
use lucky.Filed.{epollin, epollout}
use lucky.Filed.Dispatch.{SameHandlers-refl}
use lucky.Epoller.{Control}
use lucky.Epoller.Consistency.{Documented}
use lucky.Connection.{Context}
use lucky.Connection.Binding.{with_revents}
use lucky.Connection.Stream.{stream}
use lucky.Server.{World, context, put_context, lookup, Text}
use lucky.Server.Handing.{context-put}
use lucky.EchoServer.{Event, arrives, writable, both, callbacks, handle, serve}
use lucky.EchoServer.Waiting.{Waiting, Waiting-with_revents}
use lucky.EchoServer.Echoing.{Echoes, Plausible, AllPlausible, arrived, all_arrived}
use lucky.Buffer.Content.{content}
use lucky.EchoServer.Handling.{read_at, write_at}
use lucky.Server.Events.{noted}
use lucky.Server.Ready.{filed_at, SameHandlers-put, ready_at}

-- Events leave the server and the loops of the connections as they are.
record EchoesAt (tid id : ℕ) (bytes : List ℕ) (w w' : World) : Type 0 where
  echoes : Echoes tid bytes (context id w) (context id w')
  server : w'.server ≡ w.server

EchoesAt-put :
    {tid : ℕ} {bytes : List ℕ} (id : ℕ) (c' : Context) (w w₀ : World)
    → Echoes tid bytes (context id w) c'
    → w₀.server ≡ w.server
    → EchoesAt tid id bytes w (put_context id c' w₀)
EchoesAt-put {tid} {bytes} id c' w w₀ x server = record {
  echoes = subst (Echoes tid bytes (context id w)) (sym (context-put id c' w₀)) x;
  server = server;
}

-- What was reported is not part of what is owed.
Echoes-noted :
    {tid : ℕ} {bytes : List ℕ} {c c' : Context} (revents : ℕ)
    → Echoes tid bytes (with_revents revents c) c'
    → Echoes tid bytes c c'
Echoes-noted revents x = record {
  waiting = x.waiting;
  owed = x.owed;
  place = x.place;
  same_id = x.same_id;
  room = x.room;
}

module _ (control : Control) (doc : Documented control) (tid : ℕ) (accept : World → Result World)
    (alive : ℕ → World → Bool) (id : ℕ) (label : Text)
    (held : (w : World) → lookup label w.server.connections ≡ some id → alive id w ≡ true) where
  handle_lem :
      (event : Event) (w : World)
      → Waiting tid (context id w)
      → (w.conns id).id ≡ id
      → lookup label w.server.connections ≡ some id
      → Plausible event
      → (w.conns id).output_buffer.writer_index + length (arrived event) ≤ max_size
      → (w' : World) × (handle control tid accept alive id event w ≡ ok w')
        × EchoesAt tid id (arrived event) w w'
  unfolding handle
  handle_lem (arrives bytes time write errno address) w waiting named listed p legal =
      let c₀ : Context = with_revents epollin (context id w) in
      let w₀ : World = noted epollin id w in
      let (c', read, x, same) =
        read_at control tid accept alive doc (w.owner id) write id bytes time write errno address c₀
          w₀ (context-put id c₀ w) (Waiting-with_revents epollin (context id w) waiting) p legal in
      (
        put_context id c' w₀,
        ready_at (callbacks control tid write errno address) control tid (λ blocks. received bytes)
            write accept alive id epollin time w (put_context id c' w₀) (put_context id c' w₀)
            waiting.bound named (held w₀ listed) refl refl read
            (SameHandlers-put id (w.conns id).filed c₀ c' w refl x.place same) refl,
        EchoesAt-put id c' w w₀ (Echoes-noted epollin x) refl,
      )
  handle_lem (writable write) w waiting named listed honest legal =
      let c₀ : Context = with_revents epollout (context id w) in
      let w₀ : World = noted epollout id w in
      let (c', written, x) =
        write_at control tid accept alive doc (w.owner id) write id c₀ w₀ (context-put id c₀ w)
          (Waiting-with_revents epollout (context id w) waiting) honest in
      (
        put_context id c' w₀,
        ready_at (callbacks control tid write 0 0) control tid (λ blocks. received []) write accept
            alive id epollout 0 w w₀ (put_context id c' w₀) waiting.bound named (held w₀ listed)
            refl refl refl (SameHandlers-refl (filed_at (w.owner id) (w.conns id).filed w₀))
            written,
        EchoesAt-put id c' w w₀ (Echoes-noted epollout x) refl,
      )
  handle_lem (both bytes time write errno address later) w waiting named listed (p, honest) legal =
      let revents : ℕ = bit_or epollin epollout in
      let c₀ : Context = with_revents revents (context id w) in
      let w₀ : World = noted revents id w in
      let (c₁, read, x, same) =
        read_at control tid accept alive doc (w.owner id) later id bytes time write errno address c₀
          w₀ (context-put id c₀ w) (Waiting-with_revents revents (context id w) waiting) p legal in
      let w₁ : World = put_context id c₁ w₀ in
      let (c', written, y) =
        write_at control tid accept alive doc (w.owner id) later id c₁ w₁ (context-put id c₁ w₀)
          x.waiting honest in
      (
        put_context id c' w₁,
        ready_at (callbacks control tid write errno address) control tid (λ blocks. received bytes)
            later accept alive id revents time w w₁ (put_context id c' w₁) waiting.bound named
            (held w₀ listed) refl refl read
            (SameHandlers-put id (w.conns id).filed c₀ c₁ w refl x.place same) written,
        EchoesAt-put id c' w w₁
            (record {
              waiting = y.waiting;
              owed = y.owed ∙ append-nil (stream c₁) ∙ x.owed;
              place = y.place ∙ x.place;
              same_id = y.same_id ∙ x.same_id;
              room = omega (arith, x.room, y.room);
            })
            refl,
      )

  -- For a connection that stands in the server's map and so exists, is sound and connected, on its
  -- loop's thread, with its handlers in its Filed and the Filed tied to it, with the echo server's
  -- message callback and an empty input at its front, with `epoll_ctl` as documented: while each
  -- arrival has between 1 and 65536 bytes, a direct write takes all or nothing without an error, a
  -- later write takes no more than it is offered, and the output with all that arrives stays within
  -- what a vector can hold, `handleEvent` of its Filed handles any sequence of arrivals and reports
  -- of writability (no hang-up, error or failed read among them) without a fault, the connection is
  -- ready for the next one, and the peer is owed exactly what it was owed before with all the bytes
  -- that arrived behind it, in order; once the output is empty, the peer has been sent all of that.
  pub serve_lem :
      (events : List Event) (w : World)
      → Waiting tid (context id w)
      → (w.conns id).id ≡ id
      → lookup label w.server.connections ≡ some id
      → AllPlausible events
      → (w.conns id).output_buffer.writer_index + length (all_arrived events) ≤ max_size
      → (w' : World) × (serve control tid accept alive id events w ≡ ok w')
        × Waiting tid (context id w')
        × (stream (context id w') ≡ stream (context id w) ++ all_arrived events)
        × (content (w'.conns id).output_buffer ≡ []
            → w'.wires id ≡ stream (context id w) ++ all_arrived events)
  unfolding serve
  serve_lem [] w waiting named listed p legal = (
    w,
    refl,
    waiting,
    sym (append-nil (stream (context id w))),
    λ empty. sent_all (context id w) empty ∙ sym (append-nil (stream (context id w))),
  )
    where
      sent_all : (c : Context) → content c.conn.output_buffer ≡ [] → c.wire ≡ stream c
      sent_all c empty = sym (append-nil c.wire) ∙ ap (λ l. c.wire ++ l) (sym empty)
  serve_lem (event ∷ events) w waiting named listed (p, ps) legal =
      let sum : length (all_arrived (event ∷ events))
          ≡ length (arrived event) + length (all_arrived events) =
        length-append (arrived event) (all_arrived events) in
      let (w₁, done, at) = handle_lem event w waiting named listed p (omega (arith, sum)) in
      let x : Echoes tid (arrived event) (context id w) (context id w₁) = at.echoes in
      let (w', rest, ready, owed, sent) =
        serve_lem events w₁ x.waiting (x.same_id ∙ named)
          (ap (λ s. lookup label s.connections) at.server ∙ listed) ps
          (omega (arith, sum, x.room)) in
      let all : stream (context id w₁) ++ all_arrived events
          ≡ stream (context id w) ++ all_arrived (event ∷ events) =
        ap (λ l. l ++ all_arrived events) x.owed
        ∙ append_assoc (stream (context id w)) (arrived event) (all_arrived events) in
      (w', rw done rest, ready, owed ∙ all, λ empty. sent empty ∙ all)
