-- ===== src/EchoServer.antt =====
-- testcode/test.cpp: the echo server, which sends every message back to the peer it came from.
pub mod Waiting
pub mod Echoing
pub mod Handling
pub mod Serving
pub mod Established
pub mod Accepted
mod Examples
use lucky.Base.{
  false, Bool, bit_or, ℕ, List, [], ◌∷◌, Option, some, if◌then◌else◌, length, pos, Result, ok,
  ◌>>=◌,
}
use lucky.Buffer
use lucky.Buffer.{Sent, Received, received}
use lucky.Filed.{epollin, epollout}
use lucky.Acceptor.{Acceptor}
use lucky.Epoller.{Epoller, Control}
use lucky.EventLoop.{EventLoop}
use lucky.Connection
use lucky.LuckyLog.{clipped}
use lucky.Connection.{Connection, Context, Task, send}
use lucky.Connection.Handlers.{Invocation}
use lucky.Connection.Binding.{with_revents}
use lucky.Server.Events.{noted, handle_filed}
use lucky.Server
use lucky.Server.{Text, Server, World, context, put_context}

-- The callbacks that the constructor binds.
abbrev pub connection_callback : ℕ
connection_callback = 1

abbrev pub message_callback : ℕ
message_callback = 2

-- What the constructor tells the server.
unfoldable pub configured : Server → Server
configured s = Server.set_thread_num (pos 3) (
    Server.set_message_callback (some message_callback)
      (Server.set_connection_callback (some connection_callback) s))

-- The constructor, with what the constructor of the Server needs; the Option of that is
-- `kNoReusePort` by default.
unfoldable pub init :
    ℕ
    → Option ℕ
    → Bool
    → ℕ
    → Option ℕ
    → Text
    → Text
    → Epoller
    → Result (Server × Acceptor × Epoller)
init new_connection sockfd bound p loop ip_port name e = do
  (s, a, e') ← Server.init new_connection sockfd bound p false loop ip_port name e
  ok (configured s, a, e')

-- What `onConnection` logs: "Connection UP : " or "Connection DOWN : ", and the peer's address. It
-- does no more.
unfoldable pub on_connection : Text → Connection → Text
on_connection ip_port conn =
    if Connection.is_connect conn
    then clipped (
        67 ∷ 111 ∷ 110 ∷ 110 ∷ 101 ∷ 99 ∷ 116 ∷ 105 ∷ 111 ∷ 110 ∷ 32 ∷ 85 ∷ 80 ∷ 32 ∷ 58 ∷ 32
        ∷ ip_port)
    else clipped (
        67 ∷ 111 ∷ 110 ∷ 110 ∷ 101 ∷ 99 ∷ 116 ∷ 105 ∷ 111 ∷ 110 ∷ 32 ∷ 68 ∷ 79 ∷ 87 ∷ 78 ∷ 32 ∷ 58
        ∷ 32 ∷ ip_port)

-- `onMessage`, behind its line on `cout`: `address` is where the string `msg` lies, `write` and
-- `errno` are what `send` finds.
unfoldable pub on_message : Control → ℕ → (List ℕ → Sent) → ℕ → ℕ → Context → Result Context
on_message control tid write errno address c = do
  (msg, input) ← Buffer.retrieve_all_as_string c.conn.input_buffer
  send control tid write errno address msg (length msg)
      (record c { conn = record (c.conn) { input_buffer = input } })

-- What the poller reports of a connection: bytes that `readv` delivers, at a time, with the answer
-- that `write` will give and the `errno` of earlier calls; a socket that can be written to; or both
-- at once, where `write` is asked again after the arrival.
pub data Event : Type 0 where
  arrives : List ℕ → ℕ → (List ℕ → Sent) → ℕ → ℕ → Event
  writable : (List ℕ → Sent) → Event
  both : List ℕ → ℕ → (List ℕ → Sent) → ℕ → ℕ → (List ℕ → Sent) → Event

module _ (control : Control) (tid : ℕ) where
  -- The bound callbacks: `onConnection` leaves the connection as it is. The close callback is the
  -- server's own, and the others are not set.
  unfoldable pub callbacks : (List ℕ → Sent) → ℕ → ℕ → ℕ → Invocation → Context → Result Context
  callbacks write errno address cb how c = elim how [
    | Invocation.on_message time ↦ on_message control tid write errno address c
    | _ ↦ ok c
  ]

  -- On the connection's loop; `accept` is `Acceptor::handleRead`, and `alive` says whether the
  -- connection that a Filed is tied to still exists.
  module _ (accept : World → Result World) (alive : ℕ → World → Bool) (id : ℕ) where
    -- `handleEvent` of the Filed of the connection `id`, for an event.
    unfoldable pub handle : Event → World → Result World
    handle (arrives bytes time write errno address) w =
        handle_filed (callbacks write errno address) control tid (w.owner id)
          (λ blocks. received bytes) write accept alive (w.conns id).filed time (noted epollin id w)
    handle (writable write) w =
        handle_filed (callbacks write 0 0) control tid (w.owner id) (λ blocks. received []) write
          accept alive (w.conns id).filed 0 (noted epollout id w)
    handle (both bytes time write errno address later) w =
        handle_filed (callbacks write errno address) control tid (w.owner id)
          (λ blocks. received bytes) later accept alive (w.conns id).filed time
          (noted (bit_or epollin epollout) id w)

    pub serve : List Event → World → Result World
    serve [] w = ok w
    serve (event ∷ events) w = do w₁ ← handle event w; serve events w₁
