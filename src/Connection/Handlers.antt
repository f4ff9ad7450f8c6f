-- ===== src/Connection/Handlers.antt =====
-- src/Connection.cpp from `handleRead` on: what a connection does when its Filed has events, and
-- when the server sets it up and takes it down.
use lucky.Base.{
  ℕ, ltb, take, ◌++◌, Option, none, some, ◌==◌, if◌then◌else◌, List, ℤ, pos, negsuc, Result, ok,
  err, bad_call, ◌>>=◌,
}
use lucky.Buffer
use lucky.Buffer.{Buffer, Received, Sent}
use lucky.Filed
use lucky.Filed.Masks.{enable_reading, disable_writing, disable_all}
use lucky.Epoller
use lucky.Epoller.{Control, set_object}
use lucky.Connection.{
  Context, connected, disconnected, disconnecting, eq_state, filed_of, set_output, set_state,
  change_filed, queue_write_complete, shutdown_in_loop,
}

-- How a user callback is called.
pub data Invocation : Type 0 where
  on_connection : Invocation
  on_message : ℕ → Invocation
  on_close : Invocation
  on_write_complete : Invocation
  on_high_water_mark : ℕ → Invocation

-- `user cb` is the function behind the callback `cb`, which may do to the connection what it likes.
module _ (user : ℕ → Invocation → Context → Result Context) where
  -- The call of a `std::function` that may be empty.
  unfoldable pub invoke : Option ℕ → Invocation → Context → Result Context
  invoke none how c = err bad_call
  invoke (some cb) how c = user cb how c

  unfoldable pub handle_close : Control → Context → Result Context
  handle_close control c = do
    c₁ ← change_filed control disable_all (set_state disconnected c)
    c₂ ← invoke c₁.conn.connection_callback on_connection c₁
    invoke c₂.conn.close_callback on_close c₂

  -- It asks the socket for its error and logs that.
  unfoldable pub handle_error : Context → Context
  handle_error c = c

  -- What `handleRead` does with the result of `readFd` and the input after it.
  unfoldable pub after_read : Control → ℕ → ℤ × Option ℕ × Buffer → Context → Result Context
  after_read control receive_time (n, saved_errno, input) c =
      let c₁ = record c { conn = record (c.conn) { input_buffer = input } } in
      elim n [
        | negsuc e ↦ ok (handle_error c₁)
        | pos k ↦
            if k == 0
            then handle_close control c₁
            else invoke c₁.conn.message_callback (on_message receive_time) c₁
      ]

  unfoldable pub handle_read : Control → (List ℕ → Received) → ℕ → Context → Result Context
  handle_read control readv receive_time c = do
    result ← Buffer.read_fd readv c.conn.input_buffer
    after_read control receive_time result c

  unfoldable pub connect_established : Control → Context → Result Context
  connect_established control c = do
    let c₁ = set_state connected c
    let f = Filed.tie c₁.conn.id (filed_of c₁)
    let e = set_object c₁.conn.filed f c₁.eventloop.epoller
    c₂ ←
        change_filed control enable_reading
          (record c₁ { eventloop = record (c₁.eventloop) { epoller = e } })
    invoke c₂.conn.connection_callback on_connection c₂

  unfoldable pub connect_destroyed : Control → Context → Result Context
  connect_destroyed control c = do
    c₁ ←
        if eq_state c.conn.state connected
        then (do
          c₂ ← change_filed control disable_all (set_state disconnected c)
          invoke c₂.conn.connection_callback on_connection c₂)
        else ok c
    e ← Epoller.remove control c₁.conn.filed c₁.eventloop.epoller
    ok (record c₁ { eventloop = record (c₁.eventloop) { epoller = e } })

-- Once the output is sent: no more write events, the user's callback, and the pending shutdown.
unfoldable pub output_sent : Control → ℕ → Context → Result Context
output_sent control tid c = do
  c₁ ← change_filed control disable_writing c
  let c₂ = queue_write_complete tid c₁
  ok (if eq_state c₂.conn.state disconnecting then shutdown_in_loop c₂ else c₂)

-- `write` took `n` of the bytes that it was offered.
unfoldable pub took : Control → ℕ → List ℕ → ℕ → Context → Result Context
took control tid offered n c =
    let output = Buffer.retrieve c.conn.output_buffer n in
    let c₁ = set_output output (record c { wire = c.wire ++ take n offered }) in
    if Buffer.readable_bytes output == 0 then output_sent control tid c₁ else ok c₁

-- `writeFd` offers the readable bytes; a result of 0 or an error is logged.
unfoldable pub handle_write : Control → ℕ → (List ℕ → Sent) → Context → Result Context
handle_write control tid write c =
    if Filed.is_writing (filed_of c)
    then (do
      let output = c.conn.output_buffer
      offered ← Buffer.read_at output.buffer (Buffer.peek output) (Buffer.readable_bytes output)
      (n, saved_errno) ← Buffer.write_fd write output
      elim n [ negsuc e ↦ ok c | pos k ↦ if ltb 0 k then took control tid offered k c else ok c ])
    else ok c
