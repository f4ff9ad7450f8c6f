-- ===== src/Server/Events.antt =====
-- What the poller's events make of the state of all loops: `handleEvent` of a Filed of one loop,
-- with the handlers that src/EventLoop.cpp, src/Acceptor.cpp and src/Connection.cpp bind.
use lucky.Base.{ℕ, List, [], ◌∷◌, Bool, true, false, if◌then◌else◌, Result, ok, ◌>>=◌}
use lucky.Buffer.{Received, Sent, received, failed, read_blocks}
use lucky.Filed.{
  Callback, wakeup_read, acceptor_read, connection_read, connection_write, connection_close,
  connection_error, handle_event,
}
use lucky.Epoller.{Control, put}
use lucky.EventLoop
use lucky.EventLoop.{EventLoop}
use lucky.Connection.{Context, Task}
use lucky.Connection.Binding.{with_revents}
use lucky.Connection.Handlers.{Invocation, handle_read, handle_write, handle_error}
use lucky.Server.{World, context, put_context, remove_connection}
use lucky.Server.Tasks.{on_its_loop, but_close, close_connection}

abbrev loop_at : ℕ → World → EventLoop Task
loop_at io w = w.loops io

abbrev with_loop_at : ℕ → EventLoop Task → World → World
with_loop_at io l w = record w { loops = put w.loops io l }

-- The connection `id` once its Filed has the events that came, as `fillActiveFileds` leaves it.
abbrev pub noted : ℕ → ℕ → World → World
noted revents id w = put_context id (with_revents revents (context id w)) w

-- A read of 0 bytes is the end of what the peer sends.
abbrev pub is_end : Received → Bool
is_end (received []) = true
is_end (received (x ∷ xs)) = false
is_end (failed errno) = false

-- On the thread `tid` of the loop `io`: `readv` and `write` answer the system calls, `accept` is
-- `Acceptor::handleRead`, and `alive` says whether the connection that `tie_` watches still exists.
module _ (user : ℕ → Invocation → Context → Result Context) (control : Control) (tid io : ℕ)
    (readv : List ℕ → Received) (write : List ℕ → Sent) (accept : World → Result World)
    (alive : ℕ → World → Bool) where
  -- `handleRead` of a connection of the server: where it closes the connection, the last thing that
  -- it does is the close callback, `removeConnection`.
  unfoldable pub read_connection : ℕ → ℕ → World → Result World
  read_connection time id w = do
    c ← handle_read (but_close user control tid) control readv time (context id w)
    let w' = put_context id c w
    ok (
        if is_end (readv (read_blocks (w.conns id).input_buffer))
        then remove_connection user control tid id w'
        else w')

  -- The bound handlers.
  unfoldable pub run_bound : Callback → ℕ → World → Result World
  run_bound wakeup_read time w =
      ok (with_loop_at io (EventLoop.handel_wakeup_read (loop_at io w)) w)
  run_bound acceptor_read time w = accept w
  run_bound (connection_read id) time w = read_connection time id w
  run_bound (connection_write id) time w = on_its_loop id (handle_write control tid write) w
  run_bound (connection_close id) time w = close_connection user control tid id w
  run_bound (connection_error id) time w = on_its_loop id (λ c. ok (handle_error user c)) w

  -- `handleEvent` of the Filed at the pointer `p`.
  unfoldable pub handle_filed : ℕ → ℕ → World → Result World
  handle_filed p time w = handle_event (λ w. (w.loops io).epoller.objects p) alive run_bound time w
