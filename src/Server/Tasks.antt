-- ===== src/Server/Tasks.antt =====
-- What the callbacks do that the library binds and hands to a loop, and what a connection's close
-- does besides: the calls of src/Connection.cpp and src/Server.cpp, on the state of all loops.
use lucky.Base.{ℕ, List, Result, ok, ◌>>=◌}
use lucky.Buffer.{Sent}
use lucky.Epoller.{Control, put}
use lucky.EventLoop.{EventLoop}
use lucky.Connection.{
  Context, Task, send_task, shutdown_task, write_complete_task, high_water_mark_task,
  established_task, destroyed_task, remove_task, listen_task, send_in_loop, shutdown_in_loop,
}
use lucky.Connection.Handlers.{
  Invocation, on_connection, on_message, on_close, on_write_complete, on_high_water_mark,
  handle_close, connect_established, connect_destroyed,
}
use lucky.Server.{World, context, put_context, remove_connection, remove_connection_in_loop}

-- What a bound call meets when it runs: the memory that an address stands for, the answer of
-- `write`, `errno`, and `Acceptor::listen`.
pub record Surroundings : Type 0 where
  pub memory : ℕ → List ℕ
  pub write : List ℕ → Sent
  pub errno : ℕ
  pub listen : EventLoop Task → Result (EventLoop Task)

-- A method of the connection `id`, on its loop's thread.
abbrev pub on_its_loop : ℕ → (Context → Result Context) → World → Result World
on_its_loop id method w = do c ← method (context id w); ok (put_context id c w)

module _ (user : ℕ → Invocation → Context → Result Context) (control : Control) (tid : ℕ) where
  -- The call of a bound callback, on the thread `tid` of the loop that it waited in.
  unfoldable pub run_task : Surroundings → Task → World → Result World
  run_task at (send_task id address len) w =
      on_its_loop id (send_in_loop control tid at.write at.errno (at.memory address) len) w
  run_task at (shutdown_task id) w = on_its_loop id (λ c. ok (shutdown_in_loop c)) w
  run_task at (write_complete_task cb id) w = on_its_loop id (user cb on_write_complete) w
  run_task at (high_water_mark_task cb id size) w =
      on_its_loop id (user cb (on_high_water_mark size)) w
  run_task at (established_task id) w = on_its_loop id (connect_established user control) w
  run_task at (destroyed_task id) w = on_its_loop id (connect_destroyed user control) w
  run_task at (remove_task id) w = ok (remove_connection_in_loop user control tid id w)
  run_task at listen_task w = do
    l ← at.listen (w.loops w.server.base_loop)
    ok (record w { loops = put w.loops w.server.base_loop l })

  -- The user's callbacks, with the close callback left to `close_connection`.
  abbrev pub but_close : ℕ → Invocation → Context → Result Context
  but_close cb on_close c = ok c
  but_close cb on_connection c = user cb on_connection c
  but_close cb (on_message time) c = user cb (on_message time) c
  but_close cb on_write_complete c = user cb on_write_complete c
  but_close cb (on_high_water_mark size) c = user cb (on_high_water_mark size) c

  -- `handleClose` of a connection of the server, whose close callback is `removeConnection`: that
  -- is the last thing that `handleClose` does.
  unfoldable pub close_connection : ℕ → World → Result World
  close_connection id w = do
    c ← handle_close but_close control (context id w)
    ok (remove_connection user control tid id (put_context id c w))
