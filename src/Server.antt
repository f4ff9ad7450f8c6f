-- ===== src/Server.antt =====
-- include/Server.h and src/Server.cpp: the server on the thread of its base loop, with the loops
-- and the connections that it knows by pointers. `user` runs callbacks, as in Connection/Handlers.
pub mod Names
pub mod Handing
pub mod Accepting
pub mod Newborn
pub mod Removing
pub mod Tasks
pub mod Calls
pub mod Events
pub mod Ready
pub mod Hangup
pub mod Life
pub mod Starting
pub mod Closing
mod Examples
use lucky.Base.{
  ℕ, ◌+◌, ◌-◌, ◌^◌, Bool, true, false, not, ◌&&◌, List, [], ◌∷◌, ◌++◌, Option, none, some, ltb,
  ◌==◌, if◌then◌else◌, take, ℤ, decimal, Result, ok, err, exit, undefined, ◌>>=◌,
}
use lucky.Acceptor
use lucky.Acceptor.{Acceptor}
use lucky.Address.{Address}
use lucky.Filed
use lucky.Epoller.{Epoller, Control, put, set_object}
use lucky.EventLoop
use lucky.EventLoop.{EventLoop}
use lucky.Connection
use lucky.Connection.{
  Connection, Context, Task, established_task, destroyed_task, remove_task, listen_task,
}
use lucky.Connection.Handlers.{Invocation, connect_established, connect_destroyed}
use lucky.ManagerPool
use lucky.ManagerPool.{ManagerPool}

abbrev pub Text : Type 0
Text = List ℕ

abbrev pub eq_text : Text → Text → Bool
eq_text [] [] = true
eq_text (c ∷ cs) (d ∷ ds) = c == d && eq_text cs ds
eq_text _ _ = false

-- `connections_`: the names, and the pointers of the connections.
abbrev pub lookup : Text → List (Text × ℕ) → Option ℕ
lookup label [] = none
lookup label ((key, id) ∷ rest) = if eq_text key label then some id else lookup label rest

abbrev pub assign : Text → ℕ → List (Text × ℕ) → List (Text × ℕ)
assign label id [] = (label, id) ∷ []
assign label id ((key, old) ∷ rest) =
    let others = assign label id rest in
    if eq_text key label then (key, id) ∷ rest else (key, old) ∷ others

abbrev pub erase : Text → List (Text × ℕ) → List (Text × ℕ)
erase label [] = []
erase label ((key, id) ∷ rest) =
    let others = erase label rest in if eq_text key label then others else (key, id) ∷ others

pub record Server : Type 0 where
  pub base_loop : ℕ
  pub ip_port : Text
  pub name : Text
  pub started : ℕ
  pub next_conn_id : ℕ
  pub connections : List (Text × ℕ)
  pub pool : ManagerPool
  pub connection_callback : Option ℕ
  pub message_callback : Option ℕ
  pub write_complete_callback : Option ℕ

-- What the pointers stand for: `owner` is the loop of a connection, `wires` and `shut` are its
-- socket as in a Context.
pub record World : Type 0 where
  pub server : Server
  pub loops : ℕ → EventLoop Task
  pub conns : ℕ → Connection
  pub owner : ℕ → ℕ
  pub wires : ℕ → List ℕ
  pub shut : ℕ → Bool

-- The members that the constructor sets, for the text of the listening address.
unfoldable pub members : ℕ → Text → Text → Server
members base_loop ip_port name = record {
  base_loop = base_loop;
  ip_port = ip_port;
  name = name;
  started = 0;
  next_conn_id = 1;
  connections = [];
  pool = ManagerPool.init base_loop name;
  connection_callback = none;
  message_callback = none;
  write_complete_callback = none;
}

-- The constructor, on a base loop, which `CheckLoopNotNull` wants to be there, with that loop's
-- Epoller. It makes the Acceptor, for what `socket` and `bind` did and an accept Filed at the
-- pointer `p`, and hands it `new_connection`, the bound `newConnection`.
unfoldable pub init :
    ℕ
    → Option ℕ
    → Bool
    → ℕ
    → Bool
    → Option ℕ
    → Text
    → Text
    → Epoller
    → Result (Server × Acceptor × Epoller)
init new_connection sockfd bound p reuseport none ip_port name e = err exit
init new_connection sockfd bound p reuseport (some base_loop) ip_port name e = do
  (a, e') ← Acceptor.init sockfd bound p reuseport e
  ok (members base_loop ip_port name, Acceptor.set_new_connection_callback new_connection a, e')

unfoldable pub set_connection_callback : Option ℕ → Server → Server
set_connection_callback cb s = record s { connection_callback = cb }

unfoldable pub set_message_callback : Option ℕ → Server → Server
set_message_callback cb s = record s { message_callback = cb }

unfoldable pub set_write_complete_callback : Option ℕ → Server → Server
set_write_complete_callback cb s = record s { write_complete_callback = cb }

unfoldable pub set_thread_num : ℤ → Server → Server
set_thread_num num s = record s { pool = ManagerPool.set_thread_num num s.pool }

abbrev pub context : ℕ → World → Context
context id w = record {
  conn = w.conns id;
  eventloop = w.loops (w.owner id);
  wire = w.wires id;
  write_shut = w.shut id;
}

abbrev pub put_context : ℕ → Context → World → World
put_context id c w = record w {
  conns = put w.conns id c.conn;
  loops = put w.loops (w.owner id) c.eventloop;
  wires = put w.wires id c.wire;
  shut = put w.shut id c.write_shut;
}

-- `runinLoop` of a method of the connection `id`, on the connection's loop.
unfoldable pub run_in_loop : ℕ → ℕ → Task → (Context → Result Context) → World → Result World
run_in_loop tid id task body w = do
  c ← Connection.run_in_loop tid task body (context id w)
  ok (put_context id c w)

-- `buff`, of 64 characters with the 0 at the end: a `-`, the address, a `#` and the number.
unfoldable pub conn_name : Server → ℕ → Text
conn_name s k = s.name ++ take 63 (45 ∷ (s.ip_port ++ (35 ∷ decimal k)))

-- `++nextConnId_` of an `int`.
unfoldable pub next_id : Server → Result Server
next_id s =
    if ltb s.next_conn_id (2 ^ 31 - 1)
    then ok (record s { next_conn_id = s.next_conn_id + 1 })
    else err undefined

-- The pointers of what is new: the connection's and its Filed's.
pub record Fresh : Type 0 where
  pub id : ℕ
  pub filed : ℕ

-- The callbacks that the server hands to a connection; `on_remove` is the bound `removeConnection`.
unfoldable pub with_callbacks : Server → ℕ → Connection → Connection
with_callbacks s on_remove conn = Connection.set_close_callback (some on_remove) (
    Connection.set_write_complete_callback s.write_complete_callback (
      Connection.set_message_callback s.message_callback
        (Connection.set_connection_callback s.connection_callback conn)))

-- The connection is made, and stands in `connections_`.
unfoldable pub make_connection : Fresh → ℕ → ℕ → Text → ℕ → Address → Address → World → Result World
make_connection fresh on_remove io label sockfd local_addr peer_addr w = do
  let l = w.loops io
  let made = record l { epoller = set_object fresh.filed (Filed.init sockfd) l.epoller }
  c ← Connection.init fresh.id label fresh.filed local_addr peer_addr (some made)
  let s = record (w.server) { connections = assign label fresh.id w.server.connections }
  ok (
      put_context fresh.id (record c { conn = with_callbacks s on_remove c.conn })
        (record w { server = s; owner = put w.owner fresh.id io }))

module _ (user : ℕ → Invocation → Context → Result Context) (control : Control) (tid : ℕ) where
  -- `local_addr` is what `getsockname` gave, or zeros.
  unfoldable pub new_connection : Fresh → ℕ → ℕ → Address → Address → World → Result World
  new_connection fresh on_remove sockfd local_addr peer_addr w = do
    (io, pool) ← ManagerPool.get_next_loop w.server.pool
    let label = conn_name w.server w.server.next_conn_id
    s ← next_id (record (w.server) { pool = pool })
    w₁ ←
        make_connection fresh on_remove io label sockfd local_addr peer_addr
          (record w { server = s })
    run_in_loop tid fresh.id (established_task fresh.id) (connect_established user control) w₁

  -- Always by the queue of the connection's loop.
  unfoldable pub remove_connection_in_loop : ℕ → World → World
  remove_connection_in_loop id w =
      let s = record (w.server) { connections = erase (w.conns id).name w.server.connections } in
      let io = w.owner id in
      record w {
        server = s;
        loops = put w.loops io (EventLoop.queue_in_loop tid (destroyed_task id) (w.loops io));
      }

  unfoldable pub remove_connection : ℕ → World → World
  remove_connection id w =
      let base = w.server.base_loop in
      if EventLoop.is_loop_thread tid (w.loops base)
      then remove_connection_in_loop id w
      else record w {
        loops = put w.loops base (EventLoop.queue_in_loop tid (remove_task id) (w.loops base));
      }

  -- The destructor's `for` loop over the connections.
  unfoldable pub destroy_all : List (Text × ℕ) → World → Result World
  destroy_all [] w = ok w
  destroy_all ((label, id) ∷ rest) w = do
    w' ← run_in_loop tid id (destroyed_task id) (connect_destroyed user control) w
    destroy_all rest w'

  unfoldable pub close : World → Result World
  close w = destroy_all w.server.connections w

  -- `listen` is `Acceptor::listen` on the base loop.
  unfoldable pub start :
      (EventLoop Task → Result (EventLoop Task))
      → (ℕ → ℕ)
      → Bool
      → World
      → Result (World × Option ℕ)
  start listen start_loop has_callback w = do
    let s = record (w.server) { started = w.server.started + 1 }
    if w.server.started == 0
        then (do
          let (pool, called) = ManagerPool.start start_loop has_callback s.pool
          let base = s.base_loop
          let l = w.loops base
          l' ←
              if EventLoop.is_loop_thread tid l
              then listen l
              else ok (EventLoop.queue_in_loop tid listen_task l)
          ok (record w { server = record s { pool = pool }; loops = put w.loops base l' }, called))
        else ok (record w { server = s }, none)
