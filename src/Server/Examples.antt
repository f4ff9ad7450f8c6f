-- ===== src/Server/Examples.antt =====
-- The server's theorems at concrete inputs.
use lucky.Base.{
  ℕ, ◌≡◌, ◌≢◌, refl, sym, ◌∙◌, ap, [], ◌∷◌, true, false, Option, none, some, if◌then◌else◌, arith,
  pos, Result, ok, ok-injective, subst, inl, inr, ◌⊎◌, replicate, decimal, digits,
}
use lucky.Address.{Address}
use lucky.Buffer.{Buffer}
use lucky.EventLoop
use lucky.EventLoop.{EventLoop, do_pend_func}
use lucky.EventLoop.Functors.{Adds, PendFunc, do_pend_func_lem}
use lucky.Connection.Calls.{ok-Adds, same-Adds, epoller-Adds}
use lucky.Server.Calls.{run_task-Adds}
use lucky.Connection.{Connection, Context, Task, connected}
use lucky.Connection.Handlers.{Invocation}
use lucky.ManagerPool.{ManagerPool, get_next_loop}
use lucky.Server.{Text, lookup, Server, World, conn_name, new_connection, remove_connection}
use lucky.Buffer
use lucky.Buffer.{sent}
use lucky.Buffer.Content.{IsValid}
use lucky.Filed
use lucky.Connection.{destroyed_task, remove_task, established_task, shutdown_task}
use lucky.Connection.Stream.{Sound, SameConn-refl}
use lucky.Server
use lucky.Server.{context}
use lucky.Server.Removing.{Queued}
use lucky.Server.Tasks.{Surroundings, run_task}
use lucky.Server.Life.{Unknown}
use lucky.Server.Hangup.{hangup_lem}
use lucky.Server.Events.{noted, handle_filed}
use lucky.Filed.{Filed, epollin, connection_read, connection_write}
use lucky.Epoller.{set_object, put}
use lucky.Epoller.Runs.{InStep-objects}
use lucky.Connection.Binding.{Bound}
use lucky.Buffer.{received}
use lucky.Server.Closing.{TakenDown, close_lem}
use lucky.Server.Names.{Named, text_cases, eq_text_ne}
use lucky.Server.Accepting.{Accepted, new_connection_lem}
use lucky.Server.Removing.{Removed, Asked, remove_connection_lem}
use lucky.Epoller.Kernel.{kernel, kernel-Documented, quiet, quiet-InStep}

abbrev loop_on : ℕ → EventLoop Task
loop_on tid = record {
  looping = true;
  quit = false;
  thread_id = tid;
  epoll_return_time = 0;
  epoller = quiet;
  wakeup_filed = 3;
  active_fileds = [];
  is_call_pend_func = false;
  pend_funcs = [];
  signals = 0;
  registered = true;
}

abbrev somewhere : Address
somewhere = record { sin_port = 0; sin_addr = 0 }

abbrev no_bytes : Buffer
no_bytes = record { buffer = replicate 16 0; reader_index = 8; writer_index = 8 }

-- The connection of pointer 50 is the first one of the server "S" at "1:2".
abbrev first : Connection
first = record {
  id = 50;
  name = 83 ∷ 45 ∷ 49 ∷ 58 ∷ 50 ∷ 35 ∷ 49 ∷ [];
  state = connected;
  reading = true;
  filed = 7;
  local_addr = somewhere;
  peer_addr = somewhere;
  connection_callback = some 1;
  message_callback = some 2;
  write_complete_callback = none;
  close_callback = some 4;
  high_water_mark_callback = none;
  high_water_mark = 64;
  keep_alive = true;
  input_buffer = no_bytes;
  output_buffer = no_bytes;
}

-- The base loop is 1, and the pool has the loops 20 and 21.
abbrev pool : ManagerPool
pool = record {
  is_start = true;
  base_loop = 1;
  name = 83 ∷ [];
  threads_num = pos 2;
  next_loop = 1;
  threads = [];
  loops = 20 ∷ 21 ∷ [];
}

abbrev server : Server
server = record {
  base_loop = 1;
  ip_port = 49 ∷ 58 ∷ 50 ∷ [];
  name = 83 ∷ [];
  started = 1;
  next_conn_id = 2;
  connections = (first.name, 50) ∷ [];
  pool = pool;
  connection_callback = some 1;
  message_callback = some 2;
  write_complete_callback = none;
}

abbrev world : World
world = record {
  server = server;
  loops = λ p. loop_on p;
  conns = λ id. first;
  owner = λ id. 20;
  wires = λ id. [];
  shut = λ id. false;
}

abbrev leave : ℕ → Invocation → Context → Result Context
leave cb how c = ok c

only : (label : Text) (id : ℕ) → lookup label server.connections ≡ some id → label ≡ first.name
only label id at = elim (text_cases first.name label) [
  | inl same ↦ sym same
  | inr apart ↦ absurd (
      none_ne
        (sym (ap (λ b. if b then some 50 else none) (eq_text_ne first.name label apart)) ∙ at))
]
  where
    none_ne : ◌≢◌ {A = Option ℕ} none (some id)
    none_ne e = cc

server-Named : Named server
unfolding conn_name decimal digits
server-Named = record {
  short = omega arith;
  bounded = omega arith;
  numbered = λ label id at. (1, omega arith, only label id at);
}

dealt : get_next_loop pool ≡ ok (21, record pool { next_loop = 0 })
unfolding get_next_loop
dealt = refl

elsewhere : EventLoop.is_loop_thread 1 (world.loops 21) ≡ false
unfolding EventLoop.is_loop_thread
elsewhere = refl

new_connection_lem_example :
    (w' : World) × (new_connection leave kernel 1
        (record { id = 51; filed = 8 })
        4
        8
        somewhere
        somewhere
        world
      ≡ ok w')
    × Accepted 21 51 4 (conn_name server 2) world w'
new_connection_lem_example =
    new_connection_lem leave kernel 1 (record { id = 51; filed = 8 }) 4 8 somewhere somewhere world
      21 (record pool { next_loop = 0 }) server-Named (omega arith) dealt elsewhere

remove_connection_lem_example :
    let here = EventLoop.is_loop_thread 1 (world.loops 1) in
    let w' = remove_connection leave kernel 1 50 world in
    ((here ≡ true) × Removed 1 50 world w') ⊎ ((here ≡ false) × Asked 1 50 world w')
remove_connection_lem_example = remove_connection_lem leave kernel 1 50 world server-Named

no_bytes-IsValid : IsValid no_bytes
no_bytes-IsValid = omega arith

no_listener : EventLoop Task → Result (EventLoop Task)
no_listener l = ok l

abbrev surroundings : Surroundings
surroundings = record {
  memory = λ address. [];
  write = λ bytes. sent 0;
  errno = 0;
  listen = no_listener;
}

-- The same server, where the Filed of the connection has its handlers and the tie.
abbrev own_filed : Filed
own_filed = Filed.tie 50 (
    Filed.set_write_callback (connection_write 50)
      (Filed.set_read_callback (connection_read 50) (Filed.init 7)))

abbrev tied_world : World
tied_world = record world {
  loops = λ p. record (loop_on p) { epoller = set_object 7 own_filed quiet };
}

on_another : EventLoop.is_loop_thread 20 (tied_world.loops 1) ≡ false
unfolding EventLoop.is_loop_thread
on_another = refl

tied_world-Sound : Sound (context 50 tied_world)
unfolding Filed.init Filed.tie Filed.set_write_callback Filed.set_read_callback Buffer.buffer_code
tied_world-Sound = record {
  in_step =
      InStep-objects quiet (tied_world.loops 20).epoller.objects (λ q. ground arith)
        (λ q. ground arith) (λ q. ground arith) quiet-InStep;
  interest = record { reading = false; writing = false };
  asks = refl;
  output = no_bytes-IsValid;
  wanted = refl;
}

tied_world-Bound : Bound (context 50 tied_world)
unfolding Filed.init Filed.tie Filed.set_write_callback Filed.set_read_callback
tied_world-Bound = record { read = refl; write = refl; tied = refl; target = refl }

hangup_lem_example :
    (w₁ w₂ w₃ : World) × (handle_filed leave kernel 20 20
        (λ blocks. received [])
        (λ bytes. sent 0)
        ok
        (λ id w. true)
        7
        9
        (noted epollin 50 tied_world)
      ≡ ok w₁)
    × Queued 20 (remove_task 50) (tied_world.loops 1) (w₁.loops 1)
    × (run_task leave kernel 1 surroundings (remove_task 50) w₁ ≡ ok w₂)
    × (lookup first.name w₂.server.connections ≡ none)
    × Queued 1 (destroyed_task 50) (w₁.loops 20) (w₂.loops 20)
    × (run_task leave kernel 20 surroundings (destroyed_task 50) w₂ ≡ ok w₃)
    × Unknown (context 50 w₃)
hangup_lem_example =
    hangup_lem leave kernel 20 (λ bytes. sent 0) ok (λ id w. true) kernel-Documented 1 50 1 4 9
      surroundings tied_world server-Named tied_world-Sound no_bytes-IsValid tied_world-Bound refl
      refl (λ e. absurd (omega arith)) on_another refl refl (λ c. (c, refl, SameConn-refl c))

on_its_own : EventLoop.is_loop_thread 1 (world.loops 20) ≡ false
unfolding EventLoop.is_loop_thread
on_its_own = refl

close_lem_example :
    (w' : World) × (Server.close leave kernel 1 world ≡ ok w')
    × TakenDown server.connections world w'
close_lem_example = close_lem leave kernel 1 world (on_its_own, tt)

loop_stays : (l l' : EventLoop Task) → surroundings.listen l ≡ ok l' → Adds l l'
unfolding no_listener
loop_stays l l' done =
    subst (λ (x : EventLoop Task). Adds l x) (ok-injective done) (epoller-Adds l l.epoller)

leave_fair :
    (cb : ℕ) (how : Invocation) (c c' : Context)
    → leave cb how c ≡ ok c'
    → Adds c.eventloop c'.eventloop
leave_fair cb how c c' done = ok-Adds c.eventloop (same-Adds c) done

-- Three calls wait in the loop 20; the removal queues the take-down behind them.
abbrev full_world : World
full_world = record world {
  loops = put world.loops 20 (record (loop_on 20) {
    pend_funcs = established_task 50 ∷ shutdown_task 50 ∷ remove_task 50 ∷ [];
  });
}

abbrev loop_20 : World → EventLoop Task
loop_20 w = w.loops 20

abbrev with_loop_20 : EventLoop Task → World → World
with_loop_20 l w = record w { loops = put w.loops 20 l }

abbrev no_handler : ℕ → ℕ → World → Result World
no_handler p now w = ok w

do_pend_func_lem_example :
    PendFunc loop_20 with_loop_20 (run_task leave kernel 20 surroundings) no_handler full_world (
      do_pend_func loop_20 with_loop_20
        (run_task leave kernel 20 surroundings)
        no_handler
        full_world)
do_pend_func_lem_example =
    do_pend_func_lem loop_20 with_loop_20 (run_task leave kernel 20 surroundings) no_handler
      (λ l w. refl) (run_task-Adds leave kernel 20 surroundings leave_fair loop_stays 20) full_world
