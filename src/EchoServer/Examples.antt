-- ===== src/EchoServer/Examples.antt =====
-- The echo server's theorems at concrete inputs.
use lucky.Base.{
  Bool, Result, pos, ℕ, ◌≡◌, refl, List, [], ◌∷◌, true, false, none, some, arith, replicate, length,
  ok, ◌>>=◌, inr,
}
use lucky.Address.{Address}
use lucky.Buffer
use lucky.Buffer.{Buffer, Sent, sent}
use lucky.Buffer.Content.{IsValid, content}
use lucky.Acceptor
use lucky.Filed
use lucky.Filed.{acceptor_read}
use lucky.Filed.{Filed, connection_read, connection_write}
use lucky.Epoller.{set_object}
use lucky.Epoller.Runs.{InStep-objects}
use lucky.EventLoop
use lucky.EventLoop.{EventLoop}
use lucky.Connection.{Connection, Context, Task, established_task, connecting, connected}
use lucky.Connection.Stream.{stream}
use lucky.Connection.Draining.{Honest}
use lucky.EchoServer
use lucky.EchoServer.Accepted.{new_connection-serve}
use lucky.Epoller.Newcomer.{Unseen}
use lucky.Connection.Handlers.{Invocation}
use lucky.ManagerPool.{ManagerPool, get_next_loop}
use lucky.Server
use lucky.Server.{World, context, new_connection}
use lucky.EchoServer.{Event, arrives, writable, both, callbacks, serve}
use lucky.EchoServer.Waiting.{Waiting}
use lucky.EchoServer.Echoing.{AllPlausible}
use lucky.EchoServer.Serving.{serve_lem}
use lucky.Server.Removing.{Queued}
use lucky.Server.Tasks.{Surroundings, run_task}
use lucky.Epoller.Kernel.{kernel, kernel-Documented, quiet, quiet-InStep}

abbrev somewhere : Address
somewhere = record { sin_port = 0; sin_addr = 0 }

abbrev no_bytes : Buffer
no_bytes = record { buffer = replicate 16 0; reader_index = 8; writer_index = 8 }

abbrev new_conn : Connection
new_conn = record {
  id = 1;
  name = [];
  state = connecting;
  reading = true;
  filed = 7;
  local_addr = somewhere;
  peer_addr = somewhere;
  connection_callback = some EchoServer.connection_callback;
  message_callback = some EchoServer.message_callback;
  write_complete_callback = none;
  close_callback = some 4;
  high_water_mark_callback = none;
  high_water_mark = 64;
  keep_alive = true;
  input_buffer = no_bytes;
  output_buffer = no_bytes;
}

abbrev quiet_loop : EventLoop Task
quiet_loop = record {
  looping = true;
  quit = false;
  thread_id = 1;
  epoll_return_time = 0;
  epoller = quiet;
  wakeup_filed = 3;
  active_fileds = [];
  is_call_pend_func = false;
  pend_funcs = [];
  signals = 0;
  registered = true;
}

-- The Filed of the connection, with the callbacks that its constructor binds and the tie.
abbrev own_filed : Filed
own_filed = Filed.tie 1 (
    Filed.set_write_callback (connection_write 1)
      (Filed.set_read_callback (connection_read 1) (Filed.init 7)))

abbrev own_loop : EventLoop Task
own_loop = record quiet_loop { epoller = set_object 7 own_filed quiet }

abbrev made : Context
made = record { conn = new_conn; eventloop = own_loop; wire = []; write_shut = false }

no_bytes-IsValid : IsValid no_bytes
no_bytes-IsValid = omega arith

abbrev nothing : List ℕ → Sent
nothing offered = sent 0

abbrev one_byte : List ℕ → Sent
one_byte [] = sent 0
one_byte (x ∷ xs) = sent 1

-- Two bytes arrive and have to wait, then one more; the socket takes a byte at a time, the second
-- time at the report of the arrival.
abbrev events : List Event
events =
    arrives (5 ∷ 6 ∷ []) 0 nothing 0 0
    ∷ writable one_byte
    ∷ both (7 ∷ []) 0 nothing 0 0 one_byte
    ∷ writable one_byte
    ∷ []

one_byte-Honest : (offered : List ℕ) → Honest (one_byte offered) (length offered)
one_byte-Honest [] = omega arith
one_byte-Honest (x ∷ xs) = omega arith

events-AllPlausible : AllPlausible events
events-AllPlausible = (
  (omega arith, omega arith, λ offered. inr refl),
  (
    one_byte-Honest,
    (((omega arith, omega arith, λ offered. inr refl), one_byte-Honest), (one_byte-Honest, tt)),
  ),
)

-- The same connection once it is set up.
abbrev live : Context
live = record made { conn = record new_conn { state = connected } }

live-Waiting : Waiting 1 live
unfolding EventLoop.is_loop_thread Filed.init Filed.tie Filed.set_write_callback
    Filed.set_read_callback Buffer.buffer_code
live-Waiting = record {
  sound = record {
    in_step =
        InStep-objects quiet live.eventloop.epoller.objects (λ q. ground arith) (λ q. ground arith)
          (λ q. ground arith) quiet-InStep;
    interest = record { reading = false; writing = false };
    asks = refl;
    output = no_bytes-IsValid;
    wanted = refl;
  };
  live = refl;
  here = refl;
  bound = record { read = refl; write = refl; tied = refl; target = refl };
  listens = refl;
  input = no_bytes-IsValid;
  read = refl;
  front = refl;
}

-- A started echo server with the loops 20 and 21, each on a thread of its own number.
abbrev pool : ManagerPool
pool = record {
  is_start = true;
  base_loop = 1;
  name = 69 ∷ [];
  threads_num = pos 2;
  next_loop = 1;
  threads = [];
  loops = 20 ∷ 21 ∷ [];
}

abbrev world : World
world = record {
  server = record (EchoServer.configured (Server.members 1 (49 ∷ 58 ∷ 50 ∷ []) (69 ∷ []))) {
    pool = pool;
  };
  loops = λ p. record quiet_loop { thread_id = p };
  conns = λ id. new_conn;
  owner = λ id. 20;
  wires = λ id. [];
  shut = λ id. false;
}

dealt : get_next_loop pool ≡ ok (21, record pool { next_loop = 0 })
unfolding get_next_loop
dealt = refl

eight-Unseen : Unseen 8 8 quiet
unfolding Filed.init
eight-Unseen = record { others = λ q apart. apart; entry = refl; interest = refl }

elsewhere : EventLoop.is_loop_thread 1 (world.loops 21) ≡ false
unfolding EventLoop.is_loop_thread
elsewhere = refl

on_its_own : EventLoop.is_loop_thread 21 (world.loops 21) ≡ true
unfolding EventLoop.is_loop_thread
on_its_own = refl

numbered : world.server.next_conn_id ≡ 1
unfolding EchoServer.configured Server.members Server.set_connection_callback
    Server.set_message_callback Server.set_thread_num
numbered = refl

tells : world.server.connection_callback ≡ some EchoServer.connection_callback
unfolding EchoServer.configured Server.members Server.set_connection_callback
    Server.set_message_callback Server.set_thread_num
tells = refl

listens : world.server.message_callback ≡ some EchoServer.message_callback
unfolding EchoServer.configured Server.members Server.set_connection_callback
    Server.set_message_callback Server.set_thread_num
listens = refl

-- The constructor, where `socket` gives 5 and `bind` succeeds.
init_echo :
    EchoServer.init 4 (some 5) true 5 (some 1) (49 ∷ 58 ∷ 50 ∷ []) (69 ∷ []) quiet
    ≡ ok (
      EchoServer.configured (Server.members 1 (49 ∷ 58 ∷ 50 ∷ []) (69 ∷ [])),
      record {
        is_listen = false;
        filed = 5;
        new_connection_callback = some 4;
        reuse_addr = true;
        reuse_port = true;
      },
      set_object 5 (Filed.set_read_callback acceptor_read (Filed.init 5)) quiet,
    )
unfolding EchoServer.init Server.init Acceptor.init Acceptor.set_new_connection_callback
init_echo = refl

leave : ℕ → Invocation → Context → Result Context
leave cb how c = ok c

-- A server in which the connection 1 stands under the name "c".
abbrev serving : World
serving = record world {
  server = record (world.server) { connections = ((99 ∷ []), 1) ∷ [] };
  loops = λ p. own_loop;
  conns = λ id. live.conn;
  owner = λ id. 1;
}

-- Every connection exists for as long as it is in use.
abbrev always : ℕ → World → Bool
always id w = true

abbrev around : Surroundings
around = record { memory = λ address. []; write = nothing; errno = 0; listen = ok }

serve_lem_example :
    (w' : World) × (serve kernel 1 ok always 1 events serving ≡ ok w')
    × Waiting 1 (context 1 w')
    × (stream (context 1 w') ≡ 5 ∷ 6 ∷ 7 ∷ [])
    × (content (w'.conns 1).output_buffer ≡ [] → w'.wires 1 ≡ 5 ∷ 6 ∷ 7 ∷ [])
serve_lem_example =
    serve_lem kernel kernel-Documented 1 ok always 1 (99 ∷ []) (λ w listed. refl) events serving
      live-Waiting refl refl events-AllPlausible (omega arith)

new_connection-serve_example :
    (w₁ w' : World) × (new_connection leave kernel 1
        (record { id = 51; filed = 8 })
        4
        8
        somewhere
        somewhere
        world
      ≡ ok w₁)
    × Queued 1 (established_task 51) (world.loops 21) (w₁.loops 21)
    × ((run_task (callbacks kernel 21 nothing 0 0) kernel 21 around (established_task 51) w₁
          >>= serve kernel 21 ok always 51 events)
        ≡ ok w')
    × (stream (context 51 w') ≡ 5 ∷ 6 ∷ 7 ∷ [])
    × (content (w'.conns 51).output_buffer ≡ [] → w'.wires 51 ≡ 5 ∷ 6 ∷ 7 ∷ [])
new_connection-serve_example =
    new_connection-serve kernel kernel-Documented leave 1 21 (record { id = 51; filed = 8 }) 4 8
      somewhere somewhere world 21 (record pool { next_loop = 0 }) ok always around nothing 0 0
      events (omega (arith, numbered)) dealt elsewhere on_its_own quiet-InStep eight-Unseen tells
      listens (λ v listed. refl) events-AllPlausible (omega arith)
