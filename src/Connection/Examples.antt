-- ===== src/Connection/Examples.antt =====
-- The connection's theorems at concrete inputs.
use lucky.Base.{
  ℕ, ◌≤◌, ◌≡◌, refl, sym, ◌∙◌, subst, List, [], ◌∷◌, true, false, Option, none, some, arith, Result,
  ok, err, undefined, ◌>>=◌, inl, inr, replicate, ℕ_discrete,
}
use lucky.Address.{Address}
use lucky.Buffer
use lucky.Buffer.{Buffer, Received, received, failed, Sent, sent, refused, read_blocks}
use lucky.Buffer.Content.{IsValid, content}
use lucky.Buffer.Transfer.{total}
use lucky.Filed
use lucky.Filed.{Filed, read_event, none_event}
use lucky.Epoller.{Epoller, put, added}
use lucky.Epoller.Consistency.{Consistent, Placed, put_ne}
use lucky.Epoller.Runs.{InStep}
use lucky.EventLoop
use lucky.EventLoop.{EventLoop}
use lucky.Connection.{
  Connection, Context, Task, connected, disconnected, send_in_loop, shutdown, filed_of,
}
use lucky.Connection.Handlers.{
  Invocation, on_connection, on_close, invoke, handle_close, handle_read, handle_write,
  connect_destroyed,
}
use lucky.Connection.Stream.{Sound, stream}
use lucky.Connection.Rest.{Extends}
use lucky.Connection.Sending.{is_ready, send_in_loop_lem}
use lucky.Connection.ShortWrites.{
  PartialWrite, partial_write_loses, partial_write_repeats, refused_write_faults,
}
use lucky.Connection.Draining.{Drains, handle_write_lem}
use lucky.Connection.Graceful.{Progresses, drain, shutdown-drain}
use lucky.Connection.Lifecycle.{
  Found, ReadsAs, handle_close_lem, handle_read_lem, connect_destroyed_lem,
}
use lucky.Epoller.Kernel.{kernel, kernel-Documented, quiet, quiet-InStep}

-- The Filed at pointer 7 is watched for reading and writing, and no other.
abbrev watched : Filed
watched = record (Filed.init 7) { events = 7; index = added }

abbrev watching : Epoller
watching = record {
  event_list = replicate 16 (0, 0);
  fileds = put (λ fd. none) 7 (some 7);
  objects = put (λ p. Filed.init p) 7 watched;
  interest = put (λ fd. none) 7 (some (7, 7));
}

abbrev loop_of : Epoller → EventLoop Task
loop_of e = record {
  looping = true;
  quit = false;
  thread_id = 1;
  epoll_return_time = 0;
  epoller = e;
  wakeup_filed = 3;
  active_fileds = [];
  is_call_pend_func = false;
  pend_funcs = [];
  signals = 0;
  registered = true;
}

abbrev no_bytes : Buffer
no_bytes = record { buffer = replicate 16 0; reader_index = 8; writer_index = 8 }

abbrev three_bytes : Buffer
three_bytes = record {
  buffer = 0 ∷ 0 ∷ 0 ∷ 0 ∷ 0 ∷ 0 ∷ 0 ∷ 0 ∷ 0 ∷ 4 ∷ 5 ∷ 6 ∷ 0 ∷ [];
  reader_index = 9;
  writer_index = 12;
}

abbrev somewhere : Address
somewhere = record { sin_port = 0; sin_addr = 0 }

abbrev conn_with : Option ℕ → Buffer → Connection
conn_with cb output = record {
  id = 1;
  name = [];
  state = connected;
  reading = true;
  filed = 7;
  local_addr = somewhere;
  peer_addr = somewhere;
  connection_callback = cb;
  message_callback = some 2;
  write_complete_callback = some 3;
  close_callback = some 4;
  high_water_mark_callback = none;
  high_water_mark = 64;
  keep_alive = true;
  input_buffer = three_bytes;
  output_buffer = output;
}

-- Nothing waits to be sent, and the kernel does not watch the socket.
abbrev idle : Context
idle = record {
  conn = conn_with (some 1) no_bytes;
  eventloop = loop_of quiet;
  wire = 1 ∷ [];
  write_shut = false;
}

-- Three bytes wait to be sent.
abbrev busy : Context
busy = record {
  conn = conn_with (some 1) three_bytes;
  eventloop = loop_of watching;
  wire = 1 ∷ [];
  write_shut = false;
}

watching_fd : (q : ℕ) → (watching.objects q).fd ≡ q
unfolding Filed.init
watching_fd q = ground arith

watching-InStep : InStep watching
unfolding Filed.init
watching-InStep = record {
  consistent = record {
    distinct = λ p q h. sym (watching_fd p) ∙ h ∙ watching_fd q;
    placed = λ p. elim (ℕ_discrete p 7) [
      | yes same ↦
          subst
            (λ q.
              Placed q (watching.objects q).index (watching.fileds (watching.objects q).fd)
                (watching.interest (watching.objects q).fd))
            (sym same) (inr (inl (refl, refl, (7, refl))))
      | no apart ↦
          rw
            (
              put_ne (λ q. Filed.init q) 7 p watched apart,
              put_ne {V = Option ℕ} (λ fd. none) 7 p (some 7) apart,
              put_ne {V = Option (ℕ × ℕ)} (λ fd. none) 7 p (some (7, 7)) apart,
            )
            (inl (refl, refl, refl))
    ];
  };
  watched = λ p. ground arith;
}

no_bytes-IsValid : IsValid no_bytes
no_bytes-IsValid = omega arith

three_bytes-IsValid : IsValid three_bytes
three_bytes-IsValid = omega arith

idle-Sound : Sound idle
unfolding Filed.init Buffer.buffer_code
idle-Sound = record {
  in_step = quiet-InStep;
  interest = record { reading = false; writing = false };
  asks = refl;
  output = no_bytes-IsValid;
  wanted = refl;
}

busy-Sound : Sound busy
unfolding Buffer.buffer_code
busy-Sound = record {
  in_step = watching-InStep;
  interest = record { reading = true; writing = true };
  asks = refl;
  output = three_bytes-IsValid;
  wanted = refl;
}

-- The socket takes two of the three bytes.
handle_write_lem_example :
    (c' : Context) × (handle_write kernel 1 (λ offered. sent 2) busy ≡ ok c')
    × Drains (sent 2) busy c'
handle_write_lem_example =
    handle_write_lem kernel kernel-Documented 1 (λ offered. sent 2) busy busy-Sound (omega arith)

send_in_loop_lem_example :
    (c' : Context) × (send_in_loop kernel 1 (λ bytes. sent 0) 0 (7 ∷ 8 ∷ 9 ∷ []) 2 busy ≡ ok c')
    × Extends (7 ∷ 8 ∷ []) busy c'
send_in_loop_lem_example =
    send_in_loop_lem kernel kernel-Documented 1 (7 ∷ 8 ∷ 9 ∷ []) 2 (λ bytes. sent 0) 0 busy
      busy-Sound (λ e. cc) (omega arith) (omega arith) (inr refl)

short_write : PartialWrite (λ bytes. sent 1) (7 ∷ 8 ∷ 9 ∷ []) 3 1 idle
unfolding Filed.init Buffer.buffer_code Filed.is_writing
short_write = record {
  alive = λ e. cc;
  ready = refl;
  enough = omega arith;
  small = omega arith;
  some_taken = omega arith;
  some_left = omega arith;
  answer = refl;
}

partial_write_loses_example :
    send_in_loop kernel 1 (λ bytes. sent 1) 0 (7 ∷ 8 ∷ 9 ∷ []) 3 idle
    ≡ ok (record idle { wire = 1 ∷ 7 ∷ [] })
partial_write_loses_example =
    partial_write_loses kernel 1 (λ bytes. sent 1) 0 (7 ∷ 8 ∷ 9 ∷ []) 3 1 idle short_write
      (omega arith)

partial_write_repeats_example :
    (c' : Context) × (send_in_loop kernel 1 (λ bytes. sent 1) 11 (7 ∷ 8 ∷ 9 ∷ []) 3 idle ≡ ok c')
    × (stream c' ≡ 1 ∷ 7 ∷ 7 ∷ 8 ∷ [])
partial_write_repeats_example =
    partial_write_repeats kernel 1 (λ bytes. sent 1) 11 (7 ∷ 8 ∷ 9 ∷ []) 3 1 idle short_write
      kernel-Documented idle-Sound refl (omega arith)

idle-is_ready : is_ready idle ≡ true
unfolding Filed.init Buffer.buffer_code Filed.is_writing
idle-is_ready = refl

refused_write_faults_example :
    send_in_loop kernel 1 (λ bytes. refused 11) 11 (7 ∷ 8 ∷ 9 ∷ []) 3 idle ≡ err undefined
refused_write_faults_example =
    refused_write_faults kernel 1 (λ bytes. refused 11) 11 11 (7 ∷ 8 ∷ 9 ∷ []) 3 idle (λ e. cc)
      idle-is_ready (omega arith) (omega arith) refl

-- A socket that takes one byte at a time.
abbrev one_byte : List ℕ → Sent
one_byte [] = sent 0
one_byte (x ∷ xs) = sent 1

one_byte-Progresses : Progresses one_byte
one_byte-Progresses [] = (0, refl, omega arith, λ more. more)
one_byte-Progresses (x ∷ xs) = (1, refl, omega arith, λ more. omega arith)

busy-in_loop : EventLoop.is_loop_thread 1 busy.eventloop ≡ true
unfolding EventLoop.is_loop_thread
busy-in_loop = refl

shutdown-drain_example :
    (c' : Context) × ((shutdown 1 busy >>= drain kernel 1 (one_byte ∷ one_byte ∷ one_byte ∷ []))
      ≡ ok c')
    × (c'.wire ≡ 1 ∷ 4 ∷ 5 ∷ 6 ∷ [])
    × (content c'.conn.output_buffer ≡ [])
    × (c'.write_shut ≡ true)
shutdown-drain_example =
    shutdown-drain kernel kernel-Documented 1 (one_byte ∷ one_byte ∷ one_byte ∷ []) busy busy-Sound
      refl busy-in_loop (one_byte-Progresses, (one_byte-Progresses, (one_byte-Progresses, tt)))
      (omega arith)

-- Callbacks that do nothing.
abbrev leave : ℕ → Invocation → Context → Result Context
leave cb how c = ok c

handle_close_lem_example :
    (c₁ : Context) × (handle_close leave kernel busy ≡ (
      invoke leave (some 1) on_connection c₁ >>= λ c₂.
      invoke leave c₂.conn.close_callback on_close c₂))
    × Found disconnected none_event busy c₁
handle_close_lem_example = handle_close_lem leave kernel kernel-Documented busy busy-Sound

idle_room : 2 ≤ total (read_blocks three_bytes)
unfolding Buffer.buffer_code
idle_room = omega arith

init_asks_nothing : (filed_of idle).events ≡ 0
unfolding Filed.init
init_asks_nothing = refl

handle_read_lem_example :
    ReadsAs leave kernel 0 idle
      (received (8 ∷ 9 ∷ []))
      (handle_read leave kernel (λ blocks. received (8 ∷ 9 ∷ [])) 0 idle)
handle_read_lem_example =
    handle_read_lem leave kernel (λ blocks. received (8 ∷ 9 ∷ [])) 0 idle three_bytes-IsValid
      (idle_room, omega arith)

connect_destroyed_lem_example :
    (c' : Context) × (connect_destroyed leave kernel busy ≡ ok c')
    × Consistent c'.eventloop.epoller
    × (c'.eventloop.epoller.fileds (filed_of c').fd ≡ none)
    × (c'.eventloop.epoller.interest (filed_of c').fd ≡ none)
connect_destroyed_lem_example =
    connect_destroyed_lem leave kernel kernel-Documented busy
      (record { reading = true; writing = true }) 1 watching-InStep refl refl
      (λ c s. (c, refl, s, refl))
