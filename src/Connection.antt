-- ===== src/Connection.antt =====
-- include/Connection.h and src/Connection.cpp: one TCP connection on the thread of its loop. A user
-- callback is a number that `user` runs, a bound callback that waits in the loop is a `Task`, and
-- the system calls are arguments. `wire` is what the kernel has accepted for the peer.
pub mod Handlers
pub mod Stream
pub mod Rest
pub mod Sending
pub mod ShortWrites
pub mod Draining
pub mod Graceful
pub mod Lifecycle
pub mod Binding
pub mod Calls
mod Examples
use lucky.Base.{
  ℕ, ◌+◌, ◌*◌, Bool, true, false, not, ◌&&◌, List, [], ◌∷◌, ◌++◌, Option, none, some, ◌==◌, ltb,
  leb, if◌then◌else◌, take, drop, ℤ, pos, negsuc, add_size, sub_size, Result, ok, err, exit,
  undefined, ◌>>=◌,
}
use lucky.Address.{Address}
use lucky.Buffer
use lucky.Buffer.{Buffer, Sent, sent, refused}
use lucky.Filed
use lucky.Filed.{Filed, connection_read, connection_write, connection_close, connection_error}
use lucky.Filed.Masks.{Change, enable_writing}
use lucky.Epoller.{Control, set_object}
use lucky.Epoller
use lucky.Epoller.Interest.{change_and_update}
use lucky.EventLoop
use lucky.EventLoop.{EventLoop}

pub data StateE : Type 0 where
  disconnected connecting connected disconnecting : StateE

abbrev pub eq_state : StateE → StateE → Bool
eq_state disconnected disconnected = true
eq_state connecting connecting = true
eq_state connected connected = true
eq_state disconnecting disconnecting = true
eq_state _ _ = false

-- What is bound and handed to a loop. `send_in_loop` holds the address of the caller's string and
-- its length, as `std::bind` of `buff.c_str()` does.
pub data Task : Type 0 where
  send_task : ℕ → ℕ → ℕ → Task
  shutdown_task : ℕ → Task
  write_complete_task : ℕ → ℕ → Task
  high_water_mark_task : ℕ → ℕ → ℕ → Task
  established_task : ℕ → Task
  destroyed_task : ℕ → Task
  remove_task : ℕ → Task
  listen_task : Task

-- `keep_alive` is what was asked of the socket, whose `setsockopt` is not looked at.
pub record Connection : Type 0 where
  pub id : ℕ
  pub name : List ℕ
  pub state : StateE
  pub reading : Bool
  pub filed : ℕ
  pub local_addr : Address
  pub peer_addr : Address
  pub connection_callback : Option ℕ
  pub message_callback : Option ℕ
  pub write_complete_callback : Option ℕ
  pub close_callback : Option ℕ
  pub high_water_mark_callback : Option ℕ
  pub high_water_mark : ℕ
  pub keep_alive : Bool
  pub input_buffer : Buffer
  pub output_buffer : Buffer

-- The connection, its loop, the bytes sent to the peer, and whether the write side is shut down.
pub record Context : Type 0 where
  pub conn : Connection
  pub eventloop : EventLoop Task
  pub wire : List ℕ
  pub write_shut : Bool

abbrev pub eagain : ℕ
eagain = 11

abbrev pub filed_of : Context → Filed
filed_of c = c.eventloop.epoller.objects c.conn.filed

abbrev pub set_output : Buffer → Context → Context
set_output b c = record c { conn = record (c.conn) { output_buffer = b } }

abbrev pub set_state : StateE → Context → Context
set_state s c = record c { conn = record (c.conn) { state = s } }

-- The constructor, for a Filed at the pointer `p` that has been made for the socket, on a loop,
-- which `CheckLoop` wants to be there.
unfoldable pub init : ℕ → List ℕ → ℕ → Address → Address → Option (EventLoop Task) → Result Context
init id name p local_addr peer_addr none = err exit
init id name p local_addr peer_addr (some l) = do
  input ← Buffer.init Buffer.initial_size
  output ← Buffer.init Buffer.initial_size
  let bound = Filed.set_error_callback (connection_error id) (
      Filed.set_close_callback (connection_close id) (
        Filed.set_write_callback (connection_write id)
          (Filed.set_read_callback (connection_read id) (l.epoller.objects p))))
  ok (record {
    conn = record {
      id = id;
      name = name;
      state = connecting;
      reading = true;
      filed = p;
      local_addr = local_addr;
      peer_addr = peer_addr;
      connection_callback = none;
      message_callback = none;
      write_complete_callback = none;
      close_callback = none;
      high_water_mark_callback = none;
      high_water_mark = 64 * 1024 * 1024;
      keep_alive = true;
      input_buffer = input;
      output_buffer = output;
    };
    eventloop = record l { epoller = set_object p bound l.epoller };
    wire = [];
    write_shut = false;
  })

unfoldable pub set_connection_callback : Option ℕ → Connection → Connection
set_connection_callback cb conn = record conn { connection_callback = cb }

unfoldable pub set_message_callback : Option ℕ → Connection → Connection
set_message_callback cb conn = record conn { message_callback = cb }

unfoldable pub set_write_complete_callback : Option ℕ → Connection → Connection
set_write_complete_callback cb conn = record conn { write_complete_callback = cb }

unfoldable pub set_close_callback : Option ℕ → Connection → Connection
set_close_callback cb conn = record conn { close_callback = cb }

unfoldable pub set_high_water_mark_callback : Option ℕ → ℕ → Connection → Connection
set_high_water_mark_callback cb high_water_mark conn = record conn {
  high_water_mark_callback = cb;
  high_water_mark = high_water_mark;
}

unfoldable pub is_connect : Connection → Bool
is_connect conn = eq_state conn.state connected

unfoldable pub queue : ℕ → Task → Context → Context
queue tid task c = record c { eventloop = EventLoop.queue_in_loop tid task c.eventloop }

-- `loop_->runinLoop` of a bound call: at once on the loop's thread, and queued from another.
unfoldable pub run_in_loop : ℕ → Task → (Context → Result Context) → Context → Result Context
run_in_loop tid task body c =
    if EventLoop.is_loop_thread tid c.eventloop then body c else ok (queue tid task c)

-- A method of the connection's Filed that ends in `update()`.
unfoldable pub change_filed : Control → Change → Context → Result Context
change_filed control ch c = do
  e ← change_and_update control ch c.conn.filed c.eventloop.epoller
  ok (record c { eventloop = record (c.eventloop) { epoller = e } })

unfoldable pub queue_write_complete : ℕ → Context → Context
queue_write_complete tid c = elim c.conn.write_complete_callback [
  | none ↦ c
  | some cb ↦ queue tid (write_complete_task cb c.conn.id) c
]

abbrev pub is_set : Option ℕ → Bool
is_set none = false
is_set (some cb) = true

-- `nwrote`, `remaining` and `faultError` of `sendinLoop`.
pub record Attempt : Type 0 where
  pub nwrote : ℤ
  pub remaining : ℕ
  pub fault : Bool

-- `write` took `n > 0` of the bytes. `errno` is what an earlier call left, since `write` succeeded.
unfoldable pub wrote_some : ℕ → ℕ → ℕ → List ℕ → ℕ → Context → Attempt × Context
wrote_some tid errno len bytes n c =
    let remaining = sub_size len n in
    let c₁ = record c { wire = c.wire ++ take n bytes } in
    if remaining == 0 && is_set c.conn.write_complete_callback
    then (
      record { nwrote = pos n; remaining = remaining; fault = false },
      queue_write_complete tid c₁,
    )
    else (record { nwrote = pos 0; remaining = remaining; fault = not (errno == eagain) }, c₁)

unfoldable pub after_write : ℕ → ℕ → ℕ → List ℕ → Sent → Context → Attempt × Context
after_write tid errno len bytes (sent n) c =
    if ltb 0 n
    then wrote_some tid errno len bytes n c
    else (record { nwrote = pos 0; remaining = len; fault = false }, c)
after_write tid errno len bytes (refused e) c =
    (record { nwrote = negsuc 0; remaining = len; fault = false }, c)

-- The direct write, tried only while nothing waits to be sent.
unfoldable pub try_write :
    ℕ → (List ℕ → Sent) → ℕ → List ℕ → ℕ → Context → Result (Attempt × Context)
try_write tid write errno from len c =
    if not (Filed.is_writing (filed_of c)) && Buffer.readable_bytes c.conn.output_buffer == 0
    then (do
      bytes ← Buffer.read_at from 0 len
      ok (after_write tid errno len bytes (write bytes) c))
    else ok (record { nwrote = pos 0; remaining = len; fault = false }, c)

unfoldable pub warn_high_water : ℕ → ℕ → ℕ → Context → Context
warn_high_water tid old_len remaining c =
    let sum = add_size old_len remaining in
    if leb c.conn.high_water_mark sum && ltb old_len c.conn.high_water_mark
    then elim c.conn.high_water_mark_callback [
      | none ↦ c
      | some cb ↦ queue tid (high_water_mark_task cb c.conn.id sum) c
    ]
    else c

-- The memory at `data + nwrote`; nothing is known before `data`.
abbrev pub at_offset : List ℕ → ℤ → Result (List ℕ)
at_offset from (pos n) = ok (drop n from)
at_offset from (negsuc n) = err undefined

-- The append to the output, and the request for write events.
unfoldable pub store_rest : Control → List ℕ → ℕ → Context → Result Context
store_rest control source remaining c = do
  output ← Buffer.append c.conn.output_buffer source remaining
  let c₁ = set_output output c
  if Filed.is_writing (filed_of c₁) then ok c₁ else change_filed control enable_writing c₁

unfoldable pub keep_rest : Control → ℕ → List ℕ → Attempt → Context → Result Context
keep_rest control tid from a c = do
  let old_len = Buffer.readable_bytes c.conn.output_buffer
  let c₁ = warn_high_water tid old_len a.remaining c
  source ← at_offset from a.nwrote
  store_rest control source a.remaining c₁

unfoldable pub send_in_loop :
    Control → ℕ → (List ℕ → Sent) → ℕ → List ℕ → ℕ → Context → Result Context
send_in_loop control tid write errno from len c =
    if eq_state c.conn.state disconnected then ok c else (do
      (a, c₁) ← try_write tid write errno from len c
      if not a.fault && ltb 0 a.remaining then keep_rest control tid from a c₁ else ok c₁)

-- `bytes` is what the string at the address `address` holds at the call. From another thread only
-- its address is queued.
unfoldable pub send : Control → ℕ → (List ℕ → Sent) → ℕ → ℕ → List ℕ → ℕ → Context → Result Context
send control tid write errno address bytes len c =
    if eq_state c.conn.state connected
    then if EventLoop.is_loop_thread tid c.eventloop
      then send_in_loop control tid write errno bytes len c
      else run_in_loop tid (send_task c.conn.id address len)
          (send_in_loop control tid write errno bytes len) c
    else ok c

unfoldable pub shutdown_in_loop : Context → Context
shutdown_in_loop c =
    if not (Filed.is_writing (filed_of c)) then record c { write_shut = true } else c

unfoldable pub shutdown : ℕ → Context → Result Context
shutdown tid c =
    if eq_state c.conn.state connected
    then run_in_loop tid (shutdown_task c.conn.id) (λ c₁. ok (shutdown_in_loop c₁))
        (set_state disconnecting c)
    else ok c
