-- ===== src/Filed.antt =====
-- include/Filed.h and src/Filed.cpp: a file descriptor, the events that it asks for, the events
-- that came, and its four callbacks. `update` and `remove` go through the loop to the Epoller and
-- stand in Epoller/Interest. An `int` of event bits is its 32-bit pattern, and a pointer a number.
pub mod Masks
pub mod Dispatch
pub mod Steady
pub mod Readiness
mod Examples
use lucky.Base.{
  ℕ, ◌-◌, ◌^◌, Bool, true, false, not, ◌&&◌, Option, none, some, ◌==◌, if◌then◌else◌, ℤ, negsuc,
  pos, bit_and, bit_or, Result, ok, err, bad_call, ◌>>=◌,
}

abbrev pub epollin : ℕ
epollin = 0x1

abbrev pub epollpri : ℕ
epollpri = 0x2

abbrev pub epollout : ℕ
epollout = 0x4

abbrev pub epollerr : ℕ
epollerr = 0x8

abbrev pub epollhup : ℕ
epollhup = 0x10

abbrev pub none_event : ℕ
none_event = 0

abbrev pub read_event : ℕ
read_event = bit_or epollin epollpri

abbrev pub write_event : ℕ
write_event = epollout

-- `~mask` of an `int`
abbrev pub complement : ℕ → ℕ
complement mask = 2 ^ 32 - 1 - mask

-- What the library binds into the callbacks of a Filed: a handler and its object.
pub data Callback : Type 0 where
  wakeup_read : Callback
  acceptor_read : Callback
  connection_read connection_write connection_close connection_error : ℕ → Callback

pub record Filed : Type 0 where
  pub fd : ℕ
  pub events : ℕ
  pub revents : ℕ
  pub index : ℤ
  -- the object that `tie_` watches, and whether `tie` was called
  pub tie_target : Option ℕ
  pub tied : Bool
  pub read_callback : Option Callback
  pub write_callback : Option Callback
  pub close_callback : Option Callback
  pub error_callback : Option Callback

unfoldable pub init : ℕ → Filed
init fd = record {
  fd = fd;
  events = 0;
  revents = 0;
  index = negsuc 0;
  tie_target = none;
  tied = false;
  read_callback = none;
  write_callback = none;
  close_callback = none;
  error_callback = none;
}

-- The tests of `isNoneEvent`, `isWriting` and `isReading`.
unfoldable pub is_none_event : Filed → Bool
is_none_event f = f.events == none_event

unfoldable pub is_writing : Filed → Bool
is_writing f = not (bit_and f.events write_event == 0)

unfoldable pub is_reading : Filed → Bool
is_reading f = not (bit_and f.events read_event == 0)

-- The changes of `events_` in `enableReading` and its siblings, before their `update()`.
unfoldable pub with_reading : Filed → Filed
with_reading f = record f { events = bit_or f.events read_event }

unfoldable pub without_reading : Filed → Filed
without_reading f = record f { events = bit_and f.events (complement read_event) }

unfoldable pub with_writing : Filed → Filed
with_writing f = record f { events = bit_or f.events write_event }

unfoldable pub without_writing : Filed → Filed
without_writing f = record f { events = bit_and f.events (complement write_event) }

unfoldable pub without_any : Filed → Filed
without_any f = record f { events = none_event }

unfoldable pub set_revents : ℕ → Filed → Filed
set_revents revent f = record f { revents = revent }

unfoldable pub set_index : ℤ → Filed → Filed
set_index index f = record f { index = index }

unfoldable pub set_read_callback : Callback → Filed → Filed
set_read_callback cb f = record f { read_callback = some cb }

unfoldable pub set_write_callback : Callback → Filed → Filed
set_write_callback cb f = record f { write_callback = some cb }

unfoldable pub set_close_callback : Callback → Filed → Filed
set_close_callback cb f = record f { close_callback = some cb }

unfoldable pub set_error_callback : Callback → Filed → Filed
set_error_callback cb f = record f { error_callback = some cb }

unfoldable pub tie : ℕ → Filed → Filed
tie obj f = record f { tie_target = some obj; tied = true }

abbrev pub is_set : Option Callback → Bool
is_set none = false
is_set (some cb) = true

-- The four tests of `handleEvent`.
unfoldable pub wants_close : Filed → Bool
wants_close f =
    not (bit_and f.revents epollhup == 0)
    && (bit_and f.revents (bit_or epollhup epollin) == epollhup && is_set f.close_callback)

unfoldable pub wants_error : Filed → Bool
wants_error f = not (bit_and f.revents epollerr == 0) && is_set f.error_callback

unfoldable pub wants_read : Filed → Bool
wants_read f = not (bit_and f.revents (bit_or epollin epollpri) == 0) && is_set f.read_callback

unfoldable pub wants_write : Filed → Bool
wants_write f = not (bit_and f.revents epollout == 0) && is_set f.write_callback

-- `W` is the state that callbacks change; `filed` finds the Filed in it, `alive` says whether
-- `tie_.lock()` finds the object, and `invoke` runs a bound handler at the time of the events.
module _ {W : Type 0} (filed : W → Filed) (alive : ℕ → W → Bool)
    (invoke : Callback → ℕ → W → Result W) where
  -- A call of a copied `std::function`, which throws if that is empty.
  pub call : Option Callback → ℕ → W → Result W
  call none time w = err bad_call
  call (some cb) time w = invoke cb time w

  pub when : (Filed → Bool) → Option Callback → ℕ → W → Result W
  when test cb time w = if test (filed w) then call cb time w else ok w

  -- The callbacks are copied before the first runs; the tests read the members as they are then.
  pub run_callbacks : Filed → ℕ → W → Result W
  run_callbacks copied time w = do
    w₁ ← when wants_close copied.close_callback time w
    w₂ ← when wants_error copied.error_callback time w₁
    w₃ ← when wants_read copied.read_callback time w₂
    when wants_write copied.write_callback time w₃

  abbrev pub lock : Option ℕ → W → Bool
  lock none w = false
  lock (some obj) w = alive obj w

  pub handle_event : ℕ → W → Result W
  handle_event time w =
      let f = filed w in
      if f.tied
      then (if lock f.tie_target w then run_callbacks f time w else ok w)
      else run_callbacks f time w
