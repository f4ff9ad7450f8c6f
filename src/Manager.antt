-- ===== src/Manager.antt =====
-- include/Manager.h and src/Manager.cpp: one thread with its loop, and the thread that starts it.
-- What stands under the mutex is one step, but for the end of `threadFunc`, which holds it on the
-- way out; a wait on the condition variable gives the mutex back.
pub mod Handshake
pub mod Missed
mod Examples
use lucky.Base.{ℕ, Bool, true, false, if◌then◌else◌, Option, none, some}

-- Where `startLoop` is: not called, about to test `loop_` under the mutex, in the wait, or
-- returned.
pub data Caller : Type 0 where
  idle checking sleeping : Caller
  returned : ℕ → Caller

-- Where `threadFunc` is: before its start, before the callback, before it has published its loop,
-- in the loop, behind the reset of `loop_`, and ended.
pub data Worker : Type 0 where
  unstarted setting_up initialised looping leaving ended : Worker

-- Where the destructor is: not called, in the join of the thread whose loop it has asked to quit,
-- behind the join, or ended without one.
pub data Closer : Type 0 where
  unclosed : Closer
  joining : ℕ → Closer
  joined left_alone : Closer

-- `loop` is `loop_`; `called` says on which loop the callback was called, if it was.
pub record Manager : Type 0 where
  pub is_exit : Bool
  pub loop : Option ℕ
  pub caller : Caller
  pub worker : Worker
  pub callback : Bool
  pub called : Option ℕ
  pub closer : Closer

-- The constructor, with a callback or without one.
unfoldable pub init : Bool → Manager
init callback = record {
  is_exit = false;
  loop = none;
  caller = idle;
  worker = unstarted;
  callback = callback;
  called = none;
  closer = unclosed;
}

-- `thread_.start()`.
unfoldable pub start : Manager → Manager
start m = record m { caller = checking; worker = setting_up }

-- The `while` test of `startLoop`, with the wait or the return.
unfoldable pub check_loop : Manager → Manager
check_loop m = elim m.loop [
  | none ↦ record m { caller = sleeping }
  | some p ↦ record m { caller = returned p }
]

-- A thread in the wait, once it is notified or wakes up by itself.
abbrev pub woken : Caller → Caller
woken sleeping = checking
woken other = other

-- `own` is the pointer of the thread's loop. The callback comes before the publication.
unfoldable pub call_back : ℕ → Manager → Manager
call_back own m = record m {
  called = if m.callback then some own else m.called;
  worker = initialised;
}

unfoldable pub publish : ℕ → Manager → Manager
publish own m = record m { loop = some own; caller = woken m.caller; worker = looping }

unfoldable pub unpublish : Manager → Manager
unpublish m = record m { loop = none; worker = leaving }

-- The end of `threadFunc`, which unlocks the mutex and destroys the EventLoop.
unfoldable pub leave : Manager → Manager
leave m = record m { worker = ended }

-- The destructor up to the join, which `quit`s the loop that `loop_` points to.
unfoldable pub close : Manager → Manager
close m = elim m.loop [
  | none ↦ record m { is_exit = true; closer = left_alone }
  | some p ↦ record m { is_exit = true; closer = joining p }
]

-- The join, once the thread has ended.
unfoldable pub join : Manager → Manager
join m = record m { closer = joined }
