-- ===== src/Thread.antt =====
-- include/Thread.h and src/Thread.cpp: a thread with a name, an id and a `std::thread` once it is
-- started.
pub mod Handshake
pub mod Closing
pub mod Names
mod Examples
use lucky.Base.{
  ℕ, ◌+◌, ◌^◌, ◌%◌, Bool, true, false, not, ◌&&◌, List, [], ◌∷◌, ◌++◌, if◌then◌else◌, take, to_int,
  signed, Result, ok, err, undefined, terminate, system_error,
}

-- The object behind `thread_`, if there is one, as the standard library keeps it.
pub data Handle : Type 0 where
  absent joinable joined detached : Handle

pub record Thread : Type 0 where
  pub is_start : Bool
  pub is_join : Bool
  pub thread : Handle
  pub tid : ℕ
  pub name : List ℕ

-- `create_num_` is an `int` of 32 bits whose `++` wraps; the buffer has 32 characters, with the 0
-- at the end. The result is the name and the new `create_num_`.
unfoldable pub set_name : List ℕ → ℕ → List ℕ × ℕ
set_name [] create_num =
    let num = (create_num + 1) % 2 ^ 32 in
    (take 31 (84 ∷ 104 ∷ 114 ∷ 101 ∷ 97 ∷ 100 ∷ signed (to_int num)), num)
set_name (c ∷ cs) create_num = (c ∷ cs, (create_num + 1) % 2 ^ 32)

-- The constructor, with `create_num_` before it and behind it.
unfoldable pub init : List ℕ → ℕ → Thread × ℕ
init name create_num =
    let (name', num) = set_name name create_num in
    (record { is_start = false; is_join = false; thread = absent; tid = 0; name = name' }, num)

-- The end of a `std::thread`.
unfoldable pub destroy : Handle → Result (Unit {0})
destroy joinable = err terminate
destroy handle = ok tt

-- `start` up to the wait: the new `std::thread` takes the place of the old one.
unfoldable pub start : Thread → Result Thread
start t = elim (destroy t.thread) [
  | err fault ↦ err fault
  | ok done ↦ ok (record t { is_start = true; thread = joinable })
]

-- `join`, once the thread's function has returned.
unfoldable pub join : Thread → Result Thread
join t = elim t.thread [
  | absent ↦ err undefined
  | joinable ↦ ok (record t { is_join = true; thread = joined })
  | joined ↦ err system_error
  | detached ↦ err system_error
]

unfoldable pub detach : Handle → Result Handle
detach absent = err undefined
detach joinable = ok detached
detach joined = err system_error
detach detached = err system_error

-- The destructor, and the end of the `std::thread` behind it.
unfoldable pub close : Thread → Result Handle
close t =
    let left = if t.is_start && not t.is_join then detach t.thread else ok t.thread in
    elim left [
      | err fault ↦ err fault
      | ok handle ↦ elim (destroy handle) [ err fault ↦ err fault | ok done ↦ ok handle ]
    ]
