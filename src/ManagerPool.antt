-- ===== src/ManagerPool.antt =====
-- include/ManagerPool.h and src/ManagerPool.cpp: the loops that share the work, dealt in turn. A
-- loop is the number of its pointer; what a Manager's thread does is not part of this file.
pub mod Turns
pub mod Start
mod Examples
use lucky.Base.{
  ℕ, zero, suc, ◌+◌, Bool, true, false, not, ◌&&◌, List, [], ◌∷◌, ◌++◌, Option, none, some, ltb,
  leb, ◌==◌, if◌then◌else◌, length, get_elem?, ℤ, pos, negsuc, eq_ℤ, Result, ok, err, undefined,
  decimal,
}

-- `threads` are the names of the Managers.
pub record ManagerPool : Type 0 where
  pub is_start : Bool
  pub base_loop : ℕ
  pub name : List ℕ
  pub threads_num : ℤ
  pub next_loop : ℕ
  pub threads : List (List ℕ)
  pub loops : List ℕ

unfoldable pub init : ℕ → List ℕ → ManagerPool
init base_loop name = record {
  is_start = false;
  base_loop = base_loop;
  name = name;
  threads_num = pos 0;
  next_loop = 0;
  threads = [];
  loops = [];
}

unfoldable pub set_thread_num : ℤ → ManagerPool → ManagerPool
set_thread_num num pool = record pool { threads_num = num }

-- The rounds of the `for` loop from `i` on; `start_loop` gives the loop of the `i`-th new Manager.
unfoldable pub start_from : (ℕ → ℕ) → ℕ → ℕ → ManagerPool → ManagerPool
start_from start_loop zero i pool = pool
start_from start_loop (suc count) i pool = start_from start_loop count (i + 1) (record pool {
  threads = pool.threads ++ ((pool.name ++ decimal i) ∷ []);
  loops = pool.loops ++ (start_loop i ∷ []);
})

-- How often `i < num` holds from 0 on.
abbrev pub rounds_of : ℤ → ℕ
rounds_of (pos num) = num
rounds_of (negsuc n) = 0

-- The pool, and the loop on which the callback is called at once, if it is.
unfoldable pub start : (ℕ → ℕ) → Bool → ManagerPool → ManagerPool × Option ℕ
start start_loop has_callback pool =
    let started =
      start_from start_loop (rounds_of pool.threads_num) 0 (record pool { is_start = true }) in
    (
      started,
      if eq_ℤ started.threads_num (pos 0) && has_callback then some started.base_loop else none,
    )

-- `loops_[nextLoop_]`, with no test of the index.
unfoldable pub get_next_loop : ManagerPool → Result (ℕ × ManagerPool)
get_next_loop pool =
    if not (length pool.loops == 0)
    then elim (get_elem? pool.loops pool.next_loop) [
      | none ↦ err undefined
      | some chosen ↦
          let next = pool.next_loop + 1 in
          ok (chosen, record pool { next_loop = if leb (length pool.loops) next then 0 else next })
    ]
    else ok (pool.base_loop, pool)

unfoldable pub get_all_loops : ManagerPool → List ℕ
get_all_loops pool = if length pool.loops == 0 then pool.base_loop ∷ [] else pool.loops
