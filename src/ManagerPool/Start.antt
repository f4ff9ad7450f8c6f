-- ===== src/ManagerPool/Start.antt =====
-- `start`: one loop and one name per Manager, in order.
use mathlib.Core.List.{append_assoc, append-nil}
use lucky.Base.{
  ℕ, zero, suc, ◌+◌, ◌≡◌, ◌≢◌, refl, sym, ◌∙◌, ap, List, [], ◌∷◌, ◌++◌, map, Bool, true, ◌&&◌, ◌==◌,
  if◌then◌else◌, arith, append_cancel, length, get_elem?, none, some, ℤ, pos, eq_ℤ, decimal,
  decimal-injective,
}
use lucky.ManagerPool.{
  ManagerPool, init, set_thread_num, start_from, rounds_of, start, get_all_loops,
}

-- The numbers from `i` on, `count` of them.
abbrev pub counted : ℕ → ℕ → List ℕ
counted i zero = []
counted i (suc count) = i ∷ counted (i + 1) count

-- A pool that has gone on from `pool` by the Managers with the numbers `numbers`.
pub record Started (start_loop : ℕ → ℕ) (numbers : List ℕ) (pool pool' : ManagerPool) : Type 0 where
  pub loops : pool'.loops ≡ pool.loops ++ map start_loop numbers
  pub threads : pool'.threads ≡ pool.threads ++ map (λ i. pool.name ++ decimal i) numbers
  pub is_start : pool'.is_start ≡ pool.is_start
  pub base_loop : pool'.base_loop ≡ pool.base_loop
  pub threads_num : pool'.threads_num ≡ pool.threads_num
  pub next_loop : pool'.next_loop ≡ pool.next_loop

start_from_lem :
    (start_loop : ℕ → ℕ) (count i : ℕ) (pool : ManagerPool)
    → Started start_loop (counted i count) pool (start_from start_loop count i pool)
unfolding start_from
start_from_lem start_loop zero i pool = record {
  loops = sym (append-nil pool.loops);
  threads = sym (append-nil pool.threads);
  is_start = refl;
  base_loop = refl;
  threads_num = refl;
  next_loop = refl;
}
start_from_lem start_loop (suc count) i pool =
    let rest = start_from_lem start_loop count (i + 1) (record pool {
      threads = pool.threads ++ ((pool.name ++ decimal i) ∷ []);
      loops = pool.loops ++ (start_loop i ∷ []);
    }) in
    record {
      loops =
          rest.loops
          ∙ append_assoc pool.loops (start_loop i ∷ []) (map start_loop (counted (i + 1) count));
      threads =
          rest.threads
          ∙ append_assoc pool.threads ((pool.name ++ decimal i) ∷ [])
              (map (λ j. pool.name ++ decimal j) (counted (i + 1) count));
      is_start = rest.is_start;
      base_loop = rest.base_loop;
      threads_num = rest.threads_num;
      next_loop = rest.next_loop;
    }

-- A new pool that is told a number of threads and started has one loop and one numbered name per
-- thread, in order, and the first loop as the next; a callback, if there is one, is called on the
-- base loop exactly when that number is 0; and `getAllLoops` gives the base loop where there are
-- no threads, and all the loops otherwise.
pub start_lem :
    (start_loop : ℕ → ℕ) (has_callback : Bool) (base : ℕ) (name : List ℕ) (num : ℤ)
    → let r = start start_loop has_callback (set_thread_num num (init base name)) in
      let numbers = counted 0 (rounds_of num) in
      (r.0.loops ≡ map start_loop numbers)
      × (r.0.threads ≡ map (λ i. name ++ decimal i) numbers)
      × (r.0.next_loop ≡ 0)
      × (r.1 ≡ (if eq_ℤ num (pos 0) && has_callback then some base else none))
      × (get_all_loops r.0 ≡ (if rounds_of num == 0 then base ∷ [] else map start_loop numbers))
unfolding start init set_thread_num get_all_loops
start_lem start_loop has_callback base name num =
    let s =
      start_from_lem start_loop (rounds_of num) 0
        (record (set_thread_num num (init base name)) { is_start = true }) in
    (
      s.loops,
      s.threads,
      s.next_loop,
      rw (s.threads_num, s.base_loop),
      rw (s.base_loop, s.loops, length-counted start_loop 0 (rounds_of num)),
    )
  where
    length-counted : (f : ℕ → ℕ) (i count : ℕ) → length (map f (counted i count)) ≡ count
    length-counted f i zero = refl
    length-counted f i (suc count) = ap suc (length-counted f (i + 1) count)

-- The element of a row of names that was built from consecutive numbers.
get_elem?-counted :
    (f : ℕ → List ℕ) (k i count : ℕ) (x : List ℕ)
    → get_elem? (map f (counted i count)) k ≡ some x
    → x ≡ f (i + k)
get_elem?-counted f k i zero x found = cc
get_elem?-counted f zero i (suc count) x found =
    let here : i ≡ i + 0 = omega arith in let same : f i ≡ x = cc in sym same ∙ ap f here
get_elem?-counted f (suc k) i (suc count) x found =
    get_elem?-counted f k (i + 1) count x found ∙ ap f (omega arith)

abbrev pub started : (ℕ → ℕ) → Bool → ℕ → List ℕ → ℤ → ManagerPool
started start_loop has_callback base name num =
    (start start_loop has_callback (set_thread_num num (init base name))).0

-- No two Managers of a started pool have the same name.
threads-distinct :
    (start_loop : ℕ → ℕ) (has_callback : Bool) (base : ℕ) (name : List ℕ) (num : ℤ) (i j : ℕ)
    (first second : List ℕ)
    → get_elem? (started start_loop has_callback base name num).threads i ≡ some first
    → get_elem? (started start_loop has_callback base name num).threads j ≡ some second
    → i ≢ j
    → first ≢ second
threads-distinct start_loop has_callback base name num i j first second at_i at_j apart same =
    apart (
      decimal-injective i j
        (append_cancel name (sym (numbered i first at_i) ∙ same ∙ numbered j second at_j)))
  where
    numbered :
        (k : ℕ) (thread : List ℕ)
        → get_elem? (started start_loop has_callback base name num).threads k ≡ some thread
        → thread ≡ name ++ decimal k
    numbered k thread found =
        let (_, threads, _, _, _) = start_lem start_loop has_callback base name num in
        get_elem?-counted (λ i. name ++ decimal i) k 0 (rounds_of num) thread
          (ap (λ names. get_elem? names k) (sym threads) ∙ found)
        ∙ ap (λ n. name ++ decimal n) (omega arith)
