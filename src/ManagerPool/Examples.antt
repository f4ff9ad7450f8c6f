-- ===== src/ManagerPool/Examples.antt =====
-- The pool's theorems at concrete inputs.
use lucky.Base.{
  ◌+◌, ◌≡◌, refl, [], ◌∷◌, ◌++◌, map, true, some, none, ok, pos, arith, get_elem?, decimal, digits,
}
use lucky.ManagerPool.{ManagerPool, init, set_thread_num, start, start_from, get_all_loops}
use lucky.ManagerPool.Turns.{deal, deal_turn}
use lucky.ManagerPool.Start.{started, start_lem}

-- Three loops, of which the second is next.
abbrev three_loops : ManagerPool
three_loops = record (init 1 []) { is_start = true; next_loop = 1; loops = 20 ∷ 21 ∷ 22 ∷ [] }

deal_turn_example : deal 3 three_loops ≡ ok (21 ∷ 22 ∷ 20 ∷ [], three_loops)
deal_turn_example = deal_turn three_loops (omega arith)

start_lem_example :
    let r = start (λ i. 20 + i) true (set_thread_num (pos 2) (init 1 (80 ∷ []))) in
    (r.0.loops ≡ 20 ∷ 21 ∷ [])
    × (r.0.threads ≡ map (λ i. (80 ∷ []) ++ decimal i) (0 ∷ 1 ∷ []))
    × (r.0.next_loop ≡ 0)
    × (r.1 ≡ none)
    × (get_all_loops r.0 ≡ 20 ∷ 21 ∷ [])
start_lem_example = start_lem (λ i. 20 + i) true 1 (80 ∷ []) (pos 2)

abbrev twelve : ManagerPool
twelve = started (λ i. 20 + i) true 1 (80 ∷ []) (pos 12)

second_name : get_elem? twelve.threads 1 ≡ some (80 ∷ 49 ∷ [])
unfolding start start_from init set_thread_num decimal digits
second_name = refl

last_name : get_elem? twelve.threads 11 ≡ some (80 ∷ 49 ∷ 49 ∷ [])
unfolding start start_from init set_thread_num decimal digits
last_name = refl
