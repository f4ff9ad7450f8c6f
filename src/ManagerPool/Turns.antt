-- ===== src/ManagerPool/Turns.antt =====
-- `getNextLoop` deals the loops in turn.
use lucky.Base.{
  ℕ, zero, suc, ◌+◌, ◌-◌, ◌<◌, ◌≡◌, refl, sym, ◌∙◌, ap, List, [], ◌∷◌, ◌++◌, ==_ne, leb, le→leb,
  lt→leb, if◌then◌else◌, arith, length, length-drop, eq_nil_of_length, get_elem?, take, drop, some,
  Result, ok, ◌>>=◌,
}
use lucky.ManagerPool.{ManagerPool, get_next_loop}

-- `count` calls of `getNextLoop`, with what they return.
pub deal : ℕ → ManagerPool → Result (List ℕ × ManagerPool)
deal zero pool = ok ([], pool)
deal (suc count) pool = do
  (chosen, pool₁) ← get_next_loop pool
  (rest, pool₂) ← deal count pool₁
  ok (chosen ∷ rest, pool₂)

abbrev pub at : ℕ → ManagerPool → ManagerPool
at i pool = record pool { next_loop = i }

-- The element at an index in range, and the rest behind it.
drop_head :
    (xs : List ℕ) (i : ℕ)
    → i < length xs
    → (x : ℕ) × (get_elem? xs i ≡ some x) × (drop i xs ≡ x ∷ drop (suc i) xs)
drop_head [] i less = absurd (omega arith)
drop_head (x ∷ xs) zero less = (x, refl, refl)
drop_head (x ∷ xs) (suc i) less = drop_head xs i (omega arith)

get_next_loop_lem :
    (pool : ManagerPool) (i x : ℕ)
    → i < length pool.loops
    → get_elem? pool.loops i ≡ some x
    → get_next_loop (at i pool)
      ≡ ok (x, at (if leb (length pool.loops) (i + 1) then 0 else i + 1) pool)
unfolding get_next_loop
get_next_loop_lem pool i x less found = rw (==_ne (length pool.loops) 0 (omega arith), found)

deal-next :
    (count x : ℕ) (xs : List ℕ) (pool pool₁ pool₂ : ManagerPool)
    → get_next_loop pool ≡ ok (x, pool₁)
    → deal count pool₁ ≡ ok (xs, pool₂)
    → deal (suc count) pool ≡ ok (x ∷ xs, pool₂)
unfolding deal
deal-next count x xs pool pool₁ pool₂ first rest = rw (first, rest)

-- Where the call is not the last of a turn, and where it is.
inner :
    (pool : ManagerPool) (i x : ℕ)
    → suc i < length pool.loops
    → get_elem? pool.loops i ≡ some x
    → get_next_loop (at i pool) ≡ ok (x, at (suc i) pool)
inner pool i x more found =
    let up : i + 1 ≡ suc i = omega arith in
    get_next_loop_lem pool i x (omega arith) found
    ∙ ap (λ next. ok (x, at next pool)) (rw (up, lt→leb (length pool.loops) (suc i) more) refl)

final :
    (pool : ManagerPool) (i x : ℕ)
    → suc i ≡ length pool.loops
    → get_elem? pool.loops i ≡ some x
    → get_next_loop (at i pool) ≡ ok (x, at 0 pool)
final pool i x all found =
    get_next_loop_lem pool i x (omega arith) found
    ∙ ap (λ next. ok (x, at next pool)) (rw (le→leb (length pool.loops) (i + 1) (omega arith)) refl)

-- From `i` to the end, the calls give the loops that are left, and go on from the start.
deal_to_end :
    (pool : ManagerPool) (count n i : ℕ) (ys : List ℕ) (pool' : ManagerPool)
    → i + suc count ≡ length pool.loops
    → deal n (at 0 pool) ≡ ok (ys, pool')
    → deal (suc count + n) (at i pool) ≡ ok (drop i pool.loops ++ ys, pool')
deal_to_end pool zero n i ys pool' all rest =
    let (x, found, left) = drop_head pool.loops i (omega arith) in
    let nothing : drop (suc i) pool.loops ≡ [] =
      eq_nil_of_length (drop (suc i) pool.loops) (omega (arith, length-drop (suc i) pool.loops)) in
    let one_more : suc zero + n ≡ suc n = omega arith in
    ap (λ k. deal k (at i pool)) one_more
    ∙ deal-next n x ys (at i pool) (at 0 pool) pool' (final pool i x (omega arith) found) rest
    ∙ ap (λ xs. ok (xs ++ ys, pool')) (sym (left ∙ ap (λ xs. x ∷ xs) nothing))
deal_to_end pool (suc count) n i ys pool' all rest =
    let (x, found, left) = drop_head pool.loops i (omega arith) in
    let one_more : suc (suc count) + n ≡ suc (suc count + n) = omega arith in
    ap (λ k. deal k (at i pool)) one_more
    ∙ deal-next (suc count + n) x (drop (suc i) pool.loops ++ ys) (at i pool) (at (suc i) pool)
        pool' (inner pool i x (omega arith) found)
        (deal_to_end pool count n (suc i) ys pool' (omega arith) rest)
    ∙ ap (λ xs. ok (xs ++ ys, pool')) (sym left)

-- From the start, the calls give the first loops.
deal_from :
    (pool : ManagerPool) (count i : ℕ)
    → i + count < length pool.loops
    → deal count (at i pool) ≡ ok (take count (drop i pool.loops), at (i + count) pool)
unfolding deal
deal_from pool zero i more = ap (λ n. ok ([], at n pool)) (omega arith)
deal_from pool (suc count) i more =
    let (x, found, left) = drop_head pool.loops i (omega arith) in
    deal-next count x (take count (drop (suc i) pool.loops)) (at i pool) (at (suc i) pool)
      (at (suc i + count) pool) (inner pool i x (omega arith) found)
      (deal_from pool count (suc i) (omega arith))
    ∙ ap (λ xs. ok (take (suc count) xs, at (suc i + count) pool)) (sym left)
    ∙ ap (λ n. ok (take (suc count) (drop i pool.loops), at n pool)) (omega arith)

-- With the next loop in range, as many calls of `getNextLoop` as there are loops return each loop
-- once, in order from the next one on and then from the first, and leave the pool as it was: so
-- all further turns are the same.
pub deal_turn :
    (pool : ManagerPool)
    → pool.next_loop < length pool.loops
    → deal (length pool.loops) pool
      ≡ ok (drop pool.next_loop pool.loops ++ take pool.next_loop pool.loops, pool)
deal_turn pool legal =
    let i : ℕ = pool.next_loop in
    let from_start : 0 + i ≡ i = omega arith in
    let parts : length pool.loops ≡ suc (length pool.loops - i - 1) + i = omega arith in
    ap (λ k. deal k pool) parts
    ∙ deal_to_end pool (length pool.loops - i - 1) i i (take i pool.loops) pool (omega arith)
        (deal_from pool i 0 (omega arith) ∙ ap (λ n. ok (take i pool.loops, at n pool)) from_start)
