-- ===== src/Thread/Names.antt =====
-- The names of threads that were given none.
use lucky.Base.{
  ℕ, ◌+◌, ◌^◌, ◌%◌, ◌≤◌, ◌<◌, ◌≡◌, ◌≢◌, sym, ◌∙◌, ap, List, [], ◌∷◌, ◌++◌, arith, take_all, length,
  to_int_lem, decimal, decimal-injective, length-decimal, append_cancel,
}
use lucky.Thread.{set_name}

-- "Thread"
abbrev prefix : List ℕ
prefix = 84 ∷ 104 ∷ 114 ∷ 101 ∷ 97 ∷ 100 ∷ []

-- The name of an unnamed thread is "Thread" and its number, in full.
set_name-unnamed :
    (created : ℕ)
    → created + 1 < 2 ^ 31
    → set_name [] created ≡ (prefix ++ decimal (created + 1), created + 1)
unfolding set_name
set_name-unnamed created few =
    let num : (created + 1) % 2 ^ 32 ≡ created + 1 = omega arith in
    let fits : length (prefix ++ decimal (created + 1)) ≤ 31 =
      omega (arith, length-decimal 10 (created + 1) (omega arith) (omega arith)) in
    rw (num, to_int_lem (created + 1) few)
      (ap (λ text. (text, created + 1)) (take_all 31 (prefix ++ decimal (created + 1)) fits))

-- Two Threads that were given no name, the `m + 1`-th and the `n + 1`-th that were made, of fewer
-- than 2^31, have different names unless they are the same Thread.
set_name_distinct :
    (m n : ℕ) → m + 1 < 2 ^ 31 → n + 1 < 2 ^ 31 → m ≢ n → (set_name [] m).0 ≢ (set_name [] n).0
set_name_distinct m n few few' apart same =
    let texts : prefix ++ decimal (m + 1) ≡ prefix ++ decimal (n + 1) =
      sym (ap (λ r. r.0) (set_name-unnamed m few))
      ∙ same
      ∙ ap (λ r. r.0) (set_name-unnamed n few') in
    apart (omega (arith, decimal-injective (m + 1) (n + 1) (append_cancel prefix texts)))
