-- ===== src/Base/Lists.antt =====
-- Sequences measured and indexed by native numbers: slices, overwriting, and their laws.
use Prim.Native.Nat.{ℕ, zero, suc, ◌+◌, ◌-◌, ◌≤◌, min}
use mathlib.Core.Path.{◌≡◌, refl, ap, sym, ◌∙◌}
use mathlib.Core.List.{List, [], ◌∷◌, ◌++◌}
use mathlib.Core.Option.{Option, none, some}
use native.Mathlib.Omega.{arith}

module _ {ℓ} {A : Type ℓ} where
  abbrev pub length : List A → ℕ
  length [] = 0
  length (x ∷ xs) = suc (length xs)

  abbrev pub get_elem? : List A → ℕ → Option A
  get_elem? [] i = none
  get_elem? (x ∷ xs) zero = some x
  get_elem? (x ∷ xs) (suc i) = get_elem? xs i

  abbrev pub take : ℕ → List A → List A
  take zero xs = []
  take (suc n) [] = []
  take (suc n) (x ∷ xs) = x ∷ take n xs

  abbrev pub drop : ℕ → List A → List A
  drop zero xs = xs
  drop (suc n) [] = []
  drop (suc n) (x ∷ xs) = drop n xs

  abbrev pub replicate : ℕ → A → List A
  replicate zero a = []
  replicate (suc n) a = a ∷ replicate n a

module _ {ℓ} {A : Type ℓ} where
  pub length-append : (xs ys : List A) → length (xs ++ ys) ≡ length xs + length ys
  length-append [] ys = omega arith
  length-append (x ∷ xs) ys = omega (arith, length-append xs ys)

  pub length-take : (n : ℕ) (xs : List A) → length (take n xs) ≡ min n (length xs)
  length-take zero xs = omega arith
  length-take (suc n) [] = omega arith
  length-take (suc n) (x ∷ xs) = omega (arith, length-take n xs)

  pub append_cancel : (xs : List A) {ys zs : List A} → xs ++ ys ≡ xs ++ zs → ys ≡ zs
  append_cancel [] same = same
  append_cancel (x ∷ xs) same = append_cancel xs cc

  pub length-drop : (n : ℕ) (xs : List A) → length (drop n xs) ≡ length xs - n
  length-drop zero xs = omega arith
  length-drop (suc n) [] = omega arith
  length-drop (suc n) (x ∷ xs) = omega (arith, length-drop n xs)

  pub length-replicate : (n : ℕ) (a : A) → length (replicate n a) ≡ n
  length-replicate zero a = refl
  length-replicate (suc n) a = ap suc (length-replicate n a)

  pub take-append-drop : (n : ℕ) (xs : List A) → take n xs ++ drop n xs ≡ xs
  take-append-drop zero xs = refl
  take-append-drop (suc n) [] = refl
  take-append-drop (suc n) (x ∷ xs) = ap (◌∷◌ x) (take-append-drop n xs)

  -- `k` steps past a prefix are steps into what follows it.
  pub take-append_ge :
      (n : ℕ) (xs ys : List A) → length xs ≤ n → take n (xs ++ ys) ≡ xs ++ take (n - length xs) ys
  take-append_ge n [] ys h = ap (λ k. take k ys) (omega arith)
  take-append_ge zero (x ∷ xs) ys h = elim h [ ]
  take-append_ge (suc n) (x ∷ xs) ys h =
      ap (◌∷◌ x) (take-append_ge n xs ys (omega arith) ∙ ap (λ k. xs ++ take k ys) (omega arith))

  pub take-append_le : (n : ℕ) (xs ys : List A) → n ≤ length xs → take n (xs ++ ys) ≡ take n xs
  take-append_le zero xs ys h = refl
  take-append_le (suc n) [] ys h = absurd (omega arith)
  take-append_le (suc n) (x ∷ xs) ys h = ap (◌∷◌ x) (take-append_le n xs ys (omega arith))

  pub drop-append_le :
      (n : ℕ) (xs ys : List A) → n ≤ length xs → drop n (xs ++ ys) ≡ drop n xs ++ ys
  drop-append_le zero xs ys h = refl
  drop-append_le (suc n) [] ys h = absurd (omega arith)
  drop-append_le (suc n) (x ∷ xs) ys h = drop-append_le n xs ys (omega arith)

  pub drop-append_ge :
      (n : ℕ) (xs ys : List A) → length xs ≤ n → drop n (xs ++ ys) ≡ drop (n - length xs) ys
  drop-append_ge n [] ys h = ap (λ k. drop k ys) (omega arith)
  drop-append_ge zero (x ∷ xs) ys h = elim h [ ]
  drop-append_ge (suc n) (x ∷ xs) ys h =
      drop-append_ge n xs ys (omega arith) ∙ ap (λ k. drop k ys) (omega arith)

  pub drop-take : (m n : ℕ) (xs : List A) → drop m (take n xs) ≡ take (n - m) (drop m xs)
  drop-take zero n xs = ap (λ k. take k xs) (omega arith)
  drop-take (suc m) zero xs = ap (λ k. take k (drop (suc m) xs)) none_left
    where
      none_left : 0 ≡ 0 - suc m
      none_left = omega arith
  drop-take (suc m) (suc n) [] = sym (take-nil (suc n - suc m))
    where
      take-nil : (k : ℕ) → take {A = A} k [] ≡ []
      take-nil zero = refl
      take-nil (suc k) = refl
  drop-take (suc m) (suc n) (x ∷ xs) = drop-take m n xs ∙ ap (λ k. take k (drop m xs)) (omega arith)

  pub drop-drop : (m n : ℕ) (xs : List A) → drop m (drop n xs) ≡ drop (m + n) xs
  drop-drop m zero xs = ap (λ k. drop k xs) (omega arith)
  drop-drop m (suc n) [] = drop-nil m ∙ sym (drop-nil (m + suc n))
    where
      drop-nil : (k : ℕ) → drop {A = A} k [] ≡ []
      drop-nil zero = refl
      drop-nil (suc k) = refl
  drop-drop m (suc n) (x ∷ xs) = drop-drop m n xs ∙ ap (λ k. drop k (x ∷ xs)) step
    where
      step : suc (m + n) ≡ m + suc n
      step = omega arith

  pub take-take : (m n : ℕ) (xs : List A) → m ≤ n → take m (take n xs) ≡ take m xs
  take-take zero n xs h = refl
  take-take (suc m) zero xs h = absurd (omega arith)
  take-take (suc m) (suc n) [] h = refl
  take-take (suc m) (suc n) (x ∷ xs) h = ap (◌∷◌ x) (take-take m n xs (omega arith))

  pub take_all : (n : ℕ) (xs : List A) → length xs ≤ n → take n xs ≡ xs
  take_all zero [] h = refl
  take_all zero (x ∷ xs) h = absurd (omega arith)
  take_all (suc n) [] h = refl
  take_all (suc n) (x ∷ xs) h = ap (◌∷◌ x) (take_all n xs (omega arith))

  pub drop_all : (n : ℕ) (xs : List A) → length xs ≤ n → drop n xs ≡ []
  drop_all zero [] h = refl
  drop_all zero (x ∷ xs) h = absurd (omega arith)
  drop_all (suc n) [] h = refl
  drop_all (suc n) (x ∷ xs) h = drop_all n xs (omega arith)

-- Memory seen as a sequence: what a copy of `ys` to position `i` leaves behind.
module _ {ℓ} {A : Type ℓ} where
  abbrev pub overwrite : List A → ℕ → List A → List A
  overwrite xs i ys = take i xs ++ (ys ++ drop (i + length ys) xs)

  -- The `n` elements from position `i` on.
  abbrev pub slice : ℕ → ℕ → List A → List A
  slice i n xs = take n (drop i xs)

  pub length-overwrite :
      (xs : List A) (i : ℕ) (ys : List A)
      → i + length ys ≤ length xs
      → length (overwrite xs i ys) ≡ length xs
  length-overwrite xs i ys h = omega (
    arith,
    length-append (take i xs) (ys ++ drop (i + length ys) xs),
    length-append ys (drop (i + length ys) xs),
    length-take i xs,
    length-drop (i + length ys) xs,
  )

  pub length-slice : (i n : ℕ) (xs : List A) → i + n ≤ length xs → length (slice i n xs) ≡ n
  length-slice i n xs h = omega (arith, length-take n (drop i xs), length-drop i xs)

  -- A copy to the end of a slice extends the slice.
  pub slice-overwrite_end :
      (i n k : ℕ) (xs ys : List A)
      → k ≡ n + length ys
      → i + n + length ys ≤ length xs
      → slice i k (overwrite xs (i + n) ys) ≡ slice i n xs ++ ys
  slice-overwrite_end i n k xs ys e h =
      ap (take k) (drop-append_le i (take (i + n) xs) rest in_prefix)
      ∙ take-append_ge k (drop i (take (i + n) xs)) rest (omega (arith, kept_length))
      ∙ ap (λ l. l ++ take (k - length (drop i (take (i + n) xs))) rest) kept
      ∙ ap (λ l. slice i n xs ++ l)
          (ap (λ m. take m rest) (omega (arith, kept_length))
            ∙ take-append_le (length ys) ys (drop (i + n + length ys) xs) (omega arith)
            ∙ take_all (length ys) ys (omega arith))
    where
      rest : List A
      rest = ys ++ drop (i + n + length ys) xs

      in_prefix : i ≤ length (take (i + n) xs)
      in_prefix = omega (arith, length-take (i + n) xs)

      kept : drop i (take (i + n) xs) ≡ slice i n xs
      kept = drop-take i (i + n) xs ∙ ap (λ m. take m (drop i xs)) (omega arith)

      kept_length : length (drop i (take (i + n) xs)) ≡ n
      kept_length = omega (arith, ap length kept, length-slice i n xs)

  -- What was copied to a place is read back from there.
  pub slice-overwrite_self :
      (i n : ℕ) (xs ys : List A)
      → n ≡ length ys
      → i ≤ length xs
      → slice i n (overwrite xs i ys) ≡ ys
  slice-overwrite_self i n xs ys e h =
      ap (take n) (drop-append_ge i (take i xs) rest (omega (arith, length-take i xs)))
      ∙ ap (λ m. take n (drop m rest)) {y = 0} (omega (arith, length-take i xs))
      ∙ take-append_le n ys (drop (i + length ys) xs) (omega arith)
      ∙ take_all n ys (omega arith)
    where
      rest : List A
      rest = ys ++ drop (i + length ys) xs

  -- More memory at the end changes no slice inside the old memory.
  pub slice-append :
      (i n : ℕ) (xs ys : List A) → i + n ≤ length xs → slice i n (xs ++ ys) ≡ slice i n xs
  slice-append i n xs ys h =
      ap (take n) (drop-append_le i xs ys (omega arith))
      ∙ take-append_le n (drop i xs) ys (omega (arith, length-drop i xs))

  pub drop-slice : (m i n : ℕ) (xs : List A) → drop m (slice i n xs) ≡ slice (m + i) (n - m) xs
  drop-slice m i n xs = drop-take m n (drop i xs) ∙ ap (take (n - m)) (drop-drop m i xs)

module _ {ℓ} {A : Type ℓ} where
  -- An element at the front of what follows position `i` is the element at `i`.
  pub get_elem?-drop :
      (xs : List A) (i : ℕ) (x : A) (rest : List A)
      → drop i xs ≡ x ∷ rest
      → (get_elem? xs i ≡ some x) × (drop (i + 1) xs ≡ rest)
  get_elem?-drop [] zero x rest e = cc
  get_elem?-drop [] (suc i) x rest e = cc
  get_elem?-drop (y ∷ ys) zero x rest e = (cc, cc)
  get_elem?-drop (y ∷ ys) (suc i) x rest e =
      let (here, later) = get_elem?-drop ys i x rest e in
      (here, ap (λ k. drop k (y ∷ ys)) step ∙ later)
    where
      step : suc i + 1 ≡ suc (i + 1)
      step = omega arith

  pub eq_nil_of_length : (xs : List A) → length xs ≡ 0 → xs ≡ []
  eq_nil_of_length [] e = refl
  eq_nil_of_length (x ∷ xs) e = absurd (omega arith)
