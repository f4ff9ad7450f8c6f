-- ===== src/Base/Text.antt =====
-- Decimal numbers as `printf` writes them: characters are their codes.
use Prim.Native.Nat.{ℕ, zero, suc, ◌+◌, ◌-◌, ◌*◌, ◌/◌, ◌%◌, ◌<◌, ◌≤◌}
use mathlib.Core.Path.{◌≡◌, refl, sym, ◌∙◌, ap}
use mathlib.Core.List.{List, [], ◌∷◌, ◌++◌}
use native.Mathlib.Omega.{arith}
use native.Mathlib.Decide.{dec_lt}
use lucky.Base.Lists.{length, length-append}
use lucky.Base.Machine.{ℤ, pos, negsuc}
use lucky.Base.Tests.{ltb, if◌then◌else◌, lt→ltb, le→ltb}

-- The digits of a number below 10 to the power of the fuel.
unfoldable pub digits : ℕ → ℕ → List ℕ
digits zero n = []
digits (suc fuel) n =
    let front = digits fuel (n / 10) in
    if ltb n 10 then (48 + n) ∷ [] else front ++ ((48 + n % 10) ∷ [])

-- `%d` of a number that is not negative.
unfoldable pub decimal : ℕ → List ℕ
decimal n = digits (suc n) n

-- `%d`
abbrev pub signed : ℤ → List ℕ
signed (pos n) = decimal n
signed (negsuc n) = 45 ∷ decimal (suc n)

-- The number that a row of digits stands for, behind the digits of `front`.
unfoldable pub reads_as : List ℕ → ℕ → ℕ
reads_as [] front = front
reads_as (c ∷ cs) front = reads_as cs (front * 10 + (c - 48))

reads_as-append :
    (cs : List ℕ) (c front : ℕ)
    → reads_as (cs ++ (c ∷ [])) front ≡ reads_as cs front * 10 + (c - 48)
unfolding reads_as
reads_as-append [] c front = refl
reads_as-append (d ∷ cs) c front = reads_as-append cs c (front * 10 + (d - 48))

reads_as-digits : (fuel n : ℕ) → n < fuel → reads_as (digits fuel n) 0 ≡ n
unfolding digits reads_as
reads_as-digits zero n less = absurd (omega arith)
reads_as-digits (suc fuel) n less = elim (dec_lt n 10) [
  | yes short ↦ rw (lt→ltb n 10 short) (omega arith)
  | no long ↦
      rw
        (
          le→ltb n 10 (omega arith),
          reads_as-append (digits fuel (n / 10)) (48 + n % 10) 0,
          reads_as-digits fuel (n / 10) (omega arith),
        )
        (omega arith)
]

-- Reading what was printed gives the number back.
pub reads_as-decimal : (n : ℕ) → reads_as (decimal n) 0 ≡ n
unfolding decimal
reads_as-decimal n = reads_as-digits (suc n) n (omega arith)

pub decimal-injective : (m n : ℕ) → decimal m ≡ decimal n → m ≡ n
decimal-injective m n same =
    sym (reads_as-decimal m) ∙ ap (λ cs. reads_as cs 0) same ∙ reads_as-decimal n

abbrev pub tens : ℕ → ℕ
tens zero = 1
tens (suc k) = 10 * tens k

length-digits : (fuel k n : ℕ) → n < tens k → 0 < k → length (digits fuel n) ≤ k
unfolding digits
length-digits zero k n less some = omega arith
length-digits (suc fuel) zero n less some = absurd (omega arith)
length-digits (suc fuel) (suc k) n less some = elim (dec_lt n 10) [
  | yes short ↦ rw (lt→ltb n 10 short) (omega arith)
  | no long ↦ rw (le→ltb n 10 (omega arith)) (
      omega (
        arith,
        length-append (digits fuel (n / 10)) ((48 + n % 10) ∷ []),
        length-digits fuel k (n / 10) (omega arith) (more k less (omega arith)),
      ))
]
  where
    more : (k : ℕ) → n < 10 * tens k → 10 ≤ n → 0 < k
    more zero less long = absurd (omega arith)
    more (suc k) less long = omega arith

-- A number below 10 to the power of `k` has at most `k` digits.
pub length-decimal : (k n : ℕ) → n < tens k → 0 < k → length (decimal n) ≤ k
unfolding decimal
length-decimal k n less some = length-digits (suc n) k n less some
