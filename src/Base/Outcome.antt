-- ===== src/Base/Outcome.antt =====
-- How a call ends: with a value, or abnormally.

use mathlib.Core.Path.{◌≡◌, refl}

-- The abnormal ends that the code can reach.
pub data Fault : Type 0 where
  -- an access outside an object's memory, or a read of a value that was never written
  undefined : Fault
  -- `std::length_error` from a container that would grow past its largest size
  length_error : Fault
  -- `std::bad_function_call` from the call of an empty `std::function`
  bad_call : Fault
  -- a failed `assert`
  assertion : Fault
  -- LOG_FATAL, which ends the process by `exit(-1)`
  exit : Fault
  -- `std::terminate`, from a `std::thread` that is destroyed while it is joinable
  terminate : Fault
  -- `std::system_error`, from the join of a `std::thread` that is not joinable
  system_error : Fault

pub data Result {κ} (T : Type κ) : Type κ where
  err : Fault → Result T
  ok : T → Result T

-- A `do` block goes on with the value of a call, or ends as the call ended.
infixl 5 ◌>>=◌
abbrev pub ◌>>=◌ {κ κ'} : {T : Type κ} {U : Type κ'} → Result T → (T → Result U) → Result U
err fault >>= next = err fault
ok value >>= next = next value

pub bind_assoc {κ κ' κ''} :
    {T : Type κ} {U : Type κ'} {V : Type κ''} (r : Result T) (f : T → Result U) (g : U → Result V)
    → (r >>= f >>= g) ≡ (r >>= λ value. f value >>= g)
bind_assoc (err fault) f g = refl
bind_assoc (ok value) f g = refl

-- Two continuations that agree on what a call can return are as good as one another.
pub bind_congr {κ κ'} :
    {T : Type κ} {U : Type κ'} (r : Result T) (f g : T → Result U)
    → ((value : T) → r ≡ ok value → f value ≡ g value)
    → (r >>= f) ≡ (r >>= g)
bind_congr (err fault) f g h = refl
bind_congr (ok value) f g h = h value refl

-- A row of calls that returns has returned from its first call.
pub bind_ok {κ κ'} :
    {T : Type κ} {U : Type κ'} (r : Result T) (f : T → Result U) {result : U}
    → (r >>= f) ≡ ok result
    → (value : T) × (r ≡ ok value) × (f value ≡ ok result)
bind_ok (err fault) f e = cc
bind_ok (ok value) f e = (value, refl, e)

pub ok-injective {κ} : {T : Type κ} {a b : T} → ok a ≡ ok b → a ≡ b
ok-injective e = cc
