-- ===== src/TimeStamp/Examples.antt =====
-- The time's theorems at concrete inputs.
use lucky.Base.{◌≡◌, refl, [], ◌∷◌, arith, length, ℤ, pos, decimal, digits}
use lucky.TimeStamp.{Tm, TimeStamp, padded, year_of_century, formatted, to_string}
use lucky.TimeStamp.Texts.{read_fields, InRange, read_fields-to_string}

-- 2024, the 7th of May, 9:05.
abbrev may : ℤ → Tm
may seconds = record { tm_min = 5; tm_hour = 9; tm_mday = 7; tm_mon = 4; tm_year = pos 124 }

abbrev now : TimeStamp
now = record { sys_second = pos 1715072700 }

may-InRange : InRange 24 (may now.sys_second)
may-InRange = record {
  in_year = refl;
  in_century = omega arith;
  months = omega arith;
  days = omega arith;
  hours = omega arith;
  minutes = omega arith;
}

printed :
    to_string may now
    ≡ 32 ∷ 50 ∷ 52 ∷ 47 ∷ 48 ∷ 53 ∷ 47 ∷ 48 ∷ 55 ∷ 32 ∷ 48 ∷ 57 ∷ 58 ∷ 48 ∷ 53 ∷ []
unfolding to_string formatted padded year_of_century decimal digits
printed = refl

read_fields-to_string_example :
    (length (to_string may now) ≡ 15) × (read_fields (to_string may now) ≡ (24, 5, 7, 9, 5))
read_fields-to_string_example = read_fields-to_string may now 24 may-InRange
