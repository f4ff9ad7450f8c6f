-- ===== src/TimeStamp.antt =====
-- include/TimeStamp.h and src/TimeStamp.cpp: a time in seconds and its text. `localtime` is an
-- argument; characters are their codes.
pub mod Texts
mod Examples
use lucky.Base.{
  ℕ, ◌+◌, ◌-◌, List, ◌∷◌, ◌++◌, ltb, if◌then◌else◌, length, take, replicate, ℤ, pos, negsuc,
  decimal, signed, signed,
}

-- The part of `struct tm` that the text shows: `tm_year` counts from 1900, `tm_mon` from 0.
pub record Tm : Type 0 where
  pub tm_min : ℕ
  pub tm_hour : ℕ
  pub tm_mday : ℕ
  pub tm_mon : ℕ
  pub tm_year : ℤ

pub record TimeStamp : Type 0 where
  pub sys_second : ℤ

unfoldable pub init : TimeStamp
init = record { sys_second = pos 0 }

-- The constructor from a number of seconds, for what `time(NULL)` gives.
unfoldable pub get_now_time : ℤ → TimeStamp
get_now_time seconds = record { sys_second = seconds }

-- The padding to a width.
unfoldable pub padded : ℕ → ℕ → List ℕ → List ℕ
padded char width text = replicate (width - length text) char ++ text

-- `tm_year - 100`
unfoldable pub year_of_century : ℤ → ℤ
year_of_century (pos n) = if ltb n 100 then negsuc (99 - n) else pos (n - 100)
year_of_century (negsuc n) = negsuc (n + 100)

-- `"%3d/%02d/%02d %02d:%02d"`
unfoldable pub formatted : Tm → List ℕ
formatted tm =
    padded 32 3 (signed (year_of_century tm.tm_year))
    ++ (47
        ∷ (padded 48 2 (decimal (tm.tm_mon + 1))
            ++ (47
                ∷ (padded 48 2 (decimal tm.tm_mday)
                    ++ (32
                        ∷ (padded 48 2 (decimal tm.tm_hour)
                            ++ (58 ∷ padded 48 2 (decimal tm.tm_min))))))))

-- The buffer has 128 characters, with the 0 at the end.
unfoldable pub to_string : (ℤ → Tm) → TimeStamp → List ℕ
to_string localtime t = take 127 (formatted (localtime t.sys_second))
