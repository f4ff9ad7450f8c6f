-- ===== src/TimeStamp/Texts.antt =====
-- What the text of a time tells.
use lucky.Base.{
  ℕ, zero, suc, ◌+◌, ◌-◌, ◌≤◌, ◌<◌, ◌≡◌, refl, ◌∙◌, ap, List, ◌∷◌, ◌++◌, arith, length, take, drop,
  replicate, length-append, length-replicate, take-append_le, take_all, drop-append_ge, ℤ, pos,
  decimal, signed, reads_as, reads_as-decimal, length-decimal, tens, le→ltb,
}
use lucky.TimeStamp.{Tm, TimeStamp, padded, year_of_century, formatted, to_string}

-- A number of `width` characters, and what stands behind it and a separator.
unfoldable pub number_then : ℕ → List ℕ → ℕ × List ℕ
number_then width text = (reads_as (take width text) 0, drop (width + 1) text)

-- Year of the century, month, day, hour and minute, read from a text at their places. A space
-- counts as a 0.
unfoldable pub read_fields : List ℕ → ℕ × ℕ × ℕ × ℕ × ℕ
read_fields text =
    let (year, text₁) = number_then 3 text in
    let (month, text₂) = number_then 2 text₁ in
    let (day, text₃) = number_then 2 text₂ in
    let (hour, text₄) = number_then 2 text₃ in
    let (minute, text₅) = number_then 2 text₄ in (year, month, day, hour, minute)

-- Characters up to "0" in front of a number do not count.
reads_as-replicate :
    (k c : ℕ) (cs : List ℕ) → c ≤ 48 → reads_as (replicate k c ++ cs) 0 ≡ reads_as cs 0
unfolding reads_as
reads_as-replicate zero c cs low = refl
reads_as-replicate (suc k) c cs low =
    ap (λ front. reads_as (replicate k c ++ cs) front) {y = 0} (omega arith)
    ∙ reads_as-replicate k c cs low

reads_as-padded : (c width n : ℕ) → c ≤ 48 → reads_as (padded c width (decimal n)) 0 ≡ n
unfolding padded
reads_as-padded c width n low =
    reads_as-replicate (width - length (decimal n)) c (decimal n) low ∙ reads_as-decimal n

length-padded :
    (c width n : ℕ) → n < tens width → 0 < width → length (padded c width (decimal n)) ≡ width
unfolding padded
length-padded c width n less some = omega (
  arith,
  length-append (replicate (width - length (decimal n)) c) (decimal n),
  length-replicate (width - length (decimal n)) c,
  length-decimal width n less some,
)

-- A padded number is read back, and what is behind the separator is left.
number_then-padded :
    (c width n sep : ℕ) (rest : List ℕ)
    → c ≤ 48
    → n < tens width
    → 0 < width
    → number_then width (padded c width (decimal n) ++ (sep ∷ rest)) ≡ (n, rest)
unfolding number_then
number_then-padded c width n sep rest low less some =
    let text : List ℕ = padded c width (decimal n) in
    let size : length text ≡ width = length-padded c width n less some in
    let front : take width (text ++ (sep ∷ rest)) ≡ text =
      take-append_le width text (sep ∷ rest) (omega arith) ∙ take_all width text (omega arith) in
    let behind : drop (width + 1) (text ++ (sep ∷ rest)) ≡ rest =
      drop-append_ge (width + 1) text (sep ∷ rest) (omega arith)
      ∙ ap (λ k. drop k (sep ∷ rest)) {y = 1} (omega arith) in
    rw (front, behind, reads_as-padded c width n low)

-- The same at the end of a text.
number_then-last :
    (c width n : ℕ)
    → c ≤ 48
    → n < tens width
    → 0 < width
    → (number_then width (padded c width (decimal n))).0 ≡ n
unfolding number_then
number_then-last c width n low less some =
    ap (λ cs. reads_as cs 0)
      (take_all width (padded c width (decimal n))
        (omega (arith, length-padded c width n less some)))
    ∙ reads_as-padded c width n low

length-behind :
    (text rest : List ℕ) (sep : ℕ) → length (text ++ (sep ∷ rest)) ≡ length text + suc (length rest)
length-behind text rest sep = length-append text (sep ∷ rest)

-- What `localtime` promises of its answer, for a year of the century that `%3d` writes in three
-- characters.
pub record InRange (year : ℕ) (tm : Tm) : Type 0 where
  pub in_year : tm.tm_year ≡ pos (100 + year)
  pub in_century : year < 1000
  pub months : tm.tm_mon ≤ 11
  pub days : tm.tm_mday ≤ 31
  pub hours : tm.tm_hour ≤ 23
  pub minutes : tm.tm_min ≤ 59

signed-in_year : (n : ℕ) → signed (year_of_century (pos (100 + n))) ≡ decimal n
unfolding year_of_century
signed-in_year n = rw (le→ltb (100 + n) 100 (omega arith)) (ap decimal (omega arith))

formatted-in_year :
    {year : ℕ} (tm : Tm)
    → InRange year tm
    → (length (formatted tm) ≡ 15)
      × (read_fields (formatted tm) ≡ (year, tm.tm_mon + 1, tm.tm_mday, tm.tm_hour, tm.tm_min))
unfolding formatted read_fields
formatted-in_year {year} tm r =
    let y : List ℕ = padded 32 3 (decimal year) in
    let mo : List ℕ = padded 48 2 (decimal (tm.tm_mon + 1)) in
    let d : List ℕ = padded 48 2 (decimal tm.tm_mday) in
    let h : List ℕ = padded 48 2 (decimal tm.tm_hour) in
    let mi : List ℕ = padded 48 2 (decimal tm.tm_min) in
    let last : length mi ≡ 2 =
      length-padded 48 2 tm.tm_min (omega (arith, r.minutes)) (omega arith) in
    let t₄ : List ℕ = h ++ (58 ∷ mi) in
    let t₃ : List ℕ = d ++ (32 ∷ t₄) in
    let t₂ : List ℕ = mo ++ (47 ∷ t₃) in
    let printed : signed (year_of_century tm.tm_year) ≡ decimal year =
      ap (λ n. signed (year_of_century n)) r.in_year ∙ signed-in_year year in
    rw printed (
      omega (
        arith,
        length-padded 32 3 year (omega (arith, r.in_century)) (omega arith),
        length-padded 48 2 (tm.tm_mon + 1) (omega (arith, r.months)) (omega arith),
        length-padded 48 2 tm.tm_mday (omega (arith, r.days)) (omega arith),
        length-padded 48 2 tm.tm_hour (omega (arith, r.hours)) (omega arith),
        last,
        length-behind y t₂ 47,
        length-behind mo t₃ 47,
        length-behind d t₄ 32,
        length-behind h mi 58,
      ),
      rw (
        number_then-padded 32 3 year 47 t₂ (omega arith) (omega (arith, r.in_century))
            (omega arith),
        number_then-padded 48 2 (tm.tm_mon + 1) 47 t₃ (omega arith) (omega (arith, r.months))
            (omega arith),
        number_then-padded 48 2 tm.tm_mday 32 t₄ (omega arith) (omega (arith, r.days))
            (omega arith),
        number_then-padded 48 2 tm.tm_hour 58 mi (omega arith) (omega (arith, r.hours))
            (omega arith),
        number_then-last 48 2 tm.tm_min (omega arith) (omega (arith, r.minutes)) (omega arith),
      ),
    )

-- If `localtime` gives a year of the century below 1000 and the other fields in their ranges, the
-- text of a time has 15 characters, far below the size of the buffer, and reading it back gives the
-- year of the century, the month from 1 on, the day, the hour and the minute.
pub read_fields-to_string :
    (localtime : ℤ → Tm) (t : TimeStamp) (year : ℕ)
    → InRange year (localtime t.sys_second)
    → let tm = localtime t.sys_second in
      (length (to_string localtime t) ≡ 15)
      × (read_fields (to_string localtime t)
          ≡ (year, tm.tm_mon + 1, tm.tm_mday, tm.tm_hour, tm.tm_min))
unfolding to_string
read_fields-to_string localtime t year r =
    let tm : Tm = localtime t.sys_second in
    let (size, fields) = formatted-in_year tm r in
    rw (take_all 127 (formatted tm) (omega arith)) (size, fields)
