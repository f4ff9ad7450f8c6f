-- ===== src/LuckyLog.antt =====
-- include/LuckyLog.h and src/LuckyLog.cpp: the one logger of the process, and what went to `cout`,
-- one insertion after the other. The text of the time is an argument, and so is what `snprintf`
-- makes of a format.
pub mod Races
mod Examples
use lucky.Base.{
  ℕ, Bool, true, false, List, [], ◌∷◌, ◌++◌, Option, none, some, if◌then◌else◌, take, get_elem?, ℤ,
  pos, negsuc, Fault, Result, ok, err, undefined, exit, ◌>>=◌,
}

pub data LogLevel : Type 0 where
  infom error fatal debug : LogLevel

abbrev pub code : LogLevel → ℕ
code infom = 0
code error = 1
code fatal = 2
code debug = 3

-- "[INFOM]", "[ERROR]", "[FATAL]" and "[DEBUG]"
abbrev pub headers : List (List ℕ)
headers =
    (91 ∷ 73 ∷ 78 ∷ 70 ∷ 79 ∷ 77 ∷ 93 ∷ [])
    ∷ (91 ∷ 69 ∷ 82 ∷ 82 ∷ 79 ∷ 82 ∷ 93 ∷ [])
    ∷ (91 ∷ 70 ∷ 65 ∷ 84 ∷ 65 ∷ 76 ∷ 93 ∷ [])
    ∷ (91 ∷ 68 ∷ 69 ∷ 66 ∷ 85 ∷ 71 ∷ 93 ∷ [])
    ∷ []

pub record LuckyLog : Type 0 where
  pub loglevel : ℤ
  pub output : List ℕ

-- The static object of `LogSingleton`, before the first insertion.
unfoldable pub log_singleton : LuckyLog
log_singleton = record { loglevel = pos 0; output = [] }

unfoldable pub set_log_level : ℤ → LuckyLog → LuckyLog
set_log_level loglevel l = record l { loglevel = loglevel }

-- `headers[loglevel_]`
unfoldable pub header : ℤ → Result (List ℕ)
header (pos n) = elim (get_elem? headers n) [ none ↦ err undefined | some head ↦ ok head ]
header (negsuc n) = err undefined

-- The four insertions of a line: the header with the time, a colon with a space, the message, and
-- the end of the line.
abbrev pub pieces : List ℕ → List ℕ → List ℕ → List (List ℕ)
pieces head time msg = (head ++ time) ∷ (58 ∷ 32 ∷ []) ∷ msg ∷ (10 ∷ []) ∷ []

-- One `<<` to `cout`.
unfoldable pub insert : List ℕ → LuckyLog → LuckyLog
insert piece l = record l { output = l.output ++ piece }

unfoldable pub insert_all : List (List ℕ) → LuckyLog → LuckyLog
insert_all [] l = l
insert_all (piece ∷ rest) l = insert_all rest (insert piece l)

-- A call that no other thread's call overlaps; LuckyLog/Races takes it apart.
unfoldable pub write_log : List ℕ → List ℕ → LuckyLog → Result LuckyLog
write_log time msg l = do head ← header l.loglevel; ok (insert_all (pieces head time msg) l)

-- What the buffer of 1024 characters takes of a formatted text.
abbrev pub clipped : List ℕ → List ℕ
clipped text = take 1023 text

-- The macros, with `MUDEBUG` or without it: the logger, and whether the process goes on.
unfoldable pub log : Bool → LogLevel → List ℕ → List ℕ → LuckyLog → Result (LuckyLog × Option Fault)
log mudebug debug text time l =
    if mudebug
    then (do l' ← write_log time (clipped text) (set_log_level (pos (code debug)) l); ok (l', none))
    else ok (l, none)
log mudebug fatal text time l = do
  l' ← write_log time (clipped text) (set_log_level (pos (code fatal)) l)
  ok (l', some exit)
log mudebug level text time l = do
  l' ← write_log time (clipped text) (set_log_level (pos (code level)) l)
  ok (l', none)
