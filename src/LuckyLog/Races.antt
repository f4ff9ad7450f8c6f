-- ===== src/LuckyLog/Races.antt =====
-- The logger is shared by all threads: a macro sets the level and writes in two calls, and a write
-- reads the level and makes four insertions, with no lock around any of this.
use mathlib.Core.List.{append_assoc, append-nil}
use lucky.Base.{
  Bool, false, replicate, length, Bool-cases, inl, inr, ℕ, ◌≡◌, refl, sym, ◌∙◌, ap, List, [], ◌∷◌,
  ◌++◌, true, pos, ◌==◌, ==_refl, ==_ne, if◌then◌else◌, ℕ_discrete, Result, ok, ◌>>=◌,
}
use lucky.Epoller.{put}
use lucky.Epoller.Consistency.{put_self}
use lucky.LuckyLog.{
  LogLevel, infom, error, fatal, debug, code, LuckyLog, set_log_level, header, pieces, insert,
  insert_all, write_log,
}

-- What a thread does next: it sets the level, reads the level for a line, or makes the next of the
-- insertions that it is at. A thread that is at a line begins no other.
pub data Action : Type 0 where
  sets : LogLevel → Action
  begins : ℕ → List ℕ → List ℕ → Action
  inserts : ℕ → Action

-- The logger, the insertions that each thread is still to make, and those that were made, with the
-- thread of each.
pub record Console : Type 0 where
  pub logger : LuckyLog
  pub todo : ℕ → List (List ℕ)
  pub made : List (ℕ × List ℕ)

abbrev next_piece : ℕ → List (List ℕ) → Console → Console
next_piece t [] c = c
next_piece t (piece ∷ rest) c = record {
  logger = insert piece c.logger;
  todo = put c.todo t rest;
  made = c.made ++ ((t, piece) ∷ []);
}

pub act : Action → Console → Result Console
act (sets level) c = ok (record c { logger = set_log_level (pos (code level)) c.logger })
act (begins t time msg) c = do
  head ← header c.logger.loglevel
  ok (record c { todo = put c.todo t (c.todo t ++ pieces head time msg) })
act (inserts t) c = ok (next_piece t (c.todo t) c)

pub run : List Action → Console → Result Console
run [] c = ok c
run (a ∷ later) c = do c' ← act a c; run later c'

-- The header that belongs to a level.
pub heading : LogLevel → List ℕ
heading infom = 91 ∷ 73 ∷ 78 ∷ 70 ∷ 79 ∷ 77 ∷ 93 ∷ []
heading error = 91 ∷ 69 ∷ 82 ∷ 82 ∷ 79 ∷ 82 ∷ 93 ∷ []
heading fatal = 91 ∷ 70 ∷ 65 ∷ 84 ∷ 65 ∷ 76 ∷ 93 ∷ []
heading debug = 91 ∷ 68 ∷ 69 ∷ 66 ∷ 85 ∷ 71 ∷ 93 ∷ []

header-code : (level : LogLevel) → header (pos (code level)) ≡ ok (heading level)
unfolding header heading
header-code infom = refl
header-code error = refl
header-code fatal = refl
header-code debug = refl

-- The level after some actions, and the insertions that they have a thread make: a line has the
-- level that was set last when it was begun, by whatever thread.
unfoldable pub last_set : LogLevel → List Action → LogLevel
last_set level [] = level
last_set level (sets other ∷ later) = last_set other later
last_set level (begins t time msg ∷ later) = last_set level later
last_set level (inserts t ∷ later) = last_set level later

unfoldable pub due : ℕ → LogLevel → List Action → List (List ℕ)
due t level [] = []
due t level (sets other ∷ later) = due t other later
due t level (begins u time msg ∷ later) =
    let rest = due t level later in if t == u then pieces (heading level) time msg ++ rest else rest
due t level (inserts u ∷ later) = due t level later

-- The insertions of one thread, and the text of all.
unfoldable pub of_thread : ℕ → List (ℕ × List ℕ) → List (List ℕ)
of_thread t [] = []
of_thread t ((u, piece) ∷ made) =
    let rest = of_thread t made in if t == u then piece ∷ rest else rest

unfoldable pub text_of : List (ℕ × List ℕ) → List ℕ
text_of [] = []
text_of ((u, piece) ∷ made) = piece ++ text_of made

-- What a thread has inserted and what it is still to insert.
abbrev pub whole : ℕ → Console → List (List ℕ)
whole t c = of_thread t c.made ++ c.todo t

of_thread-append :
    (t : ℕ) (xs ys : List (ℕ × List ℕ)) → of_thread t (xs ++ ys) ≡ of_thread t xs ++ of_thread t ys
unfolding of_thread
of_thread-append t [] ys = refl
of_thread-append t ((u, piece) ∷ xs) ys = elim (Bool-cases (t == u)) [
  | inl mine ↦ rw mine (ap (λ l. piece ∷ l) (of_thread-append t xs ys))
  | inr other ↦ rw other (of_thread-append t xs ys)
]

text_of-append : (xs ys : List (ℕ × List ℕ)) → text_of (xs ++ ys) ≡ text_of xs ++ text_of ys
unfolding text_of
text_of-append [] ys = refl
text_of-append ((u, piece) ∷ xs) ys =
    ap (λ l. piece ++ l) (text_of-append xs ys) ∙ sym (append_assoc piece (text_of xs) (text_of ys))

-- What an action leaves of the threads' insertions, where it has some threads make `more`.
record Keeps (more : ℕ → List (List ℕ)) (c c' : Console) : Type 0 where
  shown : c.logger.output ≡ text_of c.made → c'.logger.output ≡ text_of c'.made
  whole_of : (t : ℕ) → whole t c' ≡ whole t c ++ more t

begins-Keeps :
    (u : ℕ) (ps : List (List ℕ)) (c : Console)
    → Keeps (λ t. if t == u then ps else []) c (record c { todo = put c.todo u (c.todo u ++ ps) })
begins-Keeps u ps c = record {
  shown = λ e. e;
  whole_of = λ t. elim (ℕ_discrete t u) [
    | yes same ↦ rw (same, ==_refl u) (sym (append_assoc (of_thread u c.made) (c.todo u) ps))
    | no apart ↦ rw (==_ne t u apart) (sym (append-nil (of_thread t c.made ++ c.todo t)))
  ];
}

inserts-Keeps :
    (u : ℕ) (ps : List (List ℕ)) (c : Console)
    → c.todo u ≡ ps
    → Keeps (λ t. []) c (next_piece u ps c)
unfolding insert text_of of_thread
inserts-Keeps u [] c e = record {
  shown = λ e. e;
  whole_of = λ t. sym (append-nil (of_thread t c.made ++ c.todo t));
}
inserts-Keeps u (piece ∷ rest) c e = record {
  shown = λ shown.
      ap (λ l. l ++ piece) shown
      ∙ ap (λ l. text_of c.made ++ l) (sym (append-nil piece))
      ∙ sym (text_of-append c.made ((u, piece) ∷ []));
  whole_of = λ t.
      ap (λ l. l ++ put c.todo u rest t) (of_thread-append t c.made ((u, piece) ∷ []))
      ∙ elim (ℕ_discrete t u) [
        | yes same ↦
            rw (same, ==_refl u)
              (append_assoc (of_thread u c.made) (piece ∷ []) rest
                ∙ ap (λ l. of_thread u c.made ++ l) (sym e)
                ∙ sym (append-nil (of_thread u c.made ++ c.todo u)))
        | no apart ↦ rw (==_ne t u apart) (
            ap (λ l. l ++ c.todo t) (append-nil (of_thread t c.made))
            ∙ sym (append-nil (of_thread t c.made ++ c.todo t)))
      ];
}

level-next_piece :
    (u : ℕ) (ps : List (List ℕ)) (c : Console)
    → (next_piece u ps c).logger.loglevel ≡ c.logger.loglevel
unfolding insert
level-next_piece u [] c = refl
level-next_piece u (piece ∷ rest) c = refl

pub run-due :
    (actions : List Action) (level : LogLevel) (c : Console)
    → c.logger.loglevel ≡ pos (code level)
    → c.logger.output ≡ text_of c.made
    → (c' : Console) × (run actions c ≡ ok c')
      × (c'.logger.loglevel ≡ pos (code (last_set level actions)))
      × (c'.logger.output ≡ text_of c'.made)
      × ((t : ℕ) → whole t c' ≡ whole t c ++ due t level actions)
unfolding run act last_set due set_log_level
run-due [] level c at shown = (c, refl, at, shown, λ t. sym (append-nil (whole t c)))
run-due (sets other ∷ later) level c at shown =
    run-due later other (record c { logger = set_log_level (pos (code other)) c.logger }) refl shown
run-due (begins u time msg ∷ later) level c at shown =
    let ps = pieces (heading level) time msg in
    let c₁ : Console = record c { todo = put c.todo u (c.todo u ++ ps) } in
    let k = begins-Keeps u ps c in
    let (c', done, at', shown', all) = run-due later level c₁ at shown in
    (
      c',
      ap
            (λ r.
              (r >>= λ head.
              ok (record c { todo = put c.todo u (c.todo u ++ pieces head time msg) }))
              >>= run later)
            (ap header at ∙ header-code level)
          ∙ done,
      at',
      shown',
      λ t.
          all t
          ∙ ap (λ l. l ++ due t level later) (k.whole_of t)
          ∙ append_assoc (whole t c) (if t == u then ps else []) (due t level later)
          ∙ ap (λ l. whole t c ++ l) (picked (t == u) ps (due t level later)),
    )
  where
    picked :
        (b : Bool) (xs ys : List (List ℕ))
        → (if b then xs else []) ++ ys ≡ (if b then xs ++ ys else ys)
    picked true xs ys = refl
    picked false xs ys = refl
run-due (inserts u ∷ later) level c at shown =
    let c₁ : Console = next_piece u (c.todo u) c in
    let k = inserts-Keeps u (c.todo u) c refl in
    let (c', done, at', shown', all) =
      run-due later level c₁ (level-next_piece u (c.todo u) c ∙ at) (k.shown shown) in
    (
      c',
      done,
      at',
      shown',
      λ t. all t ∙ ap (λ l. l ++ due t level later) (k.whole_of t ∙ append-nil (whole t c)),
    )

-- A thread that nothing disturbs makes the insertions that it is at.
undisturbed :
    (t : ℕ) (ps : List (List ℕ)) (c : Console)
    → c.todo t ≡ ps
    → (run (replicate (length ps) (inserts t)) c >>= λ c'. ok c'.logger)
      ≡ ok (insert_all ps c.logger)
unfolding run act insert_all
undisturbed t [] c e = refl
undisturbed t (piece ∷ rest) c e =
    ap (λ ps. run (replicate (length rest) (inserts t)) (next_piece t ps c) >>= λ c'. ok c'.logger)
      e
    ∙ undisturbed t rest (next_piece t (piece ∷ rest) c) (put_self c.todo t rest)

-- `writeLog` is the line that a thread begins and completes undisturbed.
write_log-run :
    (t : ℕ) (time msg : List ℕ) (level : LogLevel) (c : Console)
    → c.logger.loglevel ≡ pos (code level)
    → c.todo t ≡ []
    → (run (begins t time msg ∷ replicate 4 (inserts t)) c >>= λ c'. ok c'.logger)
      ≡ write_log time msg c.logger
unfolding run act write_log
write_log-run t time msg level c at idle =
    let ps = pieces (heading level) time msg in
    ap
      (λ r.
        (r >>= λ head. ok (record c { todo = put c.todo t (c.todo t ++ pieces head time msg) }))
        >>= run (replicate 4 (inserts t))
        >>= λ c'. ok c'.logger)
      (ap header at ∙ header-code level)
    ∙ undisturbed t ps (record c { todo = put c.todo t (c.todo t ++ ps) })
        (put_self c.todo t (c.todo t ++ ps) ∙ ap (λ l. l ++ ps) idle)
    ∙ ap (λ r. r >>= λ head. ok (insert_all (pieces head time msg) c.logger))
        (sym (ap header at ∙ header-code level))
