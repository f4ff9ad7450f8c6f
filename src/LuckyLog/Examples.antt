-- ===== src/LuckyLog/Examples.antt =====
-- The logger's theorems at concrete inputs.
use lucky.Base.{ℕ, List, ◌≡◌, ◌++◌, refl, [], ◌∷◌, pos, ok}
use lucky.LuckyLog.{infom, error, code}
use lucky.LuckyLog.Races.{
  Action, Console, sets, begins, inserts, run, due, whole, last_set, text_of, run-due,
}

abbrev silent : Console
silent = record { logger = record { loglevel = pos 0; output = [] }; todo = λ t. []; made = [] }

-- Thread 1 logs an error and thread 2 an ordinary message: the error gets the wrong header, and the
-- second line begins inside the first.
abbrev torn : List Action
torn =
    sets error
    ∷ sets infom
    ∷ begins 1 [] (1 ∷ [])
    ∷ begins 2 [] (2 ∷ [])
    ∷ inserts 1
    ∷ inserts 2
    ∷ inserts 1
    ∷ []

run-due_example :
    (c' : Console) × (run torn silent ≡ ok c')
    × (c'.logger.loglevel ≡ pos (code (last_set infom torn)))
    × (c'.logger.output ≡ text_of c'.made)
    × ((t : ℕ) → whole t c' ≡ whole t silent ++ due t infom torn)
unfolding text_of
run-due_example = run-due torn infom silent refl refl
