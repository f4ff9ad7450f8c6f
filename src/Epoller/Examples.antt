-- ===== src/Epoller/Examples.antt =====
-- Runs of the Epoller's code, and its theorems at concrete inputs.
use lucky.Base.{ℕ, List, none, some, false, ◌≡◌, refl, [], ◌∷◌, true, pos, arith, ok}
use lucky.Filed
use lucky.Filed.{Filed, set_index, is_none_event, set_revents}
use lucky.Filed.Masks.{enable_reading, enable_writing, disable_all}
use lucky.Epoller.{Epoller, init, epoll, happened}
use lucky.Epoller.Runs.{InStep}
use lucky.Epoller.Obedience.{
  Request, changes, removes, run, Wanted, wanted, watch_of, Obeys, run_lem,
}
use lucky.Epoller.Wait.{Handed, epoll_ready}
use lucky.Epoller.Kernel.{kernel, kernel-Documented, quiet, quiet-InStep}

init_gives_start : init true (λ p. Filed.init p) ≡ ok quiet
unfolding init
init_gives_start = refl

-- Nothing was asked for, and nothing is watched.
abbrev idle : ℕ → Wanted
idle p = record { interest = record { reading = false; writing = false }; watched = false }

quiet-Obeys : Obeys idle quiet
unfolding Filed.init
quiet-Obeys = record { asks = λ p. refl; watches = λ p. refl }

abbrev requests : List Request
requests =
    changes enable_reading 7
    ∷ changes enable_writing 8
    ∷ changes disable_all 7
    ∷ changes enable_reading 7
    ∷ removes 8
    ∷ []

-- The kernel watches 7 for reading, and 8 no more.
run_lem_example :
    (e' : Epoller) × (run kernel requests quiet ≡ ok e')
    × InStep e'
    × Obeys (wanted requests idle) e'
run_lem_example = run_lem kernel kernel-Documented requests idle quiet quiet-InStep quiet-Obeys

wanted_example :
    (watch_of 7 (wanted requests idle 7) ≡ some (3, 7))
    × (watch_of 8 (wanted requests idle 8) ≡ none)
unfolding wanted
wanted_example = (refl, refl)

epoll_ready_example :
    (e' : Epoller) × (epoll
        (record { result = pos 2; ready = (1, 7) ∷ (4, 9) ∷ []; errno = 0 })
        []
        quiet
      ≡ ok (happened, 7 ∷ 9 ∷ [], e'))
    × Handed ((1, 7) ∷ (4, 9) ∷ []) quiet e'
epoll_ready_example =
    epoll_ready (record { result = pos 2; ready = (1, 7) ∷ (4, 9) ∷ []; errno = 0 }) [] quiet
      (record {
        counted = refl;
        some_ready = omega arith;
        bounded = omega arith;
        legal = omega arith;
      })
