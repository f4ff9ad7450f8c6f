-- ===== src/Manager/Examples.antt =====
-- The handshake at concrete runs.
use lucky.Base.{◌≡◌, refl, true, false, none}
use lucky.Manager.{
  checking, returned, leaving, ended, left_alone, unclosed, Manager, init, start, check_loop,
  call_back, publish, unpublish, leave, close, join,
}
use lucky.Manager.Handshake.{
  starts, checks, calls, publishes, stops, leaves, closes, joins, Reach, here, next, Agreed,
  Reach-Agreed,
}
use lucky.Manager.Missed.{Missed, Reach-Missed}

-- `startLoop` sleeps, is notified, and returns; the destructor asks the loop to quit, and joins.
abbrev up : Manager
up = check_loop (publish 9 (call_back 9 (check_loop (start (init true)))))

Reach-up : Reach 9 (init true) up
unfolding init start check_loop call_back publish
Reach-up =
    next
      (next (next (next (next here (starts refl refl)) (checks refl)) (calls refl))
        (publishes refl))
      (checks refl)

up_returned : up.caller ≡ returned 9
unfolding init start check_loop call_back publish
up_returned = refl

Reach-down : Reach 9 (init true) (join (leave (unpublish (close up))))
unfolding init start check_loop call_back publish unpublish leave close join
Reach-down =
    next (next (next (next Reach-up (closes 9 refl refl)) (stops refl)) (leaves refl))
      (joins 9 refl refl)

-- The destructor may be over while the thread is still on its way out, with the mutex.
Reach-unjoined :
    (m : Manager) × Reach 9 (init true) m × (m.closer ≡ left_alone) × (m.worker ≡ leaving)
unfolding init start check_loop call_back publish unpublish close
Reach-unjoined =
    (close (unpublish up), next (next Reach-up (stops refl)) (closes 9 refl refl), refl, refl)

Reach-Agreed_example : Agreed 9 (join (leave (unpublish (close up))))
Reach-Agreed_example = Reach-Agreed 9 true Reach-down

-- The loop ends before `startLoop` tests `loop_`.
abbrev too_late : Manager
too_late = record {
  is_exit = false;
  loop = none;
  caller = checking;
  worker = ended;
  callback = false;
  called = none;
  closer = unclosed;
}

too_late-Missed : Missed too_late
too_late-Missed = record { over = refl; empty = refl; unreturned = λ p e. cc; called = λ e. cc }

Reach-too_late : Reach 9 (init false) too_late
unfolding init start call_back publish unpublish leave
Reach-too_late =
    next
      (next (next (next (next here (starts refl refl)) (calls refl)) (publishes refl)) (stops refl))
      (leaves refl)

Reach-Missed_example : Missed (check_loop too_late)
Reach-Missed_example = Reach-Missed 9 too_late-Missed (next here (checks refl))
