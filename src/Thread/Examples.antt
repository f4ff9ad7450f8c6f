-- ===== src/Thread/Examples.antt =====
-- The thread's theorems at concrete inputs.
use lucky.Base.{◌<◌, ◌≡◌, ◌≢◌, refl, [], ◌∷◌, true, false, arith, ok, err, terminate, ◌>>=◌}
use lucky.ThreadId
use lucky.Thread.{
  Thread, Handle, absent, joinable, joined, destroy, init, start, join, close, set_name,
}
use lucky.Thread.Closing.{starts, joins, run, close-run, close-start}
use lucky.Thread.Handshake.{
  waiting, returned, joined_up, beginning, running, ended, Launch, ready, identify, post, pass,
  Reach, here, next, posted, start_order,
}
use lucky.Thread.Handshake

-- A Thread with the name "T", started, and then joined.
abbrev new_one : Thread
new_one = record { is_start = false; is_join = false; thread = absent; tid = 0; name = 84 ∷ [] }

abbrev started : Thread
started = record new_one { is_start = true; thread = joinable }

abbrev over : Thread
over = record new_one { is_start = true; is_join = true; thread = joined }

started_and_joined : run (starts ∷ joins ∷ []) (init (84 ∷ []) 4).0 ≡ ok over
unfolding run init set_name start destroy join
started_and_joined = refl

close-run_example : (h : Handle) × (close over ≡ ok h) × (h ≢ joinable)
close-run_example =
    close-run (starts ∷ joins ∷ []) (84 ∷ []) 4 over (omega arith) started_and_joined

close-start_example : (start over >>= close) ≡ err terminate
close-start_example = close-start over refl refl

-- The new thread has the id 77, and has posted when `start` returns.
abbrev launched : Launch
launched = record {
  thread = record started { tid = 77 };
  owner = returned;
  worker = running;
  sem = 0;
  cached = 77;
}

Reach-launched : Reach false 77 (ready new_one) launched
unfolding start destroy identify post pass ThreadId.tid ThreadId.cache_tid
Reach-launched =
    next
      (next (next (next here (Handshake.starts started refl refl)) (Handshake.identifies refl))
        (Handshake.posts refl))
      (Handshake.passes refl (omega arith))

-- Where a signal interrupts `sem_wait`, `start` returns before the thread has stored its id.
interrupted_start :
    (l : Launch) × Reach true 77 (ready new_one) l × (l.owner ≡ returned) × (l.thread.tid ≡ 0)
unfolding start destroy
interrupted_start = (
  record { thread = started; owner = returned; worker = beginning; sem = 0; cached = 0 },
  next (next here (Handshake.starts started refl refl)) (Handshake.interrupted refl refl),
  refl,
  refl,
)

start_order_example :
    (launched.owner ≡ returned → launched.thread.tid ≡ 77)
    × (launched.owner ≡ joined_up → (launched.worker ≡ ended) × (launched.thread.tid ≡ 77))
    × (launched.owner ≡ waiting → posted launched.worker ≡ true → 0 < launched.sem)
start_order_example = start_order 77 new_one Reach-launched
