-- ===== src/Manager/Handshake.antt =====
-- `startLoop`, `threadFunc` and the destructor side by side.
use mathlib.Core.Bool.{false≢true}
use lucky.Base.{
  ℕ, ◌≡◌, ◌≢◌, refl, sym, ◌∙◌, ap, Bool, true, false, if◌then◌else◌, Option, none, some,
}
use lucky.Manager.{
  Caller, idle, checking, sleeping, returned, Worker, unstarted, setting_up, initialised, looping,
  leaving, ended, unclosed, joining, joined, left_alone, Manager, init, start, check_loop, woken,
  call_back, publish, unpublish, leave, close, join,
}

-- The steps that the two threads can take, for a loop at the pointer `own`. The thread that called
-- `startLoop` destroys the Manager after it.
pub data Step (own : ℕ) (m : Manager) : Manager → Type 0 where
  starts : m.caller ≡ idle → m.worker ≡ unstarted → Step own m (start m)
  checks : m.caller ≡ checking → Step own m (check_loop m)
  wakes_up : m.caller ≡ sleeping → Step own m (record m { caller = checking })
  calls : m.worker ≡ setting_up → Step own m (call_back own m)
  publishes : m.worker ≡ initialised → Step own m (publish own m)
  stops : m.worker ≡ looping → Step own m (unpublish m)
  leaves : m.worker ≡ leaving → Step own m (leave m)
  closes : (p : ℕ) → m.caller ≡ returned p → m.closer ≡ unclosed → Step own m (close m)
  joins : (p : ℕ) → m.closer ≡ joining p → m.worker ≡ ended → Step own m (join m)

pub data Reach (own : ℕ) (m : Manager) : Manager → Type 0 where
  here : Reach own m m
  next : {m₁ m₂ : Manager} → Reach own m m₁ → Step own m₁ m₂ → Reach own m m₂

-- What `loop_` holds while the thread is where it is.
abbrev pub published : ℕ → Worker → Option ℕ
published own looping = some own
published own worker = none

-- The thread has been as far as the publication, or the callback.
abbrev pub has_published : Worker → Bool
has_published looping = true
has_published leaving = true
has_published ended = true
has_published worker = false

abbrev pub has_called : Worker → Bool
has_called unstarted = false
has_called setting_up = false
has_called worker = true

-- The thread is past its loop.
abbrev pub has_left : Worker → Bool
has_left leaving = true
has_left ended = true
has_left worker = false

pub record Agreed (own : ℕ) (m : Manager) : Type 0 where
  pub loop : m.loop ≡ published own m.worker
  pub returns : (p : ℕ) → m.caller ≡ returned p → p ≡ own
  pub ready : (p : ℕ) → m.caller ≡ returned p → has_published m.worker ≡ true
  pub awake : m.caller ≡ sleeping → m.worker ≢ looping
  pub initialised_by : has_called m.worker ≡ true → m.callback ≡ true → m.called ≡ some own
  pub asks : (p : ℕ) → m.closer ≡ joining p → p ≡ own
  pub over : m.closer ≡ joined → m.worker ≡ ended
  pub unwatched : m.closer ≡ left_alone → has_left m.worker ≡ true

init-Agreed : (own : ℕ) (callback : Bool) → Agreed own (init callback)
unfolding init
init-Agreed own callback = record {
  loop = refl;
  returns = λ p e. cc;
  ready = λ p e. cc;
  awake = λ e. cc;
  initialised_by = λ e. cc;
  asks = λ p e. cc;
  over = λ e. cc;
  unwatched = λ e. cc;
}

woken_ne : (caller : Caller) → woken caller ≢ sleeping
woken_ne idle e = cc
woken_ne checking e = cc
woken_ne sleeping e = cc
woken_ne (returned p) e = cc

woken-returned : (caller : Caller) (p : ℕ) → woken caller ≡ returned p → caller ≡ returned p
woken-returned idle p e = cc
woken-returned checking p e = cc
woken-returned sleeping p e = cc
woken-returned (returned q) p e = e

published-none : (own : ℕ) (worker : Worker) → none ≡ published own worker → worker ≢ looping
published-none own unstarted e same = cc
published-none own setting_up e same = cc
published-none own initialised e same = cc
published-none own looping e same = cc
published-none own leaving e same = cc
published-none own ended e same = cc

published-some :
    (own p : ℕ) (worker : Worker)
    → some p ≡ published own worker
    → (p ≡ own) × (has_published worker ≡ true)
published-some own p unstarted e = cc
published-some own p setting_up e = cc
published-some own p initialised e = cc
published-some own p looping e = (some-injective p own e, refl)
  where
    some-injective : (p q : ℕ) → ◌≡◌ {A = Option ℕ} (some p) (some q) → p ≡ q
    some-injective p q e = cc
published-some own p leaving e = cc
published-some own p ended e = cc

-- A thread that has published its loop, which is not there any more, is past it.
over-published :
    (own : ℕ) (worker : Worker)
    → none ≡ published own worker
    → has_published worker ≡ true
    → has_left worker ≡ true
over-published own unstarted e h = cc
over-published own setting_up e h = cc
over-published own initialised e h = cc
over-published own looping e h = cc
over-published own leaving e h = refl
over-published own ended e h = refl

after_check :
    (own : ℕ) (m : Manager)
    → Agreed own m
    → (l : Option ℕ) → l ≡ published own m.worker
    → Agreed own (elim l [
      | none ↦ record m { caller = sleeping }
      | some p ↦ record m { caller = returned p }
    ])
after_check own m a none e = record {
  loop = a.loop;
  returns = λ p same. cc;
  ready = λ p same. cc;
  awake = λ same. published-none own m.worker e;
  initialised_by = a.initialised_by;
  asks = a.asks;
  over = a.over;
  unwatched = a.unwatched;
}
after_check own m a (some p) e = record {
  loop = a.loop;
  returns = λ q same. sym (returned-injective p q same) ∙ (published-some own p m.worker e).0;
  ready = λ q same. (published-some own p m.worker e).1;
  awake = λ same. cc;
  initialised_by = a.initialised_by;
  asks = a.asks;
  over = a.over;
  unwatched = a.unwatched;
}
  where
    returned-injective : (p q : ℕ) → returned p ≡ returned q → p ≡ q
    returned-injective p q same = cc

after_close :
    (own p : ℕ) (m : Manager)
    → Agreed own m
    → m.caller ≡ returned p
    → (l : Option ℕ) → l ≡ published own m.worker
    → Agreed own (elim l [
      | none ↦ record m { is_exit = true; closer = left_alone }
      | some q ↦ record m { is_exit = true; closer = joining q }
    ])
after_close own p m a back none e = record {
  loop = a.loop;
  returns = a.returns;
  ready = a.ready;
  awake = a.awake;
  initialised_by = a.initialised_by;
  asks = λ q same. cc;
  over = λ same. cc;
  unwatched = λ same. over-published own m.worker e (a.ready p back);
}
after_close own p m a back (some q) e = record {
  loop = a.loop;
  returns = a.returns;
  ready = a.ready;
  awake = a.awake;
  initialised_by = a.initialised_by;
  asks = λ r same. sym (joining-injective q r same) ∙ (published-some own q m.worker e).0;
  over = λ same. cc;
  unwatched = λ same. cc;
}
  where
    joining-injective : (p q : ℕ) → joining p ≡ joining q → p ≡ q
    joining-injective p q same = cc

-- What holds of no thread that is still at work.
not_over :
    (own : ℕ) (m : Manager) (worker : Worker)
    → Agreed own m
    → m.worker ≡ worker
    → worker ≢ ended
    → {worker' : Worker} → m.closer ≡ joined
    → worker' ≡ ended
not_over own m worker a w apart e = absurd (apart (sym w ∙ a.over e))

not_left :
    (own : ℕ) (m : Manager) (worker : Worker)
    → Agreed own m
    → m.worker ≡ worker
    → has_left worker ≡ false
    → {b : Bool} → m.closer ≡ left_alone
    → b ≡ true
not_left own m worker a w still e =
    absurd (false≢true (sym (ap has_left w ∙ still) ∙ a.unwatched e))

Step-Agreed : (own : ℕ) (m m' : Manager) → Step own m m' → Agreed own m → Agreed own m'
unfolding start check_loop call_back publish unpublish leave close join
Step-Agreed own m _ (starts c w) a = record {
  loop = a.loop ∙ ap (published own) w;
  returns = λ p e. cc;
  ready = λ p e. cc;
  awake = λ e. cc;
  initialised_by = λ e. cc;
  asks = a.asks;
  over = not_over own m unstarted a w (λ e. cc);
  unwatched = not_left own m unstarted a w refl;
}
Step-Agreed own m _ (checks c) a = after_check own m a m.loop a.loop
Step-Agreed own m _ (wakes_up c) a = record {
  loop = a.loop;
  returns = λ p e. cc;
  ready = λ p e. cc;
  awake = λ e. cc;
  initialised_by = a.initialised_by;
  asks = a.asks;
  over = a.over;
  unwatched = a.unwatched;
}
Step-Agreed own m _ (calls w) a = record {
  loop = a.loop ∙ ap (published own) w;
  returns = a.returns;
  ready = λ p e. absurd (false≢true (sym (ap has_published w) ∙ a.ready p e));
  awake = λ e same. cc;
  initialised_by = λ e set. ap (λ b. if b then some own else m.called) set;
  asks = a.asks;
  over = not_over own m setting_up a w (λ e. cc);
  unwatched = not_left own m setting_up a w refl;
}
Step-Agreed own m _ (publishes w) a = record {
  loop = refl;
  returns = λ p e. a.returns p (woken-returned m.caller p e);
  ready = λ p e. refl;
  awake = λ e same. woken_ne m.caller e;
  initialised_by = λ e set. a.initialised_by (ap has_called w) set;
  asks = a.asks;
  over = not_over own m initialised a w (λ e. cc);
  unwatched = not_left own m initialised a w refl;
}
Step-Agreed own m _ (stops w) a = record {
  loop = refl;
  returns = a.returns;
  ready = λ p e. refl;
  awake = λ e same. cc;
  initialised_by = λ e set. a.initialised_by (ap has_called w) set;
  asks = a.asks;
  over = not_over own m looping a w (λ e. cc);
  unwatched = λ e. refl;
}
Step-Agreed own m _ (leaves w) a = record {
  loop = a.loop ∙ ap (published own) w;
  returns = a.returns;
  ready = λ p e. refl;
  awake = λ e same. cc;
  initialised_by = λ e set. a.initialised_by (ap has_called w) set;
  asks = a.asks;
  over = λ e. refl;
  unwatched = λ e. refl;
}
Step-Agreed own m _ (closes p c still) a = after_close own p m a c m.loop a.loop
Step-Agreed own m _ (joins p c w) a = record {
  loop = a.loop;
  returns = a.returns;
  ready = a.ready;
  awake = a.awake;
  initialised_by = a.initialised_by;
  asks = λ q e. cc;
  over = λ e. w;
  unwatched = λ e. cc;
}

-- In every state that the two threads can reach, with a callback or without one: `startLoop` has
-- returned nothing but the new thread's loop, and that only once the loop was published; `loop_` is
-- that loop exactly while the thread is in it; `startLoop` is not asleep while it is, so its
-- wakeup is never lost; a callback was called on that loop before; and the destructor asks no other
-- loop to quit, has joined only a thread that has ended, and skips the join only
-- where the thread is past its loop, though it may still be on its way out.
pub Reach-Agreed :
    (own : ℕ) (callback : Bool) {m : Manager} → Reach own (init callback) m → Agreed own m
Reach-Agreed own callback here = init-Agreed own callback
Reach-Agreed own callback (next {m₁} {m₂} r s) =
    Step-Agreed own m₁ m₂ s (Reach-Agreed own callback r)
