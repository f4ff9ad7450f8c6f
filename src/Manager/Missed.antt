-- ===== src/Manager/Missed.antt =====
-- A thread whose loop ends before `startLoop` has seen it.
use mathlib.Core.Bool.{false≢true}
use lucky.Base.{refl, ap, true, ℕ, ◌≡◌, ◌≢◌, sym, ◌∙◌, Option, none, some}
use lucky.Manager.{
  idle, sleeping, returned, Manager, start, check_loop, call_back, publish, unpublish, leave, close,
  join,
}
use lucky.Manager.Handshake.{
  Step, starts, checks, wakes_up, calls, publishes, stops, leaves, has_left, closes, joins, Reach,
  here, next,
}

-- The thread is past its loop before `startLoop` has seen its loop.
pub record Missed (m : Manager) : Type 0 where
  pub over : has_left m.worker ≡ true
  pub empty : m.loop ≡ none
  pub unreturned : (p : ℕ) → m.caller ≢ returned p
  pub called : m.caller ≢ idle

check-Missed :
    (m : Manager)
    → Missed m
    → (l : Option ℕ) → l ≡ none
    → Missed (elim l [
      | none ↦ record m { caller = sleeping }
      | some p ↦ record m { caller = returned p }
    ])
check-Missed m a none e = record {
  over = a.over;
  empty = a.empty;
  unreturned = λ p same. cc;
  called = λ same. cc;
}
check-Missed m a (some p) e = absurd (some_ne p e)
  where
    some_ne : (p : ℕ) → ◌≢◌ {A = Option ℕ} (some p) none
    some_ne p same = cc

Step-Missed : (own : ℕ) (m m' : Manager) → Step own m m' → Missed m → Missed m'
unfolding start check_loop call_back publish unpublish leave close join
Step-Missed own m _ (starts c w) a = absurd (a.called c)
Step-Missed own m _ (checks c) a = check-Missed m a m.loop a.empty
Step-Missed own m _ (wakes_up c) a = record {
  over = a.over;
  empty = a.empty;
  unreturned = λ p e. cc;
  called = λ e. cc;
}
Step-Missed own m _ (calls w) a = absurd (false≢true (sym (ap has_left w) ∙ a.over))
Step-Missed own m _ (closes p c still) a = absurd (a.unreturned p c)
Step-Missed own m _ (joins p c w) a = record {
  over = a.over;
  empty = a.empty;
  unreturned = a.unreturned;
  called = a.called;
}
Step-Missed own m _ (publishes w) a = absurd (false≢true (sym (ap has_left w) ∙ a.over))
Step-Missed own m _ (stops w) a = absurd (false≢true (sym (ap has_left w) ∙ a.over))
Step-Missed own m _ (leaves w) a = record {
  over = refl;
  empty = a.empty;
  unreturned = a.unreturned;
  called = a.called;
}

-- If the thread's loop ends before `startLoop` has seen it, `startLoop` never returns: `loop_` is
-- null again, and nobody notifies.
pub Reach-Missed : (own : ℕ) {m m' : Manager} → Missed m → Reach own m m' → Missed m'
Reach-Missed own s here = s
Reach-Missed own s (next {m₁} {m₂} r x) = Step-Missed own m₁ m₂ x (Reach-Missed own s r)
