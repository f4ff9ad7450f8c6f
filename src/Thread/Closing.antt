-- ===== src/Thread/Closing.antt =====
-- What the destructor of a Thread finds.
use lucky.Base.{
  ℕ, suc, ◌≤◌, ◌≡◌, ◌≢◌, refl, sym, ◌∙◌, ap, true, false, List, [], ◌∷◌, arith, Result, Fault, ok,
  err, undefined, system_error, terminate, ◌>>=◌, ok-injective, subst, ◌⊎◌, inl, inr,
}
use lucky.Thread.{
  Handle, absent, joinable, joined, detached, Thread, init, destroy, start, join, detach, close,
}

-- The calls that the owner of a Thread makes.
pub data Call : Type 0 where
  starts joins : Call

unfoldable pub run : List Call → Thread → Result Thread
run [] t = ok t
run (starts ∷ calls) t = do t' ← start t; run calls t'
run (joins ∷ calls) t = do t' ← join t; run calls t'

abbrev pub count_starts : List Call → ℕ
count_starts [] = 0
count_starts (starts ∷ calls) = suc (count_starts calls)
count_starts (joins ∷ calls) = count_starts calls

-- A Thread that was not started.
record Fresh (t : Thread) : Type 0 where
  unstarted : t.is_start ≡ false
  unjoined : t.is_join ≡ false
  empty : t.thread ≡ absent

-- A Thread that was started once, and joined or not.
data Used (t : Thread) : Type 0 where
  running : t.is_start ≡ true → t.is_join ≡ false → t.thread ≡ joinable → Used t
  over : t.is_start ≡ true → t.is_join ≡ true → t.thread ≡ joined → Used t

init-Fresh : (name : List ℕ) (create_num : ℕ) → Fresh (init name create_num).0
unfolding init
init-Fresh name create_num = record { unstarted = refl; unjoined = refl; empty = refl }

start-Fresh :
    (t : Thread) → Fresh t → start t ≡ ok (record t { is_start = true; thread = joinable })
unfolding start destroy
start-Fresh t f = rw f.empty

join_absent : (t : Thread) → t.thread ≡ absent → join t ≡ err undefined
unfolding join
join_absent t e = rw e

join_joinable :
    (t : Thread) → t.thread ≡ joinable → join t ≡ ok (record t { is_join = true; thread = joined })
unfolding join
join_joinable t e = rw e

join_joined : (t : Thread) → t.thread ≡ joined → join t ≡ err system_error
unfolding join
join_joined t e = rw e

-- A row of calls goes on from where its first call ends.
went_on :
    (r : Result Thread) (calls : List Call) {t t' : Thread}
    → r ≡ ok t
    → (r >>= run calls) ≡ ok t'
    → run calls t ≡ ok t'
went_on r calls e done = sym (ap (λ r. r >>= run calls) e) ∙ done

stopped :
    (r : Result Thread) (calls : List Call) {t' : Thread} {e : Fault}
    → r ≡ err e
    → (r >>= run calls) ≢ ok t'
stopped r calls {t'} {e} failed done = err_ne (sym (ap (λ r. r >>= run calls) failed) ∙ done)
  where
    err_ne : ◌≢◌ {A = Result Thread} (err e) (ok t')
    err_ne same = cc

run-Used :
    (calls : List Call) (t t' : Thread)
    → Used t
    → count_starts calls ≤ 0
    → run calls t ≡ ok t'
    → Used t'
unfolding run
run-Used [] t t' u few done = subst Used (ok-injective done) u
run-Used (starts ∷ calls) t t' u few done = absurd (omega arith)
run-Used (joins ∷ calls) t t' (running on off live) few done =
    run-Used calls (record t { is_join = true; thread = joined }) t' (over on refl refl) few
      (went_on (join t) calls (join_joinable t live) done)
run-Used (joins ∷ calls) t t' (over on off gone) few done =
    absurd (stopped (join t) calls (join_joined t gone) done)

run-Fresh :
    (calls : List Call) (t t' : Thread)
    → Fresh t
    → count_starts calls ≤ 1
    → run calls t ≡ ok t'
    → Fresh t' ⊎ Used t'
unfolding run
run-Fresh [] t t' f few done = inl (subst Fresh (ok-injective done) f)
run-Fresh (starts ∷ calls) t t' f few done = inr (
    run-Used calls (record t { is_start = true; thread = joinable }) t'
      (running refl f.unjoined refl) (omega arith) (went_on (start t) calls (start-Fresh t f) done))
run-Fresh (joins ∷ calls) t t' f few done =
    absurd (stopped (join t) calls (join_absent t f.empty) done)

close-Fresh : (t : Thread) → Fresh t → close t ≡ ok absent
unfolding close destroy
close-Fresh t f = rw (f.unstarted, f.empty)

close-Used : (t : Thread) → Used t → (h : Handle) × (close t ≡ ok h) × (h ≢ joinable)
unfolding close destroy detach
close-Used t (running on off live) = (detached, rw (on, off, live), λ e. cc)
close-Used t (over on off gone) = (joined, rw (on, off, gone), λ e. cc)

-- After any calls of `start` and `join` that return, with one `start` at most, on a new Thread of
-- any name: the destructor returns, and leaves no thread that is still joinable, so the process is
-- not terminated by it.
pub close-run :
    (calls : List Call) (name : List ℕ) (create_num : ℕ) (t : Thread)
    → count_starts calls ≤ 1
    → run calls (init name create_num).0 ≡ ok t
    → (h : Handle) × (close t ≡ ok h) × (h ≢ joinable)
close-run calls name create_num t few done =
    elim (run-Fresh calls (init name create_num).0 t (init-Fresh name create_num) few done) [
      | inl f ↦ (absent, close-Fresh t f, λ e. cc)
      | inr u ↦ close-Used t u
    ]

-- A Thread that was joined and is started again: `is_join_` is never reset, so the destructor does
-- not detach the new thread, and ends the process.
pub close-start :
    (t : Thread) → t.is_join ≡ true → t.thread ≡ joined → (start t >>= close) ≡ err terminate
unfolding start close destroy
close-start t on gone = rw (gone, on)
