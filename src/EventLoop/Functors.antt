-- ===== src/EventLoop/Functors.antt =====
-- `doPendFunc` and `loop`, as functions.
use mathlib.Core.List.{append_assoc, append-nil}
use lucky.Base.{
  Fault, err, ◌>>=◌, ◌≤◌, ℕ, ◌+◌, ◌≡◌, refl, sym, ◌∙◌, ap, List, [], ◌∷◌, ◌++◌, true, false, ◌==◌,
  if◌then◌else◌, arith, length, length-append, Bool-cases, inl, inr, Result, ok,
}
use lucky.Epoller.{Waited}
use lucky.EventLoop.{
  EventLoop, queue_in_loop, wakeup_if_needed, push_pending, wakeup, is_loop_thread, take_pending,
  end_pending, run_functors, do_pend_func, stop, loop,
}

-- What a callback may do to its loop: queue more, as `queueinLoop` does, so that while `doPendFunc`
-- runs each comes with a signal.
pub record Adds {T : Type 0} (l l' : EventLoop T) : Type 0 where
  pub more : List T
  pub queue : l'.pend_funcs ≡ l.pend_funcs ++ more
  pub calling : l'.is_call_pend_func ≡ l.is_call_pend_func
  pub signalled : l.is_call_pend_func ≡ true → l.signals + length more ≤ l'.signals

pub queue_in_loop-Adds :
    {T : Type 0} (tid : ℕ) (cb : T) (l : EventLoop T) → Adds l (queue_in_loop tid cb l)
unfolding queue_in_loop wakeup_if_needed push_pending wakeup
queue_in_loop-Adds tid cb l = record {
  more = cb ∷ [];
  queue = ground arith;
  calling = ground arith;
  signalled = λ e. ground arith;
}

module _ {T W : Type 0} (loop_of : W → EventLoop T) (with_loop : EventLoop T → W → W)
    (exec : T → W → Result W) (handle : ℕ → ℕ → W → Result W) where
  -- Callbacks that have run, each once and in order, from one state to another, and all that they
  -- have queued.
  pub data Ran : List T → W → List T → W → Type 0 where
    none_left : {w : W} → Ran [] w [] w
    ran :
        {cb : T} {cbs later : List T} {w w₁ w₂ : W}
        → exec cb w ≡ ok w₁
        → (a : Adds (loop_of w) (loop_of w₁)) → Ran cbs w₁ later w₂
        → Ran (cb ∷ cbs) w (a.more ++ later) w₂

  -- A callback has ended abnormally, behind those that ran.
  pub record Broken (cbs : List T) (w : W) (fault : Fault) : Type 0 where
    pub before : List T
    pub at : T
    pub behind : List T
    pub all : cbs ≡ before ++ (at ∷ behind)
    pub queued : List T
    pub reached : W
    pub so_far : Ran before w queued reached
    pub ends : exec at reached ≡ err fault

  abbrev RanAll : List T → W → Result W → Type 0
  RanAll cbs w (ok w₂) = (queued : List T) × Ran cbs w queued w₂
  RanAll cbs w (err fault) = Broken cbs w fault

  -- What `doPendFunc` makes of a state.
  pub PendFunc : W → Result W → Type 0
  PendFunc w (ok w') =
      (queued : List T) × (w₂ : W) × Ran (loop_of w).pend_funcs
        (with_loop (record (loop_of w) { is_call_pend_func = true; pend_funcs = [] }) w) queued w₂
      × (w' ≡ with_loop (record (loop_of w₂) { is_call_pend_func = false }) w₂)
      × ((loop_of w').pend_funcs ≡ queued)
      × ((loop_of w).signals + length queued ≤ (loop_of w').signals)
  PendFunc w (err fault) =
      Broken (loop_of w).pend_funcs
        (with_loop (record (loop_of w) { is_call_pend_func = true; pend_funcs = [] }) w) fault

  module _ (found : (l : EventLoop T) (w : W) → loop_of (with_loop l w) ≡ l)
      (adds : (cb : T) (w w' : W) → exec cb w ≡ ok w' → Adds (loop_of w) (loop_of w')) where
    run_functors_lem :
        (cbs : List T) (w : W) → RanAll cbs w (run_functors loop_of with_loop exec handle cbs w)
    unfolding run_functors
    run_functors_lem [] w = ([], none_left)
    run_functors_lem (cb ∷ cbs) w = first (exec cb w) refl (λ w₁. run_functors_lem cbs w₁)
      where
        rest :
            (w₁ : W) → exec cb w ≡ ok w₁ → (r : Result W) → RanAll cbs w₁ r → RanAll (cb ∷ cbs) w r
        rest w₁ e (ok w₂) (queued, all) =
            let a : Adds (loop_of w) (loop_of w₁) = adds cb w w₁ e in
            (a.more ++ queued, ran e a all)
        rest w₁ e (err fault) b = record {
          before = cb ∷ b.before;
          at = b.at;
          behind = b.behind;
          all = ap (λ l. cb ∷ l) b.all;
          queued = (adds cb w w₁ e).more ++ b.queued;
          reached = b.reached;
          so_far = ran e (adds cb w w₁ e) b.so_far;
          ends = b.ends;
        }

        first :
            (r : Result W)
            → exec cb w ≡ r
            → ((w₁ : W) → RanAll cbs w₁ (run_functors loop_of with_loop exec handle cbs w₁))
            → RanAll (cb ∷ cbs) w (r >>= run_functors loop_of with_loop exec handle cbs)
        first (err fault) e others = record {
          before = [];
          at = cb;
          behind = cbs;
          all = refl;
          queued = [];
          reached = w;
          so_far = none_left;
          ends = e;
        }
        first (ok w₁) e others =
            rest w₁ e (run_functors loop_of with_loop exec handle cbs w₁) (others w₁)

    Ran-queue :
        {cbs queued : List T} {w w₂ : W}
        → Ran cbs w queued w₂
        → (loop_of w).is_call_pend_func ≡ true
        → ((loop_of w₂).pend_funcs ≡ (loop_of w).pend_funcs ++ queued)
          × ((loop_of w).signals + length queued ≤ (loop_of w₂).signals)
    Ran-queue {w = w} none_left e = (sym (append-nil (loop_of w).pend_funcs), omega arith)
    Ran-queue {w = w} (ran {later = later} {w₁ = w₁} done a all) e =
        let (queue, signals) = Ran-queue all (a.calling ∙ e) in
        (
          queue ∙ ap (λ l. l ++ later) a.queue ∙ append_assoc (loop_of w).pend_funcs a.more later,
          omega (arith, signals, a.signalled e, length-append a.more later),
        )

    -- On a state that holds the loop that was put into it, where the callbacks do to the loop no
    -- more than to queue callbacks as `queueinLoop` does, and to the rest of the state what they
    -- like: `doPendFunc` runs the callbacks that waited when it began, each once and in order, with
    -- the queue empty and `isCallPendFunc_` set at the start. It ends abnormally only where one of
    -- them does, behind those before it; otherwise what they have queued, in order, is what waits
    -- for the next round, with at least one signal each, so that the next wait ends at once.
    pub do_pend_func_lem : (w : W) → PendFunc w (do_pend_func loop_of with_loop exec handle w)
    unfolding do_pend_func take_pending end_pending PendFunc
    do_pend_func_lem w =
        ended (run_functors loop_of with_loop exec handle l.pend_funcs w₁)
          (run_functors_lem l.pend_funcs w₁)
      where
        l : EventLoop T
        l = loop_of w

        l₁ : EventLoop T
        l₁ = record l { is_call_pend_func = true; pend_funcs = [] }

        w₁ : W
        w₁ = with_loop l₁ w

        ended :
            (r : Result W)
            → RanAll l.pend_funcs w₁ r
            → PendFunc w (r >>= λ w₂. ok (with_loop (end_pending (loop_of w₂)) w₂))
        ended (err fault) b = b
        ended (ok w₂) (queued, all) =
            let there : loop_of w₁ ≡ l₁ = found l₁ w in
            let (queue, signals) = Ran-queue all (ap (λ l. l.is_call_pend_func) there) in
            let back = found (end_pending (loop_of w₂)) w₂ in
            (
              queued,
              w₂,
              all,
              refl,
              ap (λ l. l.pend_funcs) back ∙ queue ∙ ap (λ l. l.pend_funcs ++ queued) there,
              omega (arith, signals, ap (λ l. l.signals) there, ap (λ l. l.signals) back),
            )

module _ {T : Type 0} where
  -- The state is the loop alone.
  abbrev pub itself : EventLoop T → EventLoop T
  itself l = l

  abbrev pub instead : EventLoop T → EventLoop T → EventLoop T
  instead l old = l

  -- `loop` clears `quit_` when it starts, so a `quit` that came before is forgotten: what is left
  -- of it is the signal of a `quit` from another thread.
  loop-stop :
      (exec : T → EventLoop T → Result (EventLoop T))
      (handle : ℕ → ℕ → EventLoop T → Result (EventLoop T)) (ws : List (Waited × ℕ)) (tid : ℕ)
      (l : EventLoop T)
      → loop itself instead exec handle ws (stop tid l)
        ≡ loop itself instead exec handle ws (if is_loop_thread tid l then l else wakeup l)
  unfolding loop stop is_loop_thread wakeup
  loop-stop exec handle ws tid l = elim (Bool-cases (l.thread_id == tid)) [
    | inl mine ↦ simp mine
    | inr other ↦ simp other
  ]
