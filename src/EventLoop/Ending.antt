-- ===== src/EventLoop/Ending.antt =====
-- The end of `loop`, by a callback that calls `quit`.
use mathlib.Core.List.{append_assoc, append-nil}
use lucky.Base.{
  ℕ, ◌≡◌, refl, sym, ◌∙◌, ap, List, [], ◌∷◌, ◌++◌, Bool, true, false, Result, ok, ◌>>=◌, bind_ok,
  bind_congr, ok-injective,
}
use lucky.Epoller
use lucky.Epoller.{Waited}
use lucky.EventLoop.{
  EventLoop, take_pending, end_pending, run_functors, do_pend_func, handle_active, round, rounds,
  loop,
}

module _ {T W : Type 0} (loop_of : W → EventLoop T) (with_loop : EventLoop T → W → W)
    (exec : T → W → Result W) (handle : ℕ → ℕ → W → Result W) (q : T) where
  -- The callback `q` calls `quit`; no callback undoes that, the handlers of Fileds do no more to
  -- the queue than to add to it, and a loop that is put into the state is found there.
  pub record Quits : Type 0 where
    pub quits : (w w' : W) → exec q w ≡ ok w' → (loop_of w').quit ≡ true
    pub keeps :
        (cb : T) (w w' : W) → exec cb w ≡ ok w' → (loop_of w).quit ≡ true → (loop_of w').quit ≡ true
    pub adds :
        (p now : ℕ) (w w' : W)
        → handle p now w ≡ ok w'
        → (more : List T) × ((loop_of w').pend_funcs ≡ (loop_of w).pend_funcs ++ more)
    pub found : (l : EventLoop T) (w : W) → loop_of (with_loop l w) ≡ l

  module _ (h : Quits) where
    handle_active_adds :
        (ps : List ℕ) (w w' : W)
        → handle_active loop_of with_loop exec handle ps w ≡ ok w'
        → (more : List T) × ((loop_of w').pend_funcs ≡ (loop_of w).pend_funcs ++ more)
    unfolding handle_active
    handle_active_adds [] w w' done = (
      [],
      ap (λ w. (loop_of w).pend_funcs) (sym (ok-injective done))
          ∙ sym (append-nil (loop_of w).pend_funcs),
    )
    handle_active_adds (p ∷ ps) w w' done =
        let (w₁, first, rest) =
          bind_ok (handle p (loop_of w).epoll_return_time w)
            (handle_active loop_of with_loop exec handle ps) done in
        let (more, e) = h.adds p (loop_of w).epoll_return_time w w₁ first in
        let (more', e') = handle_active_adds ps w₁ w' rest in
        (
          more ++ more',
          e' ∙ ap (λ fs. fs ++ more') e ∙ append_assoc (loop_of w).pend_funcs more more',
        )

    run_functors_keeps :
        (cbs : List T) (w w' : W)
        → run_functors loop_of with_loop exec handle cbs w ≡ ok w'
        → (loop_of w).quit ≡ true
        → (loop_of w').quit ≡ true
    unfolding run_functors
    run_functors_keeps [] w w' done e = ap (λ w. (loop_of w).quit) (sym (ok-injective done)) ∙ e
    run_functors_keeps (cb ∷ cbs) w w' done e =
        let (w₁, first, rest) =
          bind_ok (exec cb w) (run_functors loop_of with_loop exec handle cbs) done in
        run_functors_keeps cbs w₁ w' rest (h.keeps cb w w₁ first e)

    run_functors_quits :
        (before after : List T) (w w' : W)
        → run_functors loop_of with_loop exec handle (before ++ (q ∷ after)) w ≡ ok w'
        → (loop_of w').quit ≡ true
    unfolding run_functors
    run_functors_quits [] after w w' done =
        let (w₁, first, rest) =
          bind_ok (exec q w) (run_functors loop_of with_loop exec handle after) done in
        run_functors_keeps after w₁ w' rest (h.quits w w₁ first)
    run_functors_quits (cb ∷ before) after w w' done =
        let (w₁, first, rest) =
          bind_ok (exec cb w) (run_functors loop_of with_loop exec handle (before ++ (q ∷ after)))
            done in
        run_functors_quits before after w₁ w' rest

    do_pend_func_quits :
        (before after : List T) (w w' : W)
        → (loop_of w).pend_funcs ≡ before ++ (q ∷ after)
        → do_pend_func loop_of with_loop exec handle w ≡ ok w'
        → (loop_of w').quit ≡ true
    unfolding do_pend_func take_pending end_pending
    do_pend_func_quits before after w w' queued done =
        let l₁ : EventLoop T = record (loop_of w) { is_call_pend_func = true; pend_funcs = [] } in
        let (w₂, ran, ended) =
          bind_ok
            (run_functors loop_of with_loop exec handle (loop_of w).pend_funcs (with_loop l₁ w))
            (λ w. ok (with_loop (end_pending (loop_of w)) w)) done in
        ap (λ w. (loop_of w).quit) (sym (ok-injective ended))
        ∙ ap (λ l. l.quit) (h.found (end_pending (loop_of w₂)) w₂)
        ∙ run_functors_quits before after (with_loop l₁ w) w₂ (
            sym (ap (λ cbs. run_functors loop_of with_loop exec handle cbs (with_loop l₁ w)) queued)
            ∙ ran)

    round_quits :
        (wait : Waited × ℕ) (before after : List T) (w w' : W)
        → (loop_of w).pend_funcs ≡ before ++ (q ∷ after)
        → round loop_of with_loop exec handle wait w ≡ ok w'
        → (loop_of w').quit ≡ true
    unfolding round
    round_quits (wait, now) before after w w' queued done =
        let ((report, active, e), waited, rest) =
          bind_ok (Epoller.epoll wait [] (loop_of w).epoller) _ done in
        let l : EventLoop T = record (loop_of w) {
          epoller = e;
          active_fileds = active;
          epoll_return_time = now;
        } in
        let (w₂, handled, called) = bind_ok _ (do_pend_func loop_of with_loop exec handle) rest in
        let (more, added) = handle_active_adds active (with_loop l w) w₂ handled in
        do_pend_func_quits before (after ++ more) w₂ w'
          (added
            ∙ ap (λ (l : EventLoop T). l.pend_funcs ++ more) (h.found l w)
            ∙ ap (λ fs. fs ++ more) queued
            ∙ append_assoc before (q ∷ after) more)
          called

    rounds_end :
        (waits : List (Waited × ℕ)) (v : Waited × ℕ) (w : W)
        → (loop_of w).quit ≡ true
        → rounds loop_of with_loop exec handle (v ∷ waits) w
          ≡ ok (with_loop (record (loop_of w) { looping = false }) w)
    unfolding rounds
    rounds_end waits v w e =
        taken (loop_of w).quit (ok (with_loop (record (loop_of w) { looping = false }) w))
          (round loop_of with_loop exec handle v w >>= rounds loop_of with_loop exec handle waits) e
      where
        taken :
            (b : Bool) (r s : Result W)
            → b ≡ true
            → ◌≡◌ {A = Result W} (elim b [ true ↦ r | false ↦ s ]) r
        taken true r s e = refl
        taken false r s e = cc

    -- With a callback in the queue that calls `quit`, where no callback takes that back, the
    -- handlers of Fileds only add to the queue, and the state holds the loop that was put into it:
    -- `loop` does one round and returns, whatever waits were still to come, and ends abnormally
    -- only where that round does.
    pub loop_ends :
        (u v : Waited × ℕ) (waits : List (Waited × ℕ)) (before after : List T) (w : W)
        → (loop_of w).pend_funcs ≡ before ++ (q ∷ after)
        → loop loop_of with_loop exec handle (u ∷ v ∷ waits) w ≡ (
            round loop_of with_loop exec handle u
              (with_loop (record (loop_of w) { looping = true; quit = false }) w)
            >>= λ w'. ok (with_loop (record (loop_of w') { looping = false }) w'))
    unfolding loop rounds
    loop_ends u v waits before after w queued =
        let l₀ : EventLoop T = record (loop_of w) { looping = true; quit = false } in
        let w₀ : W = with_loop l₀ w in
        let first : (loop_of w₀).quit ≡ false = ap (λ l. l.quit) (h.found l₀ w) in
        started (loop_of w₀).quit (ok (with_loop (record (loop_of w₀) { looping = false }) w₀))
          (round loop_of with_loop exec handle u w₀
            >>= rounds loop_of with_loop exec handle (v ∷ waits))
          first
        ∙ bind_congr (round loop_of with_loop exec handle u w₀)
            (rounds loop_of with_loop exec handle (v ∷ waits))
            (λ w'. ok (with_loop (record (loop_of w') { looping = false }) w'))
            (λ w' done. rounds_end waits v w' (
              round_quits u before after w₀ w' (ap (λ l. l.pend_funcs) (h.found l₀ w) ∙ queued)
                done))
      where
        started :
            (b : Bool) (r s : Result W)
            → b ≡ false
            → ◌≡◌ {A = Result W} (elim b [ true ↦ r | false ↦ s ]) s
        started true r s e = cc
        started false r s e = refl
