-- ===== src/Filed/Readiness.antt =====
-- `handleEvent` on a Filed that was reported for reading and writing alone.
use lucky.Base.{
  ℕ, ◌≡◌, refl, ◌∙◌, ap, Bool, true, false, not, ◌&&◌, Option, some, ◌==◌, if◌then◌else◌, bit_and,
  bit_or, Result, ok,
}
use lucky.Filed.{
  Filed, Callback, epollin, epollpri, epollout, epollerr, epollhup, wants_close, wants_error,
  wants_read, wants_write, call, when, run_callbacks, handle_event,
}
use lucky.Filed.Dispatch.{SameHandlers}

&&-true : (b : Bool) → (b && true) ≡ b
&&-true true = refl
&&-true false = refl

no_hangup : (f : Filed) → (bit_and f.revents epollhup == 0) ≡ true → wants_close f ≡ false
unfolding wants_close
no_hangup f e = rw e refl

no_failure : (f : Filed) → (bit_and f.revents epollerr == 0) ≡ true → wants_error f ≡ false
unfolding wants_error
no_failure f e = rw e refl

wants_read_lem :
    (f : Filed) (cb : Callback)
    → f.read_callback ≡ some cb
    → wants_read f ≡ not (bit_and f.revents (bit_or epollin epollpri) == 0)
unfolding wants_read
wants_read_lem f cb e = rw e (&&-true _)

wants_write_lem :
    (f : Filed) (cb : Callback)
    → f.write_callback ≡ some cb
    → wants_write f ≡ not (bit_and f.revents epollout == 0)
unfolding wants_write
wants_write_lem f cb e = rw e (&&-true _)

module _ {W : Type 0} (filed : W → Filed) (alive : ℕ → W → Bool)
    (invoke : Callback → ℕ → W → Result W) where
  -- A call whose test is of one mask.
  when_lem :
      (test : Filed → Bool) (off : Bool) (cb : Callback) (time : ℕ) (w : W)
      → test (filed w) ≡ not off
      → when filed alive invoke test (some cb) time w ≡ (if off then ok w else invoke cb time w)
  unfolding when call
  when_lem test true cb time w e = rw e
  when_lem test false cb time w e = rw e

  when-not :
      (test : Filed → Bool) (cb : Option Callback) (time : ℕ) (w : W)
      → test (filed w) ≡ false
      → when filed alive invoke test cb time w ≡ ok w
  unfolding when
  when-not test cb time w e = rw e

  pub handle_event-ready :
      (time obj : ℕ) (w w₁ w' : W) (rd wr : Callback)
      → (filed w).tied ≡ true
      → (filed w).tie_target ≡ some obj
      → alive obj w ≡ true
      → (filed w).read_callback ≡ some rd
      → (filed w).write_callback ≡ some wr
      → (bit_and (filed w).revents epollhup == 0) ≡ true
      → (bit_and (filed w).revents epollerr == 0) ≡ true
      → (if bit_and (filed w).revents (bit_or epollin epollpri) == 0
          then ok w
          else invoke rd time w)
        ≡ ok w₁
      → SameHandlers (filed w) (filed w₁)
      → (if bit_and (filed w).revents epollout == 0 then ok w₁ else invoke wr time w₁) ≡ ok w'
      → handle_event filed alive invoke time w ≡ ok w'
  unfolding handle_event run_callbacks
  handle_event-ready time obj w w₁ w' rd wr tied target lives read write up well reads same writes =
      let f : Filed = filed w in
      let write₁ : (filed w₁).write_callback ≡ some wr = same.write ∙ write in
      let no_close = when-not wants_close f.close_callback time w (no_hangup f up) in
      let no_error = when-not wants_error f.error_callback time w (no_failure f well) in
      let read_step : when filed alive invoke wants_read (some rd) time w ≡ ok w₁ =
        when_lem wants_read _ rd time w (wants_read_lem f rd read) ∙ reads in
      let write_step : when filed alive invoke wants_write (some wr) time w₁ ≡ ok w' =
        when_lem wants_write _ wr time w₁ (
          wants_write_lem (filed w₁) wr write₁
          ∙ ap (λ r. not (bit_and r epollout == 0)) same.revents)
        ∙ writes in
      rw (tied, target, lives, read, write, no_close, no_error, read_step) write_step
