-- ===== src/Connection/Lifecycle.antt =====
-- The set-up, the close and the take-down of a connection, and what arrives on it.
use lucky.Base.{
  true, ℕ, ◌≡◌, refl, ◌∙◌, ap, List, ◌++◌, ◌==◌, Option, none, some, if◌then◌else◌, length, ℤ,
  Result, ok, err, bad_call, ◌>>=◌, Bool-cases, inl, inr,
}
use lucky.Buffer
use lucky.Buffer.{Buffer, Received, received, failed, read_blocks}
use lucky.Buffer.Content.{IsValid, content}
use lucky.Buffer.Transfer.{Fits, ReadOutcome, read_fd_lem}
use lucky.Filed
use lucky.Filed.{Filed, none_event}
use lucky.Filed.Dispatch.{SameHandlers, SameHandlers-trans}
use lucky.Filed.Masks.{Interest, mask, wish, enable_reading, disable_all}
use lucky.Epoller
use lucky.Epoller.{Epoller, Control, set_object, put}
use lucky.Epoller.Consistency.{Documented, Consistent, put_self, fd-kept}
use lucky.Epoller.Requests.{remove_lem}
use lucky.Epoller.Runs.{InStep}
use lucky.Connection.{Context, StateE, connected, disconnected, eq_state, filed_of, set_state}
use lucky.Connection.Handlers.{
  Invocation, on_connection, on_message, on_close, invoke, handle_close, handle_error, after_read,
  handle_read, connect_established, connect_destroyed,
}
use lucky.Connection.Binding.{tied_handlers, tied_to, tied_events, tied_InStep}
use lucky.Connection.Stream.{Sound, change_filed_lem}

-- The connection as its callbacks find it: in the given state, and watched for `asked`.
pub record Found (state : StateE) (asked : ℕ) (c c₁ : Context) : Type 0 where
  pub thread : c₁.eventloop.thread_id ≡ c.eventloop.thread_id
  pub conn : c₁.conn ≡ record (c.conn) { state = state }
  pub in_step : InStep c₁.eventloop.epoller
  pub asks : (filed_of c₁).events ≡ asked
  pub handlers : SameHandlers (filed_of c) (filed_of c₁)
  pub wire : c₁.wire ≡ c.wire
  pub write_shut : c₁.write_shut ≡ c.write_shut

module _ (user : ℕ → Invocation → Context → Result Context) (control : Control) where
  -- What `handleRead` has to make of the answer of `readv`.
  abbrev pub ReadsAs : ℕ → Context → Received → Result Context → Type 0
  ReadsAs time c (received bytes) out =
      (b : Buffer) × IsValid b
      × (content b ≡ content c.conn.input_buffer ++ bytes)
      × (let c₁ : Context = record c { conn = record (c.conn) { input_buffer = b } } in
          if length bytes == 0
          then out ≡ handle_close user control c₁
          else out ≡ invoke user c.conn.message_callback (on_message time) c₁)
  ReadsAs time c (failed e) out = out ≡ ok c

  -- With a valid input and a `readv` that stores no more than the blocks and a vector can hold:
  -- `handleRead` hands the message callback an input that is the old one with all the received
  -- bytes behind it, in order; it closes the connection exactly when nothing was received, with
  -- the input's content as it was; and a failed read changes nothing.
  pub handle_read_lem :
      (readv : List ℕ → Received) (time : ℕ) (c : Context)
      → IsValid c.conn.input_buffer
      → Fits c.conn.input_buffer (readv (read_blocks c.conn.input_buffer))
      → ReadsAs time c
          (readv (read_blocks c.conn.input_buffer))
          (handle_read user control readv time c)
  unfolding handle_read after_read handle_error
  handle_read_lem readv time c v fits =
      by_answer (readv (read_blocks c.conn.input_buffer)) (Buffer.read_fd readv c.conn.input_buffer)
        (read_fd_lem readv v fits)
    where
      by_answer :
          (r : Received) (out : Result (ℤ × Option ℕ × Buffer))
          → ReadOutcome c.conn.input_buffer r out
          → ReadsAs time c r (out >>= λ result. after_read user control time result c)
      by_answer (received bytes) out (b, done, valid, holds, _) =
          elim (Bool-cases (length bytes == 0)) [
            | inl nothing ↦ (b, valid, holds, rw (nothing, done, nothing) refl)
            | inr more ↦ (b, valid, holds, rw (more, done, more) refl)
          ]
      by_answer (failed e) out done = rw done refl

module _ (user : ℕ → Invocation → Context → Result Context) (control : Control)
    (doc : Documented control) where
  -- On a sound connection, with `epoll_ctl` as documented: `handleClose` runs the connection
  -- callback and then the close callback that is set after it; the first finds a connection that
  -- is disconnected already and whose Filed asks for nothing, as the kernel knows, while nothing
  -- that waits in the output was sent or dropped.
  pub handle_close_lem :
      (c : Context)
      → Sound c
      → (c₁ : Context) × (handle_close user control c ≡ (
          invoke user c.conn.connection_callback on_connection c₁ >>= λ c₂.
          invoke user c₂.conn.close_callback on_close c₂))
        × Found disconnected none_event c c₁
  unfolding handle_close
  handle_close_lem c s =
      let (e, done, s', asks, steady) =
        change_filed_lem control doc disable_all (set_state disconnected c) s.interest s.in_step
          s.asks in
      (
        record (set_state disconnected c) { eventloop = record (c.eventloop) { epoller = e } },
        rw done refl,
        record {
          thread = refl;
          conn = refl;
          in_step = s';
          asks = asks;
          handlers = steady.handlers;
          wire = refl;
          write_shut = refl;
        },
      )

  -- On a sound connection that was given no connection callback, with `epoll_ctl` as documented,
  -- `handleClose` throws `bad_function_call`.
  handle_close-unset :
      (c : Context)
      → Sound c
      → c.conn.connection_callback ≡ none
      → handle_close user control c ≡ err bad_call
  unfolding invoke
  handle_close-unset c s unset =
      let (c₁, done, found) = handle_close_lem c s in
      done
      ∙ ap
          (λ set. invoke user set on_connection c₁ >>= λ c₂.
            invoke user c₂.conn.close_callback on_close c₂)
          unset

  -- With the kernel in step with the Fileds and `epoll_ctl` as documented: `connectEstablished`
  -- runs the connection callback on a connection that is connected and watched by the kernel for
  -- reading besides what it was watched for, and whose Filed is tied to it and has the callbacks
  -- that it had.
  pub connect_established_lem :
      (c : Context) (i : Interest)
      → InStep c.eventloop.epoller
      → (filed_of c).events ≡ mask i
      → (c₁ : Context) × (connect_established user control c
          ≡ invoke user c.conn.connection_callback on_connection c₁)
        × Found connected (mask (wish enable_reading i)) c c₁
        × ((filed_of c₁).tied ≡ true)
        × ((filed_of c₁).tie_target ≡ some c.conn.id)
  unfolding connect_established
  connect_established_lem c i s asks =
      let p : ℕ = c.conn.filed in
      let tied : Context = record (set_state connected c) {
        eventloop = record (c.eventloop) {
          epoller = set_object p (Filed.tie c.conn.id (filed_of c)) c.eventloop.epoller;
        };
      } in
      let (e, done, s', asks', steady) =
        change_filed_lem control doc enable_reading tied i
          (tied_InStep p c.conn.id c.eventloop.epoller s)
          (tied_events p c.conn.id c.eventloop.epoller ∙ asks) in
      (
        record tied { eventloop = record (tied.eventloop) { epoller = e } },
        rw done refl,
        record {
          thread = refl;
          conn = refl;
          in_step = s';
          asks = asks';
          handlers =
              SameHandlers-trans (tied_handlers p c.conn.id c.eventloop.epoller) steady.handlers;
          wire = refl;
          write_shut = refl;
        },
        steady.tied ∙ (tied_to p c.conn.id c.eventloop.epoller).0,
        steady.target ∙ (tied_to p c.conn.id c.eventloop.epoller).1,
      )

  -- A callback that returns, keeps the kernel in step with the Fileds, and lets the connection be.
  abbrev pub Polite : ℕ → Type 0
  Polite cb =
      (c : Context)
      → InStep c.eventloop.epoller
      → (c' : Context) × (user cb on_connection c ≡ ok c')
        × InStep c'.eventloop.epoller
        × (c'.conn.filed ≡ c.conn.filed)

  -- With the kernel in step with the Fileds and `epoll_ctl` as documented, and a connection
  -- callback that returns, keeps the kernel in step and leaves the connection its Filed:
  -- `connectDestroyed` returns from any state of the connection, and afterwards neither the
  -- Epoller nor the kernel knows its descriptor.
  pub connect_destroyed_lem :
      (c : Context) (i : Interest) (cb : ℕ)
      → InStep c.eventloop.epoller
      → (filed_of c).events ≡ mask i
      → c.conn.connection_callback ≡ some cb
      → Polite cb
      → (c' : Context) × (connect_destroyed user control c ≡ ok c')
        × Consistent c'.eventloop.epoller
        × (c'.eventloop.epoller.fileds (filed_of c').fd ≡ none)
        × (c'.eventloop.epoller.interest (filed_of c').fd ≡ none)
  unfolding connect_destroyed invoke
  connect_destroyed_lem c i cb s asks set polite =
      elim (Bool-cases (eq_state c.conn.state connected)) [
        | inl live ↦
            let (e, done, s₁, _, _) =
              change_filed_lem control doc disable_all (set_state disconnected c) i s asks in
            let c₁ : Context = record (set_state disconnected c) {
              eventloop = record (c.eventloop) { epoller = e };
            } in
            let (c₂, called, s₂, same) = polite c₁ s₁ in
            let invoked : invoke user c.conn.connection_callback on_connection c₁ ≡ ok c₂ =
              ap (λ set_to. invoke user set_to on_connection c₁) set ∙ called in
            let (c', removed, good, gone, unwatched) = unwatch c₂ s₂ in
            (c', rw (live, done, invoked) removed, good, gone, unwatched)
        | inr over ↦
            let (c', removed, good, gone, unwatched) = unwatch c s in
            (c', rw over removed, good, gone, unwatched)
      ]
    where
      unwatch :
          (c : Context)
          → InStep c.eventloop.epoller
          → (c' : Context) × ((Epoller.remove control c.conn.filed c.eventloop.epoller >>= λ e.
                ok (record c { eventloop = record (c.eventloop) { epoller = e } }))
              ≡ ok c')
            × Consistent c'.eventloop.epoller
            × (c'.eventloop.epoller.fileds (filed_of c').fd ≡ none)
            × (c'.eventloop.epoller.interest (filed_of c').fd ≡ none)
      unwatch c s =
          let p : ℕ = c.conn.filed in
          let (e, done, good, m) = remove_lem control doc p c.eventloop.epoller s.consistent in
          (
            record c { eventloop = record (c.eventloop) { epoller = e } },
            rw done refl,
            good,
            rw (fd-kept m p, m.fileds (filed_of c).fd)
                (put_self c.eventloop.epoller.fileds (filed_of c).fd none),
            rw (fd-kept m p, m.interest (filed_of c).fd)
                (put_self c.eventloop.epoller.interest (filed_of c).fd none),
          )
