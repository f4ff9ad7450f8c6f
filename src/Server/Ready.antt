-- ===== src/Server/Ready.antt =====
-- `handleEvent` of the Filed of a connection of the server, reported for reading and writing alone.
use lucky.Base.{
  subst, Bool, ℕ, ◌≡◌, refl, sym, ◌∙◌, ap, List, true, ◌==◌, bit_or, bit_and, some, if◌then◌else◌,
  Result, ok,
}
use lucky.Buffer.{Sent, Received}
use lucky.Filed.{
  Filed, epollin, epollout, epollpri, epollhup, epollerr, connection_read, connection_write,
}
use lucky.Filed.Dispatch.{SameHandlers}
use lucky.Filed.Readiness.{handle_event-ready}
use lucky.Epoller.{Control}
use lucky.Connection.{Context, filed_of}
use lucky.Connection.Handlers.{Invocation, handle_write}
use lucky.Connection.Binding.{with_revents, Bound, with_revents-Bound, revents-with_revents}
use lucky.Server.{World, context, put_context}
use lucky.Server.Handing.{context-put}
use lucky.Server.Tasks.{on_its_loop}
use lucky.Server.Events.{noted, read_connection, run_bound, handle_filed}

-- The Filed at `p` of the loop `io`.
abbrev pub filed_at : ℕ → ℕ → World → Filed
filed_at io p w = (w.loops io).epoller.objects p

pub filed_at-put :
    (id : ℕ) (c : Context) (w : World) (p : ℕ)
    → c.conn.filed ≡ p
    → filed_at (w.owner id) p (put_context id c w) ≡ filed_of c
filed_at-put id c w p place =
    ap (λ (c : Context). c.eventloop.epoller.objects p) (context-put id c w)
    ∙ ap (λ p. c.eventloop.epoller.objects p) (sym place)

module _ (user : ℕ → Invocation → Context → Result Context) (control : Control) (tid : ℕ)
    (readv : List ℕ → Received) (write : List ℕ → Sent) (accept : World → Result World)
    (alive : ℕ → World → Bool) where
  pub ready_at :
      (id revents time : ℕ) (w w₁ w' : World)
      → Bound (context id w)
      → (w.conns id).id ≡ id
      → alive id (noted revents id w) ≡ true
      → (bit_and revents epollhup == 0) ≡ true
      → (bit_and revents epollerr == 0) ≡ true
      → let w₀ = noted revents id w in
        (if bit_and revents (bit_or epollin epollpri) == 0
            then ok w₀
            else read_connection user control tid (w.owner id) readv write accept alive time id w₀)
          ≡ ok w₁
        → SameHandlers
            (filed_at (w.owner id) (w.conns id).filed w₀)
            (filed_at (w.owner id) (w.conns id).filed w₁)
        → (if bit_and revents epollout == 0
            then ok w₁
            else on_its_loop id (handle_write control tid write) w₁)
          ≡ ok w'
        → handle_filed user control tid
            (w.owner id)
            readv
            write
            accept
            alive
            (w.conns id).filed
            time
            w₀
          ≡ ok w'
  unfolding handle_filed run_bound
  ready_at id revents time w w₁ w' bound named lives up well reads same writes =
      let c₀ : Context = with_revents revents (context id w) in
      let b : Bound c₀ = with_revents-Bound revents (context id w) bound in
      let at = filed_at-put id c₀ w (w.conns id).filed refl in
      let came = ap (λ (f : Filed). f.revents) at ∙ revents-with_revents revents (context id w) in
      handle_event-ready (filed_at (w.owner id) (w.conns id).filed) alive
        (run_bound user control tid (w.owner id) readv write accept alive) time id
        (noted revents id w) w₁ w' (connection_read id) (connection_write id)
        (ap (λ (f : Filed). f.tied) at ∙ b.tied)
        (ap (λ (f : Filed). f.tie_target) at ∙ b.target ∙ ap some named) lives
        (ap (λ (f : Filed). f.read_callback) at ∙ b.read ∙ ap (λ i. some (connection_read i)) named)
        (ap (λ (f : Filed). f.write_callback) at
          ∙ b.write
          ∙ ap (λ i. some (connection_write i)) named)
        (rw came up) (rw came well) (rw came reads) same (rw came writes)

-- The handlers of a Filed, where two states put two contexts.
pub SameHandlers-put :
    (id p : ℕ) (c c' : Context) (w : World)
    → c.conn.filed ≡ p
    → c'.conn.filed ≡ p
    → SameHandlers (filed_of c) (filed_of c')
    → SameHandlers
        (filed_at (w.owner id) p (put_context id c w))
        (filed_at (w.owner id) p (put_context id c' (put_context id c w)))
SameHandlers-put id p c c' w place place' same =
    subst (λ f. SameHandlers f (filed_at (w.owner id) p (put_context id c' (put_context id c w))))
      (sym (filed_at-put id c w p place))
      (subst (SameHandlers (filed_of c)) (sym (filed_at-put id c' (put_context id c w) p place'))
        same)
