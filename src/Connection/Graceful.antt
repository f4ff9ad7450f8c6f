-- ===== src/Connection/Graceful.antt =====
-- `shutdown` and the calls of `handleWrite` after it: a connection closes once its output is sent.
use mathlib.Core.Bool.{false≢true}
use mathlib.Core.List.{append-nil}
use lucky.Base.{
  ℕ, ◌-◌, ◌≤◌, ◌<◌, ◌≡◌, ◌≢◌, refl, sym, ◌∙◌, ap, subst, List, [], ◌∷◌, ◌++◌, Bool, true, not, ◌==◌,
  ==_iff, ==_ne, if◌then◌else◌, arith, length, take, length-append, length-take, eq_nil_of_length,
  Result, ok, ◌>>=◌, Bool-cases, inl, inr, dec_lt,
}
use lucky.Buffer
use lucky.Buffer.{Sent, sent}
use lucky.Buffer.Content.{content, readable_bytes-content}
use lucky.Filed
use lucky.Epoller.{Control}
use lucky.Epoller.Consistency.{Documented}
use lucky.EventLoop
use lucky.Connection.{
  Context, connected, disconnecting, eq_state, filed_of, set_state, shutdown, shutdown_in_loop,
  run_in_loop,
}
use lucky.Connection.Handlers.{handle_write}
use lucky.Connection.Stream.{Sound, stream, is_writing-Sound}
use lucky.Connection.Draining.{Honest, closes, handle_write_lem}

-- A socket that takes at least one of the bytes that it is offered, and no more than those.
abbrev pub Progresses : (List ℕ → Sent) → Type 0
Progresses write =
    (offered : List ℕ)
    → (n : ℕ) × (write offered ≡ sent n) × (n ≤ length offered) × (0 < length offered → 0 < n)

-- The calls of `handleWrite` on a connection's thread, one for each readiness of the socket.
pub drain : Control → ℕ → List (List ℕ → Sent) → Context → Result Context
drain control tid [] c = ok c
drain control tid (write ∷ writes) c = do
  c₁ ← handle_write control tid write c
  drain control tid writes c₁

abbrev pub AllProgress : List (List ℕ → Sent) → Type 0
AllProgress [] = Unit {0}
AllProgress (write ∷ writes) = Progresses write × AllProgress writes

-- A connection that is shutting down: bytes wait, or the write side is shut.
pub record Closing (c : Context) : Type 0 where
  pub sound : Sound c
  pub leaving : c.conn.state ≡ disconnecting
  pub shut : content c.conn.output_buffer ≡ [] → c.write_shut ≡ true

writing-waiting :
    (c : Context)
    → Sound c
    → 0 < length (content c.conn.output_buffer)
    → Filed.is_writing (filed_of c) ≡ true
writing-waiting c s some =
    is_writing-Sound c s
    ∙ ap not (
        ==_ne (Buffer.readable_bytes c.conn.output_buffer) 0
          (omega (arith, readable_bytes-content s.output)))

readable-empty :
    (c : Context)
    → Sound c
    → content c.conn.output_buffer ≡ []
    → (Buffer.readable_bytes c.conn.output_buffer == 0) ≡ true
readable-empty c s empty =
    (==_iff (Buffer.readable_bytes c.conn.output_buffer) 0).1
      (readable_bytes-content s.output ∙ ap length empty)

-- Bytes that go to the wire are no longer in the output.
fewer :
    (c c' : Context) (n : ℕ)
    → stream c' ≡ stream c
    → c'.wire ≡ c.wire ++ take n (content c.conn.output_buffer)
    → length (content c'.conn.output_buffer) ≤ length (content c.conn.output_buffer) - n
fewer c c' n same moved = omega (
  arith,
  length-append c'.wire (content c'.conn.output_buffer),
  length-append c.wire (content c.conn.output_buffer),
  length-append c.wire (take n (content c.conn.output_buffer)),
  length-take n (content c.conn.output_buffer),
  ap length same,
  ap length moved,
)

-- With nothing left in the output, the write side was shut before or is shut now.
shut_after :
    (c c' : Context)
    → Closing c
    → Sound c'
    → content c'.conn.output_buffer ≡ []
    → (if closes c c' then true else c.write_shut) ≡ true
shut_after c c' s sound' empty = elim (dec_lt 0 (length (content c.conn.output_buffer))) [
  | yes waiting ↦ rw (
    writing-waiting c s.sound waiting,
    readable-empty c' sound' empty,
    ap (λ state. eq_state state disconnecting) s.leaving,
  )
  | no nothing ↦ rw (s.shut (eq_nil_of_length _ (omega arith))) (if_same (closes c c'))
]
  where
    if_same : (b : Bool) → (if b then true else true) ≡ true
    if_same b = ground arith

module _ (control : Control) (doc : Documented control) (tid : ℕ) where
  step :
      (write : List ℕ → Sent) (c : Context)
      → Progresses write
      → Closing c
      → (c' : Context) × (handle_write control tid write c ≡ ok c')
        × Closing c'
        × (stream c' ≡ stream c)
        × (length (content c'.conn.output_buffer) ≤ length (content c.conn.output_buffer) - 1)
  step write c p s =
      let old : List ℕ = content c.conn.output_buffer in
      let (n, answer, fits, some) = p old in
      let (c', done, d) =
        handle_write_lem control doc tid write c s.sound
          (subst (λ r. Honest r (length old)) (sym answer) fits) in
      (
        c',
        done,
        record {
          sound = d.sound;
          leaving = d.same_state ∙ s.leaving;
          shut = λ empty. d.shut ∙ shut_after c c' s d.sound empty;
        },
        d.same_stream,
        elim (dec_lt 0 (length old)) [
          | yes waiting ↦
              let moved : c'.wire ≡ c.wire ++ take n old =
                d.written ∙ rw (answer, writing-waiting c s.sound waiting) refl in
              omega (arith, fewer c c' n d.same_stream moved, some waiting)
          | no nothing ↦ omega (arith, fewer c c' _ d.same_stream d.written)
        ],
      )

  pub drain_lem :
      (writes : List (List ℕ → Sent)) (c : Context)
      → AllProgress writes
      → Closing c
      → length (content c.conn.output_buffer) ≤ length writes
      → (c' : Context) × (drain control tid writes c ≡ ok c')
        × (c'.wire ≡ stream c)
        × (content c'.conn.output_buffer ≡ [])
        × (c'.write_shut ≡ true)
  unfolding drain
  drain_lem [] c p s enough =
      let empty : content c.conn.output_buffer ≡ [] = eq_nil_of_length _ (omega arith) in
      (c, refl, rw empty (sym (append-nil c.wire)), empty, s.shut empty)
  drain_lem (write ∷ writes) c (p, ps) s enough =
      let (c₁, done, s₁, same, fewer) = step write c p s in
      let (c', rest, wire, empty, shut) = drain_lem writes c₁ ps s₁ (omega arith) in
      (c', rw done rest, wire ∙ same, empty, shut)

-- `shutdown` on the connection's own thread.
shutdown-Closing :
    (tid : ℕ) (c : Context)
    → Sound c
    → c.conn.state ≡ connected
    → EventLoop.is_loop_thread tid c.eventloop ≡ true
    → (c' : Context) × (shutdown tid c ≡ ok c')
      × Closing c'
      × (stream c' ≡ stream c)
      × (length (content c'.conn.output_buffer) ≡ length (content c.conn.output_buffer))
unfolding shutdown run_in_loop shutdown_in_loop
shutdown-Closing tid c s live here =
    let c₁ : Context = set_state disconnecting c in
    let start = ap (λ state. eq_state state connected) live in
    let sound : (shut : Bool) → Sound (record c₁ { write_shut = shut }) = λ shut. record {
      in_step = s.in_step;
      interest = s.interest;
      asks = s.asks;
      output = s.output;
      wanted = s.wanted;
    } in
    elim (Bool-cases (Filed.is_writing (filed_of c))) [
      | inl writing ↦ (
        c₁,
        rw (start, here, writing),
        record {
          sound = sound c.write_shut;
          leaving = refl;
          shut = λ empty. absurd (not_both c writing s empty);
        },
        refl,
        refl,
      )
      | inr idle ↦ (
        record c₁ { write_shut = true },
        rw (start, here, idle),
        record { sound = sound true; leaving = refl; shut = λ empty. refl },
        refl,
        refl,
      )
    ]
  where
    not_both :
        (c : Context)
        → Filed.is_writing (filed_of c) ≡ true
        → Sound c
        → content c.conn.output_buffer ≢ []
    not_both c writing s empty =
        false≢true (sym (is_writing-Sound c s ∙ ap not (readable-empty c s empty)) ∙ writing)

-- On a sound and connected connection, with `epoll_ctl` as documented: `shutdown` on the
-- connection's thread, followed by at least as many calls of `handleWrite` as bytes wait, each on
-- a socket that takes at least one byte of what it is offered, sends every waiting byte, in
-- order, and then has the write side shut.
pub shutdown-drain :
    (control : Control)
    → Documented control
    → (tid : ℕ) (writes : List (List ℕ → Sent)) (c : Context) → Sound c
    → c.conn.state ≡ connected
    → EventLoop.is_loop_thread tid c.eventloop ≡ true
    → AllProgress writes
    → length (content c.conn.output_buffer) ≤ length writes
    → (c' : Context) × ((shutdown tid c >>= drain control tid writes) ≡ ok c')
      × (c'.wire ≡ stream c)
      × (content c'.conn.output_buffer ≡ [])
      × (c'.write_shut ≡ true)
shutdown-drain control doc tid writes c s live here p enough =
    let (c₁, done, s₁, same, as_long) = shutdown-Closing tid c s live here in
    let (c', drained, wire, empty, shut) = drain_lem control doc tid writes c₁ p s₁ (omega arith) in
    (c', rw done drained, wire ∙ same, empty, shut)
