-- ===== src/EchoServer/Echoing.antt =====
-- What the echo server owes: the peer gets back what it sent.
use mathlib.Core.List.{append-nil}
use lucky.Base.{
  ℕ, ◌+◌, ◌≤◌, ◌<◌, ◌≡◌, ◌≢◌, Bool, if◌then◌else◌, sym, ◌∙◌, ap, subst, List, [], ◌∷◌, ◌++◌, false,
  ==_ne, arith, length, take, take_all, ok,
}
use lucky.Buffer.{Buffer, max_size, extra_size, Sent, received}
use lucky.Buffer.Content.{IsValid, content}
use lucky.Buffer.Retrieve.{retrieve_all_as_string_lem}
use lucky.Buffer.Transfer.{total-read_blocks-ge}
use lucky.Filed.Dispatch.{SameHandlers}
use lucky.Epoller.{Control}
use lucky.Epoller.Consistency.{Documented}
use lucky.Connection.{Context, StateE, connected, disconnected, eq_state, send, filed_of}
use lucky.Connection.Handlers.{Invocation, invoke, handle_read, handle_write}
use lucky.Connection.Stream.{stream}
use lucky.Connection.Sending.{WholeOrNone, send_in_loop_lem}
use lucky.Connection.Draining.{Honest, handle_write_lem}
use lucky.Connection.Lifecycle.{handle_read_lem}
use lucky.EchoServer.{on_message, Event, arrives, writable, both, callbacks}
use lucky.EchoServer.Waiting.{Waiting, Waiting-Kept, Waiting-emptied, with_input}

-- The kernel delivers some bytes, at most as many as the block on the stack holds, takes all or
-- nothing of what is sent at once, and no more than it is offered of what waits.
abbrev pub Delivery : List ℕ → (List ℕ → Sent) → Type 0
Delivery bytes write =
    (0 < length bytes)
    × (length bytes ≤ extra_size)
    × ((offered : List ℕ) → WholeOrNone (write offered) (length offered))

abbrev pub Modest : (List ℕ → Sent) → Type 0
Modest write = (offered : List ℕ) → Honest (write offered) (length offered)

abbrev pub Plausible : Event → Type 0
Plausible (arrives bytes time write errno address) = Delivery bytes write
Plausible (both bytes time write errno address later) = Delivery bytes write × Modest later
Plausible (writable write) = Modest write

abbrev pub AllPlausible : List Event → Type 0
AllPlausible [] = Unit {0}
AllPlausible (event ∷ events) = Plausible event × AllPlausible events

-- What the peer has sent.
abbrev pub arrived : Event → List ℕ
arrived (arrives bytes time write errno address) = bytes
arrived (both bytes time write errno address later) = bytes
arrived (writable write) = []

abbrev pub all_arrived : List Event → List ℕ
all_arrived [] = []
all_arrived (event ∷ events) = arrived event ++ all_arrived events

-- What one event leaves behind.
pub record Echoes (tid : ℕ) (bytes : List ℕ) (c c' : Context) : Type 0 where
  pub waiting : Waiting tid c'
  pub owed : stream c' ≡ stream c ++ bytes
  pub place : c'.conn.filed ≡ c.conn.filed
  pub same_id : c'.conn.id ≡ c.conn.id
  pub room : c'.conn.output_buffer.writer_index ≤ c.conn.output_buffer.writer_index + length bytes

connected_ne : {s : StateE} → s ≡ connected → s ≢ disconnected
connected_ne e same = connected≢disconnected (sym e ∙ same)
  where
    connected≢disconnected : connected ≢ disconnected
    connected≢disconnected e = cc

module _ (control : Control) (doc : Documented control) (tid : ℕ) where
  -- `onMessage` sends back all that was read.
  on_message_lem :
      (write : List ℕ → Sent) (errno address : ℕ) (c : Context) (b : Buffer) (bytes : List ℕ)
      → Waiting tid c
      → IsValid b
      → content b ≡ bytes
      → c.conn.output_buffer.writer_index + length bytes ≤ max_size
      → ((offered : List ℕ) → WholeOrNone (write offered) (length offered))
      → (c' : Context) × (on_message control tid write errno address (with_input b c) ≡ ok c')
        × Echoes tid bytes c c'
        × SameHandlers (filed_of c) (filed_of c')
  unfolding on_message send
  on_message_lem write errno address c b bytes w v holds legal answer =
      let (b', taken, v', empty, front) = retrieve_all_as_string_lem v in
      let c₁ : Context = with_input b' c in
      let waiting : Waiting tid c₁ = Waiting-emptied b' v' empty front w in
      let whole : take (length bytes) bytes ≡ bytes = take_all (length bytes) bytes (omega arith) in
      let (c', done, x) =
        send_in_loop_lem control doc tid bytes (length bytes) write errno c₁ waiting.sound
          (connected_ne w.live) (omega arith) legal
          (subst (λ l. WholeOrNone (write l) (length bytes)) (sym whole) (answer bytes)) in
      (
        c',
        rw (taken, holds, ap (λ s. eq_state s connected) w.live, w.here) done,
        record {
          waiting = Waiting-Kept x.kept x.sound waiting;
          owed = x.extended ∙ ap (λ l. stream c ++ l) whole;
          place = ap (λ conn. conn.filed) x.kept.conn;
          same_id = ap (λ conn. conn.id) x.kept.conn;
          room = omega (arith, x.room, ap length whole);
        },
        x.kept.steady.handlers,
      )

  -- The read handler, on the connection as it was reported.
  pub read_lem :
      (bytes : List ℕ) (time : ℕ) (write : List ℕ → Sent) (errno address : ℕ) (c : Context)
      → Waiting tid c
      → Delivery bytes write
      → c.conn.output_buffer.writer_index + length bytes ≤ max_size
      → (c' : Context) × (handle_read
            (callbacks control tid write errno address)
            control
            (λ blocks. received bytes)
            time
            c
          ≡ ok c')
        × Echoes tid bytes c c'
        × SameHandlers (filed_of c) (filed_of c')
  unfolding callbacks invoke
  read_lem bytes time write errno address c w (some_bytes, few, answer) legal =
      let (b, v, holds, out) =
        handle_read_lem (callbacks control tid write errno address) control
          (λ blocks. received bytes) time c w.input
          (omega (arith, total-read_blocks-ge c.conn.input_buffer), omega (arith, w.front)) in
      let (c', done, x, same) =
        on_message_lem write errno address c b bytes w v (holds ∙ ap (λ l. l ++ bytes) w.read) legal
          answer in
      (
        c',
        otherwise _ (==_ne (length bytes) 0 (omega arith)) out
            ∙ ap
                (λ cb.
                  invoke (callbacks control tid write errno address) cb (Invocation.on_message time)
                    (with_input b c))
                w.listens
            ∙ done,
        x,
        same,
      )
    where
      otherwise : (A : Type 0) {B : Type 0} {t : Bool} → t ≡ false → (if t then A else B) → B
      otherwise A {B} e = subst (λ t. if t then A else B) e

  pub write_lem :
      (write : List ℕ → Sent) (c : Context)
      → Waiting tid c
      → Modest write
      → (c' : Context) × (handle_write control tid write c ≡ ok c') × Echoes tid [] c c'
  write_lem write c w honest =
      let (c', done, d) =
        handle_write_lem control doc tid write c w.sound (honest (content c.conn.output_buffer)) in
      (
        c',
        done,
        record {
          waiting = Waiting-Kept d.kept d.sound w;
          owed = d.same_stream ∙ sym (append-nil (stream c));
          place = ap (λ conn. conn.filed) d.kept.conn;
          same_id = ap (λ conn. conn.id) d.kept.conn;
          room = omega (arith, d.room);
        },
      )
