-- ===== src/Connection/Sending.antt =====
-- `sendinLoop`: what it does with the answers of `write`.
use mathlib.Core.List.{append-nil}
use lucky.Base.{
  ℕ, ◌+◌, ◌≤◌, ◌<◌, ◌≡◌, ◌≢◌, refl, sym, ◌∙◌, ap, List, [], ◌++◌, Bool, true, false, not, ◌&&◌,
  ◌==◌, ltb, lt→ltb, le→ltb, if◌then◌else◌, arith, length, take, take-take, eq_nil_of_length,
  Result, ok, Bool-cases, inl, inr, ◌⊎◌, pos, dec_lt, size_mod, sub_size, sub_size_lem,
}
use lucky.Buffer
use lucky.Buffer.{Buffer, max_size, Sent, sent, refused}
use lucky.Buffer.Content.{content, readable_bytes-content}
use lucky.Buffer.Space.{read_at_lem}
use lucky.Filed
use lucky.Epoller.{Control}
use lucky.Epoller.Consistency.{Documented}
use lucky.Filed.Steady.{Steady-refl}
use lucky.Connection.{
  Context, StateE, disconnected, connecting, connected, disconnecting, eq_state, filed_of,
  queue_write_complete, is_set, Attempt, eagain, wrote_some, after_write, try_write, keep_rest,
  send_in_loop,
}
use lucky.Connection.Stream.{
  Sound, stream, SameConn-Sound, SameConn-stream, queue_write_complete-SameConn, Kept-refl,
  Kept-trans, SameConn-Kept,
}
use lucky.Connection.Rest.{Extends, keep_rest_lem}

-- `write` takes all that it is offered, or nothing for now.
abbrev pub WholeOrNone : Sent → ℕ → Type 0
WholeOrNone r len = (r ≡ sent len) ⊎ (r ≡ sent 0)

-- The attempt of a send that wrote nothing and met no error.
abbrev untried : ℕ → Attempt
untried len = record { nwrote = pos 0; remaining = len; fault = false }

&&-false : (b : Bool) → (b && false) ≡ false
&&-false b = ground arith

pub eq_state_ne : (s : StateE) → s ≢ disconnected → eq_state s disconnected ≡ false
eq_state_ne disconnected h = absurd (h refl)
eq_state_ne connecting h = refl
eq_state_ne connected h = refl
eq_state_ne disconnecting h = refl

-- A connection whose data `sendinLoop` writes at once: nothing waits, and nothing is being sent.
abbrev pub is_ready : Context → Bool
is_ready c = not (Filed.is_writing (filed_of c)) && Buffer.readable_bytes c.conn.output_buffer == 0

pub content-is_ready :
    (c : Context) → Sound c → is_ready c ≡ true → content c.conn.output_buffer ≡ []
content-is_ready c s ready = eq_nil_of_length (content c.conn.output_buffer) (
    sym (readable_bytes-content s.output)
    ∙ none_left (Filed.is_writing (filed_of c)) (Buffer.readable_bytes c.conn.output_buffer) ready)
  where
    none_left : (w : Bool) (n : ℕ) → (not w && n == 0) ≡ true → n ≡ 0
    none_left w n e = ground arith

module _ (control : Control) (doc : Documented control) (tid : ℕ) (from : List ℕ) (len : ℕ) where
  abbrev go_on : Attempt × Context → Result Context
  go_on (a, c) = if not a.fault && ltb 0 a.remaining then keep_rest control tid from a c else ok c

  go_on-untried :
      (c : Context)
      → Sound c
      → len ≤ length from
      → c.conn.output_buffer.writer_index + len ≤ max_size
      → (c' : Context) × (go_on (untried len, c) ≡ ok c') × Extends (take len from) c c'
  go_on-untried c s enough legal = elim (dec_lt 0 len) [
    | yes more ↦
        rw (lt→ltb 0 len more)
          (keep_rest_lem control doc tid from from (untried len) c refl s more enough legal)
    | no nothing ↦
        let empty : len ≡ 0 = omega arith in
        (
          c,
          rw (le→ltb 0 len (omega arith)),
          record {
            sound = s;
            extended = sym (append-nil (stream c)) ∙ ap (λ n. stream c ++ take n from) (sym empty);
            same_state = refl;
            kept = Kept-refl c;
            room = omega arith;
          },
        )
  ]

  -- `write` took everything.
  go_on-whole :
      (errno : ℕ) (c : Context)
      → Sound c
      → content c.conn.output_buffer ≡ []
      → len < size_mod
      → (c' : Context) × (go_on (wrote_some tid errno len (take len from) len c) ≡ ok c')
        × Extends (take len from) c c'
  unfolding wrote_some
  go_on-whole errno c s empty small =
      let left : sub_size len len ≡ 0 = sub_size_lem len len small (omega arith) ∙ (omega arith) in
      let whole : take len (take len from) ≡ take len from = take-take len len from (omega arith) in
      let c₁ : Context = record c { wire = c.wire ++ take len (take len from) } in
      let written : Extends (take len from) c c₁ = record {
        sound = s;
        extended = rw (whole, empty, append-nil c.wire, append-nil (c.wire ++ take len from));
        same_state = refl;
        kept = record { steady = Steady-refl (filed_of c); thread = refl; conn = refl };
        room = omega arith;
      } in
      elim (Bool-cases (is_set c.conn.write_complete_callback)) [
        | inl told ↦
            let same = queue_write_complete-SameConn tid c₁ in
            (
              queue_write_complete tid c₁,
              rw (left, told),
              record {
                sound = SameConn-Sound same s;
                extended = SameConn-stream same ∙ written.extended;
                same_state = ap (λ conn. conn.state) same.conn;
                kept = Kept-trans written.kept (SameConn-Kept same);
                room = omega (arith, ap (λ conn. conn.output_buffer.writer_index) same.conn);
              },
            )
        | inr untold ↦ (c₁, rw (left, untold, &&-false (not (not (errno == eagain)))), written)
      ]

  -- On a sound connection that is not disconnected, while the output stays within what a vector
  -- can hold and `epoll_ctl` answers as documented: if the kernel takes all of the data or none
  -- of it, without an error, `sendinLoop` never faults, leaves the connection sound, and puts
  -- exactly the data at the end of the stream of what was sent and what waits.
  pub send_in_loop_lem :
      (write : List ℕ → Sent) (errno : ℕ) (c : Context)
      → Sound c
      → c.conn.state ≢ disconnected
      → len ≤ length from
      → c.conn.output_buffer.writer_index + len ≤ max_size
      → WholeOrNone (write (take len from)) len
      → (c' : Context) × (send_in_loop control tid write errno from len c ≡ ok c')
        × Extends (take len from) c c'
  unfolding send_in_loop try_write after_write
  send_in_loop_lem write errno c s open_still enough legal answer = elim (Bool-cases (is_ready c)) [
    | inl ready ↦
        rw (eq_state_ne c.conn.state open_still, ready, read_at_lem from 0 len (omega arith))
          (answered answer (content-is_ready c s ready))
    | inr busy ↦ rw (eq_state_ne c.conn.state open_still, busy) (go_on-untried c s enough legal)
  ]
    where
      answered :
          WholeOrNone (write (take len from)) len
          → content c.conn.output_buffer ≡ []
          → (c' : Context) × (go_on
                (after_write tid errno len (take len from) (write (take len from)) c)
              ≡ ok c')
            × Extends (take len from) c c'
      answered (inl all) empty = elim (dec_lt 0 len) [
        | yes more ↦ rw (all, lt→ltb 0 len more) (go_on-whole errno c s empty (omega arith))
        | no nothing ↦ rw (all, le→ltb 0 len (omega arith)) (go_on-untried c s enough legal)
      ]
      answered (inr nothing) empty = rw nothing (go_on-untried c s enough legal)
