-- ===== src/Connection/Draining.antt =====
-- `handleWrite`: waiting bytes go to the socket, in order, and the write side closes behind them.
use mathlib.Core.List.{append_assoc, append-nil}
use lucky.Base.{
  ℕ, ◌-◌, ◌≤◌, ◌≡◌, refl, sym, ◌∙◌, ap, List, ◌++◌, Bool, true, false, not, ◌&&◌, ◌==◌, ltb, lt→ltb,
  le→ltb, if◌then◌else◌, arith, length, take, take-append-drop, Result, ok, Bool-cases, inl, inr,
  pos, negsuc, dec_lt,
}
use lucky.Buffer
use lucky.Buffer.{Buffer, Sent, sent, refused}
use lucky.Buffer.Content.{IsValid, content, readable_bytes_lem}
use lucky.Buffer.Space.{read_at_lem}
use lucky.Buffer.Retrieve.{retrieve_lem, writer_index-retrieve}
use lucky.Buffer.Transfer.{write_fd_lem, write_outcome}
use lucky.Filed
use lucky.Filed.Steady.{Steady-refl}
use lucky.Filed.Masks.{disable_writing, mask, wish, mask_tests, Interest}
use lucky.Epoller.{Control}
use lucky.Epoller.Consistency.{Documented}
use lucky.Epoller.Runs.{InStep}
use lucky.Connection.{
  Context, disconnecting, eq_state, filed_of, set_output, queue_write_complete, shutdown_in_loop,
}
use lucky.Connection.Handlers.{handle_write, took, output_sent}
use lucky.Connection.Stream.{
  Sound, stream, is_writing-Sound, SameConn-Sound, queue_write_complete-SameConn, change_filed_lem,
  Kept, Kept-refl, Kept-trans, SameConn-Kept,
}

-- `write` takes no more than it is offered.
abbrev pub Honest : Sent → ℕ → Type 0
Honest (sent n) offered = n ≤ offered
Honest (refused e) offered = Unit {0}

-- The write side closes when the last byte leaves a connection that is disconnecting.
abbrev pub closes : Context → Context → Bool
closes c c' =
    Filed.is_writing (filed_of c)
    && (Buffer.readable_bytes c'.conn.output_buffer == 0 && eq_state c.conn.state disconnecting)

-- How many bytes the socket takes, if it is asked at all.
abbrev pub accepted : Bool → Sent → ℕ
accepted writing (sent n) = if writing then n else 0
accepted writing (refused e) = 0

-- What `handleWrite` leaves behind, for the answer `r` of the socket.
pub record Drains (r : Sent) (c c' : Context) : Type 0 where
  pub sound : Sound c'
  pub same_stream : stream c' ≡ stream c
  pub same_state : c'.conn.state ≡ c.conn.state
  pub kept : Kept c c'
  pub room : c'.conn.output_buffer.writer_index ≤ c.conn.output_buffer.writer_index
  pub written :
      c'.wire
      ≡ c.wire ++ take (accepted (Filed.is_writing (filed_of c)) r) (content c.conn.output_buffer)
  pub shut : c'.write_shut ≡ (if closes c c' then true else c.write_shut)

module _ (control : Control) (doc : Documented control) (tid : ℕ) where
  -- With nothing left to write: write events off, and the write side shut if that is pending.
  output_sent_lem :
      (c : Context) (i : Interest)
      → InStep c.eventloop.epoller
      → (filed_of c).events ≡ mask i
      → IsValid c.conn.output_buffer
      → (Buffer.readable_bytes c.conn.output_buffer == 0) ≡ true
      → (c' : Context) × (output_sent control tid c ≡ ok c')
        × Sound c'
        × Kept c c'
        × (c'.conn ≡ c.conn)
        × (c'.wire ≡ c.wire)
        × (c'.write_shut ≡ (if eq_state c.conn.state disconnecting then true else c.write_shut))
  unfolding output_sent shutdown_in_loop
  output_sent_lem c i s asks v empty =
      let (e, done, s', asks', steady) = change_filed_lem control doc disable_writing c i s asks in
      let c₁ : Context = record c { eventloop = record (c.eventloop) { epoller = e } } in
      let c₂ : Context = queue_write_complete tid c₁ in
      let sound : Sound c₁ = record {
        in_step = s';
        interest = wish disable_writing i;
        asks = asks';
        output = v;
        wanted = ap not (sym empty);
      } in
      let same = queue_write_complete-SameConn tid c₁ in
      let kept : Kept c c₁ = record { steady = steady; thread = refl; conn = refl } in
      let kept₂ : Kept c c₂ = Kept-trans {c₁ = c₁} kept (SameConn-Kept same) in
      let sound₂ : Sound c₂ = SameConn-Sound same sound in
      let off : Filed.is_writing (filed_of c₂) ≡ false =
        is_writing-Sound c₂ sound₂
        ∙ ap (λ conn. not (Buffer.readable_bytes conn.output_buffer == 0)) same.conn
        ∙ ap not empty in
      let state_kept : eq_state c₂.conn.state disconnecting ≡ eq_state c.conn.state disconnecting =
        ap (λ conn. eq_state conn.state disconnecting) same.conn in
      elim (Bool-cases (eq_state c.conn.state disconnecting)) [
        | inl leaving ↦ (
          record c₂ { write_shut = true },
          rw (done, state_kept ∙ leaving, off),
          sound₂,
          record { steady = kept₂.steady; thread = kept₂.thread; conn = kept₂.conn },
          same.conn,
          same.wire,
          rw leaving refl,
        )
        | inr staying ↦ (
          c₂,
          rw (done, state_kept ∙ staying),
          sound₂,
          kept₂,
          same.conn,
          same.wire,
          rw staying same.write_shut,
        )
      ]

  -- What `took` does with a partial or a complete write.
  took_lem :
      (c : Context) (n : ℕ)
      → Sound c
      → Filed.is_writing (filed_of c) ≡ true
      → n ≤ length (content c.conn.output_buffer)
      → (c' : Context) × (took control tid (content c.conn.output_buffer) n c ≡ ok c')
        × Drains (sent n) c c'
  unfolding took
  took_lem c n s writing fits =
      let b : Buffer = c.conn.output_buffer in
      let b' : Buffer = Buffer.retrieve b n in
      let (v', left) = retrieve_lem n s.output in
      let c₁ : Context = set_output b' (record c { wire = c.wire ++ take n (content b) }) in
      let reach : b'.writer_index ≤ b.writer_index = writer_index-retrieve n s.output in
      let moved : stream c₁ ≡ stream c =
        append_assoc c.wire (take n (content b)) (content b')
        ∙ ap (λ l. c.wire ++ (take n (content b) ++ l)) left
        ∙ ap (λ l. c.wire ++ l) (take-append-drop n (content b)) in
      elim (Bool-cases (Buffer.readable_bytes b' == 0)) [
        | inl empty ↦
            let (c₂, done, sound, kept, conn, wire, shut) =
              output_sent_lem c₁ s.interest s.in_step s.asks v' empty in
            let closing : closes c c₂ ≡ eq_state c.conn.state disconnecting =
              rw (writing, conn, empty) in
            (
              c₂,
              rw empty done,
              record {
                sound = sound;
                same_stream = rw (conn, wire) moved;
                same_state = ap (λ conn. conn.state) conn;
                kept =
                    Kept-trans {c₁ = c₁}
                      (record { steady = Steady-refl (filed_of c); thread = refl; conn = refl })
                      kept;
                room = omega (arith, ap (λ conn. conn.output_buffer.writer_index) conn);
                written = rw writing wire;
                shut = shut ∙ ap (λ b. if b then true else c.write_shut) (sym closing);
              },
            )
        | inr some_left ↦ (
          c₁,
          rw some_left,
          record {
            sound = record {
              in_step = s.in_step;
              interest = s.interest;
              asks = s.asks;
              output = v';
              wanted =
                  sym (mask_tests s.interest (filed_of c) s.asks).1
                  ∙ writing
                  ∙ ap not (sym some_left);
            };
            same_stream = moved;
            same_state = refl;
            kept = record { steady = Steady-refl (filed_of c); thread = refl; conn = refl };
            room = reach;
            written = rw writing refl;
            shut = rw (writing, some_left) refl;
          },
        )
      ]

  Drains-refl :
      (c : Context) (r : Sent)
      → Sound c
      → closes c c ≡ false
      → accepted (Filed.is_writing (filed_of c)) r ≡ 0
      → Drains r c c
  Drains-refl c r s open_still none_taken = record {
    sound = s;
    same_stream = refl;
    same_state = refl;
    kept = Kept-refl c;
    room = omega arith;
    written = rw none_taken (sym (append-nil c.wire));
    shut = rw open_still;
  }

  -- With bytes in the output the write side stays as it is.
  open_while_waiting : (c : Context) → Sound c → closes c c ≡ false
  open_while_waiting c s = rw (is_writing-Sound c s) (ground arith)

  answered :
      (c : Context) (r : Sent)
      → Sound c
      → Filed.is_writing (filed_of c) ≡ true
      → Honest r (length (content c.conn.output_buffer))
      → (c' : Context) × (◌≡◌ {A = Result Context}
          (elim ((write_outcome r).0) [
            | negsuc e ↦ ok c
            | pos k ↦ if ltb 0 k then took control tid (content c.conn.output_buffer) k c else ok c
          ])
          (ok c'))
        × Drains r c c'
  answered c (sent n) s writing fits = elim (dec_lt 0 n) [
    | yes some_sent ↦ rw (lt→ltb 0 n some_sent) (took_lem c n s writing fits)
    | no none_sent ↦ (
      c,
      rw (le→ltb 0 n (omega arith)),
      Drains-refl c (sent n) s (open_while_waiting c s) (rw writing (omega arith)),
    )
  ]
  answered c (refused e) s writing fits =
      (c, refl, Drains-refl c (refused e) s (open_while_waiting c s) refl)

  unasked : (r : Sent) → accepted false r ≡ 0
  unasked (sent n) = refl
  unasked (refused e) = refl

  -- For a connection that is sound (the kernel is in step with the Fileds, and write events are
  -- wanted exactly while bytes wait in a valid output), with a kernel that answers `epoll_ctl` as
  -- documented and a socket that takes no more than it is offered: `handleWrite` never faults,
  -- leaves the connection sound, and neither loses, repeats nor reorders a byte: what the peer
  -- has been sent and what still waits are together the same stream, and exactly the bytes that
  -- the socket took have moved. The write side closes exactly when the last byte leaves a
  -- connection that is disconnecting.
  pub handle_write_lem :
      (write : List ℕ → Sent) (c : Context)
      → Sound c
      → Honest (write (content c.conn.output_buffer)) (length (content c.conn.output_buffer))
      → (c' : Context) × (handle_write control tid write c ≡ ok c')
        × Drains (write (content c.conn.output_buffer)) c c'
  unfolding handle_write Buffer.peek
  handle_write_lem write c s honest = elim (Bool-cases (Filed.is_writing (filed_of c))) [
    | inl writing ↦
        let b : Buffer = c.conn.output_buffer in
        rw
          (
            writing,
            write_fd_lem write s.output,
            readable_bytes_lem s.output,
            read_at_lem b.buffer b.reader_index (b.writer_index - b.reader_index)
                (omega (arith, s.output.ordered, s.output.inside)),
          )
          (answered c (write (content b)) s writing honest)
    | inr idle ↦ (
      c,
      rw idle,
      Drains-refl c (write (content c.conn.output_buffer)) s (open_while_waiting c s)
          (rw idle (unasked (write (content c.conn.output_buffer)))),
    )
  ]
