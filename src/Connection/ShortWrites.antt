-- ===== src/Connection/ShortWrites.antt =====
-- `sendinLoop` when the kernel takes only a part of the data, or refuses it. The `else` of
-- src/Connection.cpp:77 belongs to the inner `if`, and resets what a partial write had achieved.
use mathlib.Core.List.{append_assoc, append-nil}
use lucky.Base.{
  ℕ, ◌+◌, ◌-◌, ◌≤◌, ◌<◌, ◌≡◌, ◌≢◌, refl, ◌∙◌, List, ◌++◌, true, false, not, ◌==◌, ==_iff, ==_ne,
  lt→ltb, arith, length, take, take-take, ok, err, undefined, pos, size_mod, sub_size_lem,
}
use lucky.Buffer.{max_size, Sent, sent, refused}
use lucky.Buffer.Space.{read_at_lem}
use lucky.Epoller.{Control}
use lucky.Epoller.Consistency.{Documented}
use lucky.Connection.{
  Context, disconnected, Attempt, eagain, wrote_some, after_write, try_write, keep_rest,
  send_in_loop,
}
use lucky.Connection.Stream.{Sound, stream}
use lucky.Connection.Rest.{keep_rest_lem}
use lucky.Connection.Sending.{is_ready, content-is_ready, eq_state_ne}

-- A send on a live connection with nothing waiting, of which the kernel takes `n` bytes, not all.
pub record PartialWrite (write : List ℕ → Sent) (from : List ℕ) (len n : ℕ) (c : Context)
    : Type 0 where
  pub alive : c.conn.state ≢ disconnected
  pub ready : is_ready c ≡ true
  pub enough : len ≤ length from
  pub small : len < size_mod
  pub some_taken : 0 < n
  pub some_left : n < len
  pub answer : write (take len from) ≡ sent n

module _ (control : Control) (tid : ℕ) (write : List ℕ → Sent) (errno : ℕ) (from : List ℕ)
    (len n : ℕ) (c : Context) (short : PartialWrite write from len n c) where
  abbrev after : Context
  after = record c { wire = c.wire ++ take n (take len from) }

  attempt :
      try_write tid write errno from len c
      ≡ ok (record { nwrote = pos 0; remaining = len - n; fault = not (errno == eagain) }, after)
  unfolding try_write after_write wrote_some
  attempt = rw (
    short.ready,
    read_at_lem from 0 len (omega arith),
    short.answer,
    lt→ltb 0 n short.some_taken,
    sub_size_lem len n (omega arith) (omega arith),
    ==_ne (len - n) 0 (omega arith),
  )

  -- After a partial write `sendinLoop` drops the rest of the data for good, without an error,
  -- unless `errno` happens to be EWOULDBLOCK from an earlier call: nothing is kept to be sent
  -- later.
  pub partial_write_loses :
      errno ≢ eagain
      → send_in_loop control tid write errno from len c
        ≡ ok (record c { wire = c.wire ++ take n from })
  unfolding send_in_loop
  partial_write_loses no_block = rw (
    eq_state_ne c.conn.state short.alive,
    attempt,
    ==_ne errno eagain no_block,
    take-take n len from (omega arith),
  )

  -- If `errno` is EWOULDBLOCK from an earlier call, it keeps as many bytes as are left, and takes
  -- them from the start of the data: what the peer gets is the sent part, and then the beginning
  -- again in place of the rest.
  pub partial_write_repeats :
      Documented control
      → Sound c
      → errno ≡ eagain
      → c.conn.output_buffer.writer_index + len ≤ max_size
      → (c' : Context) × (send_in_loop control tid write errno from len c ≡ ok c')
        × (stream c' ≡ stream c ++ (take n from ++ take (len - n) from))
  unfolding send_in_loop
  partial_write_repeats doc s block legal =
      let a : Attempt = record { nwrote = pos 0; remaining = len - n; fault = false } in
      let (c', done, x) =
        keep_rest_lem control doc tid from from a after refl s (omega arith) (omega arith)
          (omega arith) in
      (
        c',
        rw
            (
              eq_state_ne c.conn.state short.alive,
              attempt,
              (==_iff errno eagain).1 block,
              lt→ltb 0 (len - n) (omega arith),
            )
            done,
        x.extended
            ∙ rw
                (
                  content-is_ready c s short.ready,
                  append-nil c.wire,
                  append-nil (c.wire ++ take n (take len from)),
                  take-take n len from (omega arith),
                )
                (append_assoc c.wire (take n from) (take (len - n) from)),
      )

-- When the kernel refuses the data, `nwrote` stays -1, and the append starts one byte before it:
-- an access outside the data, also for the ordinary EWOULDBLOCK.
pub refused_write_faults :
    (control : Control) (tid : ℕ) (write : List ℕ → Sent) (errno e : ℕ) (from : List ℕ) (len : ℕ)
    (c : Context)
    → c.conn.state ≢ disconnected
    → is_ready c ≡ true
    → len ≤ length from
    → 0 < len
    → write (take len from) ≡ refused e
    → send_in_loop control tid write errno from len c ≡ err undefined
unfolding send_in_loop try_write after_write keep_rest
refused_write_faults control tid write errno e from len c alive ready enough some answer = rw (
  eq_state_ne c.conn.state alive,
  ready,
  read_at_lem from 0 len (omega arith),
  answer,
  lt→ltb 0 len some,
)
