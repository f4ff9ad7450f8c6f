-- ===== src/EchoServer/Handling.antt =====
-- The handlers of the echo server's connections, on the state of all loops.
use mathlib.Core.Path.{fun_ext}
use lucky.Base.{
  Bool, ℕ, ◌+◌, ◌≤◌, ◌<◌, ◌≡◌, refl, ◌∙◌, ap, List, [], ◌∷◌, false, arith, length, Result, ok,
  ◌>>=◌,
}
use lucky.Buffer.{Sent, received, max_size}
use lucky.Filed.Dispatch.{SameHandlers}
use lucky.Epoller.{Control}
use lucky.Epoller.Consistency.{Documented}
use lucky.Connection.{Context, filed_of}
use lucky.Connection.Handlers.{Invocation, handle_read, handle_write}
use lucky.Server.{World, context, put_context}
use lucky.Server.Tasks.{on_its_loop, but_close}
use lucky.Server.Events.{is_end, read_connection}
use lucky.EchoServer.{callbacks}
use lucky.EchoServer.Waiting.{Waiting}
use lucky.EchoServer.Echoing.{Echoes, Delivery, Modest, read_lem, write_lem}

not_end : (bytes : List ℕ) → 0 < length bytes → is_end (received bytes) ≡ false
not_end [] some_bytes = ground arith
not_end (x ∷ xs) some_bytes = refl

module _ (control : Control) (tid : ℕ) (accept : World → Result World)
    (alive : ℕ → World → Bool) where
  but_close-callbacks :
      (write : List ℕ → Sent) (errno address : ℕ)
      → but_close (callbacks control tid write errno address) control tid
        ≡ callbacks control tid write errno address
  unfolding callbacks
  but_close-callbacks write errno address = fun_ext λ cb. fun_ext λ how. go cb how
    where
      go :
          (cb : ℕ) (how : Invocation)
          → but_close (callbacks control tid write errno address) control tid cb how
            ≡ callbacks control tid write errno address cb how
      go cb Invocation.on_connection = refl
      go cb (Invocation.on_message time) = refl
      go cb Invocation.on_close = refl
      go cb Invocation.on_write_complete = refl
      go cb (Invocation.on_high_water_mark size) = refl

  module _ (doc : Documented control) (io : ℕ) (later : List ℕ → Sent) where
    -- The read handler on the connection `id`, which is `c`.
    pub read_at :
        (id : ℕ) (bytes : List ℕ) (time : ℕ) (write : List ℕ → Sent) (errno address : ℕ)
        (c : Context) (w : World)
        → context id w ≡ c
        → Waiting tid c
        → Delivery bytes write
        → c.conn.output_buffer.writer_index + length bytes ≤ max_size
        → (c' : Context) × (read_connection
              (callbacks control tid write errno address)
              control
              tid
              io
              (λ blocks. received bytes)
              later
              accept
              alive
              time
              id
              w
            ≡ ok (put_context id c' w))
          × Echoes tid bytes c c'
          × SameHandlers (filed_of c) (filed_of c')
    unfolding read_connection
    read_at id bytes time write errno address c w e waiting p legal =
        let (c', done, x, same) =
          read_lem control doc tid bytes time write errno address c waiting p legal in
        (
          c',
          rw (but_close-callbacks write errno address, not_end bytes p.0)
              (ap
                  (λ c.
                    handle_read (callbacks control tid write errno address) control
                      (λ blocks. received bytes) time c
                    >>= λ c'. ok (put_context id c' w))
                  e
                ∙ ap (λ out. out >>= λ c'. ok (put_context id c' w)) done),
          x,
          same,
        )

    pub write_at :
        (id : ℕ) (c : Context) (w : World)
        → context id w ≡ c
        → Waiting tid c
        → Modest later
        → (c' : Context) × (on_its_loop id (handle_write control tid later) w
            ≡ ok (put_context id c' w))
          × Echoes tid [] c c'
    write_at id c w e waiting honest =
        let (c', done, x) = write_lem control doc tid later c waiting honest in
        (
          c',
          ap (λ c. handle_write control tid later c >>= λ c'. ok (put_context id c' w)) e
              ∙ ap (λ out. out >>= λ c'. ok (put_context id c' w)) done,
          x,
        )
