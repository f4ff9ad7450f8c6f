-- ===== src/Connection/Stream.antt =====
-- The invariant of a connection, and the stream of bytes that it owes its peer.
use lucky.Base.{
  ℕ, ◌≡◌, refl, sym, ◌∙◌, ap, subst, List, ◌++◌, not, Option, none, some, ◌==◌, arith, ok,
}
use lucky.Buffer
use lucky.Buffer.{Buffer}
use lucky.Buffer.Content.{IsValid, content}
use lucky.Filed
use lucky.Filed.{Filed}
use lucky.Filed.Masks.{Change, Interest, mask, wish, change-mask, mask_tests}
use lucky.Filed.Steady.{Steady, Steady-refl, Steady-trans}
use lucky.Epoller.{Epoller, Control}
use lucky.Epoller.Consistency.{Documented}
use lucky.Epoller.Runs.{InStep, change_and_update_lem}
use lucky.EventLoop
use lucky.EventLoop.{EventLoop}
use lucky.Connection.{
  Connection, Context, Task, write_complete_task, filed_of, queue, change_filed,
  queue_write_complete,
}

-- The kernel is in step with the Fileds, the connection's Filed asks for what `interest` says, the
-- output buffer is valid, and write events are wanted exactly while bytes wait in it.
pub record SoundAt (e : Epoller) (conn : Connection) : Type 0 where
  pub in_step : InStep e
  pub interest : Interest
  pub asks : (e.objects conn.filed).events ≡ mask interest
  pub output : IsValid conn.output_buffer
  pub wanted : interest.writing ≡ not (Buffer.readable_bytes conn.output_buffer == 0)

abbrev pub Sound : Context → Type 0
Sound c = SoundAt c.eventloop.epoller c.conn

-- What the peer has been sent, and will be.
abbrev pub stream : Context → List ℕ
stream c = c.wire ++ content c.conn.output_buffer

pub is_writing-Sound :
    (c : Context)
    → Sound c
    → Filed.is_writing (filed_of c) ≡ not (Buffer.readable_bytes c.conn.output_buffer == 0)
is_writing-Sound c s = (mask_tests s.interest (filed_of c) s.asks).1 ∙ s.wanted

pub epoller-queue :
    (tid : ℕ) (task : Task) (c : Context)
    → (queue tid task c).eventloop.epoller ≡ c.eventloop.epoller
unfolding queue EventLoop.queue_in_loop EventLoop.wakeup_if_needed EventLoop.push_pending
    EventLoop.wakeup
epoller-queue tid task c = ground arith

thread-queue :
    (tid : ℕ) (task : Task) (c : Context)
    → (queue tid task c).eventloop.thread_id ≡ c.eventloop.thread_id
unfolding queue EventLoop.queue_in_loop EventLoop.wakeup_if_needed EventLoop.push_pending
    EventLoop.wakeup
thread-queue tid task c = ground arith

-- Queueing a callback changes neither the connection nor what was sent.
pub record SameConn (c c' : Context) : Type 0 where
  pub thread : c'.eventloop.thread_id ≡ c.eventloop.thread_id
  pub conn : c'.conn ≡ c.conn
  pub epoller : c'.eventloop.epoller ≡ c.eventloop.epoller
  pub wire : c'.wire ≡ c.wire
  pub write_shut : c'.write_shut ≡ c.write_shut

pub SameConn-refl : (c : Context) → SameConn c c
SameConn-refl c = record {
  thread = refl;
  conn = refl;
  epoller = refl;
  wire = refl;
  write_shut = refl;
}

pub queue-SameConn : (tid : ℕ) (task : Task) (c : Context) → SameConn c (queue tid task c)
unfolding queue
queue-SameConn tid task c = record {
  thread = thread-queue tid task c;
  conn = refl;
  epoller = epoller-queue tid task c;
  wire = refl;
  write_shut = refl;
}

pub queue_write_complete-SameConn :
    (tid : ℕ) (c : Context) → SameConn c (queue_write_complete tid c)
unfolding queue_write_complete
queue_write_complete-SameConn tid c = go c.conn.write_complete_callback
  where
    go :
        (cb : Option ℕ)
        → SameConn c
            (elim cb [ none ↦ c | some cb ↦ queue tid (write_complete_task cb c.conn.id) c ])
    go none = SameConn-refl c
    go (some cb) = queue-SameConn tid (write_complete_task cb c.conn.id) c

-- The connection is what it was but for its output, on the same thread, and its Filed still calls
-- what it called.
pub record Kept (c c' : Context) : Type 0 where
  pub steady : Steady (filed_of c) (filed_of c')
  pub thread : c'.eventloop.thread_id ≡ c.eventloop.thread_id
  pub conn : c'.conn ≡ record (c.conn) { output_buffer = c'.conn.output_buffer }

pub Kept-refl : (c : Context) → Kept c c
Kept-refl c = record { steady = Steady-refl (filed_of c); thread = refl; conn = refl }

pub Kept-trans : {c c₁ c' : Context} → Kept c c₁ → Kept c₁ c' → Kept c c'
Kept-trans {c} {c₁} {c'} k k' = record {
  steady = Steady-trans k.steady k'.steady;
  thread = k'.thread ∙ k.thread;
  conn =
      k'.conn
      ∙ ap (λ (conn : Connection). record conn { output_buffer = c'.conn.output_buffer }) k.conn;
}

pub SameConn-filed : {c c' : Context} → SameConn c c' → filed_of c' ≡ filed_of c
SameConn-filed {c} {c'} same =
    ap (λ (e : Epoller). e.objects c'.conn.filed) same.epoller
    ∙ ap (λ (conn : Connection). c.eventloop.epoller.objects conn.filed) same.conn

pub SameConn-Kept : {c c' : Context} → SameConn c c' → Kept c c'
SameConn-Kept {c} {c'} same = record {
  steady =
      subst (λ f. Steady (filed_of c) f) (sym (SameConn-filed same)) (Steady-refl (filed_of c));
  thread = same.thread;
  conn =
      same.conn
      ∙ ap (λ b. record (c.conn) { output_buffer = b })
          (sym (ap (λ conn. conn.output_buffer) same.conn));
}

pub SameConn-Sound : {c c' : Context} → SameConn c c' → Sound c → Sound c'
SameConn-Sound {c} {c'} same s =
    subst (λ e. SoundAt e c'.conn) (sym same.epoller)
      (subst (λ conn. SoundAt c.eventloop.epoller conn) (sym same.conn) s)

pub SameConn-stream : {c c' : Context} → SameConn c c' → stream c' ≡ stream c
SameConn-stream same = rw (same.conn, same.wire)

-- A change of the Filed's interest touches nothing else of the connection.
module _ (control : Control) (doc : Documented control) where
  pub change_filed_lem :
      (ch : Change) (c : Context) (i : Interest)
      → InStep c.eventloop.epoller
      → (filed_of c).events ≡ mask i
      → (e : Epoller) × (change_filed control ch c
          ≡ ok (record c { eventloop = record (c.eventloop) { epoller = e } }))
        × InStep e
        × ((e.objects c.conn.filed).events ≡ mask (wish ch i))
        × Steady (filed_of c) (e.objects c.conn.filed)
  unfolding change_filed
  change_filed_lem ch c i s asks =
      let (e, done, s', events, steady) =
        change_and_update_lem control doc ch c.conn.filed c.eventloop.epoller s in
      (e, rw done, s', events ∙ change-mask ch i (filed_of c) asks, steady)
