-- ===== src/EchoServer/Waiting.antt =====
-- A connection of the echo server between two events.
use lucky.Base.{ℕ, ◌≡◌, sym, ◌∙◌, ap, subst, [], true, ◌==◌, some}
use lucky.Buffer.{Buffer, cheap_prepend}
use lucky.Buffer.Content.{IsValid, content}
use lucky.EventLoop
use lucky.Connection.{Context, connected}
use lucky.Connection.Stream.{Sound, Kept}
use lucky.EchoServer.{message_callback}
use lucky.Connection.Binding.{
  Bound, Kept-Bound, with_revents, with_revents-Sound, with_revents-Bound,
}

-- A connection between two events: sound, connected, on the thread `tid`, with nothing unread.
pub record Waiting (tid : ℕ) (c : Context) : Type 0 where
  pub sound : Sound c
  pub live : c.conn.state ≡ connected
  pub here : EventLoop.is_loop_thread tid c.eventloop ≡ true
  pub bound : Bound c
  pub listens : c.conn.message_callback ≡ some message_callback
  pub input : IsValid c.conn.input_buffer
  pub read : content c.conn.input_buffer ≡ []
  pub front : c.conn.input_buffer.writer_index ≡ cheap_prepend

-- A change of the output alone leaves the connection waiting.
pub Waiting-Kept :
    {tid : ℕ} {c c' : Context} → Kept c c' → Sound c' → Waiting tid c → Waiting tid c'
unfolding EventLoop.is_loop_thread
Waiting-Kept {tid} {c} {c'} kept sound w =
    let input : c'.conn.input_buffer ≡ c.conn.input_buffer =
      ap (λ conn. conn.input_buffer) kept.conn in
    record {
      sound = sound;
      live = ap (λ conn. conn.state) kept.conn ∙ w.live;
      here = ap (λ n. n == tid) kept.thread ∙ w.here;
      bound = Kept-Bound kept w.bound;
      listens = ap (λ conn. conn.message_callback) kept.conn ∙ w.listens;
      input = subst IsValid (sym input) w.input;
      read = ap content input ∙ w.read;
      front = ap (λ b. b.writer_index) input ∙ w.front;
    }

-- The connection with another input buffer.
abbrev pub with_input : Buffer → Context → Context
with_input b c = record c { conn = record (c.conn) { input_buffer = b } }

pub Waiting-emptied :
    {tid : ℕ} {c : Context} (b : Buffer)
    → IsValid b
    → content b ≡ []
    → b.writer_index ≡ cheap_prepend
    → Waiting tid c
    → Waiting tid (with_input b c)
Waiting-emptied b v empty front w = record {
  sound = record {
    in_step = w.sound.in_step;
    interest = w.sound.interest;
    asks = w.sound.asks;
    output = w.sound.output;
    wanted = w.sound.wanted;
  };
  live = w.live;
  here = w.here;
  bound = record {
    read = w.bound.read;
    write = w.bound.write;
    tied = w.bound.tied;
    target = w.bound.target;
  };
  listens = w.listens;
  input = v;
  read = empty;
  front = front;
}

-- The report of an event leaves it waiting.
pub Waiting-with_revents :
    {tid : ℕ} (revents : ℕ) (c : Context) → Waiting tid c → Waiting tid (with_revents revents c)
unfolding EventLoop.is_loop_thread
Waiting-with_revents revents c w = record {
  sound = with_revents-Sound revents c w.sound;
  live = w.live;
  here = w.here;
  bound = with_revents-Bound revents c w.bound;
  listens = w.listens;
  input = w.input;
  read = w.read;
  front = w.front;
}
