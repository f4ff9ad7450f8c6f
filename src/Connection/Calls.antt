-- ===== src/Connection/Calls.antt =====
-- The calls of a connection that wait in its loop, src/Connection.cpp, and what they do to the
-- loop's queue and signals.
use mathlib.Core.List.{append-nil, append_assoc}
use lucky.Base.{
  ℕ, ◌≡◌, refl, ◌∙◌, sym, ap, subst, List, [], ◌++◌, Option, none, some, ok, ok-injective, bind_ok,
  arith, length-append, take, inl, inr, Bool-cases, Bool, true, false, Result, if◌then◌else◌, ◌&&◌,
  not, ◌==◌, ltb, add_size, sub_size, leb,
}
use lucky.Buffer
use lucky.Buffer.{Sent, sent, refused}
use lucky.Filed
use lucky.Filed.Masks.{Change, enable_reading, enable_writing, disable_all}
use lucky.Epoller
use lucky.Epoller.{Epoller, Control, set_object}
use lucky.Epoller.Interest.{change_and_update}
use lucky.EventLoop.{EventLoop}
use lucky.EventLoop.Functors.{Adds, queue_in_loop-Adds}
use lucky.Connection.{
  Context, Task, write_complete_task, high_water_mark_task, connected, disconnected, eq_state,
  filed_of, is_set, set_state, set_output, change_filed, shutdown_in_loop, queue,
  queue_write_complete, warn_high_water, wrote_some, after_write, try_write, at_offset, store_rest,
  keep_rest, send_in_loop, Attempt,
}
use lucky.Connection.Handlers.{
  Invocation, on_connection, invoke, connect_established, connect_destroyed,
}

-- Nothing but the Epoller has changed.
pub epoller-Adds : (l : EventLoop Task) (e : Epoller) → Adds l (record l { epoller = e })
epoller-Adds l e = record {
  more = [];
  queue = sym (append-nil l.pend_funcs);
  calling = refl;
  signalled = λ p. omega arith;
}

Adds-trans : {l l₁ l₂ : EventLoop Task} → Adds l l₁ → Adds l₁ l₂ → Adds l l₂
Adds-trans {l} a b = record {
  more = a.more ++ b.more;
  queue = b.queue ∙ ap (λ q. q ++ b.more) a.queue ∙ append_assoc l.pend_funcs a.more b.more;
  calling = b.calling ∙ a.calling;
  signalled =
      λ p. omega (arith, a.signalled p, b.signalled (a.calling ∙ p), length-append a.more b.more);
}

pub same-Adds : (c : Context) → Adds c.eventloop c.eventloop
same-Adds c = epoller-Adds c.eventloop c.eventloop.epoller

-- From one connection's state to another.
abbrev pub AddsTo : Context → Context → Type 0
AddsTo c c' = Adds c.eventloop c'.eventloop

pub ok-Adds :
    (l : EventLoop Task) {c₁ c₂ : Context}
    → Adds l c₁.eventloop
    → ok c₁ ≡ ok c₂
    → Adds l c₂.eventloop
ok-Adds l a done = subst (λ (c : Context). Adds l c.eventloop) (ok-injective done) a

branch :
    (b : Bool) (l : EventLoop Task) {x y : Result Context} {c : Context}
    → (x ≡ ok c → Adds l c.eventloop)
    → (y ≡ ok c → Adds l c.eventloop)
    → (if b then x else y) ≡ ok c
    → Adds l c.eventloop
branch true l this other done = this done
branch false l this other done = other done

change_filed-Adds :
    (control : Control) (ch : Change) (c : Context) {c' : Context}
    → change_filed control ch c ≡ ok c'
    → Adds c.eventloop c'.eventloop
unfolding change_filed
change_filed-Adds control ch c done =
    let (e, _, same) =
      bind_ok (change_and_update control ch c.conn.filed c.eventloop.epoller) _ done in
    subst (λ (x : Context). Adds c.eventloop x.eventloop) (ok-injective same)
      (epoller-Adds c.eventloop e)

queue_write_complete-Adds : (tid : ℕ) (c : Context) → AddsTo c (queue_write_complete tid c)
unfolding queue_write_complete queue
queue_write_complete-Adds tid c = go c.conn.write_complete_callback
  where
    go :
        (cb : Option ℕ)
        → AddsTo c (elim cb [ none ↦ c | some cb ↦ queue tid (write_complete_task cb c.conn.id) c ])
    go none = same-Adds c
    go (some cb) = queue_in_loop-Adds tid (write_complete_task cb c.conn.id) c.eventloop

warn_high_water-Adds :
    (tid old_len remaining : ℕ) (c : Context) → AddsTo c (warn_high_water tid old_len remaining c)
unfolding warn_high_water queue
warn_high_water-Adds tid old_len remaining c =
    go
      (leb c.conn.high_water_mark (add_size old_len remaining)
        && ltb old_len c.conn.high_water_mark)
      c.conn.high_water_mark_callback
  where
    go :
        (b : Bool) (cb : Option ℕ)
        → AddsTo c (
            if b
            then elim cb [
              | none ↦ c
              | some cb ↦
                  queue tid (high_water_mark_task cb c.conn.id (add_size old_len remaining)) c
            ]
            else c)
    go false cb = same-Adds c
    go true none = same-Adds c
    go true (some cb) =
        queue_in_loop-Adds tid (high_water_mark_task cb c.conn.id (add_size old_len remaining))
          c.eventloop

wrote_some-Adds :
    (tid errno len : ℕ) (bytes : List ℕ) (n : ℕ) (c : Context)
    → AddsTo c (wrote_some tid errno len bytes n c).1
unfolding wrote_some
wrote_some-Adds tid errno len bytes n c =
    elim (Bool-cases (sub_size len n == 0 && is_set c.conn.write_complete_callback)) [
      | inl all ↦
          rw all (queue_write_complete-Adds tid (record c { wire = c.wire ++ take n bytes }))
      | inr some_left ↦ rw some_left (same-Adds c)
    ]

after_write-Adds :
    (tid errno len : ℕ) (bytes : List ℕ) (result : Sent) (c : Context)
    → AddsTo c (after_write tid errno len bytes result c).1
unfolding after_write
after_write-Adds tid errno len bytes (refused e) c = same-Adds c
after_write-Adds tid errno len bytes (sent n) c = elim (Bool-cases (ltb 0 n)) [
  | inl some_taken ↦ rw some_taken (wrote_some-Adds tid errno len bytes n c)
  | inr nothing ↦ rw nothing (same-Adds c)
]

store_rest-Adds :
    (control : Control) (source : List ℕ) (remaining : ℕ) (c : Context) {c' : Context}
    → store_rest control source remaining c ≡ ok c'
    → AddsTo c c'
unfolding store_rest
store_rest-Adds control source remaining c done =
    let (output, _, rest) = bind_ok (Buffer.append c.conn.output_buffer source remaining) _ done in
    let c₁ : Context = set_output output c in
    branch (Filed.is_writing (filed_of c₁)) c.eventloop (ok-Adds c.eventloop (same-Adds c))
      (change_filed-Adds control enable_writing c₁) rest

keep_rest-Adds :
    (control : Control) (tid : ℕ) (from : List ℕ) (a : Attempt) (c : Context) {c' : Context}
    → keep_rest control tid from a c ≡ ok c'
    → AddsTo c c'
unfolding keep_rest
keep_rest-Adds control tid from a c done =
    let old_len : ℕ = Buffer.readable_bytes c.conn.output_buffer in
    let (source, _, rest) = bind_ok (at_offset from a.nwrote) _ done in
    Adds-trans (warn_high_water-Adds tid old_len a.remaining c)
      (store_rest-Adds control source a.remaining (warn_high_water tid old_len a.remaining c) rest)

try_write-Adds :
    (tid : ℕ) (write : List ℕ → Sent) (errno : ℕ) (from : List ℕ) (len : ℕ) (c : Context)
    {tried : Attempt × Context}
    → try_write tid write errno from len c ≡ ok tried
    → AddsTo c tried.1
unfolding try_write
try_write-Adds tid write errno from len c {tried} done =
    elim (Bool-cases
      (not (Filed.is_writing (filed_of c)) && Buffer.readable_bytes c.conn.output_buffer == 0)) [
        | inl direct ↦
            let (bytes, _, same) = bind_ok (Buffer.read_at from 0 len) _ (rw direct at done) in
            subst (λ (x : Attempt × Context). AddsTo c x.1) (ok-injective same)
              (after_write-Adds tid errno len bytes (write bytes) c)
        | inr waits ↦
            subst (λ (x : Attempt × Context). AddsTo c x.1) (ok-injective (rw waits at done))
              (same-Adds c)
      ]

pub send_in_loop-Adds :
    (control : Control) (tid : ℕ) (write : List ℕ → Sent) (errno : ℕ) (from : List ℕ) (len : ℕ)
    (c : Context) {c' : Context}
    → send_in_loop control tid write errno from len c ≡ ok c'
    → AddsTo c c'
unfolding send_in_loop
send_in_loop-Adds control tid write errno from len c =
    branch (eq_state c.conn.state disconnected) c.eventloop (ok-Adds c.eventloop (same-Adds c))
      (λ done.
        let ((a, c₁), tried, rest) = bind_ok (try_write tid write errno from len c) _ done in
        Adds-trans (try_write-Adds tid write errno from len c tried) (
          branch (not a.fault && ltb 0 a.remaining) c₁.eventloop
            (keep_rest-Adds control tid from a c₁) (ok-Adds c₁.eventloop (same-Adds c₁)) rest))

pub shutdown_in_loop-Adds : (c : Context) → AddsTo c (shutdown_in_loop c)
unfolding shutdown_in_loop
shutdown_in_loop-Adds c = elim (Bool-cases (not (Filed.is_writing (filed_of c)))) [
  | inl quiet ↦ rw quiet (same-Adds c)
  | inr busy ↦ rw busy (same-Adds c)
]

module _ (user : ℕ → Invocation → Context → Result Context) (control : Control)
    (fair : (cb : ℕ) (how : Invocation) (c c' : Context)
      → user cb how c ≡ ok c'
      → Adds c.eventloop c'.eventloop) where
  invoke-Adds :
      (cb : Option ℕ) (how : Invocation) (c : Context) {c' : Context}
      → invoke user cb how c ≡ ok c'
      → Adds c.eventloop c'.eventloop
  unfolding invoke
  invoke-Adds none how c done = cc
  invoke-Adds (some cb) how c {c'} done = fair cb how c c' done

  pub connect_established-Adds :
      (c : Context) {c' : Context}
      → connect_established user control c ≡ ok c'
      → Adds c.eventloop c'.eventloop
  unfolding connect_established
  connect_established-Adds c done =
      let c₁ : Context = set_state connected c in
      let e : Epoller =
        set_object c₁.conn.filed (Filed.tie c₁.conn.id (filed_of c₁)) c₁.eventloop.epoller in
      let c₂ : Context = record c₁ { eventloop = record (c₁.eventloop) { epoller = e } } in
      let (c₃, watched, rest) = bind_ok (change_filed control enable_reading c₂) _ done in
      Adds-trans (epoller-Adds c.eventloop e) (
        Adds-trans (change_filed-Adds control enable_reading c₂ watched)
          (invoke-Adds c₃.conn.connection_callback on_connection c₃ rest))

  pub connect_destroyed-Adds :
      (c : Context) {c' : Context} → connect_destroyed user control c ≡ ok c' → AddsTo c c'
  unfolding connect_destroyed
  connect_destroyed-Adds c done =
      let (c₁, closed, rest) = bind_ok _ _ done in
      let (e, _, same) =
        bind_ok (Epoller.remove control c₁.conn.filed c₁.eventloop.epoller) _ rest in
      Adds-trans
        (branch (eq_state c.conn.state connected) c.eventloop
          (λ closing.
            let (c₂, quiet, called) =
              bind_ok (change_filed control disable_all (set_state disconnected c)) _ closing in
            Adds-trans (change_filed-Adds control disable_all (set_state disconnected c) quiet)
              (invoke-Adds c₂.conn.connection_callback on_connection c₂ called))
          (ok-Adds c.eventloop (same-Adds c)) closed)
        (ok-Adds c₁.eventloop (epoller-Adds c₁.eventloop e) same)
