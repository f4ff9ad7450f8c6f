-- ===== src/Server/Handing.antt =====
-- A call that a thread hands to the loop of a connection.
use lucky.Base.{ℕ, ◌+◌, ◌≡◌, ◌≢◌, refl, ◌∙◌, ap, [], ◌∷◌, ◌++◌, false, Result, ok}
use lucky.Epoller.{put}
use lucky.Epoller.Consistency.{put_self, put_ne}
use lucky.EventLoop
use lucky.EventLoop.{EventLoop}
use lucky.Connection
use lucky.Connection.{Context, Task, queue}
use lucky.Server.{World, context, put_context, run_in_loop}

pub context-put : (id : ℕ) (c : Context) (w : World) → context id (put_context id c w) ≡ c
context-put id c w = λ i. record {
  conn = put_self w.conns id c.conn i;
  eventloop = put_self w.loops (w.owner id) c.eventloop i;
  wire = put_self w.wires id c.wire i;
  write_shut = put_self w.shut id c.write_shut i;
}

-- A task handed to the loop of the connection `id` from another thread.
pub record Handed (tid : ℕ) (task : Task) (id : ℕ) (w w' : World) : Type 0 where
  pub server : w'.server ≡ w.server
  pub owner : w'.owner ≡ w.owner
  pub thread : (w'.loops (w.owner id)).thread_id ≡ (w.loops (w.owner id)).thread_id
  pub queued : (w'.loops (w.owner id)).pend_funcs ≡ (w.loops (w.owner id)).pend_funcs ++ (task ∷ [])
  pub woken : (w'.loops (w.owner id)).signals ≡ (w.loops (w.owner id)).signals + 1
  pub loops : (j : ℕ) → j ≢ w.owner id → w'.loops j ≡ w.loops j
  pub conn : w'.conns id ≡ w.conns id
  pub whole : context id w' ≡ queue tid task (context id w)

pub run_elsewhere :
    (tid id : ℕ) (task : Task) (body : Context → Result Context) (w : World)
    → EventLoop.is_loop_thread tid (w.loops (w.owner id)) ≡ false
    → (w' : World) × (run_in_loop tid id task body w ≡ ok w') × Handed tid task id w w'
unfolding run_in_loop Connection.run_in_loop Connection.queue EventLoop.queue_in_loop
    EventLoop.push_pending EventLoop.wakeup_if_needed EventLoop.wakeup EventLoop.is_loop_thread
run_elsewhere tid id task body w elsewhere =
    let l : EventLoop Task = w.loops (w.owner id) in
    let queued : EventLoop Task = EventLoop.queue_in_loop tid task l in
    let shape : queued
        ≡ record l { pend_funcs = l.pend_funcs ++ (task ∷ []); signals = l.signals + 1 } =
      rw elsewhere refl in
    let at_loop : put w.loops (w.owner id) queued (w.owner id) ≡ queued =
      put_self w.loops (w.owner id) queued in
    (
      put_context id (record (context id w) { eventloop = queued }) w,
      rw elsewhere refl,
      record {
        server = refl;
        owner = refl;
        thread = ap (λ x. x.thread_id) (at_loop ∙ shape);
        queued = ap (λ x. x.pend_funcs) (at_loop ∙ shape);
        woken = ap (λ x. x.signals) (at_loop ∙ shape);
        loops = λ j apart. put_ne w.loops (w.owner id) j queued apart;
        conn = put_self w.conns id (w.conns id);
        whole = context-put id (queue tid task (context id w)) w;
      },
    )
