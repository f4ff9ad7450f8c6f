-- ===== src/Server/Removing.antt =====
-- `removeConnection` and `removeConnectionInLoop`.
use lucky.Base.{
  ℕ, ◌+◌, ◌≡◌, ◌≢◌, refl, sym, ◌∙◌, ap, subst, [], ◌∷◌, ◌++◌, true, false, not, ◌||◌, Option, none,
  some, if◌then◌else◌, Result, inl, inr, ◌⊎◌, Bool-cases,
}
use lucky.Epoller.{Control}
use lucky.Epoller.Consistency.{put_self, put_ne}
use lucky.EventLoop
use lucky.EventLoop.{EventLoop}
use lucky.Connection.{Context, Task, destroyed_task, remove_task}
use lucky.Connection.Handlers.{Invocation}
use lucky.Server
use lucky.Server.{Text, lookup, erase, Server, World, remove_connection, remove_connection_in_loop}
use lucky.Server.Names.{Named, lookup-erase_self, lookup-erase_other, text_cases}

-- One more callback behind those that wait in the loop, with a signal if that is needed.
pub record Queued (tid : ℕ) (task : Task) (l l' : EventLoop Task) : Type 0 where
  pub pend_funcs : l'.pend_funcs ≡ l.pend_funcs ++ (task ∷ [])
  pub signals : l'.signals ≡ (
      if not (EventLoop.is_loop_thread tid l) || l.is_call_pend_func
      then l.signals + 1
      else l.signals)

pub queue_in_loop-Queued :
    (tid : ℕ) (task : Task) (l : EventLoop Task)
    → Queued tid task l (EventLoop.queue_in_loop tid task l)
unfolding EventLoop.queue_in_loop EventLoop.push_pending EventLoop.wakeup_if_needed EventLoop.wakeup
    EventLoop.is_loop_thread
queue_in_loop-Queued tid task l =
    elim (Bool-cases (not (EventLoop.is_loop_thread tid l) || l.is_call_pend_func)) [
      | inl needed ↦ record { pend_funcs = rw needed refl; signals = rw needed refl }
      | inr quiet ↦ record { pend_funcs = rw quiet refl; signals = rw quiet refl }
    ]

-- A loop in which nothing but the queue and the count of the signals has changed.
abbrev pub OnlyQueue : EventLoop Task → EventLoop Task → Type 0
OnlyQueue l l' = l' ≡ record l { pend_funcs = l'.pend_funcs; signals = l'.signals }

queue_in_loop-OnlyQueue :
    (tid : ℕ) (task : Task) (l : EventLoop Task) → OnlyQueue l (EventLoop.queue_in_loop tid task l)
unfolding EventLoop.queue_in_loop EventLoop.push_pending EventLoop.wakeup_if_needed EventLoop.wakeup
    EventLoop.is_loop_thread
queue_in_loop-OnlyQueue tid task l =
    elim (Bool-cases (not (EventLoop.is_loop_thread tid l) || l.is_call_pend_func)) [
      | inl needed ↦ rw needed refl
      | inr quiet ↦ rw quiet refl
    ]

-- What the removal of the connection `id` leaves behind.
pub record Removed (tid id : ℕ) (w w' : World) : Type 0 where
  pub named : Named w'.server
  pub gone : lookup (w.conns id).name w'.server.connections ≡ none
  pub others :
      (l : Text)
      → (w.conns id).name ≢ l
      → lookup l w'.server.connections ≡ lookup l w.server.connections
  pub queued : Queued tid (destroyed_task id) (w.loops (w.owner id)) (w'.loops (w.owner id))
  pub rest : OnlyQueue (w.loops (w.owner id)) (w'.loops (w.owner id))
  pub loops : (j : ℕ) → j ≢ w.owner id → w'.loops j ≡ w.loops j
  pub kept : w' ≡ record w {
    server = record (w.server) { connections = w'.server.connections };
    loops = w'.loops;
  }

-- What a thread of another loop leaves behind that asks for the removal.
pub record Asked (tid id : ℕ) (w w' : World) : Type 0 where
  pub queued :
      Queued tid (remove_task id) (w.loops w.server.base_loop) (w'.loops w.server.base_loop)
  pub rest : OnlyQueue (w.loops w.server.base_loop) (w'.loops w.server.base_loop)
  pub loops : (j : ℕ) → j ≢ w.server.base_loop → w'.loops j ≡ w.loops j
  pub kept : w' ≡ record w { loops = w'.loops }

module _ (user : ℕ → Invocation → Context → Result Context) (control : Control) (tid id : ℕ)
    (w : World) where
  pub in_loop-Removed :
      Named w.server → Removed tid id w (remove_connection_in_loop user control tid id w)
  unfolding remove_connection_in_loop Server.conn_name
  in_loop-Removed n =
      let label : Text = (w.conns id).name in
      let l : EventLoop Task = w.loops (w.owner id) in
      let queued : EventLoop Task = EventLoop.queue_in_loop tid (destroyed_task id) l in
      record {
        named = record {
          short = n.short;
          bounded = n.bounded;
          numbered = λ key found at. elim (text_cases label key) [
            | inl same ↦ absurd (gone_key key found same at)
            | inr apart ↦
                n.numbered key found
                  (sym (lookup-erase_other label key w.server.connections apart) ∙ at)
          ];
        };
        gone = lookup-erase_self label w.server.connections;
        others = λ key apart. lookup-erase_other label key w.server.connections apart;
        queued =
            subst (λ l'. Queued tid (destroyed_task id) l l')
              (sym (put_self w.loops (w.owner id) queued))
              (queue_in_loop-Queued tid (destroyed_task id) l);
        rest =
            subst (OnlyQueue l) (sym (put_self w.loops (w.owner id) queued))
              (queue_in_loop-OnlyQueue tid (destroyed_task id) l);
        loops = λ j apart. put_ne w.loops (w.owner id) j queued apart;
        kept = refl;
      }
    where
      gone_key :
          (key : Text) (found : ℕ)
          → (w.conns id).name ≡ key
          → lookup key (erase (w.conns id).name w.server.connections) ≢ some found
      gone_key key found same at = none_ne (
          sym (lookup-erase_self (w.conns id).name w.server.connections)
          ∙ ap (λ k. lookup k (erase (w.conns id).name w.server.connections)) same
          ∙ at)
        where
          none_ne : {found : ℕ} → ◌≢◌ {A = Option ℕ} none (some found)
          none_ne e = cc

  -- On the thread of the base loop `removeConnection` takes the connection's name out of the map,
  -- leaves the others in it, and queues `connectDestroyed` on the connection's loop, behind what
  -- waits there, with a signal unless that loop sees it anyway, and changes nothing else; on
  -- another thread it queues the removal on the base loop, with the signal that this needs, and
  -- changes nothing else. So no thread touches the map but the base loop's.
  pub remove_connection_lem :
      Named w.server
      → let here = EventLoop.is_loop_thread tid (w.loops w.server.base_loop) in
        let w' = remove_connection user control tid id w in
        ((here ≡ true) × Removed tid id w w') ⊎ ((here ≡ false) × Asked tid id w w')
  unfolding remove_connection
  remove_connection_lem n =
      let base : ℕ = w.server.base_loop in
      elim (Bool-cases (EventLoop.is_loop_thread tid (w.loops base))) [
        | inl here ↦ inl (here, rw here (in_loop-Removed n))
        | inr elsewhere ↦
            let queued : EventLoop Task =
              EventLoop.queue_in_loop tid (remove_task id) (w.loops base) in
            inr (
              elsewhere,
              rw elsewhere (record {
                queued =
                    subst (λ l'. Queued tid (remove_task id) (w.loops base) l')
                      (sym (put_self w.loops base queued))
                      (queue_in_loop-Queued tid (remove_task id) (w.loops base));
                rest =
                    subst (OnlyQueue (w.loops base)) (sym (put_self w.loops base queued))
                      (queue_in_loop-OnlyQueue tid (remove_task id) (w.loops base));
                loops = λ j apart. put_ne w.loops base j queued apart;
                kept = refl;
              }),
            )
      ]
