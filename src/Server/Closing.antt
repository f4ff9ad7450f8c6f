-- ===== src/Server/Closing.antt =====
-- The destructor of the server.
use mathlib.Core.List.{append_assoc, append-nil}
use lucky.Base.{
  ℕ, ◌≡◌, refl, sym, ◌∙◌, ap, subst, List, [], ◌∷◌, ◌++◌, false, ◌==◌, ==_ne, ==_iff, ℕ_discrete,
  if◌then◌else◌, Result, ok,
}
use lucky.Epoller.{Control}
use lucky.EventLoop
use lucky.Connection.{Context, Task, destroyed_task}
use lucky.Connection.Handlers.{Invocation, connect_destroyed}
use lucky.Server
use lucky.Server.{Text, World, destroy_all, run_in_loop}
use lucky.Server.Handing.{Handed, run_elsewhere}

-- The take-downs of the connections of a list that are on the loop `p`, in order.
unfoldable pub take_downs : (ℕ → ℕ) → ℕ → List (Text × ℕ) → List Task
take_downs owner p [] = []
take_downs owner p ((label, id) ∷ rest) =
    let others = take_downs owner p rest in
    if owner id == p then destroyed_task id ∷ others else others

-- Every connection of the list is on a loop of another thread.
abbrev pub AllElsewhere : ℕ → World → List (Text × ℕ) → Type 0
AllElsewhere tid w [] = Unit {0}
AllElsewhere tid w ((label, id) ∷ rest) =
    (EventLoop.is_loop_thread tid (w.loops (w.owner id)) ≡ false) × AllElsewhere tid w rest

-- What the destructor leaves behind.
pub record TakenDown (entries : List (Text × ℕ)) (w w' : World) : Type 0 where
  pub queued :
      (p : ℕ) → (w'.loops p).pend_funcs ≡ (w.loops p).pend_funcs ++ take_downs w.owner p entries
  pub thread : (p : ℕ) → (w'.loops p).thread_id ≡ (w.loops p).thread_id
  pub owner : w'.owner ≡ w.owner

Handed-thread :
    {tid : ℕ} {task : Task} {id : ℕ} {w w' : World}
    → Handed tid task id w w'
    → (p : ℕ) → (w'.loops p).thread_id ≡ (w.loops p).thread_id
Handed-thread {tid} {task} {id} {w} {w'} h p = elim (ℕ_discrete p (w.owner id)) [
  | yes same ↦
      ap (λ q. (w'.loops q).thread_id) same ∙ h.thread ∙ ap (λ q. (w.loops q).thread_id) (sym same)
  | no apart ↦ ap (λ l. l.thread_id) (h.loops p apart)
]

-- One entry more in front.
Handed-queued :
    (label : Text) {tid id : ℕ} {w w' : World} (rest : List (Text × ℕ))
    → Handed tid (destroyed_task id) id w w'
    → (p : ℕ)
    → (w'.loops p).pend_funcs ++ take_downs w.owner p rest
      ≡ (w.loops p).pend_funcs ++ take_downs w.owner p ((label, id) ∷ rest)
unfolding take_downs
Handed-queued label {tid} {id} {w} {w'} rest h p = elim (ℕ_discrete p (w.owner id)) [
  | yes same ↦
      let o : ℕ = w.owner id in
      let at_own : (w'.loops o).pend_funcs ++ take_downs w.owner o rest
          ≡ (w.loops o).pend_funcs ++ (destroyed_task id ∷ take_downs w.owner o rest) =
        ap (λ fs. fs ++ take_downs w.owner o rest) h.queued
        ∙ append_assoc (w.loops o).pend_funcs (destroyed_task id ∷ [])
            (take_downs w.owner o rest) in
      rw ((==_iff o p).1 (sym same)) (
        subst
          (λ q.
            (w'.loops q).pend_funcs ++ take_downs w.owner q rest
            ≡ (w.loops q).pend_funcs ++ (destroyed_task id ∷ take_downs w.owner q rest))
          (sym same) at_own)
  | no apart ↦
      rw (==_ne (w.owner id) p (λ e. apart (sym e)))
        (ap (λ l. l.pend_funcs ++ take_downs w.owner p rest) (h.loops p apart))
]

AllElsewhere-thread :
    (tid : ℕ) (entries : List (Text × ℕ)) (w w' : World)
    → ((p : ℕ) → (w'.loops p).thread_id ≡ (w.loops p).thread_id)
    → w'.owner ≡ w.owner
    → AllElsewhere tid w entries
    → AllElsewhere tid w' entries
unfolding EventLoop.is_loop_thread
AllElsewhere-thread tid [] w w' thread owner h = tt
AllElsewhere-thread tid ((label, id) ∷ rest) w w' thread owner (here, others) = (
  ap (λ own. (w'.loops (own id)).thread_id == tid) owner
      ∙ ap (λ n. n == tid) (thread (w.owner id))
      ∙ here,
  AllElsewhere-thread tid rest w w' thread owner others,
)

module _ (user : ℕ → Invocation → Context → Result Context) (control : Control) (tid : ℕ) where
  destroy_all_lem :
      (entries : List (Text × ℕ)) (w : World)
      → AllElsewhere tid w entries
      → (w' : World) × (destroy_all user control tid entries w ≡ ok w') × TakenDown entries w w'
  unfolding destroy_all take_downs
  destroy_all_lem [] w h = (
    w,
    refl,
    record {
      queued = λ p. sym (append-nil (w.loops p).pend_funcs);
      thread = λ p. refl;
      owner = refl;
    },
  )
  destroy_all_lem ((label, id) ∷ rest) w (elsewhere, others) =
      let (w₁, handed, h) =
        run_elsewhere tid id (destroyed_task id) (connect_destroyed user control) w elsewhere in
      let thread = Handed-thread h in
      let (w', done, x) =
        destroy_all_lem rest w₁ (AllElsewhere-thread tid rest w w₁ thread h.owner others) in
      (
        w',
        rw handed done,
        record {
          queued = λ p.
              x.queued p
              ∙ ap (λ own. (w₁.loops p).pend_funcs ++ take_downs own p rest) h.owner
              ∙ Handed-queued label rest h p;
          thread = λ p. x.thread p ∙ thread p;
          owner = x.owner ∙ h.owner;
        },
      )

  -- When every connection is on a loop of another thread, the destructor of the server returns, and
  -- has handed every loop the take-downs of exactly the connections of the map that it owns, in the
  -- order of the map and behind what waited in it, and no loop anything else.
  pub close_lem :
      (w : World)
      → AllElsewhere tid w w.server.connections
      → (w' : World) × (Server.close user control tid w ≡ ok w')
        × TakenDown w.server.connections w w'
  unfolding Server.close
  close_lem w h = destroy_all_lem w.server.connections w h
