-- ===== src/Epoller/Runs.antt =====
-- Any sequence of the Fileds' calls: no request is refused, and the kernel's list is in step.
use lucky.Base.{
  ℕ, subst, ◌&&◌, ◌≡◌, ◌≢◌, refl, sym, ◌∙◌, ap, Option, none, some, if◌then◌else◌, ℤ, eq_ℤ, arith,
  ok, ℕ_discrete, inl, inr, Bool-cases,
}
use lucky.Filed.{Filed, set_index, is_none_event}
use lucky.Filed.Masks.{Change, change, change-fd, change-index}
use lucky.Filed.Steady.{Steady, Steady-trans, change-Steady, set_index-Steady}
use lucky.Epoller.{put, Epoller, Control, new, added, set_object, remove}
use lucky.Epoller.Interest.{change_and_update}
use lucky.Epoller.Consistency.{Documented, Consistent, Moves, put_self, put_ne}
use lucky.Epoller.Requests.{next_index, next_watch, update_lem, remove_lem}

-- What the kernel should watch for a Filed.
abbrev pub watch : ℕ → Filed → Option (ℕ × ℕ)
watch p f = if eq_ℤ f.index added then some (f.events, p) else none

-- The kernel watches for each Filed exactly what it asks for.
pub record InStep (e : Epoller) : Type 0 where
  pub consistent : Consistent e
  pub watched : (p : ℕ) → e.interest (e.objects p).fd ≡ watch p (e.objects p)

module _ (c : Change) (p : ℕ) (e : Epoller) (s : InStep e) where
  abbrev changed : Epoller
  changed = set_object p (change c (e.objects p)) e

  changed-fd : (q : ℕ) → (changed.objects q).fd ≡ (e.objects q).fd
  changed-fd q = ground (arith, change-fd c (e.objects p))

  changed-index : (q : ℕ) → (changed.objects q).index ≡ (e.objects q).index
  changed-index q = ground (arith, change-index c (e.objects p))

  changed-Consistent : Consistent changed
  changed-Consistent = record {
    distinct = λ q r h. s.consistent.distinct q r (sym (changed-fd q) ∙ h ∙ changed-fd r);
    placed = λ q. rw (changed-fd q, changed-index q) (s.consistent.placed q);
  }

next_watch-watch : (p : ℕ) (f : Filed) → next_watch p f ≡ watch p (set_index (next_index f) f)
unfolding set_index
next_watch-watch p f = elim (Bool-cases (eq_ℤ f.index added && is_none_event f)) [
  | inl e ↦ simp e
  | inr e ↦ simp e
]

object_placed :
    (objects : ℕ → Filed) (p : ℕ) (f : Filed) (index : ℤ)
    → put (put objects p f) p (set_index index (put objects p f p)) p ≡ set_index index f
object_placed objects p f index =
    put_self (put objects p f) p (set_index index (put objects p f p))
    ∙ ap (set_index index) (put_self objects p f)

-- Objects that differ in nothing that the kernel is told are in step as well.
pub InStep-objects :
    (e : Epoller) (objects : ℕ → Filed)
    → ((q : ℕ) → (objects q).fd ≡ (e.objects q).fd)
    → ((q : ℕ) → (objects q).index ≡ (e.objects q).index)
    → ((q : ℕ) → watch q (objects q) ≡ watch q (e.objects q))
    → InStep e
    → InStep (record e { objects = objects })
InStep-objects e objects fd index watches s = record {
  consistent = record {
    distinct = λ q r h. s.consistent.distinct q r (sym (fd q) ∙ h ∙ fd r);
    placed = λ q. rw (fd q, index q) (s.consistent.placed q);
  };
  watched = λ q. ap e.interest (fd q) ∙ s.watched q ∙ sym (watches q);
}

removed_watch : (p : ℕ) (f : Filed) → none ≡ watch p (set_index new f)
unfolding set_index
removed_watch p f = refl

-- After a call about `p` the kernel is in step with `p`, if it was with the others.
module _ {p : ℕ} {index : ℤ} {entry : Option ℕ} {watched : Option (ℕ × ℕ)} {e e' : Epoller}
    (c : Consistent e) (c' : Consistent e') (m : Moves p index entry watched e e')
    (mine : watched ≡ watch p (set_index index (e.objects p)))
    (others : (q : ℕ) → q ≢ p → e.interest (e.objects q).fd ≡ watch q (e.objects q)) where
  Moves-InStep : InStep e'
  unfolding set_index
  Moves-InStep = record {
    consistent = c';
    watched = λ q. elim (ℕ_discrete q p) [
      | yes same ↦
          rw
            (
              same,
              m.objects p,
              put_self e.objects p (set_index index (e.objects p)),
              m.interest (e.objects p).fd,
              put_self e.interest (e.objects p).fd watched,
            )
            mine
      | no apart ↦
          let other : (e.objects q).fd ≢ (e.objects p).fd = λ h. apart (c.distinct q p h) in
          rw
            (
              m.objects q,
              put_ne e.objects p q (set_index index (e.objects p)) apart,
              m.interest (e.objects q).fd,
              put_ne e.interest (e.objects p).fd (e.objects q).fd watched other,
            )
            (others q apart)
    ];
  }

module _ (control : Control) (doc : Documented control) where
  -- A change and its `update`: the Filed has its new events and state, and the others are as they
  -- were.
  pub change-Placed :
      (c : Change) (p : ℕ) (e : Epoller)
      → InStep e
      → let f = change c (e.objects p) in
        (e' : Epoller) × (change_and_update control c p e ≡ ok e')
        × InStep e'
        × (e'.objects p ≡ set_index (next_index f) f)
        × ((q : ℕ) → q ≢ p → e'.objects q ≡ e.objects q)
  unfolding change_and_update
  change-Placed c p e s =
      let f : Filed = change c (e.objects p) in
      let (e', done, c', moves) =
        update_lem control doc p (changed c p e s) (changed-Consistent c p e s) in
      (
        e',
        done,
        Moves-InStep (changed-Consistent c p e s) c' moves
            (next_watch-watch p ((changed c p e s).objects p))
            (λ q apart. rw (put_ne e.objects p q f apart) (s.watched q)),
        moves.objects p
            ∙ object_placed e.objects p f _
            ∙ ap (λ g. set_index (next_index g) f) (put_self e.objects p f),
        λ q apart.
            moves.objects q
            ∙ put_ne (put e.objects p f) p q
                (set_index (next_index (put e.objects p f p)) (put e.objects p f p)) apart
            ∙ put_ne e.objects p q f apart,
      )

  pub change_and_update_lem :
      (c : Change) (p : ℕ) (e : Epoller)
      → InStep e
      → (e' : Epoller) × (change_and_update control c p e ≡ ok e')
        × InStep e'
        × ((e'.objects p).events ≡ (change c (e.objects p)).events)
        × Steady (e.objects p) (e'.objects p)
  unfolding set_index
  change_and_update_lem c p e s =
      let f : Filed = change c (e.objects p) in
      let (e', done, s', mine, others) = change-Placed c p e s in
      (
        e',
        done,
        s',
        ap (λ (g : Filed). g.events) mine,
        subst (Steady (e.objects p)) (sym mine)
            (Steady-trans (change-Steady c (e.objects p)) (set_index-Steady (next_index f) f)),
      )

  -- `remove`: the Filed is new again, and the others are as they were.
  pub remove-Placed :
      (p : ℕ) (e : Epoller)
      → InStep e
      → (e' : Epoller) × (remove control p e ≡ ok e')
        × InStep e'
        × (e'.objects p ≡ set_index new (e.objects p))
        × ((q : ℕ) → q ≢ p → e'.objects q ≡ e.objects q)
  remove-Placed p e s =
      let (e', done, c', moves) = remove_lem control doc p e s.consistent in
      (
        e',
        done,
        Moves-InStep s.consistent c' moves (removed_watch p (e.objects p)) (λ q _. s.watched q),
        moves.objects p ∙ put_self e.objects p (set_index new (e.objects p)),
        λ q apart. moves.objects q ∙ put_ne e.objects p q (set_index new (e.objects p)) apart,
      )
