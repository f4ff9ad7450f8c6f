-- ===== src/Epoller/Requests.antt =====
-- `update` and `remove` on consistent states: which request goes to the kernel, and what is left.
use lucky.Base.{
  ℕ, true, false, ◌&&◌, ◌≡◌, refl, sym, inl, inr, Option, none, some, ==_refl, if◌then◌else◌,
  Bool-cases, ℤ, eq_ℤ, arith, Result, ok,
}
use lucky.Filed.{Filed, set_index, is_none_event}
use lucky.Epoller.{
  Epoller, Control, InterestList, ctl_add, new, added, deleted, put, set_object, update_helper,
  update, remove,
}
use lucky.Epoller.Consistency.{Documented, Placed, Consistent, put_self, Moves, Moves-Consistent}

-- The state that `update` has to give a Filed, and what the kernel then watches for it: nothing if
-- it was watched and asks for nothing, and otherwise the events that it asks for.
abbrev pub next_index : Filed → ℤ
next_index f = if eq_ℤ f.index added && is_none_event f then deleted else added

abbrev pub next_watch : ℕ → Filed → Option (ℕ × ℕ)
next_watch p f = if eq_ℤ f.index added && is_none_event f then none else some (f.events, p)

put_kept {ℓ} : {V : Type ℓ} (m : ℕ → V) (k : ℕ) (v : V) → m k ≡ v → (j : ℕ) → m j ≡ put m k v j
put_kept m k v h j = ground arith

set_index_self : (index : ℤ) (f : Filed) → f.index ≡ index → set_index index f ≡ f
unfolding set_index
set_index_self index f h = λ i. record f { index = sym h i }

module _ (control : Control) (doc : Documented control) (p : ℕ) (e : Epoller) where
  abbrev placed_at : ℤ → (ℕ → Option ℕ) → InterestList → Epoller
  placed_at index fileds s = record e {
    fileds = fileds;
    objects = put e.objects p (set_index index (e.objects p));
    interest = s;
  }

  add_lem :
      (known : ℕ → Option ℕ)
      → e.interest (e.objects p).fd ≡ none
      → (s : InterestList) × (update_helper control ctl_add p
            (set_object p (set_index added (e.objects p)) (record e { fileds = known }))
          ≡ ok (placed_at added known s))
        × ((k : ℕ) → s k ≡ put e.interest (e.objects p).fd (some ((e.objects p).events, p)) k)
  unfolding update_helper set_index
  add_lem known free =
      let (s, done, changed) =
        doc.add_free e.interest (e.objects p).fd (e.objects p).events p free in
      (s, rw (put_self e.objects p (set_index added (e.objects p)), done), changed)

  -- What `update` and `remove` have to achieve.
  pub Done : ℤ → Option ℕ → Option (ℕ × ℕ) → Result Epoller → Type 0
  Done index entry watched out =
      (e' : Epoller) × (out ≡ ok e')
      × Moves p index entry watched e e'
      × Placed p index entry watched

  update-new :
      (e.objects p).index ≡ new
      → e.interest (e.objects p).fd ≡ none
      → Done added (some p) (some ((e.objects p).events, p)) (update control p e)
  unfolding update Done
  update-new at_new free =
      let (s, done, changed) = add_lem (put e.fileds (e.objects p).fd (some p)) free in
      (
        placed_at added (put e.fileds (e.objects p).fd (some p)) s,
        simp at_new done,
        record { objects = λ q. refl; fileds = λ k. refl; interest = changed },
        inr (inl (refl, refl, ((e.objects p).events, refl))),
      )

  update-deleted :
      (e.objects p).index ≡ deleted
      → e.fileds (e.objects p).fd ≡ some p
      → e.interest (e.objects p).fd ≡ none
      → Done added (some p) (some ((e.objects p).events, p)) (update control p e)
  unfolding update Done
  update-deleted at_deleted known free =
      let (s, done, changed) = add_lem e.fileds free in
      (
        placed_at added e.fileds s,
        simp (at_deleted, known, ==_refl p) done,
        record {
          objects = λ q. refl;
          fileds = put_kept e.fileds (e.objects p).fd (some p) known;
          interest = changed;
        },
        inr (inl (refl, refl, ((e.objects p).events, refl))),
      )

  module _ (at_added : (e.objects p).index ≡ added) (known : e.fileds (e.objects p).fd ≡ some p)
      (r : ℕ × ℕ) (watched : e.interest (e.objects p).fd ≡ some r) where
    update-none :
        is_none_event (e.objects p) ≡ true → Done deleted (some p) none (update control p e)
    unfolding update update_helper Done
    update-none no_events =
        let (s, done, changed) =
          doc.del_known e.interest (e.objects p).fd (e.objects p).events p r watched in
        (
          placed_at deleted e.fileds s,
          simp (at_added, no_events, done),
          record {
            objects = λ q. refl;
            fileds = put_kept e.fileds (e.objects p).fd (some p) known;
            interest = changed;
          },
          inr (inr (refl, refl, refl)),
        )

    update-some :
        is_none_event (e.objects p) ≡ false
        → Done added (some p) (some ((e.objects p).events, p)) (update control p e)
    unfolding update update_helper Done
    update-some events =
        let (s, done, changed) =
          doc.mod_known e.interest (e.objects p).fd (e.objects p).events p r watched in
        (
          record e { interest = s },
          simp (at_added, events, done),
          record {
            objects =
                put_kept e.objects p (set_index added (e.objects p))
                  (sym (set_index_self added (e.objects p) at_added));
            fileds = put_kept e.fileds (e.objects p).fd (some p) known;
            interest = changed;
          },
          inr (inl (refl, refl, ((e.objects p).events, refl))),
        )

  module _ (c : Consistent e) where
    update_cases :
        Placed p (e.objects p).index (e.fileds (e.objects p).fd) (e.interest (e.objects p).fd)
        → Done (next_index (e.objects p)) (some p) (next_watch p (e.objects p)) (update control p e)
    update_cases (inl (at_new, unknown, free)) = simp at_new (update-new at_new free)
    update_cases (inr (inl (at_added, known, (events, watched)))) =
        elim (Bool-cases (is_none_event (e.objects p))) [
          | inl no_events ↦
              simp (at_added, no_events) (update-none at_added known (events, p) watched no_events)
          | inr some_events ↦
              simp (at_added, some_events)
                (update-some at_added known (events, p) watched some_events)
        ]
    update_cases (inr (inr (at_deleted, known, free))) =
        simp at_deleted (update-deleted at_deleted known free)

    remove_cases :
        Placed p (e.objects p).index (e.fileds (e.objects p).fd) (e.interest (e.objects p).fd)
        → Done new none none (remove control p e)
    unfolding remove update_helper Done
    remove_cases (inl (at_new, unknown, free)) = (
      placed_at new (put e.fileds (e.objects p).fd none) e.interest,
      simp at_new,
      record {
        objects = λ q. refl;
        fileds = λ k. refl;
        interest = put_kept e.interest (e.objects p).fd none free;
      },
      inl (refl, refl, refl),
    )
    remove_cases (inr (inl (at_added, known, (events, watched)))) =
        let (s, done, changed) =
          doc.del_known e.interest (e.objects p).fd (e.objects p).events p (events, p) watched in
        (
          placed_at new (put e.fileds (e.objects p).fd none) s,
          simp (at_added, done),
          record { objects = λ q. refl; fileds = λ k. refl; interest = changed },
          inl (refl, refl, refl),
        )
    remove_cases (inr (inr (at_deleted, known, free))) = (
      placed_at new (put e.fileds (e.objects p).fd none) e.interest,
      simp at_deleted,
      record {
        objects = λ q. refl;
        fileds = λ k. refl;
        interest = put_kept e.interest (e.objects p).fd none free;
      },
      inl (refl, refl, refl),
    )

    -- On a consistent state `update` is never refused by the kernel and fails no assertion: it
    -- leaves a consistent state in which the kernel watches for exactly the events that the Filed
    -- asks for, or for nothing if it was watched and asks for none, and nothing else has changed.
    pub update_lem :
        (e' : Epoller) × (update control p e ≡ ok e')
        × Consistent e'
        × Moves p (next_index (e.objects p)) (some p) (next_watch p (e.objects p)) e e'
    unfolding Done
    update_lem =
        let (e', done, moves, ends) = update_cases (c.placed p) in
        (e', done, Moves-Consistent c moves ends, moves)

    -- On a consistent state `remove` is never refused by the kernel: it leaves a consistent state
    -- in which the Filed is new again, its descriptor unknown and unwatched, and nothing else has
    -- changed.
    pub remove_lem :
        (e' : Epoller) × (remove control p e ≡ ok e') × Consistent e' × Moves p new none none e e'
    unfolding Done
    remove_lem =
        let (e', done, moves, ends) = remove_cases (c.placed p) in
        (e', done, Moves-Consistent c moves ends, moves)
