-- ===== src/Epoller/Newcomer.antt =====
-- A Filed that is made for a new descriptor, in an Epoller that is in step.
use lucky.Base.{ℕ, ◌≡◌, ◌≢◌, sym, ◌∙◌, ap, subst, none, some, inl, ℕ_discrete, eq_ℤ, if◌then◌else◌}
use lucky.Epoller.{Epoller, new, added}
use lucky.Epoller.Consistency.{Placed}
use lucky.Epoller.Runs.{InStep, watch}

-- No other Filed has the descriptor, and neither the map nor the kernel knows it.
pub record Unseen (p fd : ℕ) (e : Epoller) : Type 0 where
  pub others : (q : ℕ) → q ≢ p → (e.objects q).fd ≢ fd
  pub entry : e.fileds fd ≡ none
  pub interest : e.interest fd ≡ none

-- The pointer `p` stands for a Filed of the descriptor that was not watched yet, and nothing else
-- has changed.
pub record Joins (p fd : ℕ) (e e' : Epoller) : Type 0 where
  pub fd_of : (e'.objects p).fd ≡ fd
  pub index_of : (e'.objects p).index ≡ new
  pub others : (q : ℕ) → q ≢ p → e'.objects q ≡ e.objects q
  pub fileds : e'.fileds ≡ e.fileds
  pub interest : e'.interest ≡ e.interest

module _ (p fd : ℕ) (e e' : Epoller) (s : InStep e) (u : Unseen p fd e) (j : Joins p fd e e') where
  apart_fd : (q : ℕ) → q ≢ p → (e'.objects q).fd ≢ fd
  apart_fd q apart same = u.others q apart (ap (λ f. f.fd) (sym (j.others q apart)) ∙ same)

  joined_apart : (q r : ℕ) → (e'.objects q).fd ≡ (e'.objects r).fd → q ≡ r
  joined_apart q r h = elim (ℕ_discrete q p) [
    | yes q_new ↦ elim (ℕ_discrete r p) [
      | yes r_new ↦ q_new ∙ sym r_new
      | no r_old ↦ absurd (apart_fd r r_old (sym h ∙ ap (λ q. (e'.objects q).fd) q_new ∙ j.fd_of))
    ]
    | no q_old ↦ elim (ℕ_discrete r p) [
      | yes r_new ↦ absurd (apart_fd q q_old (h ∙ ap (λ q. (e'.objects q).fd) r_new ∙ j.fd_of))
      | no r_old ↦
          s.consistent.distinct q r
            (ap (λ f. f.fd) (sym (j.others q q_old)) ∙ h ∙ ap (λ f. f.fd) (j.others r r_old))
    ]
  ]

  new_index : (q : ℕ) → q ≡ p → (e'.objects q).index ≡ new
  new_index q same = ap (λ q. (e'.objects q).index) same ∙ j.index_of

  new_entry : (q : ℕ) → q ≡ p → e'.fileds (e'.objects q).fd ≡ none
  new_entry q same =
      ap (λ q. e'.fileds (e'.objects q).fd) same
      ∙ ap e'.fileds j.fd_of
      ∙ ap (λ m. m fd) j.fileds
      ∙ u.entry

  new_interest : (q : ℕ) → q ≡ p → e'.interest (e'.objects q).fd ≡ none
  new_interest q same =
      ap (λ q. e'.interest (e'.objects q).fd) same
      ∙ ap e'.interest j.fd_of
      ∙ ap (λ m. m fd) j.interest
      ∙ u.interest

  joined-Placed :
      (q : ℕ)
      → Placed q (e'.objects q).index (e'.fileds (e'.objects q).fd) (e'.interest (e'.objects q).fd)
  joined-Placed q = elim (ℕ_discrete q p) [
    | yes same ↦ inl (new_index q same, new_entry q same, new_interest q same)
    | no apart ↦
        let fd_q : ℕ = (e.objects q).fd in
        subst (λ f. Placed q f.index (e'.fileds f.fd) (e'.interest f.fd)) (sym (j.others q apart))
          (subst (λ m. Placed q (e.objects q).index (m fd_q) (e'.interest fd_q)) (sym j.fileds)
            (subst (λ m. Placed q (e.objects q).index (e.fileds fd_q) (m fd_q)) (sym j.interest)
              (s.consistent.placed q)))
  ]

  joined_watch : (q : ℕ) → e'.interest (e'.objects q).fd ≡ watch q (e'.objects q)
  joined_watch q = elim (ℕ_discrete q p) [
    | yes same ↦
        new_interest q same
        ∙ ap (λ n. if eq_ℤ n added then some ((e'.objects q).events, q) else none)
            (sym (new_index q same))
    | no apart ↦
        (λ i. j.interest i (j.others q apart i).fd)
        ∙ s.watched q
        ∙ ap (watch q) (sym (j.others q apart))
  ]

  pub Joins-InStep : InStep e'
  Joins-InStep = record {
    consistent = record { distinct = joined_apart; placed = joined-Placed };
    watched = joined_watch;
  }
