-- ===== src/Epoller/Consistency.antt =====
-- The states of the Fileds, the map of descriptors and the kernel's list agree, so no call of
-- `epoll_ctl` is refused.
use lucky.Base.{ℕ, ◌≡◌, ◌≢◌, sym, ◌∙◌, ◌⊎◌, Option, none, some, ℤ, arith, subst, ℕ_discrete}
use lucky.Filed.{set_index}
use lucky.Epoller.{
  Epoller, Control, InterestList, ctl_add, ctl_mod, ctl_del, new, added, deleted, put,
}

-- The documented answers of `epoll_ctl` for a descriptor that can be watched: it adds one that is
-- not on the list, and changes or deletes one that is.
pub record Documented (control : Control) : Type 0 where
  pub add_free :
      (s : InterestList) (fd events ptr : ℕ)
      → s fd ≡ none
      → (s' : InterestList) × (control ctl_add fd events ptr s ≡ some s')
        × ((k : ℕ) → s' k ≡ put s fd (some (events, ptr)) k)
  pub mod_known :
      (s : InterestList) (fd events ptr : ℕ) (r : ℕ × ℕ)
      → s fd ≡ some r
      → (s' : InterestList) × (control ctl_mod fd events ptr s ≡ some s')
        × ((k : ℕ) → s' k ≡ put s fd (some (events, ptr)) k)
  pub del_known :
      (s : InterestList) (fd events ptr : ℕ) (r : ℕ × ℕ)
      → s fd ≡ some r
      → (s' : InterestList) × (control ctl_del fd events ptr s ≡ some s')
        × ((k : ℕ) → s' k ≡ put s fd none k)

-- What the state of a Filed means for its descriptor's entry and the kernel's list.
abbrev pub Placed : ℕ → ℤ → Option ℕ → Option (ℕ × ℕ) → Type 0
Placed p index entry watched =
    ((index ≡ new) × (entry ≡ none) × (watched ≡ none))
    ⊎ (((index ≡ added) × (entry ≡ some p) × ((events : ℕ) × (watched ≡ some (events, p))))
        ⊎ ((index ≡ deleted) × (entry ≡ some p) × (watched ≡ none)))

-- Each Filed has its own descriptor, and is placed as its state says.
pub record Consistent (e : Epoller) : Type 0 where
  pub distinct : (p q : ℕ) → (e.objects p).fd ≡ (e.objects q).fd → p ≡ q
  pub placed :
      (p : ℕ)
      → Placed p (e.objects p).index (e.fileds (e.objects p).fd) (e.interest (e.objects p).fd)

pub put_self {ℓ} : {V : Type ℓ} (m : ℕ → V) (k : ℕ) (v : V) → put m k v k ≡ v
put_self m k v = ground arith

pub put_ne {ℓ} : {V : Type ℓ} (m : ℕ → V) (k j : ℕ) (v : V) → j ≢ k → put m k v j ≡ m j
put_ne m k j v h = ground arith

-- What a call about the Filed `p` leaves behind: its state, its entry and its place on the
-- kernel's list are new, and all else is as it was.
pub record Moves (p : ℕ) (index : ℤ) (entry : Option ℕ) (watched : Option (ℕ × ℕ)) (e e' : Epoller)
    : Type 0 where
  pub objects : (q : ℕ) → e'.objects q ≡ put e.objects p (set_index index (e.objects p)) q
  pub fileds : (k : ℕ) → e'.fileds k ≡ put e.fileds (e.objects p).fd entry k
  pub interest : (k : ℕ) → e'.interest k ≡ put e.interest (e.objects p).fd watched k

pub fd-kept :
    {p : ℕ} {index : ℤ} {entry : Option ℕ} {watched : Option (ℕ × ℕ)} {e e' : Epoller}
    → Moves p index entry watched e e'
    → (q : ℕ) → (e'.objects q).fd ≡ (e.objects q).fd
unfolding set_index
fd-kept {p} m q = ground (arith, m.objects q)

module _ {p : ℕ} {index : ℤ} {entry : Option ℕ} {watched : Option (ℕ × ℕ)} {e e' : Epoller}
    (c : Consistent e) (m : Moves p index entry watched e e')
    (ends : Placed p index entry watched) where
  Placed-self :
      Placed p (e'.objects p).index (e'.fileds (e'.objects p).fd) (e'.interest (e'.objects p).fd)
  unfolding set_index
  Placed-self =
      rw
        (
          m.objects p,
          put_self e.objects p (set_index index (e.objects p)),
          m.fileds (e.objects p).fd,
          m.interest (e.objects p).fd,
          put_self e.fileds (e.objects p).fd entry,
          put_self e.interest (e.objects p).fd watched,
        )
        ends

  Placed-other :
      (q : ℕ)
      → q ≢ p
      → Placed q (e'.objects q).index (e'.fileds (e'.objects q).fd) (e'.interest (e'.objects q).fd)
  Placed-other q apart =
      let other : (e.objects q).fd ≢ (e.objects p).fd = λ h. apart (c.distinct q p h) in
      rw
        (
          m.objects q,
          put_ne e.objects p q (set_index index (e.objects p)) apart,
          m.fileds (e.objects q).fd,
          m.interest (e.objects q).fd,
          put_ne e.fileds (e.objects p).fd (e.objects q).fd entry other,
          put_ne e.interest (e.objects p).fd (e.objects q).fd watched other,
        )
        (c.placed q)

  pub Moves-Consistent : Consistent e'
  Moves-Consistent = record {
    distinct = λ q r h. c.distinct q r (sym (fd-kept m q) ∙ h ∙ fd-kept m r);
    placed = λ q. elim (ℕ_discrete q p) [
      | yes same ↦
          subst
            (λ r.
              Placed r (e'.objects r).index (e'.fileds (e'.objects r).fd)
                (e'.interest (e'.objects r).fd))
            (sym same) Placed-self
      | no apart ↦ Placed-other q apart
    ];
  }
