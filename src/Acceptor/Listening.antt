-- ===== src/Acceptor/Listening.antt =====
-- An Acceptor from its construction to its end, in the Epoller of the base loop.
use lucky.Base.{◌≡◌, refl, ◌∙◌, ap, true, false, ◌&&◌, none, some, eq_ℤ, ok, Bool}
use lucky.Filed.{Filed, set_index, is_none_event}
use lucky.Filed.Masks.{
  change, mask_tests, Interest, mask, enable_reading, disable_all, wish, change-mask,
}
use lucky.Epoller.{Epoller, Control, added}
use lucky.Epoller.Consistency.{Documented, Consistent, put_self, fd-kept}
use lucky.Epoller.Requests.{remove_lem}
use lucky.Epoller.Runs.{InStep, change-Placed, change_and_update_lem}
use lucky.Acceptor.{Acceptor, listen, close}

&&-false : (b : Bool) → (b && false) ≡ false
&&-false true = refl
&&-false false = refl

-- With the kernel in step with the Fileds and `epoll_ctl` as documented: an Acceptor that begins
-- to listen has its socket watched by the kernel for what can be read, besides what it was
-- watched for; once it is closed, neither the Epoller nor the kernel knows the socket.
pub listen-close :
    (control : Control)
    → Documented control
    → (a : Acceptor) (e : Epoller) (i : Interest) → InStep e
    → (e.objects a.filed).events ≡ mask i
    → (e₁ e₂ : Epoller) × (listen control true a e ≡ ok (record a { is_listen = true }, e₁))
      × InStep e₁
      × ((e₁.objects a.filed).events ≡ mask (wish enable_reading i))
      × (e₁.interest (e₁.objects a.filed).fd ≡ some (mask (wish enable_reading i), a.filed))
      × (close control (record a { is_listen = true }) e₁ ≡ ok e₂)
      × Consistent e₂
      × (e₂.fileds (e₂.objects a.filed).fd ≡ none)
      × (e₂.interest (e₂.objects a.filed).fd ≡ none)
unfolding listen close set_index
listen-close control doc a e i s asks =
    let (e₁, listening, s₁, mine, _) = change-Placed control doc enable_reading a.filed e s in
    let f : Filed = change enable_reading (e.objects a.filed) in
    let asked : f.events ≡ mask (wish enable_reading i) =
      change-mask enable_reading i (e.objects a.filed) asks in
    let busy : is_none_event f ≡ false = (mask_tests (wish enable_reading i) f asked).2 in
    let (e', quiet, s', _, _) = change_and_update_lem control doc disable_all a.filed e₁ s₁ in
    let (e₂, removed, good, m) = remove_lem control doc a.filed e' s'.consistent in
    (
      e₁,
      e₂,
      rw listening refl,
      s₁,
      ap (λ (g : Filed). g.events) mine ∙ asked,
      s₁.watched a.filed
          ∙ rw (mine, busy, &&-false (eq_ℤ f.index added)) (ap (λ k. some (k, a.filed)) asked),
      rw quiet removed,
      good,
      rw (fd-kept m a.filed, m.fileds (e'.objects a.filed).fd)
          (put_self e'.fileds (e'.objects a.filed).fd none),
      rw (fd-kept m a.filed, m.interest (e'.objects a.filed).fd)
          (put_self e'.interest (e'.objects a.filed).fd none),
    )
