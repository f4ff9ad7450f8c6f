-- ===== src/Epoller/Obedience.antt =====
-- What the kernel watches after any calls: what the calls asked for, told from the calls alone.
use lucky.Base.{
  ℕ, ◌≡◌, ◌≢◌, refl, sym, ◌∙◌, ap, Bool, true, false, not, ◌&&◌, List, [], ◌∷◌, Option, none, some,
  if◌then◌else◌, eq_ℤ, Result, ok, ◌>>=◌, ℕ_discrete,
}
use lucky.Filed.{Filed, set_index, is_none_event}
use lucky.Filed.Masks.{Change, change, Interest, mask, wish, change-mask, change-index, mask_tests}
use lucky.Epoller.Interest.{change_and_update}
use lucky.Epoller.{Epoller, Control, put, remove, added, deleted}
use lucky.Epoller.Consistency.{Documented, put_self, put_ne}
use lucky.Epoller.Requests.{next_index}
use lucky.Epoller.Runs.{InStep, change-Placed, remove-Placed}

pub data Request : Type 0 where
  changes : Change → ℕ → Request
  removes : ℕ → Request

pub request : Control → Request → Epoller → Result Epoller
request control (changes c p) e = change_and_update control c p e
request control (removes p) e = remove control p e

pub run : Control → List Request → Epoller → Result Epoller
run control [] e = ok e
run control (r ∷ rs) e = do e' ← request control r e; run control rs e'

-- The events that were asked for a Filed, and whether the kernel is to watch it.
pub record Wanted : Type 0 where
  pub interest : Interest
  pub watched : Bool

-- A call of `enableReading` or its siblings has the Filed watched from then on, with the events
-- that it then asks for; but a watched one that asks for nothing is watched no more. `remove` ends
-- it.
abbrev pub asked : Change → Wanted → Wanted
asked c w =
    let i = wish c w.interest in
    record { interest = i; watched = not (w.watched && (not i.reading && not i.writing)) }

abbrev pub after : Request → (ℕ → Wanted) → ℕ → Wanted
after (changes c p) w = put w p (asked c (w p))
after (removes p) w = put w p (record (w p) { watched = false })

unfoldable pub wanted : List Request → (ℕ → Wanted) → ℕ → Wanted
wanted [] w = w
wanted (r ∷ rs) w = wanted rs (after r w)

abbrev pub watch_of : ℕ → Wanted → Option (ℕ × ℕ)
watch_of p w = if w.watched then some (mask w.interest, p) else none

-- Each Filed asks for what is wanted, and the kernel watches for exactly that.
pub record Obeys (w : ℕ → Wanted) (e : Epoller) : Type 0 where
  pub asks : (p : ℕ) → (e.objects p).events ≡ mask (w p).interest
  pub watches : (p : ℕ) → e.interest (e.objects p).fd ≡ watch_of p (w p)

-- A Filed is in the state `added` when the kernel watches it.
listed :
    (b c : Bool) (x y : ℕ × ℕ)
    → ◌≡◌ {A = Option (ℕ × ℕ)} (if b then some x else none) (if c then some y else none)
    → b ≡ c
listed true true x y e = refl
listed true false x y e = cc
listed false true x y e = cc
listed false false x y e = refl

index-Obeys :
    {w : ℕ → Wanted} {e : Epoller} (p : ℕ)
    → InStep e
    → Obeys w e
    → eq_ℤ (e.objects p).index added ≡ (w p).watched
index-Obeys {w} {e} p s o =
    listed (eq_ℤ (e.objects p).index added) (w p).watched _ _ (sym (s.watched p) ∙ o.watches p)

-- From an Epoller in step, one Filed of which is in another state.
Obeys-put :
    (w : ℕ → Wanted) (e e' : Epoller) (p : ℕ) (v : Wanted) (f : Filed)
    → InStep e
    → InStep e'
    → Obeys w e
    → e'.objects p ≡ f
    → ((q : ℕ) → q ≢ p → e'.objects q ≡ e.objects q)
    → f.events ≡ mask v.interest
    → eq_ℤ f.index added ≡ v.watched
    → Obeys (put w p v) e'
Obeys-put w e e' p v f s s' o mine others events index = record {
  asks = λ q. elim (ℕ_discrete q p) [
    | yes same ↦ rw (same, put_self w p v, mine) events
    | no apart ↦ rw (put_ne w p q v apart, others q apart) (o.asks q)
  ];
  watches = λ q. s'.watched q ∙ elim (ℕ_discrete q p) [
    | yes same ↦ rw (same, put_self w p v, mine, events, index)
    | no apart ↦ rw (put_ne w p q v apart, others q apart, o.asks q, index-Obeys q s o)
  ];
}

next_index-asked :
    (c : Change) (w : Wanted) (f : Filed)
    → f.events ≡ mask w.interest
    → eq_ℤ f.index added ≡ w.watched
    → eq_ℤ (next_index (change c f)) added ≡ (asked c w).watched
next_index-asked c w f events index =
    let i : Interest = wish c w.interest in
    let (_, _, nothing) = mask_tests i (change c f) (change-mask c w.interest f events) in
    ap (λ b. eq_ℤ (if b then deleted else added) added)
      (ap (λ x. eq_ℤ x added && is_none_event (change c f)) (change-index c f)
        ∙ ap (λ b. b && is_none_event (change c f)) index
        ∙ ap (λ b. w.watched && b) nothing)
    ∙ kept (w.watched && (not i.reading && not i.writing))
  where
    kept : (b : Bool) → eq_ℤ (if b then deleted else added) added ≡ not b
    kept true = refl
    kept false = refl

module _ (control : Control) (doc : Documented control) where
  -- From a state in step, whatever was wanted so far, no sequence of `enableReading`,
  -- `disableReading`, `enableWriting`, `disableWriting`, `disableAll` and `remove` on any Fileds
  -- ends the process, fails an assertion or is refused by a kernel that answers as documented.
  -- After it each Filed asks for exactly what the calls have left wanted, and the kernel watches
  -- exactly the Fileds that they have left watched, each for exactly those events.
  pub run_lem :
      (rs : List Request) (w : ℕ → Wanted) (e : Epoller)
      → InStep e
      → Obeys w e
      → (e' : Epoller) × (run control rs e ≡ ok e') × InStep e' × Obeys (wanted rs w) e'
  unfolding run request wanted set_index
  run_lem [] w e s o = (e, refl, s, o)
  run_lem (changes c p ∷ rs) w e s o =
      let (e₁, done, s₁, mine, others) = change-Placed control doc c p e s in
      let o₁ : Obeys (after (changes c p) w) e₁ =
        Obeys-put w e e₁ p (asked c (w p)) _ s s₁ o mine others
          (change-mask c (w p).interest (e.objects p) (o.asks p))
          (next_index-asked c (w p) (e.objects p) (o.asks p) (index-Obeys p s o)) in
      let (e₂, rest, s₂, o₂) = run_lem rs (after (changes c p) w) e₁ s₁ o₁ in
      (e₂, rw done rest, s₂, o₂)
  run_lem (removes p ∷ rs) w e s o =
      let (e₁, done, s₁, mine, others) = remove-Placed control doc p e s in
      let o₁ : Obeys (after (removes p) w) e₁ =
        Obeys-put w e e₁ p (record (w p) { watched = false }) _ s s₁ o mine others (o.asks p)
          refl in
      let (e₂, rest, s₂, o₂) = run_lem rs (after (removes p) w) e₁ s₁ o₁ in
      (e₂, rw done rest, s₂, o₂)
