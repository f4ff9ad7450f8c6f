-- ===== src/Filed/Dispatch.antt =====
-- `handleEvent`: which callbacks run for which events, and in which order.
use Prim.Native.Nat.{◌/◌, ◌%◌}
use mathlib.Core.Path.{fun_ext, subst}
use lucky.Base.{
  bind_assoc, bind_congr, bind_ok, ok-injective, ℕ, ◌<◌, ◌≡◌, refl, sym, ◌∙◌, ap, List, [], ◌∷◌,
  ◌++◌, Bool, true, false, not, ◌&&◌, ◌||◌, Option, none, some, ◌==◌, if◌then◌else◌, arith, bit_and,
  bit_or, Result, ok, err, ◌>>=◌, holds_below, holds_below_lem,
}
use lucky.Filed.{
  Filed, Callback, epollin, epollpri, epollout, epollerr, epollhup, is_set, wants_close,
  wants_error, wants_read, wants_write, call, when, run_callbacks, lock, handle_event,
}

-- The bit of weight `weight`, by division.
abbrev pub has : ℕ → ℕ → Bool
has weight word = word / weight % 2 == 1

abbrev pub pick : Bool → Option Callback → List Callback
pick true (some cb) = cb ∷ []
pick true none = []
pick false cb = []

-- The callbacks that the events ask for, in the order in which they have to run: close on a hangup
-- with nothing left to read, then error, read on normal or urgent data, and write.
abbrev pub selected : Filed → List Callback
selected f =
    pick (has 16 f.revents && not (has 1 f.revents)) f.close_callback
    ++ (pick (has 8 f.revents) f.error_callback
        ++ (pick (has 1 f.revents || has 2 f.revents) f.read_callback
            ++ pick (has 4 f.revents) f.write_callback))

-- A callback may change the events that its Filed asks for, and neither the events that came nor
-- the other callbacks.
pub record SameHandlers (f g : Filed) : Type 0 where
  pub revents : g.revents ≡ f.revents
  pub close : g.close_callback ≡ f.close_callback
  pub error : g.error_callback ≡ f.error_callback
  pub read : g.read_callback ≡ f.read_callback
  pub write : g.write_callback ≡ f.write_callback

abbrev eq_Bool : Bool → Bool → Bool
eq_Bool true b = b
eq_Bool false b = not b

eq_Bool→eq : (a b : Bool) → eq_Bool a b ≡ true → a ≡ b
eq_Bool→eq a b h = ground arith

agree :
    (p q : ℕ → Bool) (word : ℕ)
    → word < 32
    → holds_below (λ w. eq_Bool (p w) (q w)) 32 ≡ true
    → p word ≡ q word
agree p q word less all =
    eq_Bool→eq (p word) (q word) (holds_below_lem (λ w. eq_Bool (p w) (q w)) 32 less all)

-- The masks of the code test the bits that `selected` names.
record Agreement (word : ℕ) : Type 0 where
  close :
      (not (bit_and word epollhup == 0) && bit_and word (bit_or epollhup epollin) == epollhup)
      ≡ (has 16 word && not (has 1 word))
  error : not (bit_and word epollerr == 0) ≡ has 8 word
  read : not (bit_and word (bit_or epollin epollpri) == 0) ≡ (has 1 word || has 2 word)
  write : not (bit_and word epollout == 0) ≡ has 4 word

agreement : (word : ℕ) → word < 32 → Agreement word
agreement word less = record {
  close =
      agree (λ w. not (bit_and w epollhup == 0) && bit_and w (bit_or epollhup epollin) == epollhup)
        (λ w. has 16 w && not (has 1 w)) word less refl;
  error = agree (λ w. not (bit_and w epollerr == 0)) (has 8) word less refl;
  read =
      agree (λ w. not (bit_and w (bit_or epollin epollpri) == 0)) (λ w. has 1 w || has 2 w) word
        less refl;
  write = agree (λ w. not (bit_and w epollout == 0)) (has 4) word less refl;
}

&&-assoc : (a b c : Bool) → (a && (b && c)) ≡ ((a && b) && c)
&&-assoc a b c = ground arith

module _ {f g : Filed} (same : SameHandlers f g) (small : f.revents < 32) where
  wants_close_lem :
      wants_close g ≡ ((has 16 f.revents && not (has 1 f.revents)) && is_set f.close_callback)
  unfolding wants_close
  wants_close_lem =
      rw (same.revents, same.close)
        (&&-assoc (not (bit_and f.revents epollhup == 0))
            (bit_and f.revents (bit_or epollhup epollin) == epollhup) (is_set f.close_callback)
          ∙ ap (λ b. b && is_set f.close_callback) (agreement f.revents small).close)

  wants_error_lem : wants_error g ≡ (has 8 f.revents && is_set f.error_callback)
  unfolding wants_error
  wants_error_lem = rw (same.revents, same.error, (agreement f.revents small).error)

  wants_read_lem : wants_read g ≡ ((has 1 f.revents || has 2 f.revents) && is_set f.read_callback)
  unfolding wants_read
  wants_read_lem = rw (same.revents, same.read, (agreement f.revents small).read)

  wants_write_lem : wants_write g ≡ (has 4 f.revents && is_set f.write_callback)
  unfolding wants_write
  wants_write_lem = rw (same.revents, same.write, (agreement f.revents small).write)

pub SameHandlers-refl : (f : Filed) → SameHandlers f f
SameHandlers-refl f = record {
  revents = refl;
  close = refl;
  error = refl;
  read = refl;
  write = refl;
}

pub SameHandlers-trans : {f g h : Filed} → SameHandlers f g → SameHandlers g h → SameHandlers f h
SameHandlers-trans s t = record {
  revents = t.revents ∙ s.revents;
  close = t.close ∙ s.close;
  error = t.error ∙ s.error;
  read = t.read ∙ s.read;
  write = t.write ∙ s.write;
}

module _ {W : Type 0} (filed : W → Filed) (alive : ℕ → W → Bool)
    (invoke : Callback → ℕ → W → Result W) where
  -- The callbacks of a list, one after the other, until one ends abnormally.
  pub run_list : List Callback → ℕ → W → Result W
  run_list [] time w = ok w
  run_list (cb ∷ cbs) time w = do w' ← invoke cb time w; run_list cbs time w'

  run_list-append :
      (xs ys : List Callback) (time : ℕ) (w : W)
      → run_list (xs ++ ys) time w ≡ (run_list xs time w >>= λ w'. run_list ys time w')
  unfolding run_list
  run_list-append [] ys time w = refl
  run_list-append (cb ∷ cbs) ys time w =
      ap (λ k. invoke cb time w >>= k) (fun_ext λ w'. run_list-append cbs ys time w')
      ∙ sym (bind_assoc (invoke cb time w) (run_list cbs time) (run_list ys time))

  abbrev pub Calm : Type 0
  Calm =
      (cb : Callback) (time : ℕ) (w w' : W)
      → invoke cb time w ≡ ok w'
      → SameHandlers (filed w) (filed w')

  -- A guarded call is the run of a list of one callback or none.
  when-run_list :
      (test : Filed → Bool) (chosen : Bool) (cb : Option Callback) (time : ℕ) (w : W)
      → test (filed w) ≡ (chosen && is_set cb)
      → when filed alive invoke test cb time w ≡ run_list (pick chosen cb) time w
  unfolding when call run_list
  when-run_list test true (some cb) time w e = rw e (last_call (invoke cb time w))
    where
      last_call : (r : Result W) → r ≡ (r >>= λ w'. ok w')
      last_call (err fault) = refl
      last_call (ok w') = refl
  when-run_list test true none time w e = rw e
  when-run_list test false cb time w e = rw e

  module _ (calm : Calm) where
    run_list-SameHandlers :
        (cbs : List Callback) (time : ℕ) (w w' : W)
        → run_list cbs time w ≡ ok w'
        → SameHandlers (filed w) (filed w')
    unfolding run_list
    run_list-SameHandlers [] time w w' e =
        subst (λ v. SameHandlers (filed w) (filed v)) (ok-injective e) (SameHandlers-refl (filed w))
    run_list-SameHandlers (cb ∷ cbs) time w w' e =
        let (v, first, rest) = bind_ok (invoke cb time w) (run_list cbs time) e in
        SameHandlers-trans (calm cb time w v first) (run_list-SameHandlers cbs time v w' rest)

    -- A call in a row of calls runs first, and leaves the handlers for the rest.
    then_lem :
        (f : Filed) (m : Result W) (k : W → Result W) (cbs rest : List Callback) (time : ℕ) (w : W)
        → m ≡ run_list cbs time w
        → SameHandlers f (filed w)
        → ((w' : W) → SameHandlers f (filed w') → k w' ≡ run_list rest time w')
        → (m >>= k) ≡ run_list (cbs ++ rest) time w
    then_lem f m k cbs rest time w e same next =
        ap (λ r. r >>= k) e
        ∙ bind_congr (run_list cbs time w) k (run_list rest time)
            (λ w' e'. next w' (SameHandlers-trans same (run_list-SameHandlers cbs time w w' e')))
        ∙ sym (run_list-append cbs rest time w)

    run_callbacks_lem :
        (time : ℕ) (w : W)
        → (filed w).revents < 32
        → run_callbacks filed alive invoke (filed w) time w ≡ run_list (selected (filed w)) time w
    unfolding run_callbacks
    run_callbacks_lem time w small =
        let f : Filed = filed w in
        then_lem f _ _ (pick (has 16 f.revents && not (has 1 f.revents)) f.close_callback) _ time w
          (when-run_list wants_close _ _ time w (wants_close_lem (SameHandlers-refl f) small))
          (SameHandlers-refl f)
          λ w₁ s₁.
            then_lem f _ _ (pick (has 8 f.revents) f.error_callback) _ time w₁
              (when-run_list wants_error _ _ time w₁ (wants_error_lem s₁ small)) s₁
              λ w₂ s₂.
                then_lem f _ _ (pick (has 1 f.revents || has 2 f.revents) f.read_callback) _ time w₂
                  (when-run_list wants_read _ _ time w₂ (wants_read_lem s₂ small)) s₂
                  λ w₃ s₃. when-run_list wants_write _ _ time w₃ (wants_write_lem s₃ small)

    -- Where callbacks leave the Filed's callbacks and `revents_` as they are, and only the five
    -- events of the tests were reported: `handleEvent` runs exactly the callbacks that the events
    -- ask for, each at most once and in the order close, error, read, write, until one ends
    -- abnormally; nothing runs for a tied object that is gone.
    pub handle_event_lem :
        (time : ℕ) (w : W)
        → (filed w).revents < 32
        → handle_event filed alive invoke time w ≡ (
            if (filed w).tied && not (lock filed alive invoke (filed w).tie_target w)
            then ok w
            else run_list (selected (filed w)) time w)
    unfolding handle_event
    handle_event_lem time w small = ground (arith, run_callbacks_lem time w small)
