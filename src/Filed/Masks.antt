-- ===== src/Filed/Masks.antt =====
-- The events that a Filed asks for: two flags, whatever calls set and clear them.
use lucky.Base.{
  ℕ, ◌+◌, ◌≡◌, refl, List, [], ◌∷◌, Bool, true, false, not, ◌&&◌, if◌then◌else◌, arith,
}
use lucky.Filed.{
  Filed, init, read_event, write_event, is_none_event, is_writing, is_reading, with_reading,
  without_reading, with_writing, without_writing, without_any,
}

pub data Change : Type 0 where
  enable_reading disable_reading enable_writing disable_writing disable_all : Change

unfoldable pub change : Change → Filed → Filed
change enable_reading f = with_reading f
change disable_reading f = without_reading f
change enable_writing f = with_writing f
change disable_writing f = without_writing f
change disable_all f = without_any f

pub changes : List Change → Filed → Filed
changes [] f = f
changes (c ∷ cs) f = changes cs (change c f)

pub change-fd : (c : Change) (f : Filed) → (change c f).fd ≡ f.fd
unfolding change with_reading without_reading with_writing without_writing without_any
change-fd enable_reading f = refl
change-fd _ f = refl

pub change-index : (c : Change) (f : Filed) → (change c f).index ≡ f.index
unfolding change with_reading without_reading with_writing without_writing without_any
change-index enable_reading f = refl
change-index _ f = refl

-- What is asked for, as a reader of the calls sees it.
pub record Interest : Type 0 where
  pub reading : Bool
  pub writing : Bool

abbrev pub wish : Change → Interest → Interest
wish enable_reading i = record i { reading = true }
wish disable_reading i = record i { reading = false }
wish enable_writing i = record i { writing = true }
wish disable_writing i = record i { writing = false }
wish disable_all i = record { reading = false; writing = false }

abbrev pub wishes : List Change → Interest → Interest
wishes [] i = i
wishes (c ∷ cs) i = wishes cs (wish c i)

abbrev pub mask : Interest → ℕ
mask i = (if i.reading then read_event else 0) + (if i.writing then write_event else 0)

pub change-mask :
    (c : Change) (i : Interest) (f : Filed)
    → f.events ≡ mask i
    → (change c f).events ≡ mask (wish c i)
unfolding change with_reading without_reading with_writing without_writing without_any
change-mask enable_reading i f e = rw e (ground arith)
change-mask disable_reading i f e = rw e (ground arith)
change-mask enable_writing i f e = rw e (ground arith)
change-mask disable_writing i f e = rw e (ground arith)
change-mask disable_all i f e = refl

changes-mask :
    (cs : List Change) (i : Interest) (f : Filed)
    → f.events ≡ mask i
    → (changes cs f).events ≡ mask (wishes cs i)
unfolding changes
changes-mask [] i f e = e
changes-mask (c ∷ cs) i f e = changes-mask cs (wish c i) (change c f) (change-mask c i f e)

pub mask_tests :
    (i : Interest) (f : Filed)
    → f.events ≡ mask i
    → (is_reading f ≡ i.reading)
      × (is_writing f ≡ i.writing)
      × (is_none_event f ≡ (not i.reading && not i.writing))
unfolding is_reading is_writing is_none_event
mask_tests i f e = rw e (ground arith, ground arith, ground arith)

-- A new Filed asks for nothing, and after any calls of `enableReading`, `disableReading`,
-- `enableWriting`, `disableWriting` and `disableAll` the event bits and the three tests say exactly
-- what the calls asked for last.
pub changes_lem :
    (fd : ℕ) (cs : List Change)
    → let f = changes cs (init fd) in
      let i = wishes cs (record { reading = false; writing = false }) in
      (f.events ≡ mask i)
      × (is_reading f ≡ i.reading)
      × (is_writing f ≡ i.writing)
      × (is_none_event f ≡ (not i.reading && not i.writing))
unfolding init
changes_lem fd cs =
    let i : Interest = wishes cs (record { reading = false; writing = false }) in
    let e = changes-mask cs (record { reading = false; writing = false }) (init fd) refl in
    let (r, w, n) = mask_tests i (changes cs (init fd)) e in (e, r, w, n)
