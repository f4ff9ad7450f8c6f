-- ===== src/Filed/Steady.antt =====
-- What a change of the events that a Filed asks for leaves as it was.
use lucky.Base.{ℤ, ◌≡◌, refl, ◌∙◌}
use lucky.Filed.{
  Filed, set_index, with_reading, without_reading, with_writing, without_writing, without_any,
}
use lucky.Filed.Masks.{
  Change, change, enable_reading, disable_reading, enable_writing, disable_writing, disable_all,
}
use lucky.Filed.Dispatch.{SameHandlers, SameHandlers-refl, SameHandlers-trans}

-- The callbacks, the events that came, and the tie.
pub record Steady (f g : Filed) : Type 0 where
  pub handlers : SameHandlers f g
  pub tied : g.tied ≡ f.tied
  pub target : g.tie_target ≡ f.tie_target

pub Steady-refl : (f : Filed) → Steady f f
Steady-refl f = record { handlers = SameHandlers-refl f; tied = refl; target = refl }

pub Steady-trans : {f g h : Filed} → Steady f g → Steady g h → Steady f h
Steady-trans s t = record {
  handlers = SameHandlers-trans s.handlers t.handlers;
  tied = t.tied ∙ s.tied;
  target = t.target ∙ s.target;
}

change_handlers : (c : Change) (f : Filed) → SameHandlers f (change c f)
unfolding change with_reading without_reading with_writing without_writing without_any
change_handlers enable_reading f = record {
  revents = refl;
  close = refl;
  error = refl;
  read = refl;
  write = refl;
}
change_handlers _ f = record {
  revents = refl;
  close = refl;
  error = refl;
  read = refl;
  write = refl;
}

pub change-Steady : (c : Change) (f : Filed) → Steady f (change c f)
unfolding change with_reading without_reading with_writing without_writing without_any
change-Steady enable_reading f = record {
  handlers = change_handlers enable_reading f;
  tied = refl;
  target = refl;
}
change-Steady disable_reading f = record {
  handlers = change_handlers disable_reading f;
  tied = refl;
  target = refl;
}
change-Steady enable_writing f = record {
  handlers = change_handlers enable_writing f;
  tied = refl;
  target = refl;
}
change-Steady disable_writing f = record {
  handlers = change_handlers disable_writing f;
  tied = refl;
  target = refl;
}
change-Steady disable_all f = record {
  handlers = change_handlers disable_all f;
  tied = refl;
  target = refl;
}

pub set_index-Steady : (index : ℤ) (f : Filed) → Steady f (set_index index f)
unfolding set_index
set_index-Steady index f = record {
  handlers = record { revents = refl; close = refl; error = refl; read = refl; write = refl };
  tied = refl;
  target = refl;
}
