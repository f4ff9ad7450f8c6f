-- ===== src/Epoller/Kernel.antt =====
-- A kernel that answers as documented, and an Epoller that watches nothing, for the examples.
use lucky.Base.{refl, none, some, inl, replicate}
use lucky.Filed
use lucky.Epoller.{Epoller, Control, ctl_add, ctl_mod, ctl_del, put}
use lucky.Epoller.Consistency.{Documented}
use lucky.Epoller.Runs.{InStep}

abbrev pub kernel : Control
kernel ctl_add fd events ptr s = elim (s fd) [
  | none ↦ some (put s fd (some (events, ptr)))
  | some r ↦ none
]
kernel ctl_mod fd events ptr s = elim (s fd) [
  | none ↦ none
  | some r ↦ some (put s fd (some (events, ptr)))
]
kernel ctl_del fd events ptr s = elim (s fd) [ none ↦ none | some r ↦ some (put s fd none) ]

pub kernel-Documented : Documented kernel
kernel-Documented = record {
  add_free = λ s fd events ptr h. (put s fd (some (events, ptr)), rw (h, kernel), λ k. refl);
  mod_known = λ s fd events ptr r h. (put s fd (some (events, ptr)), rw (h, kernel), λ k. refl);
  del_known = λ s fd events ptr r h. (put s fd none, rw (h, kernel), λ k. refl);
}

-- The Filed at pointer `p` has the descriptor `p`, and nothing is watched yet.
abbrev pub quiet : Epoller
quiet = record {
  event_list = replicate 16 (0, 0);
  fileds = λ fd. none;
  objects = λ p. Filed.init p;
  interest = λ fd. none;
}

pub quiet-InStep : InStep quiet
unfolding Filed.init
quiet-InStep = record {
  consistent = record { distinct = λ p q h. h; placed = λ p. inl (refl, refl, refl) };
  watched = λ p. refl;
}
