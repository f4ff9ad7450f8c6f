-- ===== src/Socket/Memory.antt =====
-- A kernel that remembers the options of its descriptors, for the examples.
use lucky.Base.{
  ℕ, ◌≡◌, Bool, false, ◌==◌, ==_refl, ==_ne, ◌&&◌, if◌then◌else◌, pos, inl, inr, arith,
}
use lucky.Address.{Address}
use lucky.Socket.{Kernel}
use lucky.Socket.Options.{Remembers}

-- The options of the descriptors, and nothing else.
abbrev pub Memory : Type 0
Memory = ℕ → ℕ → ℕ → ℕ

abbrev pub anywhere : Address
anywhere = record { sin_port = 0; sin_addr = 0 }

abbrev pub memory : Kernel Memory
memory = record {
  socket = λ k. (pos 3, k);
  bind = λ fd addr k. (pos 0, k);
  listen = λ fd backlog k. (pos 0, k);
  accept4 = λ fd k. (pos 4, anywhere, k);
  shutdown = λ fd k. (pos 0, k);
  setsockopt = λ fd level option value k fd' level' option'.
      if (fd' == fd && level' == level) && option' == option then value else k fd' level' option';
  close = λ fd k. k;
}

abbrev pub look : ℕ → ℕ → ℕ → Memory → ℕ
look fd level option k = k fd level option

pub memory-Remembers : Remembers memory look
memory-Remembers = record {
  same = λ fd level option value k. rw (==_refl fd, ==_refl level, ==_refl option);
  other = λ fd level option level' option' value k apart. elim apart [
    | inl h ↦ rw (==_refl fd, ==_ne level level' h)
    | inr h ↦
        rw (==_ne option option' h) (never (fd == fd && level == level') value (k fd level option))
  ];
}
  where
    never : (b : Bool) (value old : ℕ) → (if b && false then value else old) ≡ old
    never b value old = ground arith
