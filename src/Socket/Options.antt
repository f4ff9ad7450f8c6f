-- ===== src/Socket/Options.antt =====
-- The options of a socket, and what `bind` finds.
use lucky.Base.{
  ℕ, ◌≡◌, ◌≢◌, refl, ◌∙◌, ap, Bool, List, [], ◌∷◌, ◌==◌, ==_ne, ==_iff, ℕ_discrete, ◌&&◌,
  if◌then◌else◌, ◌⊎◌, inl, inr,
}
use lucky.Socket.{
  Kernel, Socket, ipproto_tcp, sol_socket, tcp_nodelay, so_reuseaddr, so_keepalive, so_reuseport,
  optval, set_tcp_no_delay, set_reuse_addr, set_reuse_port, set_keep_alive,
}

-- `getsockopt` tells what `setsockopt` has set, and one option of a descriptor is none of another.
pub record Remembers {K : Type 0} (sys : Kernel K) (getsockopt : ℕ → ℕ → ℕ → K → ℕ) : Type 0 where
  pub same :
      (fd level option value : ℕ) (k : K)
      → getsockopt fd level option (sys.setsockopt fd level option value k) ≡ value
  pub other :
      (fd level option level' option' value : ℕ) (k : K)
      → (level ≢ level') ⊎ (option ≢ option')
      → getsockopt fd level option (sys.setsockopt fd level' option' value k)
        ≡ getsockopt fd level option k

-- The four setters.
pub data Setting : Type 0 where
  no_delay reuse_addr reuse_port keep_alive : Bool → Setting

-- Which level and option a setter is about, and to what it sets it.
abbrev pub level_of : Setting → ℕ
level_of (no_delay on) = ipproto_tcp
level_of (reuse_addr on) = sol_socket
level_of (reuse_port on) = sol_socket
level_of (keep_alive on) = sol_socket

abbrev pub option_of : Setting → ℕ
option_of (no_delay on) = tcp_nodelay
option_of (reuse_addr on) = so_reuseaddr
option_of (reuse_port on) = so_reuseport
option_of (keep_alive on) = so_keepalive

abbrev pub value_of : Setting → ℕ
value_of (no_delay on) = optval on
value_of (reuse_addr on) = optval on
value_of (reuse_port on) = optval on
value_of (keep_alive on) = optval on

-- The value that a row of settings leaves for an option that was `before`.
unfoldable pub last_value : ℕ → ℕ → ℕ → List Setting → ℕ
last_value level option before [] = before
last_value level option before (setting ∷ settings) =
    last_value level option
      (if level == level_of setting && option == option_of setting
        then value_of setting
        else before)
      settings

module _ {K : Type 0} (sys : Kernel K) where
  unfoldable pub set : Setting → Socket → K → K
  set (no_delay on) s k = set_tcp_no_delay sys on s k
  set (reuse_addr on) s k = set_reuse_addr sys on s k
  set (reuse_port on) s k = set_reuse_port sys on s k
  set (keep_alive on) s k = set_keep_alive sys on s k

  unfoldable pub set_all : List Setting → Socket → K → K
  set_all [] s k = k
  set_all (setting ∷ settings) s k = set_all settings s (set setting s k)

module _ {K : Type 0} (sys : Kernel K) (getsockopt : ℕ → ℕ → ℕ → K → ℕ)
    (memory : Remembers sys getsockopt) where
  set_lem :
      (setting : Setting) (s : Socket) (k : K)
      → set sys setting s k
        ≡ sys.setsockopt s.sockfd (level_of setting) (option_of setting) (value_of setting) k
  unfolding set set_tcp_no_delay set_reuse_addr set_reuse_port set_keep_alive
  set_lem (no_delay on) s k = refl
  set_lem (reuse_addr on) s k = refl
  set_lem (reuse_port on) s k = refl
  set_lem (keep_alive on) s k = refl

  one_setting :
      (level option : ℕ) (setting : Setting) (s : Socket) (k : K)
      → getsockopt s.sockfd level option (set sys setting s k) ≡ (
          if level == level_of setting && option == option_of setting
          then value_of setting
          else getsockopt s.sockfd level option k)
  one_setting level option setting s k =
      rw (set_lem setting s k) (elim (ℕ_discrete level (level_of setting)) [
        | no apart ↦ rw (==_ne level (level_of setting) apart) (
            memory.other s.sockfd level option (level_of setting) (option_of setting)
              (value_of setting) k (inl apart))
        | yes e ↦ elim (ℕ_discrete option (option_of setting)) [
          | no apart ↦
              rw ((==_iff level (level_of setting)).1 e, ==_ne option (option_of setting) apart)
                (memory.other s.sockfd level option (level_of setting) (option_of setting)
                  (value_of setting) k (inr apart))
          | yes e' ↦
              rw ((==_iff level (level_of setting)).1 e, (==_iff option (option_of setting)).1 e')
                ((λ i. getsockopt s.sockfd (e i) (e' i) (
                    sys.setsockopt s.sockfd (level_of setting) (option_of setting)
                      (value_of setting) k))
                  ∙ memory.same s.sockfd (level_of setting) (option_of setting) (value_of setting)
                      k)
        ]
      ])

  -- With a kernel that remembers the options of a socket, each apart from the others: after any row
  -- of calls of the four setters, every option has the value that it was set to last, or the one it
  -- had before if it was not among them.
  pub set_all-last_value :
      (settings : List Setting) (level option : ℕ) (s : Socket) (k : K)
      → getsockopt s.sockfd level option (set_all sys settings s k)
        ≡ last_value level option (getsockopt s.sockfd level option k) settings
  unfolding set_all last_value
  set_all-last_value [] level option s k = refl
  set_all-last_value (setting ∷ settings) level option s k =
      set_all-last_value settings level option s (set sys setting s k)
      ∙ ap (λ before. last_value level option before settings)
          (one_setting level option setting s k)
