-- ===== src/Acceptor/Opening.antt =====
-- The constructor of an Acceptor, on the kernel: how its socket comes to its address.
use lucky.Base.{
  ℤ, ap, ℕ, ◌≡◌, ap, ◌∙◌, Bool, true, pos, negsuc, inr, Result, ok, err, exit, ◌>>=◌, arith,
}
use lucky.Address.{Address}
use lucky.Socket
use lucky.Socket.{Kernel, Socket, sol_socket, so_reuseaddr, so_reuseport, bind_address}
use lucky.Socket.Options.{Remembers}

module _ {K : Type 0} (sys : Kernel K) where
  -- What follows on the answer of `socket`: the two options, and `bindAddress`.
  unfoldable pub configure : Address → ℤ × K → Result (Socket × K)
  configure listen_addr (negsuc n, k) = err exit
  configure listen_addr (pos fd, k) = do
    let s : Socket = record { sockfd = fd }
    k' ←
        Socket.bind_address sys listen_addr s
          (Socket.set_reuse_port sys true s (Socket.set_reuse_addr sys true s k))
    ok (s, k')

  -- The parameter `reuseport` is not used.
  unfoldable pub open_socket : Address → Bool → K → Result (Socket × K)
  open_socket listen_addr reuseport k = configure listen_addr (sys.socket k)

pub open_socket_lem :
    {K : Type 0} (sys : Kernel K) (getsockopt : ℕ → ℕ → ℕ → K → ℕ)
    → Remembers sys getsockopt
    → (listen_addr : Address) (reuseport : Bool) (fd : ℕ) (k k₁ : K) → sys.socket k ≡ (pos fd, k₁)
    → (k₂ : K) × (open_socket sys listen_addr reuseport k ≡ (
        bind_address sys listen_addr (record { sockfd = fd }) k₂ >>= λ k₃.
        ok (record { sockfd = fd }, k₃)))
      × (getsockopt fd sol_socket so_reuseaddr k₂ ≡ 1)
      × (getsockopt fd sol_socket so_reuseport k₂ ≡ 1)
unfolding open_socket configure Socket.set_reuse_addr Socket.set_reuse_port
open_socket_lem sys getsockopt memory listen_addr reuseport fd k k₁ made =
    let k' = sys.setsockopt fd sol_socket so_reuseaddr 1 k₁ in
    (
      sys.setsockopt fd sol_socket so_reuseport 1 k',
      ap (configure sys listen_addr) made,
      memory.other fd sol_socket so_reuseaddr sol_socket so_reuseport 1 k'
            (inr (λ e. absurd (omega arith)))
          ∙ memory.same fd sol_socket so_reuseaddr 1 k₁,
      memory.same fd sol_socket so_reuseport 1 k',
    )
