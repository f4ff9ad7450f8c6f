-- ===== src/Socket.antt =====
-- include/Socket.h and src/Socket.cpp: the owner of a descriptor. The system calls are arguments,
-- on a state of the kernel that nothing else is said about.
pub mod Options
pub mod Memory
mod Examples
use lucky.Base.{
  ℕ, Bool, true, false, if◌then◌else◌, not, List, [], ◌∷◌, ℤ, pos, negsuc, eq_ℤ, Result, ok, err,
  exit,
}
use lucky.Address.{Address}

-- Each call with its result. `accept4` gives the address of the peer, too.
pub record Kernel (K : Type 0) : Type 0 where
  pub socket : K → ℤ × K
  pub bind : ℕ → Address → K → ℤ × K
  pub listen : ℕ → ℕ → K → ℤ × K
  pub accept4 : ℕ → K → ℤ × Address × K
  pub shutdown : ℕ → K → ℤ × K
  pub setsockopt : ℕ → ℕ → ℕ → ℕ → K → K
  pub close : ℕ → K → K

pub record Socket : Type 0 where
  pub sockfd : ℕ

-- `IPPROTO_TCP` and `SOL_SOCKET`, and the options.
abbrev pub ipproto_tcp : ℕ
ipproto_tcp = 6

abbrev pub sol_socket : ℕ
sol_socket = 1

abbrev pub tcp_nodelay : ℕ
tcp_nodelay = 1

abbrev pub so_reuseaddr : ℕ
so_reuseaddr = 2

abbrev pub so_keepalive : ℕ
so_keepalive = 9

abbrev pub so_reuseport : ℕ
so_reuseport = 15

abbrev pub optval : Bool → ℕ
optval on = if on then 1 else 0

module _ {K : Type 0} (sys : Kernel K) where
  unfoldable pub bind_address : Address → Socket → K → Result K
  bind_address localaddr s k =
      let (result, k') = sys.bind s.sockfd localaddr k in
      if not (eq_ℤ (pos 0) result) then err exit else ok k'

  unfoldable pub listen : Socket → K → Result K
  listen s k =
      let (result, k') = sys.listen s.sockfd 1024 k in
      if not (eq_ℤ (pos 0) result) then err exit else ok k'

  -- The result, and what `peeraddr` points to behind the call.
  unfoldable pub accept : Address → Socket → K → ℤ × Address × K
  accept peeraddr s k =
      let (connfd, addr, k') = sys.accept4 s.sockfd k in
      elim connfd [ pos fd ↦ (pos fd, addr, k') | negsuc n ↦ (negsuc n, peeraddr, k') ]

  -- With true where an error is logged.
  unfoldable pub shutdown_write : Socket → K → Bool × K
  shutdown_write s k =
      let (result, k') = sys.shutdown s.sockfd k in
      elim result [ pos n ↦ (false, k') | negsuc n ↦ (true, k') ]

  unfoldable pub set_tcp_no_delay : Bool → Socket → K → K
  set_tcp_no_delay on s k = sys.setsockopt s.sockfd ipproto_tcp tcp_nodelay (optval on) k

  unfoldable pub set_reuse_addr : Bool → Socket → K → K
  set_reuse_addr on s k = sys.setsockopt s.sockfd sol_socket so_reuseaddr (optval on) k

  unfoldable pub set_reuse_port : Bool → Socket → K → K
  set_reuse_port on s k = sys.setsockopt s.sockfd sol_socket so_reuseport (optval on) k

  unfoldable pub set_keep_alive : Bool → Socket → K → K
  set_keep_alive on s k = sys.setsockopt s.sockfd sol_socket so_keepalive (optval on) k

  -- The destructor.
  unfoldable pub destroy : Socket → K → K
  destroy s k = sys.close s.sockfd k
