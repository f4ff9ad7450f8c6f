-- ===== src/Address.antt =====
-- include/Address.h and src/Address.cpp: the IPv4 address of a socket. The functions of the network
-- headers are arguments; texts are character codes.
pub mod Texts
mod Examples
use lucky.Base.{ℕ, List, ◌∷◌, ◌++◌, ltb, if◌then◌else◌, length, decimal, Result, ok, err, undefined}

-- `sockaddr_in`: the port and the address are in network byte order.
pub record Address : Type 0 where
  pub sin_port : ℕ
  pub sin_addr : ℕ

module _ (htons ntohs : ℕ → ℕ) (inet_addr : List ℕ → ℕ) (inet_ntop : ℕ → List ℕ) where
  unfoldable pub init : ℕ → List ℕ → Address
  init port ip = record { sin_port = htons port; sin_addr = inet_addr ip }

  unfoldable pub to_ip : Address → List ℕ
  to_ip a = inet_ntop a.sin_addr

  unfoldable pub to_port : Address → ℕ
  to_port a = ntohs a.sin_port

  -- The text and its 0 go to 64 bytes; `sprintf` does not stop at their end.
  unfoldable pub to_ip_port : Address → Result (List ℕ)
  to_ip_port a =
      let text = inet_ntop a.sin_addr ++ (58 ∷ decimal (ntohs a.sin_port)) in
      if ltb (length text) 64 then ok text else err undefined
