-- ===== src/Address/Texts.antt =====
-- The texts of an address.
use lucky.Base.{
  ℕ, ◌≤◌, ◌<◌, ◌≡◌, refl, List, ◌∷◌, ◌++◌, arith, length, length-append, lt→ltb, decimal,
  length-decimal, ok,
}
use lucky.Address.{init, to_ip, to_port, to_ip_port}

-- What the network headers promise: the byte orders of a 16-bit number undo one another, and a
-- dotted address has at most 15 characters.
pub record Documented (htons ntohs : ℕ → ℕ) (inet_ntop : ℕ → List ℕ) : Type 0 where
  pub order : (port : ℕ) → port < 65536 → ntohs (htons port) ≡ port
  pub dotted : (addr : ℕ) → length (inet_ntop addr) ≤ 15

-- The port of an address that was made from a 16-bit port is that port, and `toIpPort` stays in its
-- buffer and gives the dotted address, a colon and the port in at most 21 characters.
pub to_ip_port_lem :
    (htons ntohs : ℕ → ℕ) (inet_addr : List ℕ → ℕ) (inet_ntop : ℕ → List ℕ)
    → Documented htons ntohs inet_ntop
    → (port : ℕ) (ip : List ℕ) → port < 65536
    → let a = init htons ntohs inet_addr inet_ntop port ip in
      let text = to_ip htons ntohs inet_addr inet_ntop a ++ (58 ∷ decimal port) in
      (to_port htons ntohs inet_addr inet_ntop a ≡ port)
      × (to_ip_port htons ntohs inet_addr inet_ntop a ≡ ok text)
      × (length text ≤ 21)
unfolding init to_ip to_port to_ip_port
to_ip_port_lem htons ntohs inet_addr inet_ntop doc port ip small =
    let dotted : List ℕ = inet_ntop (inet_addr ip) in
    let short : length (dotted ++ (58 ∷ decimal port)) ≤ 21 = omega (
      arith,
      length-append dotted (58 ∷ decimal port),
      length-decimal 5 port (omega arith) (omega arith),
      doc.dotted (inet_addr ip),
    ) in
    (
      doc.order port small,
      rw (doc.order port small, lt→ltb (length (dotted ++ (58 ∷ decimal port))) 64 (omega arith))
          refl,
      short,
    )
