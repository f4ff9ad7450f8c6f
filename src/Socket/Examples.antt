-- ===== src/Socket/Examples.antt =====
-- The socket's theorem at a concrete input.
use lucky.Base.{◌≡◌, [], ◌∷◌, true, false}
use lucky.Socket.{sol_socket, so_keepalive}
use lucky.Socket.Memory.{memory, look, memory-Remembers}
use lucky.Socket.Options.{keep_alive, no_delay, last_value, set_all, set_all-last_value}

set_all-last_value_example :
    look 3 sol_socket so_keepalive (
      set_all memory
        (keep_alive true ∷ no_delay true ∷ keep_alive false ∷ [])
        (record { sockfd = 3 })
        (λ fd level option. 7))
    ≡ 0
unfolding last_value
set_all-last_value_example =
    set_all-last_value memory look memory-Remembers
      (keep_alive true ∷ no_delay true ∷ keep_alive false ∷ []) sol_socket so_keepalive
      (record { sockfd = 3 }) (λ fd level option. 7)
