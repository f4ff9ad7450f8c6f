-- ===== src/Acceptor/Examples.antt =====
-- The Acceptor's theorem at a concrete input.
use lucky.Base.{◌≡◌, refl, true, false, false, none, some, ok, ◌>>=◌}
use lucky.Filed
use lucky.Epoller.{Epoller}
use lucky.Epoller.Consistency.{Consistent}
use lucky.Epoller.Runs.{InStep}
use lucky.Acceptor.{Acceptor, listen, close}
use lucky.Acceptor.Listening.{listen-close}
use lucky.Acceptor.Opening.{open_socket, open_socket_lem}
use lucky.Socket.{bind_address, sol_socket, so_reuseaddr, so_reuseport}
use lucky.Socket.Memory.{Memory, anywhere, memory, look, memory-Remembers}
use lucky.Epoller.Kernel.{kernel, kernel-Documented, quiet, quiet-InStep}

abbrev acceptor : Acceptor
acceptor = record {
  is_listen = false;
  filed = 5;
  new_connection_callback = some 1;
  reuse_addr = true;
  reuse_port = true;
}

asks_nothing : (quiet.objects 5).events ≡ 0
unfolding Filed.init
asks_nothing = refl

listen-close_example :
    (e₁ e₂ : Epoller) × (listen kernel true acceptor quiet
      ≡ ok (record acceptor { is_listen = true }, e₁))
    × InStep e₁
    × ((e₁.objects 5).events ≡ 3)
    × (e₁.interest (e₁.objects 5).fd ≡ some (3, 5))
    × (close kernel (record acceptor { is_listen = true }) e₁ ≡ ok e₂)
    × Consistent e₂
    × (e₂.fileds (e₂.objects 5).fd ≡ none)
    × (e₂.interest (e₂.objects 5).fd ≡ none)
listen-close_example =
    listen-close kernel kernel-Documented acceptor quiet
      (record { reading = false; writing = false }) quiet-InStep asks_nothing

open_socket_lem_example :
    (k₂ : Memory) × (open_socket memory anywhere false (λ fd level option. 0) ≡ (
      bind_address memory anywhere (record { sockfd = 3 }) k₂ >>= λ k₃.
      ok (record { sockfd = 3 }, k₃)))
    × (look 3 sol_socket so_reuseaddr k₂ ≡ 1)
    × (look 3 sol_socket so_reuseport k₂ ≡ 1)
open_socket_lem_example =
    open_socket_lem memory look memory-Remembers anywhere false 3 (λ fd level option. 0)
      (λ fd level option. 0) refl
