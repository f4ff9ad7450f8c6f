-- ===== src/Acceptor.antt =====
-- include/Acceptor.h and src/Acceptor.cpp: the listening socket of the base loop. `accept4` and
-- `listen` are arguments, and so are the results of `socket` and `bind` in the constructor.
pub mod Listening
pub mod Opening
mod Examples
use lucky.Base.{
  ℕ, Bool, true, false, Option, none, some, if◌then◌else◌, ◌==◌, Result, ok, err, exit, ◌>>=◌,
}
use lucky.Address.{Address}
use lucky.Filed
use lucky.Filed.{Filed, acceptor_read}
use lucky.Filed.Masks.{enable_reading, disable_all}
use lucky.Epoller
use lucky.Epoller.{Epoller, Control, set_object}
use lucky.Epoller.Interest.{change_and_update}

-- `filed` is the pointer of `acceptFiled_`; the last two are options of the socket.
pub record Acceptor : Type 0 where
  pub is_listen : Bool
  pub filed : ℕ
  pub new_connection_callback : Option ℕ
  pub reuse_addr : Bool
  pub reuse_port : Bool

-- The constructor, with the descriptor that `socket` gave, if it did, and whether `bind` succeeded.
-- The parameter `reuseport` is not used.
unfoldable pub init : Option ℕ → Bool → ℕ → Bool → Epoller → Result (Acceptor × Epoller)
init none bound p reuseport e = err exit
init (some sockfd) bound p reuseport e =
    if bound
    then ok (
      record {
        is_listen = false;
        filed = p;
        new_connection_callback = none;
        reuse_addr = true;
        reuse_port = true;
      },
      set_object p (Filed.set_read_callback acceptor_read (Filed.init sockfd)) e,
    )
    else err exit

unfoldable pub set_new_connection_callback : ℕ → Acceptor → Acceptor
set_new_connection_callback cb a = record a { new_connection_callback = some cb }

-- `listening` is whether the system call `listen` succeeded; Socket::listen ends the process if
-- not.
unfoldable pub listen : Control → Bool → Acceptor → Epoller → Result (Acceptor × Epoller)
listen control listening a e =
    if listening
    then (do
      e' ← change_and_update control enable_reading a.filed e
      ok (record a { is_listen = true }, e'))
    else err exit

-- The destructor.
unfoldable pub close : Control → Acceptor → Epoller → Result Epoller
close control a e = do
  e₁ ← change_and_update control disable_all a.filed e
  Epoller.remove control a.filed e₁

-- What `accept4` did: a descriptor and the peer's address, or the error code.
pub data Answer : Type 0 where
  accepted : ℕ → Address → Answer
  failed : ℕ → Answer

-- What `handleRead` does: it calls the callback, closes the descriptor, or logs the error, with a
-- line more for EMFILE.
pub data Reaction : Type 0 where
  hand_over : ℕ → ℕ → Address → Reaction
  close_socket : ℕ → Reaction
  log_error : Bool → Reaction

abbrev pub emfile : ℕ
emfile = 24

unfoldable pub handle_read : Answer → Acceptor → Reaction
handle_read (accepted connfd peer) a = elim a.new_connection_callback [
  | none ↦ close_socket connfd
  | some cb ↦ hand_over cb connfd peer
]
handle_read (failed errno) a = log_error (errno == emfile)
