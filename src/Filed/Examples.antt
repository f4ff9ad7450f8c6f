-- ===== src/Filed/Examples.antt =====
-- Runs of the Filed code, and its theorems at concrete inputs.
use lucky.Base.{
  ℕ, ◌+◌, ◌≡◌, refl, ◌∙◌, List, [], ◌∷◌, ◌++◌, Bool, true, false, not, ◌&&◌, none, some, Result, ok,
  arith, ap, sym, if◌then◌else◌,
}
use lucky.Base
use lucky.Filed.{
  Filed, Callback, connection_read, connection_write, connection_close, connection_error, init,
  handle_event, is_none_event, is_reading, is_writing, when, call, run_callbacks, wants_close,
  wants_error, wants_read, wants_write,
}
use lucky.Filed.Masks.{enable_reading, enable_writing, disable_reading, changes, changes_lem}
use lucky.Filed.Dispatch.{SameHandlers, run_list, handle_event_lem}

-- A Filed with all its callbacks beside the log of what ran.
abbrev Logged : Type 0
Logged = Filed × List Callback

abbrev log_call : Callback → ℕ → Logged → Result Logged
log_call cb time (f, log) = ok (f, log ++ cb ∷ [])

abbrev connected : Filed
connected = record {
  fd = 7;
  events = 3;
  revents = 0x15;
  index = Base.pos 1;
  tie_target = some 4;
  tied = true;
  read_callback = some (connection_read 4);
  write_callback = some (connection_write 4);
  close_callback = some (connection_close 4);
  error_callback = some (connection_error 4);
}

abbrev alive_4 : ℕ → Logged → Bool
alive_4 obj w = true

log_call-calm :
    (cb : Callback) (time : ℕ) (w w' : Logged) → log_call cb time w ≡ ok w' → SameHandlers w.0 w'.0
log_call-calm cb time w w' e =
    let same : w.0 ≡ w'.0 = ap (λ (v : Logged). v.0) (Base.ok-injective e) in
    record {
      revents = ap (λ f. f.revents) (sym same);
      close = ap (λ f. f.close_callback) (sym same);
      error = ap (λ f. f.error_callback) (sym same);
      read = ap (λ f. f.read_callback) (sym same);
      write = ap (λ f. f.write_callback) (sym same);
    }

-- A hangup with data still to read runs the read and the write callback, and not the close one.
hangup_reads_first :
    handle_event (λ w. w.0) alive_4 log_call 100 (connected, [])
    ≡ ok (connected, connection_read 4 ∷ connection_write 4 ∷ [])
unfolding handle_event run_callbacks when call wants_close wants_error wants_read wants_write
hangup_reads_first = refl

handle_event_lem_example :
    handle_event (λ w. w.0) alive_4 log_call 100 (connected, [])
    ≡ run_list
        (λ w. w.0)
        alive_4
        log_call
        (connection_read 4 ∷ connection_write 4 ∷ [])
        100
        (connected, [])
handle_event_lem_example =
    handle_event_lem (λ w. w.0) alive_4 log_call log_call-calm 100 (connected, []) (omega arith)

changes_lem_example :
    let f = changes (enable_reading ∷ enable_writing ∷ disable_reading ∷ []) (init 7) in
    (f.events ≡ 4) × (is_reading f ≡ false) × (is_writing f ≡ true) × (is_none_event f ≡ false)
changes_lem_example = changes_lem 7 (enable_reading ∷ enable_writing ∷ disable_reading ∷ [])
