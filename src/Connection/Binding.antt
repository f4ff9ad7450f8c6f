-- ===== src/Connection/Binding.antt =====
-- The handlers that the constructor of Connection binds into its Filed, and the tie.
use lucky.Base.{subst, arith, ℕ, ◌≡◌, refl, sym, ◌∙◌, ap, true, some}
use lucky.Filed
use lucky.Filed.Dispatch.{SameHandlers}
use lucky.Filed.{Filed, connection_read, connection_write, set_revents}
use lucky.Epoller.{Epoller, set_object}
use lucky.Epoller.Consistency.{put_self}
use lucky.Epoller.Runs.{InStep, InStep-objects, watch}
use lucky.Connection.{Connection, Context, filed_of}
use lucky.Connection.Stream.{Sound, Kept}

-- The connection once its Filed has the events that came, as `fillActiveFileds` leaves it.
abbrev pub with_revents : ℕ → Context → Context
with_revents revents c = record c {
  eventloop = record (c.eventloop) {
    epoller = set_object c.conn.filed (set_revents revents (filed_of c)) c.eventloop.epoller;
  };
}

-- The handlers of the connection are those of its constructor, and its Filed is tied to it.
pub record Bound (c : Context) : Type 0 where
  pub read : (filed_of c).read_callback ≡ some (connection_read c.conn.id)
  pub write : (filed_of c).write_callback ≡ some (connection_write c.conn.id)
  pub tied : (filed_of c).tied ≡ true
  pub target : (filed_of c).tie_target ≡ some c.conn.id

pub Kept-Bound : {c c' : Context} → Kept c c' → Bound c → Bound c'
Kept-Bound {c} {c'} k b =
    let id : c'.conn.id ≡ c.conn.id = ap (λ (conn : Connection). conn.id) k.conn in
    record {
      read = k.steady.handlers.read ∙ b.read ∙ ap (λ i. some (connection_read i)) (sym id);
      write = k.steady.handlers.write ∙ b.write ∙ ap (λ i. some (connection_write i)) (sym id);
      tied = k.steady.tied ∙ b.tied;
      target = k.steady.target ∙ b.target ∙ ap some (sym id);
    }

module _ (revents : ℕ) (c : Context) where
  filed-with_revents : filed_of (with_revents revents c) ≡ set_revents revents (filed_of c)
  filed-with_revents =
      put_self c.eventloop.epoller.objects c.conn.filed (set_revents revents (filed_of c))

  pub with_revents-Bound : Bound c → Bound (with_revents revents c)
  unfolding set_revents
  with_revents-Bound b = record {
    read = rw filed-with_revents b.read;
    write = rw filed-with_revents b.write;
    tied = rw filed-with_revents b.tied;
    target = rw filed-with_revents b.target;
  }

  pub revents-with_revents : (filed_of (with_revents revents c)).revents ≡ revents
  unfolding set_revents
  revents-with_revents = rw filed-with_revents refl

  pub with_revents-Sound : Sound c → Sound (with_revents revents c)
  unfolding set_revents
  with_revents-Sound s = record {
    in_step =
        InStep-objects c.eventloop.epoller (with_revents revents c).eventloop.epoller.objects
          (λ q. ground arith) (λ q. ground arith) (λ q. ground arith) s.in_step;
    interest = s.interest;
    asks = rw filed-with_revents s.asks;
    output = s.output;
    wanted = s.wanted;
  }

-- A Filed that is tied stays where it is in the Epoller.
module _ (p id : ℕ) (e : Epoller) where
  abbrev tied_at : Epoller
  tied_at = set_object p (Filed.tie id (e.objects p)) e

  pub tied_events : (tied_at.objects p).events ≡ (e.objects p).events
  unfolding Filed.tie
  tied_events = ground arith

  pub tied_handlers : SameHandlers (e.objects p) (tied_at.objects p)
  unfolding Filed.tie
  tied_handlers =
      subst (SameHandlers (e.objects p)) (sym (put_self e.objects p (Filed.tie id (e.objects p))))
        (record { revents = refl; close = refl; error = refl; read = refl; write = refl })

  pub tied_to : ((tied_at.objects p).tied ≡ true) × ((tied_at.objects p).tie_target ≡ some id)
  unfolding Filed.tie
  tied_to =
      subst (λ (f : Filed). (f.tied ≡ true) × (f.tie_target ≡ some id))
        (sym (put_self e.objects p (Filed.tie id (e.objects p)))) (refl, refl)

  tied_fd : (q : ℕ) → (tied_at.objects q).fd ≡ (e.objects q).fd
  unfolding Filed.tie
  tied_fd q = ground arith

  tied_index : (q : ℕ) → (tied_at.objects q).index ≡ (e.objects q).index
  unfolding Filed.tie
  tied_index q = ground arith

  tied_watch : (q : ℕ) → watch q (tied_at.objects q) ≡ watch q (e.objects q)
  unfolding Filed.tie
  tied_watch q = ground arith

  pub tied_InStep : InStep e → InStep tied_at
  tied_InStep = InStep-objects e tied_at.objects tied_fd tied_index tied_watch
