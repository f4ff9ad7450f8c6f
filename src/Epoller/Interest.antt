-- ===== src/Epoller/Interest.antt =====
-- The methods of Filed that go through the loop to the Epoller: `update`, `remove`, and the
-- changes of interest, each followed by `update()`.
use lucky.Base.{ℕ, Result}
use lucky.Epoller.{Epoller, Control, update, set_object}
use lucky.Filed.Masks.{Change, change}

-- `Filed::update` is `EventLoop::update`, which is `Epoller::update`.
unfoldable pub change_and_update : Control → Change → ℕ → Epoller → Result Epoller
change_and_update control c p e = update control p (set_object p (change c (e.objects p)) e)
