-- ===== src/Epoller.antt =====
-- include/Epoller.h and src/Epoller.cpp, for the Fileds of one loop. `epoll_ctl` and `epoll_wait`
-- are arguments; the kernel's interest list is the state that `epoll_ctl` reads and changes.
pub mod Interest
pub mod Consistency
pub mod Requests
pub mod Runs
pub mod Obedience
pub mod Newcomer
pub mod Wait
pub mod Kernel
mod Examples
use lucky.Base.{
  ℕ, zero, suc, ◌+◌, ◌-◌, ◌*◌, ◌^◌, Bool, true, false, not, ◌&&◌, ◌||◌, List, [], ◌∷◌, ◌++◌, Option,
  none, some, ◌==◌, ltb, if◌then◌else◌, length, get_elem?, drop, replicate, ℤ, pos, negsuc, eq_ℤ,
  to_size, to_int, sub_size, Result, ok, err, undefined, assertion, exit, ◌>>=◌,
}
use lucky.Filed.{Filed, set_index, set_revents, is_none_event}

-- The states of a Filed in its Epoller.
abbrev pub new : ℤ
new = negsuc 0

abbrev pub added : ℤ
added = pos 1

abbrev pub deleted : ℤ
deleted = pos 2

abbrev pub event_list_size : ℕ
event_list_size = 16

-- For a descriptor, the events watched for and the pointer in `data.ptr`.
abbrev pub InterestList : Type 0
InterestList = ℕ → Option (ℕ × ℕ)

pub data Operation : Type 0 where
  ctl_add ctl_mod ctl_del : Operation

-- `epoll_ctl(epollfd_, operation, fd, {events, ptr})`: the interest list after it, or a failure.
abbrev pub Control : Type 0
Control = Operation → ℕ → ℕ → ℕ → InterestList → Option InterestList

-- `event_list` is `events_`, a vector of (events, data.ptr); `objects` are the Fileds behind the
-- pointers; `interest` is the kernel's list.
pub record Epoller : Type 0 where
  pub event_list : List (ℕ × ℕ)
  pub fileds : ℕ → Option ℕ
  pub objects : ℕ → Filed
  pub interest : InterestList

abbrev pub put {ℓ} : {V : Type ℓ} → (ℕ → V) → ℕ → V → ℕ → V
put m k v j = if j == k then v else m j

-- A new Epoller for the given Fileds; `epoll_create1` gives a descriptor or a failure.
unfoldable pub init : Bool → (ℕ → Filed) → Result Epoller
init created objects =
    if created
    then ok (record {
      event_list = replicate event_list_size (0, 0);
      fileds = λ fd. none;
      objects = objects;
      interest = λ fd. none;
    })
    else err exit

abbrev pub set_object : ℕ → Filed → Epoller → Epoller
set_object p f e = record e { objects = put e.objects p f }

-- `filed` as the pointer `p`.
unfoldable pub has_filed : ℕ → Epoller → Bool
has_filed p e = elim (e.fileds (e.objects p).fd) [ none ↦ false | some q ↦ q == p ]

-- A failure is logged for EPOLL_CTL_DEL and ends the process otherwise.
abbrev pub after_control : Operation → Epoller → Option InterestList → Result Epoller
after_control operation e (some interest) = ok (record e { interest = interest })
after_control ctl_del e none = ok e
after_control operation e none = err exit

unfoldable pub update_helper : Control → Operation → ℕ → Epoller → Result Epoller
update_helper control operation p e =
    let f = e.objects p in after_control operation e (control operation f.fd f.events p e.interest)

-- The two `assert`s for a Filed that was deleted.
abbrev pub still_known : ℕ → Option ℕ → Bool
still_known p none = false
still_known p (some q) = q == p

unfoldable pub update : Control → ℕ → Epoller → Result Epoller
update control p e =
    let f = e.objects p in
    if eq_ℤ f.index new || eq_ℤ f.index deleted
    then (do
      e₁ ←
          if eq_ℤ f.index new
          then ok (record e { fileds = put e.fileds f.fd (some p) })
          else if still_known p (e.fileds f.fd)
          then ok e
          else err assertion
      update_helper control ctl_add p (set_object p (set_index added f) e₁))
    else if is_none_event f
    then (do
      e₁ ← update_helper control ctl_del p e
      ok (set_object p (set_index deleted (e₁.objects p)) e₁))
    else update_helper control ctl_mod p e

unfoldable pub remove : Control → ℕ → Epoller → Result Epoller
remove control p e = do
  let f = e.objects p
  let e₁ = record e { fileds = put e.fileds f.fd none }
  e₂ ← if eq_ℤ f.index added then update_helper control ctl_del p e₁ else ok e₁
  ok (set_object p (set_index new (e₂.objects p)) e₂)

-- What `epoll_wait` did: its result, the events that it stored, and `errno`.
pub record Waited : Type 0 where
  pub result : ℤ
  pub ready : List (ℕ × ℕ)
  pub errno : ℕ

-- The `for` loop of `fillActiveFileds` over the entries from `i` on, `count` of them left.
unfoldable pub fill_from : ℕ → ℕ → List ℕ → Epoller → Result (List ℕ × Epoller)
fill_from zero i active e = ok (active, e)
fill_from (suc count) i active e = elim (get_elem? e.event_list i) [
  | none ↦ err undefined
  | some entry ↦
      fill_from count (i + 1) (active ++ (entry.1 ∷ []))
        (set_object entry.1 (set_revents entry.0 (e.objects entry.1)) e)
]

-- `events_num` has been converted to `int`; a negative number of rounds is none.
unfoldable pub fill_active_fileds : ℤ → List ℕ → Epoller → Result (List ℕ × Epoller)
fill_active_fileds (pos count) active e = fill_from count 0 active e
fill_active_fileds (negsuc n) active e = ok (active, e)

-- What `epoll` logs about the wait.
pub data Report : Type 0 where
  happened timeout poll_error silent : Report

abbrev pub eintr : ℕ
eintr = 4

-- `events_.resize(n)` for a vector that does not shrink.
abbrev pub grow : ℕ → List (ℕ × ℕ) → List (ℕ × ℕ)
grow n entries = entries ++ replicate (n - length entries) (0, 0)

-- The list of active Fileds is filled up, and the kernel has written `ready` over `events_`.
unfoldable pub epoll : Waited → List ℕ → Epoller → Result (Report × List ℕ × Epoller)
epoll w active e =
    let events_num = to_size w.result in
    let e₁ = record e { event_list = w.ready ++ drop (length w.ready) e.event_list } in
    let size = length e₁.event_list in
    if ltb 0 events_num
    then (do
      (filled, e₂) ← fill_active_fileds (to_int events_num) active e₁
      ok (
        happened,
        filled,
        if events_num == sub_size size 1
            then record e₂ { event_list = grow (size * 2) e₂.event_list }
            else e₂,
      ))
    else if events_num == 0
    then ok (timeout, active, e₁)
    else if not (w.errno == eintr)
    then ok (poll_error, active, e₁)
    else ok (silent, active, e₁)
