-- ===== src/Epoller/Wait.antt =====
-- `epoll`: what a wait hands to the loop, on success, on a timeout and on an error.
use lucky.Base.{
  ℕ, ◌+◌, ◌-◌, ◌*◌, ◌^◌, ◌≤◌, ◌<◌, ◌≡◌, refl, ◌∙◌, ap, List, [], ◌∷◌, ◌++◌, map, Option, none, some,
  ◌==◌, if◌then◌else◌, length, to_size-pos, to_int_lem, ==_iff, get_elem?-drop, ==_refl, ==_ne,
  drop, replicate, pos, negsuc, arith, to_size, to_int, sub_size_lem, ok, lt→ltb, length-append,
  length-drop, length-replicate, ℕ_discrete,
}
use mathlib.Core.List.{append_assoc, append-nil}
use lucky.Filed.{Filed, set_revents}
use lucky.Epoller.{
  Epoller, Waited, happened, put, set_object, fill_from, fill_active_fileds, grow, epoll,
}

-- The last events that a wait reported for a pointer.
abbrev pub last_report : List (ℕ × ℕ) → ℕ → Option ℕ
last_report [] p = none
last_report ((events, q) ∷ ready) p = elim (last_report ready p) [
  | some later ↦ some later
  | none ↦ if p == q then some events else none
]

abbrev pub reported : Option ℕ → Filed → Filed
reported none f = f
reported (some events) f = set_revents events f

mark : List (ℕ × ℕ) → Epoller → Epoller
mark [] e = e
mark (entry ∷ ready) e = mark ready (set_object entry.1 (set_revents entry.0 (e.objects entry.1)) e)

objects-mark :
    (ready : List (ℕ × ℕ)) (e : Epoller) (p : ℕ)
    → (mark ready e).objects p ≡ reported (last_report ready p) (e.objects p)
unfolding mark
objects-mark [] e p = refl
objects-mark ((events, q) ∷ ready) e p =
    objects-mark ready (set_object q (set_revents events (e.objects q)) e) p
    ∙ again (last_report ready p)
  where
    again :
        (later : Option ℕ)
        → reported later (put e.objects q (set_revents events (e.objects q)) p)
          ≡ reported
              (elim later [ some l ↦ some l | none ↦ if p == q then some events else none ])
              (e.objects p)
    again none = elim (ℕ_discrete p q) [
      | yes same ↦ rw (same, ==_refl q)
      | no apart ↦ rw (==_ne p q apart)
    ]
    again (some l) = elim (ℕ_discrete p q) [
      | yes same ↦ unfold set_revents in rw (same, ==_refl q)
      | no apart ↦ rw (==_ne p q apart)
    ]

mark-list : (ready : List (ℕ × ℕ)) (e : Epoller) → (mark ready e).event_list ≡ e.event_list
unfolding mark
mark-list [] e = refl
mark-list (entry ∷ ready) e = mark-list ready _

mark-interest : (ready : List (ℕ × ℕ)) (e : Epoller) → (mark ready e).interest ≡ e.interest
unfolding mark
mark-interest [] e = refl
mark-interest (entry ∷ ready) e = mark-interest ready _

mark-fileds : (ready : List (ℕ × ℕ)) (e : Epoller) → (mark ready e).fileds ≡ e.fileds
unfolding mark
mark-fileds [] e = refl
mark-fileds (entry ∷ ready) e = mark-fileds ready _

fill_from_lem :
    (ready post : List (ℕ × ℕ)) (i : ℕ) (active : List ℕ) (e : Epoller)
    → drop i e.event_list ≡ ready ++ post
    → fill_from (length ready) i active e
      ≡ ok (active ++ map (λ entry. entry.1) ready, mark ready e)
unfolding fill_from mark
fill_from_lem [] post i active e h = rw (append-nil active)
fill_from_lem (entry ∷ ready) post i active e h =
    let (here, later) = get_elem?-drop e.event_list i entry (ready ++ post) h in
    let next : Epoller = set_object entry.1 (set_revents entry.0 (e.objects entry.1)) e in
    rw (here, fill_from)
      (fill_from_lem ready post (i + 1) (active ++ (entry.1 ∷ [])) next later
        ∙ ap (λ l. ok (l, mark ready next))
            (append_assoc active (entry.1 ∷ []) (map (λ entry. entry.1) ready)))

-- What a wait with ready events has to hand to the loop.
pub record Handed (ready : List (ℕ × ℕ)) (e e' : Epoller) : Type 0 where
  pub objects : (p : ℕ) → e'.objects p ≡ reported (last_report ready p) (e.objects p)
  pub interest : e'.interest ≡ e.interest
  pub fileds : e'.fileds ≡ e.fileds
  pub list_size : length e'.event_list ≡ (
      if length ready + 1 == length e.event_list
      then 2 * length e.event_list
      else length e.event_list)

-- What `epoll_wait` promises of a result that is a number of events.
pub record Delivers (w : Waited) (e : Epoller) : Type 0 where
  pub counted : w.result ≡ pos (length w.ready)
  pub some_ready : 0 < length w.ready
  pub bounded : length w.ready ≤ length e.event_list
  pub legal : length e.event_list < 2 ^ 31

-- The Epoller once the kernel has written `ready` over the event list.
abbrev delivered : List (ℕ × ℕ) → Epoller → Epoller
delivered ready e = record e { event_list = ready ++ drop (length ready) e.event_list }

length-delivered :
    (ready : List (ℕ × ℕ)) (e : Epoller)
    → length ready ≤ length e.event_list
    → length (delivered ready e).event_list ≡ length e.event_list
length-delivered ready e h = omega (
  arith,
  length-append ready (drop (length ready) e.event_list),
  length-drop (length ready) e.event_list,
)

-- The loop and the growth, on the event list that the kernel has filled.
filled_lem :
    (ready : List (ℕ × ℕ)) (active : List ℕ) (e : Epoller)
    → fill_active_fileds (pos (length ready)) active (delivered ready e)
      ≡ ok (active ++ map (λ entry. entry.1) ready, mark ready (delivered ready e))
unfolding fill_active_fileds
filled_lem ready active e =
    fill_from_lem ready (drop (length ready) e.event_list) 0 active (delivered ready e) refl

length-grow : (n : ℕ) (entries : List (ℕ × ℕ)) → length entries ≤ n → length (grow n entries) ≡ n
length-grow n entries h = omega (
  arith,
  length-append entries (replicate (n - length entries) (0, 0)),
  length-replicate {A = ℕ × ℕ} (n - length entries) (0, 0),
)

module _ (w : Waited) (active : List ℕ) (e : Epoller) where
  -- When events are ready, `epoll` appends the Fileds of exactly these events to the active list,
  -- in the kernel's order, and each Filed's `revents_` becomes what was last reported for it. The
  -- event list doubles exactly when one entry was left over, and not when it was full.
  pub epoll_ready :
      Delivers w e
      → (e' : Epoller) × (epoll w active e
          ≡ ok (happened, active ++ map (λ entry. entry.1) w.ready, e'))
        × Handed w.ready e e'
  unfolding epoll
  epoll_ready d =
      let n : ℕ = length w.ready in
      let e₂ : Epoller = mark w.ready (delivered w.ready e) in
      let size = length-delivered w.ready e d.bounded in
      let marked : length e₂.event_list ≡ length e.event_list =
        ap length (mark-list w.ready (delivered w.ready e)) ∙ size in
      elim (ℕ_discrete (n + 1) (length e.event_list)) [
        | yes left ↦ (
          record e₂ { event_list = grow (length e.event_list * 2) e₂.event_list },
          rw (
            d.counted,
            to_size-pos n (omega arith),
            lt→ltb 0 n d.some_ready,
            to_int_lem n (omega arith),
            filled_lem w.ready active e,
            size,
            sub_size_lem (length e.event_list) 1 (omega arith) (omega arith),
            (==_iff n (length e.event_list - 1)).1 (omega arith),
          ),
          record {
            objects = objects-mark w.ready (delivered w.ready e);
            interest = mark-interest w.ready (delivered w.ready e);
            fileds = mark-fileds w.ready (delivered w.ready e);
            list_size =
                rw ((==_iff (n + 1) (length e.event_list)).1 left) (
                  omega (arith, length-grow (length e.event_list * 2) e₂.event_list (omega arith)));
          },
        )
        | no full ↦ (
          e₂,
          rw (
            d.counted,
            to_size-pos n (omega arith),
            lt→ltb 0 n d.some_ready,
            to_int_lem n (omega arith),
            filled_lem w.ready active e,
            size,
            sub_size_lem (length e.event_list) 1 (omega arith) (omega arith),
            ==_ne n (length e.event_list - 1) (omega arith),
          ),
          record {
            objects = objects-mark w.ready (delivered w.ready e);
            interest = mark-interest w.ready (delivered w.ready e);
            fileds = mark-fileds w.ready (delivered w.ready e);
            list_size = rw (==_ne (n + 1) (length e.event_list) full) marked;
          },
        )
      ]

  -- When `epoll_wait` fails, its -1 passes the test for events as a large `size_t`: nothing is
  -- handed to the loop, and `epoll` never reports the error, whatever `errno` says.
  epoll_failure_unreported :
      w.result ≡ negsuc 0
      → w.ready ≡ []
      → 0 < length e.event_list
      → length e.event_list < 2 ^ 31
      → epoll w active e ≡ ok (happened, active, e)
  unfolding epoll fill_active_fileds to_size to_int
  epoll_failure_unreported failed nothing some_room legal = rw (
    failed,
    nothing,
    sub_size_lem (length e.event_list) 1 (omega arith) (omega arith),
    ==_ne 18446744073709551615 (length e.event_list - 1) (omega arith),
  )
