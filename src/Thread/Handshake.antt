-- ===== src/Thread/Handshake.antt =====
-- `start` and the new thread, side by side: the semaphore orders the thread's id before the return.
use mathlib.Core.Bool.{false≢true}
use lucky.Base.{
  ℕ, ◌+◌, ◌-◌, ◌<◌, ◌≡◌, refl, sym, ◌∙◌, ap, subst, Bool, true, false, Result, ok, err, undefined,
  system_error, ok-injective, arith,
}
use lucky.ThreadId
use lucky.Thread.{Thread, Handle, absent, joinable, joined, detached, start, join}

-- Where the owner is: `start` not called, in `sem_wait`, returned from `start`, or from `join`.
pub data Owner : Type 0 where
  idle waiting returned joined_up : Owner

-- Where the new thread is: not there, at its start, behind the assignment of `tid_`, behind
-- `sem_post` with its function running, or at its end.
pub data Worker : Type 0 where
  unmade beginning identified running ended : Worker

-- `sem` is the semaphore, and `cached` the new thread's own `Tid`.
pub record Launch : Type 0 where
  pub thread : Thread
  pub owner : Owner
  pub worker : Worker
  pub sem : ℕ
  pub cached : ℕ

-- A Thread before `start`.
abbrev pub ready : Thread → Launch
ready t = record { thread = t; owner = idle; worker = unmade; sem = 0; cached = 0 }

-- The parts of the new thread's function.
unfoldable pub identify : ℕ → Launch → Launch
identify own l = record l {
  thread = record (l.thread) { tid = ThreadId.tid own l.cached };
  cached = ThreadId.cache_tid own l.cached;
  worker = identified;
}

unfoldable pub post : Launch → Launch
post l = record l { sem = l.sem + 1; worker = running }

-- `sem_wait` returns.
unfoldable pub pass : Launch → Launch
pass l = record l { sem = l.sem - 1; owner = returned }

-- The steps of the two threads; `own` is the id that the kernel gave the new one. `sem_wait`
-- returns when it has taken the semaphore, and also, where `interrupts` says that there are signals
-- with handlers, when it is interrupted: its result is not looked at. The semaphore is on the
-- stack of `start`; what a post does once `start` has returned so early is left open, and is a
-- count here.
pub data Step (interrupts : Bool) (own : ℕ) (l : Launch) : Launch → Type 0 where
  starts :
      (t : Thread)
      → l.owner ≡ idle
      → start l.thread ≡ ok t
      → Step interrupts own l
          (record l { thread = t; owner = waiting; worker = beginning; sem = 0; cached = 0 })
  identifies : l.worker ≡ beginning → Step interrupts own l (identify own l)
  posts : l.worker ≡ identified → Step interrupts own l (post l)
  passes : l.owner ≡ waiting → 0 < l.sem → Step interrupts own l (pass l)
  interrupted :
      l.owner ≡ waiting → interrupts ≡ true → Step interrupts own l (record l { owner = returned })
  ends : l.worker ≡ running → Step interrupts own l (record l { worker = ended })
  joins :
      (t : Thread)
      → l.owner ≡ returned
      → l.worker ≡ ended
      → join l.thread ≡ ok t
      → Step interrupts own l (record l { thread = t; owner = joined_up })

pub data Reach (interrupts : Bool) (own : ℕ) (l : Launch) : Launch → Type 0 where
  here : Reach interrupts own l l
  next :
      {m n : Launch} → Reach interrupts own l m → Step interrupts own m n → Reach interrupts own l n

-- The places that go together, and the count of the semaphore there.
abbrev pub posted : Worker → Bool
posted running = true
posted ended = true
posted worker = false

abbrev pub together : Owner → Worker → Bool
together idle unmade = true
together waiting beginning = true
together waiting identified = true
together waiting running = true
together waiting ended = true
together returned running = true
together returned ended = true
together joined_up ended = true
together owner worker = false

abbrev pub count : Owner → Worker → ℕ
count waiting running = 1
count waiting ended = 1
count owner worker = 0

-- `tid_` is set once the new thread has gone past the assignment.
abbrev pub known : Worker → Bool
known unmade = false
known beginning = false
known worker = true

pub record Launched (own : ℕ) (l : Launch) : Type 0 where
  pub places : together l.owner l.worker ≡ true
  pub sem : l.sem ≡ count l.owner l.worker
  pub fresh : known l.worker ≡ false → l.cached ≡ 0
  pub tid : known l.worker ≡ true → l.thread.tid ≡ own

-- Where the places stand before a step of the new thread, they stand behind it.
begun :
    (o : Owner)
    → together o beginning ≡ true
    → (together o identified ≡ true) × (count o beginning ≡ count o identified)
begun idle e = cc
begun waiting e = (refl, refl)
begun returned e = cc
begun joined_up e = cc

told :
    (o : Owner)
    → together o identified ≡ true
    → (together o running ≡ true) × (count o identified + 1 ≡ count o running)
told idle e = cc
told waiting e = (refl, refl)
told returned e = cc
told joined_up e = cc

done_with :
    (o : Owner)
    → together o running ≡ true
    → (together o ended ≡ true) × (count o running ≡ count o ended)
done_with idle e = cc
done_with waiting e = (refl, refl)
done_with returned e = (refl, refl)
done_with joined_up e = cc

-- The owner passes the semaphore only when the new thread has posted.
passed :
    (w : Worker)
    → together waiting w ≡ true
    → 0 < count waiting w
    → (together returned w ≡ true) × (count waiting w - 1 ≡ count returned w)
passed unmade e some = cc
passed beginning e some = absurd (omega arith)
passed identified e some = absurd (omega arith)
passed running e some = (refl, refl)
passed ended e some = (refl, refl)

join-tid : (t t' : Thread) → join t ≡ ok t' → t'.tid ≡ t.tid
unfolding join
join-tid t t' done = go t.thread done
  where
    go :
        (h : Handle)
        → ◌≡◌ {A = Result Thread}
            (elim h [
              | absent ↦ err undefined
              | joinable ↦ ok (record t { is_join = true; thread = joined })
              | joined ↦ err system_error
              | detached ↦ err system_error
            ])
            (ok t')
        → t'.tid ≡ t.tid
    go absent e = cc
    go joinable e = sym (ap (λ t. t.tid) (ok-injective e))
    go joined e = cc
    go detached e = cc

Step-Launched : (own : ℕ) (l l' : Launch) → Step false own l l' → Launched own l → Launched own l'
unfolding identify post pass ThreadId.tid ThreadId.cache_tid
Step-Launched own l _ (starts t o done) s = record {
  places = refl;
  sem = refl;
  fresh = λ e. refl;
  tid = λ e. cc;
}
Step-Launched own l _ (identifies w) s =
    let (places, same) = begun l.owner (subst (λ w. together l.owner w ≡ true) w s.places) in
    let unset : l.cached ≡ 0 = s.fresh (ap known w) in
    record {
      places = places;
      sem = s.sem ∙ ap (count l.owner) w ∙ same;
      fresh = λ e. cc;
      tid = λ e. ap (λ cached. ThreadId.tid own cached) unset;
    }
Step-Launched own l _ (posts w) s =
    let (places, more) = told l.owner (subst (λ w. together l.owner w ≡ true) w s.places) in
    record {
      places = places;
      sem = ap (λ n. n + 1) (s.sem ∙ ap (count l.owner) w) ∙ more;
      fresh = λ e. cc;
      tid = λ e. s.tid (ap known w);
    }
Step-Launched own l _ (passes o some) s =
    let sem : l.sem ≡ count waiting l.worker = s.sem ∙ ap (λ o. count o l.worker) o in
    let (places, fewer) =
      passed l.worker (subst (λ o. together o l.worker ≡ true) o s.places) (omega arith) in
    record { places = places; sem = ap (λ n. n - 1) sem ∙ fewer; fresh = s.fresh; tid = s.tid }
Step-Launched own l _ (interrupted o signals) s = absurd (false≢true signals)
Step-Launched own l _ (ends w) s =
    let (places, same) = done_with l.owner (subst (λ w. together l.owner w ≡ true) w s.places) in
    record {
      places = places;
      sem = s.sem ∙ ap (count l.owner) w ∙ same;
      fresh = λ e. cc;
      tid = λ e. s.tid (ap known w);
    }
Step-Launched own l _ (joins t o w done) s = record {
  places = ap (together joined_up) w;
  sem = s.sem ∙ (λ i. count (o i) (w i)) ∙ ap (count joined_up) (sym w);
  fresh = λ e. cc;
  tid = λ e. join-tid l.thread t done ∙ s.tid (ap known w);
}

Reach-Launched : (own : ℕ) (t : Thread) {l : Launch} → Reach false own (ready t) l → Launched own l
Reach-Launched own t here = record { places = refl; sem = refl; fresh = λ e. refl; tid = λ e. cc }
Reach-Launched own t (next {m} {n} r s) = Step-Launched own m n s (Reach-Launched own t r)

after_return : (w : Worker) → together returned w ≡ true → known w ≡ true
after_return unmade e = cc
after_return beginning e = cc
after_return identified e = cc
after_return running e = refl
after_return ended e = refl

after_join : (w : Worker) → together joined_up w ≡ true → w ≡ ended
after_join unmade e = cc
after_join beginning e = cc
after_join identified e = cc
after_join running e = cc
after_join ended e = refl

never_stuck : (w : Worker) → together waiting w ≡ true → posted w ≡ true → 0 < count waiting w
never_stuck unmade e p = cc
never_stuck beginning e p = cc
never_stuck identified e p = cc
never_stuck running e p = omega arith
never_stuck ended e p = omega arith

-- In every state that the owner and the new thread can reach from a Thread before `start`, where no
-- signal interrupts `sem_wait`: once
-- `start` has returned, `tid_` is the new thread's own id; once `join` has, the thread's function
-- has ended; and while `start` waits, the semaphore lets it pass as soon as the new thread has
-- posted, so that wakeup is never lost.
pub start_order :
    (own : ℕ) (t : Thread) {l : Launch}
    → Reach false own (ready t) l
    → (l.owner ≡ returned → l.thread.tid ≡ own)
      × (l.owner ≡ joined_up → (l.worker ≡ ended) × (l.thread.tid ≡ own))
      × (l.owner ≡ waiting → posted l.worker ≡ true → 0 < l.sem)
start_order own t {l} r =
    let s = Reach-Launched own t r in
    (
      λ o. s.tid (after_return l.worker (subst (λ o. together o l.worker ≡ true) o s.places)),
      λ o.
          let over : l.worker ≡ ended =
            after_join l.worker (subst (λ o. together o l.worker ≡ true) o s.places) in
          (over, s.tid (ap known over)),
      λ o p.
          let sem : l.sem ≡ count waiting l.worker = s.sem ∙ ap (λ o. count o l.worker) o in
          let some : 0 < count waiting l.worker =
            never_stuck l.worker (subst (λ o. together o l.worker ≡ true) o s.places) p in
          omega arith,
    )
