-- ===== src/Event/Threads.antt =====
-- Threads that use one event. Each step is what a thread does while it holds the mutex, so the steps
-- interleave freely; a sleeping thread is woken by a broadcast, or by itself.
use of_core_darwin.Base.{ℕ, zero, suc, ◌+◌, ◌≡◌, refl, Bool, true, false, arith}
use of_core_darwin.Event.{EventType, DarwinEvent, take}

pub record System : Type 0 where
  pub event : DarwinEvent
  -- Threads in `pthread_cond_wait`, threads that were woken and are yet to take the mutex, waits that
  -- returned, and waits that began.
  pub sleeping : ℕ
  pub woken : ℕ
  pub returned : ℕ
  pub begun : ℕ

abbrev pub with_signal : System → Bool → DarwinEvent
with_signal s b = record (s.event) { signalled = b }

pub data Step (s : System) : System → Type 0 where
  set : Step s (record s { event = with_signal s true; sleeping = 0; woken = s.woken + s.sleeping })
  reset : Step s (record s { event = with_signal s false })
  -- `ofc_event_wait_impl` finds the event signalled, or goes to sleep.
  pass :
      s.event.signalled ≡ true
      → Step s (record s { event = take s.event; returned = s.returned + 1; begun = s.begun + 1 })
  sleep :
      s.event.signalled ≡ false
      → Step s (record s { sleeping = s.sleeping + 1; begun = s.begun + 1 })
  spurious : (n : ℕ) → s.sleeping ≡ suc n → Step s (record s { sleeping = n; woken = s.woken + 1 })
  -- A woken thread takes the mutex and goes on; it does not test the signal again.
  resume :
      (n : ℕ)
      → s.woken ≡ suc n
      → Step s (record s { event = take s.event; woken = n; returned = s.returned + 1 })

pub data Reach (s : System) : System → Type 0 where
  here : Reach s s
  next : {t u : System} → Reach s t → Step t u → Reach s u

abbrev pub start : EventType → System
start event_type = record {
  event = record { event_type = event_type; signalled = false };
  sleeping = 0;
  woken = 0;
  returned = 0;
  begun = 0;
}

-- Nobody sleeps while the event is signalled, and every wait that began is accounted for.
pub record Inv (event_type : EventType) (s : System) : Type 0 where
  pub awake : s.event.signalled ≡ true → s.sleeping ≡ 0
  pub accounted : s.sleeping + s.woken + s.returned ≡ s.begun
  pub same_type : s.event.event_type ≡ event_type

Step-Inv : {event_type : EventType} {s t : System} → Step s t → Inv event_type s → Inv event_type t
unfolding take
Step-Inv set v = record {
  awake = λ h. refl;
  accounted = omega (arith, v.accounted);
  same_type = v.same_type;
}
Step-Inv reset v = record { awake = λ h. cc; accounted = v.accounted; same_type = v.same_type }
Step-Inv (pass on) v = grind arith
Step-Inv (sleep off) v = grind arith
Step-Inv (spurious n e) v = grind arith
Step-Inv (resume n e) v = grind arith

-- No wake-up is lost: in every state that the threads can reach, no thread sleeps on an event that
-- is signalled, and each wait sleeps, is about to go on, or has returned.
pub Reach-Inv :
    {event_type : EventType} {s : System} → Reach (start event_type) s → Inv event_type s
Reach-Inv here = record { awake = λ h. refl; accounted = refl; same_type = refl }
Reach-Inv (next r st) = Step-Inv st (Reach-Inv r)

pub Reach-step : {s t u : System} → Step s t → Reach t u → Reach s u
Reach-step st here = next here st
Reach-step st (next r last) = next (Reach-step st r) last

-- From a state, the woken threads take the mutex one after the other, and nothing else happens, up to `t`.
pub data SettlesTo (t : System) : System → Type 0 where
  settled : SettlesTo t t
  one_more :
      {s : System} (n : ℕ)
      → s.woken ≡ suc n
      → SettlesTo t (record s { event = take s.event; woken = n; returned = s.returned + 1 })
      → SettlesTo t s

resume_all :
    (n : ℕ) (s : System)
    → s.woken ≡ n
    → (t : System) × SettlesTo t s
      × (t.woken ≡ 0)
      × (t.sleeping ≡ s.sleeping)
      × (t.returned ≡ s.returned + n)
      × (t.begun ≡ s.begun)
resume_all zero s e = (s, settled, e, refl, omega arith, refl)
resume_all (suc n) s e =
    let (t, r, awake, still, count, begun) =
      resume_all n (record s { event = take s.event; woken = n; returned = s.returned + 1 }) refl in
    (t, one_more n e r, awake, still, omega arith, begun)

abbrev pub is_set : {s t : System} → Step s t → Bool
is_set Step.set = true
is_set Step.reset = false
is_set (Step.pass on) = false
is_set (Step.sleep off) = false
is_set (Step.spurious n e) = false
is_set (Step.resume n e) = false

-- In every state that the threads can reach, one `ofc_event_set_impl` leaves no thread asleep and the event
-- signalled, and then every wait that has begun returns when the woken threads take the mutex one after
-- the other, without a further set, a spurious wake-up or a test of the signal: of an automatic event
-- as of a manual one.
pub set_releases :
    {event_type : EventType} {s u : System}
    → Reach (start event_type) s
    → (st : Step s u) → is_set st ≡ true
    → (u.sleeping ≡ 0)
      × (u.event.signalled ≡ true)
      × ((t : System) × SettlesTo t u × (t.sleeping ≡ 0) × (t.woken ≡ 0) × (t.returned ≡ s.begun))
set_releases {event_type} {s} r Step.set e =
    let u : System = record s {
      event = with_signal s true;
      sleeping = 0;
      woken = s.woken + s.sleeping;
    } in
    let (t, resumed, awake, still, count, begun) = resume_all (s.woken + s.sleeping) u refl in
    (refl, refl, (t, resumed, still, awake, omega (arith, count, (Reach-Inv r).accounted)))
set_releases r Step.reset e = ground (arith, e)
set_releases r (Step.pass on) e = ground (arith, e)
set_releases r (Step.sleep off) e = ground (arith, e)
set_releases r (Step.spurious n w) e = ground (arith, e)
set_releases r (Step.resume n w) e = ground (arith, e)
