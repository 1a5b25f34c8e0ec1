-- ===== src/Thread/Sleep.antt =====
-- `ofc_sleep_impl` of src/thread_darwin.c.
use of_core_darwin.Base.{
  ℕ, zero, suc, ◌+◌, ◌*◌, ◌%◌, ◌^◌, ◌≤◌, ◌<◌, ◌≡◌, ◌≢◌, ◌∷◌, ◌==◌, if◌then◌else◌, arith,
}
use of_core_darwin.Host.{Call, Event, did, World, M, Ensures, pure, ◌>>◌, call}
use of_core_darwin.Host.Counts.{total}
use of_core_darwin.Thread.{DarwinThread}

-- Whether a sleep has ended.
pub data Nap : Type 0 where
  over endless : Nap

-- The first rounds of the loop that sleeps a day each time.
unfoldable pub sleep_days : ℕ → M DarwinThread (Unit {0})
sleep_days zero = pure tt
sleep_days (suc n) = do call (Call.sleep (60 * 60 * 24)); sleep_days n

-- `infinite` is `OFC_INFINITE`, and `rounds` how far an endless sleep is followed. `OFC_DWORD` and
-- `useconds_t` have 32 bits.
unfoldable pub sleep : (infinite rounds : ℕ) → ℕ → M DarwinThread Nap
unfolding sleep_days
sleep infinite rounds milliseconds =
    if milliseconds == infinite
    then (do sleep_days rounds; pure endless)
    else (do call (Call.usleep (milliseconds * 1000 % 2 ^ 32)); call Call.testcancel; pure over)

-- Seconds and microseconds that were asked for.
abbrev pub seconds : Event → ℕ
seconds (did (Call.sleep n)) = n
seconds _ = 0

abbrev pub microseconds : Event → ℕ
microseconds (did (Call.usleep n)) = n
microseconds _ = 0

abbrev pub cancel_points : Event → ℕ
cancel_points (did Call.testcancel) = 1
cancel_points _ = 0

sleep_days_lem :
    (n : ℕ) (w : World DarwinThread)
    → Ensures
        (λ done w'.
          (total seconds w'.trace ≡ total seconds w.trace + n * 86400)
          × (total microseconds w'.trace ≡ total microseconds w.trace)
          × (total cancel_points w'.trace ≡ total cancel_points w.trace))
        (sleep_days n w)
unfolding sleep_days
sleep_days_lem zero w = grind arith
sleep_days_lem (suc n) w =
    grind (arith, sleep_days_lem n (record w { trace = did (Call.sleep 86400) ∷ w.trace }))

-- A sleep of a number of milliseconds below 2 ^ 32 / 1000 asks for exactly that time, and is a point at
-- which the thread can be cancelled. From there on it asks for at least 2 ^ 32 microseconds less: the
-- product is cut to 32 bits. An endless sleep asks for a day after each day and never reaches the point of
-- cancellation behind the loop, however long it is followed.
pub sleep_asked :
    (infinite rounds milliseconds : ℕ) (w : World DarwinThread)
    → milliseconds < 2 ^ 32
    → Ensures
        (λ nap w'.
          let asked = total microseconds w'.trace in
          let due = total microseconds w.trace + milliseconds * 1000 in
          (milliseconds ≢ infinite
            → (nap ≡ over)
              × (total cancel_points w'.trace ≡ total cancel_points w.trace + 1)
              × (milliseconds * 1000 < 2 ^ 32 → asked ≡ due)
              × (2 ^ 32 ≤ milliseconds * 1000 → asked + 2 ^ 32 ≤ due))
          × (milliseconds ≡ infinite
              → (nap ≡ endless)
                × (total cancel_points w'.trace ≡ total cancel_points w.trace)
                × (total seconds w'.trace ≡ total seconds w.trace + rounds * 86400)))
        (sleep infinite rounds milliseconds w)
unfolding sleep
sleep_asked infinite rounds milliseconds w small = grind (arith, sleep_days_lem rounds w)
