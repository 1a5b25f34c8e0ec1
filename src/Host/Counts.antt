-- ===== src/Host/Counts.antt =====
-- Counts over a trace: the locks that were taken and given back, the memory that was.
use of_core_darwin.Base.{ℕ, ◌+◌, ◌≤◌, ◌≡◌, List, [], ◌∷◌, ◌==◌, if◌then◌else◌}
use of_core_darwin.Host.{malloc, free, handle_lock, handle_unlock, Event, gave, did, World}

-- 1 for a successful lock of handle `k`, and for an unlock.
abbrev pub lock_of : ℕ → Event → ℕ
lock_of k (gave (handle_lock h) p) = if h == k then (if p == 0 then 0 else 1) else 0
lock_of k _ = 0

abbrev pub unlock_of : ℕ → Event → ℕ
unlock_of k (did (handle_unlock h)) = if h == k then 1 else 0
unlock_of k _ = 0

abbrev pub alloc_of : Event → ℕ
alloc_of (gave malloc p) = if p == 0 then 0 else 1
alloc_of _ = 0

abbrev pub free_of : Event → ℕ
free_of (did (free p)) = if p == 0 then 0 else 1
free_of _ = 0

-- The same at address `a`.
abbrev pub alloc_at : ℕ → Event → ℕ
alloc_at a (gave malloc p) = if p == 0 then 0 else if p == a then 1 else 0
alloc_at a _ = 0

abbrev pub free_at : ℕ → Event → ℕ
free_at a (did (free p)) = if p == 0 then 0 else if p == a then 1 else 0
free_at a _ = 0

abbrev pub total : (Event → ℕ) → List Event → ℕ
total f [] = 0
total f (e ∷ es) = f e + total f es

-- From `w` to `w'`, the locks of `k` that were taken were given back.
abbrev pub LocksKept : {A : Type 0} → ℕ → World A → World A → Type 0
LocksKept k w w' =
    total (lock_of k) w'.trace + total (unlock_of k) w.trace
    ≡ total (lock_of k) w.trace + total (unlock_of k) w'.trace

-- From `w` to `w'`, at most `gained` blocks were allocated and kept, and at most `lost` given back
-- that were allocated before. Freeing NULL counts for nothing.
abbrev pub BlocksWithin : {A : Type 0} → ℕ → ℕ → World A → World A → Type 0
BlocksWithin gained lost w w' =
    let now = total alloc_of w'.trace + total free_of w.trace in
    let before = total alloc_of w.trace + total free_of w'.trace in
    (now ≤ before + gained) × (before ≤ now + lost)

-- The same for the blocks at `a` alone.
abbrev pub BlocksAt : {A : Type 0} → ℕ → ℕ → ℕ → World A → World A → Type 0
BlocksAt a gained lost w w' =
    let now = total (alloc_at a) w'.trace + total (free_at a) w.trace in
    let before = total (alloc_at a) w.trace + total (free_at a) w'.trace in
    (now ≤ before + gained) × (before ≤ now + lost)
