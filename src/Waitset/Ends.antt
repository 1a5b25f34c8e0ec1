-- ===== src/Waitset/Ends.antt =====
-- The making and the release of a wait set's pipe: `ofc_waitset_create_impl`, `ofc_waitset_destroy_impl`.
use of_core_darwin.Base.{ℕ, suc, ◌≡◌, ◌≢◌, sym, none, List, ◌∷◌, ◌==◌, if◌then◌else◌, arith}
use of_core_darwin.Base.Int.{ℤ, eqb_ℤ, eqb_ℤ_same, eqb_ℤ_distinct}
use of_core_darwin.Host.{
  Call, Event, gave, returned, did, Host, World, M, Ensures, weaker, pure, ◌>>=◌, ◌>>◌, load, fill,
  free_object, get_pointer, get_number,
}
use of_core_darwin.Host.Counts.{total}
use of_core_darwin.Socket.Setup.{with_nonblock}

-- `DARWIN_WAIT_SET`: the end that is read, and the one that is written.
pub record DarwinWaitSet : Type 0 where
  pub pipe_in : ℤ
  pub pipe_out : ℤ

module _ (host : Host) where
  -- `fcntl(fd, F_SETFL, fcntl(fd, F_GETFL) | O_NONBLOCK)`.
  abbrev pub no_block_end : ℤ → M DarwinWaitSet (Unit {0})
  no_block_end fd = do
    flags ← get_number host (Call.getfl fd)
    get_number host (Call.setfl fd (with_nonblock flags))
    pure tt

  -- What becomes the set's `impl`. `ends` is what is in the new memory after `pipe`, whose result is not
  -- looked at.
  unfoldable pub create : DarwinWaitSet → M DarwinWaitSet ℕ
  create ends = do
    p ← get_pointer host Call.malloc
    get_number host (Call.pipe p)
    fill p ends
    no_block_end ends.pipe_in
    no_block_end ends.pipe_out
    pure p

  -- The new `impl` of the set.
  unfoldable pub destroy : ℕ → M DarwinWaitSet ℕ
  destroy impl = do
    set ← load impl
    get_number host (Call.close set.pipe_in)
    get_number host (Call.close set.pipe_out)
    free_object impl
    pure 0

abbrev pub closes : ℤ → Event → ℕ
closes fd (returned (Call.close g) z) = if eqb_ℤ g fd then 1 else 0
closes fd _ = 0

-- Requests that an end be given the flags that it had and `O_NONBLOCK`.
abbrev pub unblocks : ℤ → ℤ → Event → ℕ
unblocks fd flags (returned (Call.setfl g new) z) =
    if eqb_ℤ g fd then (if eqb_ℤ new (with_nonblock flags) then 1 else 0) else 0
unblocks fd flags _ = 0

abbrev pub frees : ℕ → Event → ℕ
frees p (did (Call.free q)) = if q == p then 1 else 0
frees p _ = 0

-- The calls that making and releasing a set comes to, newest first.
abbrev calls : Host → DarwinWaitSet → (ℤ → ℤ) → List Event → List Event
calls host ends flags trace =
    let ask : ℤ → List Event → List Event = λ fd t. returned (Call.getfl fd) (flags fd) ∷ t in
    let answer : Call → List Event → List Event = λ c t. returned c (host.number t c) ∷ t in
    let p = host.pointer trace Call.malloc in
    let made = answer (Call.pipe p) (gave Call.malloc p ∷ trace) in
    let read_end =
      answer (Call.setfl ends.pipe_in (with_nonblock (flags ends.pipe_in)))
        (ask ends.pipe_in made) in
    let write_end =
      answer (Call.setfl ends.pipe_out (with_nonblock (flags ends.pipe_out)))
        (ask ends.pipe_out read_end) in
    did (Call.free p)
    ∷ answer (Call.close ends.pipe_out) (answer (Call.close ends.pipe_in) write_end)

calls_made :
    (host : Host) (ends : DarwinWaitSet) (w : World DarwinWaitSet) (flags : ℤ → ℤ)
    → ((trace : List Event) → host.pointer trace Call.malloc ≢ 0)
    → ((trace : List Event) (fd : ℤ) → host.number trace (Call.getfl fd) ≡ flags fd)
    → Ensures
        (λ impl w'.
          (impl ≡ 0)
          × (w'.object (host.pointer w.trace Call.malloc) ≡ none)
          × (w'.trace ≡ calls host ends flags w.trace))
        ((do impl ← create host ends; destroy host impl) w)
unfolding create destroy
calls_made host ends w flags room known = grind arith

-- A wait set that is made and released asks that neither end of its pipe blocks, once each, and keeps
-- their other flags; it closes both once, and releases its memory once. The
-- two ends are different and no allocation fails; their flags are what the system says at any time.
pub create-destroy :
    (host : Host) (ends : DarwinWaitSet) (w : World DarwinWaitSet) (flags : ℤ → ℤ)
    → ends.pipe_in ≢ ends.pipe_out
    → ((trace : List Event) → host.pointer trace Call.malloc ≢ 0)
    → ((trace : List Event) (fd : ℤ) → host.number trace (Call.getfl fd) ≡ flags fd)
    → let p = host.pointer w.trace Call.malloc in
      Ensures
        (λ impl w'.
          (impl ≡ 0)
          × (w'.object p ≡ none)
          × (total (frees p) w'.trace ≡ suc (total (frees p) w.trace))
          × (total (closes ends.pipe_in) w'.trace ≡ suc (total (closes ends.pipe_in) w.trace))
          × (total (closes ends.pipe_out) w'.trace ≡ suc (total (closes ends.pipe_out) w.trace))
          × (total (unblocks ends.pipe_in (flags ends.pipe_in)) w'.trace
              ≡ suc (total (unblocks ends.pipe_in (flags ends.pipe_in)) w.trace))
          × (total (unblocks ends.pipe_out (flags ends.pipe_out)) w'.trace
              ≡ suc (total (unblocks ends.pipe_out (flags ends.pipe_out)) w.trace)))
        ((do impl ← create host ends; destroy host impl) w)
unfolding create destroy
create-destroy host ends w flags two room known =
    weaker ((do impl ← create host ends; destroy host impl) w)
      (calls_made host ends w flags room known)
      (λ impl w' (null, gone, trace).
        let ab = eqb_ℤ_distinct ends.pipe_in ends.pipe_out two in
        let ba = eqb_ℤ_distinct ends.pipe_out ends.pipe_in (λ e. two (sym e)) in
        let aa = eqb_ℤ_same ends.pipe_in in
        let bb = eqb_ℤ_same ends.pipe_out in
        let af = eqb_ℤ_same (with_nonblock (flags ends.pipe_in)) in
        let bf = eqb_ℤ_same (with_nonblock (flags ends.pipe_out)) in
        (
          null,
          gone,
          grind (arith, trace),
          rw (trace, aa, ba) (omega arith),
          rw (trace, ab, bb) (omega arith),
          rw (trace, aa, ba, af) (omega arith),
          rw (trace, ab, bb, bf) (omega arith),
        ))
