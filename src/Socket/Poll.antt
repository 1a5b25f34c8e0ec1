-- ===== src/Socket/Poll.antt =====
-- The event masks of a socket object: what is asked of `poll`, and what it answered.
use of_core_darwin.Base.{
  ℕ, ◌^◌, ◌<◌, ◌%◌, ◌≡◌, ◌≢◌, bit_or, Bool, true, false, ◌||◌, ◌&&◌, ◌==◌, if◌then◌else◌, arith,
}
use of_core_darwin.Base.Int.{ℤ, pos, negsuc, to_unsigned}
use of_core_darwin.Base.Bits.{
  overlaps, add_if, overlaps-add_if, add_if-le, overlaps-bit_or, zero-overlaps,
}
use of_core_darwin.Host.{Call, Host, M, pure, ◌>>=◌, ◌>>◌, get_pointer, call, load, update}
use of_core_darwin.Socket.{
  Sock, OfCore, SocketEvent, on_close, on_accept, on_address_change, on_qos, on_qob, on_read,
  on_write,
}

-- The bits of Darwin's poll.h.
abbrev pub pollin : ℕ
pollin = 0x0001

abbrev pub pollpri : ℕ
pollpri = 0x0002

abbrev pub pollout : ℕ
pollout = 0x0004

abbrev pub pollerr : ℕ
pollerr = 0x0008

abbrev pub pollhup : ℕ
pollhup = 0x0010

abbrev pub pollrdband : ℕ
pollrdband = 0x0080

abbrev pub pollwrband : ℕ
pollwrband = 0x0100

module _ (core : OfCore) where
  -- The event word that `ofc_socket_impl_test` builds from `revents`.
  pub event_test : ℕ → ℕ
  event_test revents = add_if (overlaps revents pollout) (core.bit on_write) (
      add_if (overlaps revents (bit_or pollrdband pollwrband)) (core.bit on_qob) (
        add_if (overlaps revents pollpri) (core.bit on_qos) (
          add_if (overlaps revents pollerr) (core.bit on_address_change) (
            add_if (overlaps revents pollin) (bit_or (core.bit on_accept) (core.bit on_read))
              (add_if (overlaps revents pollhup) (core.bit on_close) 0)))))

  -- The mask that `ofc_socket_impl_enable` builds from the events asked for.
  pub poll_word : ℕ → ℕ
  poll_word type =
      (add_if (overlaps type (core.bit on_write)) pollout (
        add_if (overlaps type (core.bit on_read)) pollin (
          add_if (overlaps type (core.bit on_qob)) (bit_or pollrdband pollwrband) (
            add_if (overlaps type (core.bit on_qos)) pollpri (
              add_if (overlaps type (core.bit on_address_change)) pollerr (
                add_if (overlaps type (core.bit on_accept)) pollin
                  (add_if (overlaps type (core.bit on_close)) pollhup 0)))))))

  -- The same in the 16 bits of the field `events`.
  pub poll_mask : ℕ → ℕ
  poll_mask type = to_unsigned 16 (pos (poll_word type))

  module _ (host : Host) where
    unfoldable pub set_event : ℕ → ℕ → M Sock (Unit {0})
    set_event h revents = do
      p ← get_pointer host (Call.handle_lock h)
      if p == 0
          then pure tt
          else do update p (λ s. record s { revents = revents }); call (Call.handle_unlock h)

    unfoldable pub get_event : ℕ → M Sock ℕ
    get_event h = do
      p ← get_pointer host (Call.handle_lock h)
      if p == 0 then pure 0 else do s ← load p; call (Call.handle_unlock h); pure s.events

    unfoldable pub get_fd : ℕ → M Sock ℤ
    get_fd h = do
      p ← get_pointer host (Call.handle_lock h)
      if p == 0 then pure (negsuc 0) else do s ← load p; call (Call.handle_unlock h); pure s.socket

    unfoldable pub test : ℕ → M Sock ℕ
    test h = do
      p ← get_pointer host (Call.handle_lock h)
      if p == 0
          then pure 0
          else do s ← load p; call (Call.handle_unlock h); pure (event_test s.revents)

    unfoldable pub enable : ℕ → ℕ → M Sock Bool
    enable h type = do
      p ← get_pointer host (Call.handle_lock h)
      if p == 0 then pure false else do
        update p (λ s. record s { events = poll_mask type })
        call (Call.handle_unlock h)
        pure true

-- The poll condition that stands for an event.
abbrev pub condition : SocketEvent → ℕ
condition on_close = pollhup
condition on_accept = pollin
condition on_address_change = pollerr
condition on_qos = pollpri
condition on_qob = bit_or pollrdband pollwrband
condition on_read = pollin
condition on_write = pollout

-- of_core's event bits are different bits.
pub record IsEventBits (core : OfCore) : Type 0 where
  pub own : (k : SocketEvent) → overlaps (core.bit k) (core.bit k) ≡ true
  pub apart : (j k : SocketEvent) → j ≢ k → overlaps (core.bit j) (core.bit k) ≡ false

ruleset mask_laws = (overlaps-add_if, overlaps-bit_or)

-- The word shares a bit with `x` where one of the tests that passed adds it.
event_test_word :
    (core : OfCore) (revents x : ℕ)
    → overlaps (event_test core revents) x
      ≡ overlaps revents pollhup && overlaps (core.bit on_close) x
        || overlaps revents pollin
          && (overlaps (core.bit on_accept) x || overlaps (core.bit on_read) x)
        || overlaps revents pollerr && overlaps (core.bit on_address_change) x
        || overlaps revents pollpri && overlaps (core.bit on_qos) x
        || overlaps revents (bit_or pollrdband pollwrband) && overlaps (core.bit on_qob) x
        || overlaps revents pollout && overlaps (core.bit on_write) x
unfolding event_test
event_test_word core revents x = simp (mask_laws, zero-overlaps)

module _ (core : OfCore) (bits : IsEventBits core) where
  -- If of_core's event bits are non-zero and do not overlap, the events that `ofc_socket_impl_test`
  -- reports include an event exactly when `poll` returned a condition that stands for it.
  pub event_test_iff :
      (revents : ℕ) (k : SocketEvent)
      → overlaps (event_test core revents) (core.bit k) ≡ overlaps revents (condition k)
  event_test_iff revents on_close =
      grind (arith, event_test_word core revents (core.bit on_close), bits.own, bits.apart)
  event_test_iff revents on_accept =
      grind (arith, event_test_word core revents (core.bit on_accept), bits.own, bits.apart)
  event_test_iff revents on_address_change =
      grind (arith, event_test_word core revents (core.bit on_address_change), bits.own, bits.apart)
  event_test_iff revents on_qos =
      grind (arith, event_test_word core revents (core.bit on_qos), bits.own, bits.apart)
  event_test_iff revents on_qob =
      grind (arith, event_test_word core revents (core.bit on_qob), bits.own, bits.apart)
  event_test_iff revents on_read =
      grind (arith, event_test_word core revents (core.bit on_read), bits.own, bits.apart)
  event_test_iff revents on_write =
      grind (arith, event_test_word core revents (core.bit on_write), bits.own, bits.apart)

-- The bits that `enable` may ask for, each with the events that it stands for.
pub data PollBit : Type 0 where
  hup_bit in_bit err_bit pri_bit rdband_bit wrband_bit out_bit : PollBit

abbrev pub bit_of : PollBit → ℕ
bit_of hup_bit = pollhup
bit_of in_bit = pollin
bit_of err_bit = pollerr
bit_of pri_bit = pollpri
bit_of rdband_bit = pollrdband
bit_of wrband_bit = pollwrband
bit_of out_bit = pollout

abbrev pub wanted : OfCore → ℕ → PollBit → Bool
wanted core type hup_bit = overlaps type (core.bit on_close)
wanted core type in_bit = overlaps type (core.bit on_accept) || overlaps type (core.bit on_read)
wanted core type err_bit = overlaps type (core.bit on_address_change)
wanted core type pri_bit = overlaps type (core.bit on_qos)
wanted core type rdband_bit = overlaps type (core.bit on_qob)
wanted core type wrband_bit = overlaps type (core.bit on_qob)
wanted core type out_bit = overlaps type (core.bit on_write)

word_fits : (core : OfCore) (type : ℕ) → poll_word core type < 2 ^ 16
unfolding poll_word
word_fits core type = omega (arith, add_if-le)

poll_word_iff :
    (core : OfCore) (type : ℕ) (b : PollBit)
    → overlaps (poll_word core type) (bit_of b) ≡ wanted core type b
unfolding poll_word
poll_word_iff core type hup_bit = simp mask_laws (ground arith)
poll_word_iff core type in_bit = simp mask_laws (ground arith)
poll_word_iff core type err_bit = simp mask_laws (ground arith)
poll_word_iff core type pri_bit = simp mask_laws (ground arith)
poll_word_iff core type rdband_bit = simp mask_laws (ground arith)
poll_word_iff core type wrband_bit = simp mask_laws (ground arith)
poll_word_iff core type out_bit = simp mask_laws (ground arith)

-- Each single bit that `ofc_socket_impl_enable` may ask `poll` for, both of the priority bands among them,
-- is in the mask exactly when an event that it stands for was asked for, and the 16-bit field loses
-- nothing of the word that was built.
pub poll_mask_iff :
    (core : OfCore) (type : ℕ)
    → (poll_mask core type ≡ poll_word core type)
      × ((b : PollBit) → overlaps (poll_mask core type) (bit_of b) ≡ wanted core type b)
unfolding poll_mask
poll_mask_iff core type =
    let fits : poll_word core type % 2 ^ 16 ≡ poll_word core type =
      omega (arith, word_fits core type) in
    (fits, λ b. rw fits (poll_word_iff core type b))
