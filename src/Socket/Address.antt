-- ===== src/Socket/Address.antt =====
-- `make_sockaddr` and `unmake_sockaddr`, and their round trip.
use mathlib.Core.Option
use mathlib.Core.List.{append_assoc}
use of_core_darwin.Base.{
  ℕ, zero, suc, ◌+◌, ◌^◌, ◌<◌, ◌≡◌, refl, false, length-append, set-append, Option, none, some,
  List, [], ◌∷◌, ◌++◌, length, get_or, set, if◌then◌else◌, arith,
}
use of_core_darwin.Host.{
  Af, inet, inet6, af_other, SockAddr, Call, Host, M, pure, ◌>>=◌, ◌>>◌, get_pointer, touch,
}
use of_core_darwin.Socket.{ip, ipv6, is_ip, IpAddr, Sock, OfCore}

-- `for (i = 0; i < 16; i++) dst[i] = src[i]`, from `i` on with the rounds left.
pub copy_bytes : ℕ → ℕ → List ℕ → List ℕ → List ℕ
copy_bytes zero i src dst = dst
copy_bytes (suc left) i src dst = copy_bytes left (i + 1) src (set dst i (get_or src i 0))

abbrev pub zeroes : ℕ → List ℕ
zeroes zero = []
zeroes (suc n) = 0 ∷ zeroes n

abbrev pub sizeof_sockaddr_in : ℕ
sizeof_sockaddr_in = 16

abbrev pub sizeof_sockaddr_in6 : ℕ
sizeof_sockaddr_in6 = 28

module _ (core : OfCore) where
  -- The structure that the code fills in memory set to zero, and its length.
  pub filled_sockaddr : IpAddr → ℕ → SockAddr × ℕ
  filled_sockaddr address port =
      if is_ip address.version
      then (
        record {
          family = inet;
          port = core.put_short port;
          addr = core.put_long address.addr;
          addr6 = zeroes 16;
          scope = 0;
        },
        sizeof_sockaddr_in,
      )
      else (
        record {
          family = inet6;
          port = core.put_short port;
          addr = zeroes 4;
          addr6 = copy_bytes 16 0 address.addr6 (zeroes 16);
          scope = address.scope;
        },
        sizeof_sockaddr_in6,
      )

  -- The block that was allocated, and what is in it. The allocation is not tested.
  unfoldable pub make_sockaddr : (host : Host) → IpAddr → ℕ → M Sock (ℕ × SockAddr × ℕ)
  unfolding filled_sockaddr
  make_sockaddr host address port = do
    p ← get_pointer host Call.malloc
    touch p
    pure (p, (filled_sockaddr address port).0, (filled_sockaddr address port).1)

  unmake_as : Af → SockAddr → Option IpAddr → Option ℕ → Option (Option IpAddr × Option ℕ)
  unmake_as inet sa (some address) (some port) = some (
    some (record address { version = ip; addr = core.get_long sa.addr }),
    some (core.get_short sa.port),
  )
  unmake_as inet sa _ _ = none
  unmake_as _ sa address port = some (
    Option.map
        (λ (a : IpAddr). record a { version = ipv6; addr6 = copy_bytes 16 0 sa.addr6 a.addr6 })
        address,
    Option.map (λ _. core.get_short sa.port) port,
  )

  -- `none` is an access through NULL: the IPv4 branch does not test its pointers.
  unfoldable pub unmake_sockaddr :
      SockAddr → Option IpAddr → Option ℕ → Option (Option IpAddr × Option ℕ)
  unfolding unmake_as
  unmake_sockaddr sa address port = unmake_as sa.family sa address port

  abbrev pub unmade : Af → SockAddr → IpAddr → IpAddr
  unmade inet sa a = record a { version = ip; addr = core.get_long sa.addr }
  unmade _ sa a = record a { version = ipv6; addr6 = copy_bytes 16 0 sa.addr6 a.addr6 }

  unmake_as-some :
      (f : Af) (sa : SockAddr) (a : IpAddr) (n : ℕ)
      → unmake_as f sa (some a) (some n)
        ≡ some (some (unmade f sa a), some (core.get_short sa.port))
  unfolding unmake_as
  unmake_as-some inet sa a n = refl
  unmake_as-some inet6 sa a n = refl
  unmake_as-some af_other sa a n = refl

  -- With memory for both, there is always a result.
  pub unmake-some :
      (sa : SockAddr) (a : IpAddr) (n : ℕ)
      → unmake_sockaddr sa (some a) (some n)
        ≡ some (some (unmade sa.family sa a), some (core.get_short sa.port))
  unfolding unmake_sockaddr
  unmake-some sa a n = unmake_as-some sa.family sa a n

get_or-append : (xs ys : List ℕ) (y : ℕ) → get_or (xs ++ y ∷ ys) (length xs) 0 ≡ y
get_or-append [] ys y = refl
get_or-append (x ∷ xs) ys y = get_or-append xs ys y

copy_rest :
    (n : ℕ) (xs ys zs : List ℕ)
    → length ys ≡ n
    → length zs ≡ n
    → copy_bytes n (length xs) (xs ++ ys) (xs ++ zs) ≡ xs ++ ys
unfolding copy_bytes
copy_rest zero xs [] [] p q = refl
copy_rest zero xs (y ∷ ys) zs p q = absurd (omega arith)
copy_rest zero xs [] (z ∷ zs) p q = absurd (omega arith)
copy_rest (suc n) xs [] zs p q = absurd (omega arith)
copy_rest (suc n) xs (y ∷ ys) [] p q = absurd (omega arith)
copy_rest (suc n) xs (y ∷ ys) (z ∷ zs) p q =
    let next : length xs + 1 ≡ length (xs ++ y ∷ []) = rw (length-append xs (y ∷ [])) refl in
    rw
      (
        get_or-append xs ys y,
        set-append xs zs z y,
        next,
        ← append_assoc xs (y ∷ []) ys,
        ← append_assoc xs (y ∷ []) zs,
      )
      (copy_rest n (xs ++ y ∷ []) ys zs (omega arith) (omega arith))

-- The loop copies all sixteen bytes.
pub copy_bytes_lem :
    (src dst : List ℕ) → length src ≡ 16 → length dst ≡ 16 → copy_bytes 16 0 src dst ≡ src
copy_bytes_lem src dst p q = copy_rest 16 [] src dst p q

-- What of_core documents of its byte order macros: reading gives back what was written.
pub record IsByteOrder (core : OfCore) : Type 0 where
  pub short : (n : ℕ) → n < 2 ^ 16 → core.get_short (core.put_short n) ≡ n
  pub long : (n : ℕ) → n < 2 ^ 32 → core.get_long (core.put_long n) ≡ n

module _ (core : OfCore) (order : IsByteOrder core) (old : IpAddr) (old_port : ℕ) where
  -- An IPv4 address and port come back from the structure that was made of them, if they fit 32 and
  -- 16 bits and the byte order macros are inverse to each other.
  pub unmake-make_ip :
      (address : IpAddr) (port : ℕ)
      → address.version ≡ ip
      → address.addr < 2 ^ 32
      → port < 2 ^ 16
      → unmake_sockaddr core (filled_sockaddr core address port).0 (some old) (some old_port)
        ≡ some (some (record old { version = ip; addr = address.addr }), some port)
  unfolding filled_sockaddr unmake_sockaddr
  unmake-make_ip address port v small fits =
      ground (arith, order.short port, order.long address.addr)

  -- An IPv6 address of 16 bytes and a port of 16 bits come back from the structure that was made of
  -- them, but not the scope: it keeps what the caller's memory held. The byte order macros have to
  -- be inverse to each other.
  pub unmake-make_ipv6 :
      (address : IpAddr) (port : ℕ)
      → is_ip address.version ≡ false
      → length address.addr6 ≡ 16
      → length old.addr6 ≡ 16
      → port < 2 ^ 16
      → unmake_sockaddr core (filled_sockaddr core address port).0 (some old) (some old_port)
        ≡ some (some (record old { version = ipv6; addr6 = address.addr6 }), some port)
  unfolding filled_sockaddr unmake_sockaddr
  unmake-make_ipv6 address port v full room fits = rw (
    v,
    copy_bytes_lem address.addr6 (zeroes 16) full refl,
    copy_bytes_lem address.addr6 old.addr6 full room,
    order.short port fits,
  )
