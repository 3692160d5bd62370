-- ===== src/Socket.antt =====
-- The sockets that iperf_jni/jni/iperf/src/net.c, iperf_tcp.c and iperf_udp.c open and close. The
-- kernel's answers are given; what is open, and `errno`, is the state.
pub mod Triples
pub mod Streams
pub mod Leaks
pub mod Opened
pub mod Listening
use wifitesttool.Base.{
  ℕ, suc, ◌-◌, Bool, true, false, not, ◌&&◌, ◌||◌, Option, none, some, List, [], ◌∷◌, ◌==◌,
  if◌then◌else◌,
}
use wifitesttool.Net.{Errno, other, einprogress}
use wifitesttool.Error.{
  Ierror, iestreamlisten, iestreamconnect, iestreamaccept, iestreamwrite, iestreamread,
  iesetnodelay, iesetmss, iesetbuf, iesetflow, iesetcongestion, iereuseaddr, iev6only, iesendcookie,
  ierecvcookie, iesendmessage,
}

-- What a call to the kernel returns: a number that is not negative, or -1 with an `errno`.
pub data Answer : Type 0 where
  value : ℕ → Answer
  fails : Errno → Answer

pub record Os : Type 0 where
  pub script : ℕ → Answer  -- the answer to each call, by its number
  pub calls : ℕ  -- how many calls were made
  pub errno : Errno
  pub i_errno : Ierror
  pub sockets : List ℕ  -- the open descriptors, the latest first
  pub infos : ℕ  -- the lists of `getaddrinfo` that were not freed

-- A function returns a value, or leaves by `return -1`.
pub data Exit (A : Type 0) : Type 0 where
  returns : A → Exit A
  minus_one : Exit A

abbrev pub M : Type 0 → Type 0
M A = Os → Exit A × Os

abbrev pub pure : {A : Type 0} → A → M A
pure a o = (returns a, o)

module _ {A B : Type 0} where
  abbrev pub and_then : Exit A × Os → (A → M B) → Exit B × Os
  and_then (returns a, o) k = k a o
  and_then (minus_one, o) k = (minus_one, o)

  infixl 5 ◌>>=◌ ◌>>◌
  abbrev pub ◌>>=◌ : M A → (A → M B) → M B
  m >>= k = λ o. and_then (m o) k

  abbrev pub ◌>>◌ : M A → M B → M B
  m >> n = m >>= λ _. n

abbrev pub skip : M (Unit {0})
skip = pure tt

abbrev pub when : Bool → M (Unit {0}) → M (Unit {0})
when true m = m
when false m = skip

abbrev pub fail : {A : Type 0} → M A
fail o = (minus_one, o)

abbrev pub set_i_errno : Ierror → M (Unit {0})
set_i_errno e o = (returns tt, record o { i_errno = e })

abbrev pub set_errno : Errno → M (Unit {0})
set_errno e o = (returns tt, record o { errno = e })

abbrev pub get_errno : M Errno
get_errno o = (returns o.errno, o)

abbrev answered : Os → Answer → Exit (Option ℕ) × Os
answered o (value n) = (returns (some n), record o { calls = suc o.calls })
answered o (fails e) = (returns none, record o { calls = suc o.calls; errno = e })

-- A call that opens nothing: setsockopt, getsockopt, bind, listen, connect, send, recv.
unfoldable pub call : M (Option ℕ)
call o = answered o (o.script o.calls)

abbrev opened : Os → Answer → Exit (Option ℕ) × Os
opened o (value n) = (returns (some n), record o { calls = suc o.calls; sockets = n ∷ o.sockets })
opened o (fails e) = (returns none, record o { calls = suc o.calls; errno = e })

-- `socket` and `accept`: a value is a new descriptor.
unfoldable pub open_call : M (Option ℕ)
open_call o = opened o (o.script o.calls)

abbrev looked_up : Os → Answer → Exit Bool × Os
looked_up o (value n) = (returns true, record o { calls = suc o.calls; infos = suc o.infos })
looked_up o (fails e) = (returns false, record o { calls = suc o.calls })

unfoldable pub getaddrinfo : M Bool
getaddrinfo o = looked_up o (o.script o.calls)

unfoldable pub freeaddrinfo : M (Unit {0})
freeaddrinfo o = (returns tt, record o { infos = o.infos - 1 })

unfoldable pub remove : ℕ → List ℕ → List ℕ
remove s [] = []
remove s (x ∷ xs) = if x == s then xs else x ∷ remove s xs

abbrev closed : ℕ → Os → Answer → Exit (Unit {0}) × Os
closed s o (value n) = (returns tt, record o { calls = suc o.calls; sockets = remove s o.sockets })
closed s o (fails e) =
    (returns tt, record o { calls = suc o.calls; sockets = remove s o.sockets; errno = e })

-- The descriptor is gone also if `close` reports an error.
unfoldable pub close : ℕ → M (Unit {0})
unfolding remove
close s o = closed s o (o.script o.calls)

-- A result, or else `cleanup` and `return -1`.
abbrev pub or_leave : Option ℕ → M (Unit {0}) → M ℕ
or_leave (some n) cleanup = pure n
or_leave none cleanup = cleanup >> fail

abbrev pub require : M (Option ℕ) → M (Unit {0}) → M ℕ
require m cleanup = m >>= λ r. or_leave r cleanup

abbrev pub check : M (Option ℕ) → M (Unit {0}) → M (Unit {0})
check m cleanup = do r ← m; n ← or_leave r cleanup; skip

abbrev lookup_or : Bool → M (Unit {0}) → M (Unit {0})
lookup_or true cleanup = skip
lookup_or false cleanup = cleanup >> fail

abbrev pub check_lookup : M (Unit {0}) → M (Unit {0})
check_lookup cleanup = do found ← getaddrinfo; lookup_or found cleanup

abbrev in_progress : Errno → Bool
in_progress einprogress = true
in_progress _ = false

-- `connect`, for which EINPROGRESS is no failure.
abbrev pub connect_or : Option ℕ → M (Unit {0}) → M (Unit {0})
connect_or (some n) cleanup = skip
connect_or none cleanup = do e ← get_errno; if in_progress e then skip else cleanup >> fail

abbrev pub connect_socket : M (Unit {0}) → M (Unit {0})
connect_socket cleanup = call >>= λ r. connect_or r cleanup

pub data Domain : Type 0 where
  af_unspec af_inet af_inet6 : Domain

abbrev pub may_be_v6 : Domain → Bool
may_be_v6 af_inet = false
may_be_v6 _ = true

-- `netdial`; `bind_to` says that there is a local address.
unfoldable pub netdial : Bool → M ℕ
unfolding call open_call getaddrinfo freeaddrinfo close
netdial bind_to = do
  when bind_to (check_lookup skip)
  check_lookup skip
  s ← require open_call (when bind_to freeaddrinfo >> freeaddrinfo)
  when bind_to (do check call (close s >> freeaddrinfo >> freeaddrinfo); freeaddrinfo)
  connect_socket (close s >> freeaddrinfo)
  freeaddrinfo
  pure s

-- `netannounce`; `is_stream` says that `proto` is SOCK_STREAM.
unfoldable pub netannounce : Domain → Bool → M ℕ
unfolding call open_call getaddrinfo freeaddrinfo close
netannounce domain is_stream = do
  check_lookup skip
  s ← require open_call freeaddrinfo
  check call (close s >> freeaddrinfo)
  when (may_be_v6 domain) (check call (close s >> freeaddrinfo))
  check call (close s >> freeaddrinfo)
  freeaddrinfo
  when is_stream (check call (close s))
  pure s
