-- ===== src/Net.antt =====
-- The reads and writes of iperf_jni/jni/iperf/src/net.c, and the messages with a length in front of
-- JSON_write and JSON_read of iperf_api.c. What the kernel answers is a list; the loops consume it.
pub mod Reading
pub mod Writing
pub mod Framing
use wifitesttool.Base.{
  ℕ, ◌+◌, ◌-◌, ◌*◌, ◌/◌, ◌%◌, ◌^◌, Bool, true, false, Option, none, some, List, [], ◌∷◌, ◌++◌, leb,
  ltb, ◌==◌, length, take, drop, if◌then◌else◌,
}
use wifitesttool.Base.Int.{ℤ, pos, negsuc}

-- The values of `errno` that the code tells apart.
pub data Errno : Type 0 where
  eintr eagain enobufs enomem eafnosupport einprogress ebadf other : Errno

-- NET_SOFTERROR and NET_HARDERROR.
abbrev pub net_softerror : ℤ
net_softerror = negsuc 0

abbrev pub net_harderror : ℤ
net_harderror = negsuc 1

-- What `read` finds: bytes that have arrived (no bytes: the end of the file), or an error. A read
-- takes more many of the bytes more it asked for, and leaves the others to the next read.
pub data Arrival : Type 0 where
  got : List ℕ → Arrival
  read_failed : Errno → Arrival

pub record ReadResult : Type 0 where
  pub ret : ℤ
  pub buf : List ℕ
  pub rest : List Arrival

abbrev pub is_eintr : Errno → Bool
is_eintr eintr = true
is_eintr _ = false

-- The loop of `Nread`: `nleft` bytes are still wanted and `buf` has been filled. `none`: the call
-- still waits when the arrivals end.
unfoldable pub nread_loop : ℕ → ℕ → List ℕ → List Arrival → Option ReadResult
nread_loop count nleft buf [] =
    if nleft == 0 then some (record { ret = pos (count - nleft); buf = buf; rest = [] }) else none
nread_loop count nleft buf (a ∷ more) = elim (nleft == 0) [
  | true ↦ some (record { ret = pos (count - nleft); buf = buf; rest = a ∷ more })
  | false ↦ elim a [
    | read_failed e ↦ elim (is_eintr e) [
      | true ↦ nread_loop count nleft buf more
      | false ↦ some (record { ret = net_harderror; buf = buf; rest = more })
    ]
    | got bs ↦ elim (length bs == 0) [
      | true ↦ some (record { ret = pos (count - nleft); buf = buf; rest = more })
      | false ↦ elim (leb (length bs) nleft) [
        | true ↦ nread_loop count (nleft - length bs) (buf ++ bs) more
        | false ↦ some (record {
          ret = pos count;
          buf = buf ++ take nleft bs;
          rest = got (drop nleft bs) ∷ more;
        })
      ]
    ]
  ]
]

unfoldable pub nread : ℕ → List Arrival → Option ReadResult
unfolding nread_loop
nread count more = nread_loop count count [] more

-- What `write` and `sendfile` answer: how many bytes they could take, or an error.
pub data Room : Type 0 where
  wrote : ℕ → Room
  write_failed : Errno → Room

pub record WriteResult : Type 0 where
  pub ret : ℤ
  pub sent : List ℕ
  pub rest : List Room

-- The `switch` on `errno`: EINTR returns what was written so far, and some errors are soft.
write_error : ℕ → ℕ → Errno → ℤ
write_error count nleft eintr = pos (count - nleft)
write_error count nleft eagain = net_softerror
write_error count nleft enobufs = net_softerror
write_error count nleft _ = net_harderror

-- The `switch` of `Nsendfile`, where ENOMEM is soft too.
sendfile_error : ℕ → ℕ → Errno → ℤ
sendfile_error count nleft eintr = pos (count - nleft)
sendfile_error count nleft eagain = net_softerror
sendfile_error count nleft enobufs = net_softerror
sendfile_error count nleft enomem = net_softerror
sendfile_error count nleft _ = net_harderror

-- The loop that `Nwrite` and `Nsendfile` share: `buf` is still to be written, `sent` has been.
unfoldable pub write_loop :
    (ℕ → ℕ → Errno → ℤ) → ℕ → List ℕ → List ℕ → List Room → Option WriteResult
write_loop on_error count buf sent [] =
    if length buf == 0 then some (record { ret = pos count; sent = sent; rest = [] }) else none
write_loop on_error count buf sent (a ∷ more) = elim (length buf == 0) [
  | true ↦ some (record { ret = pos count; sent = sent; rest = a ∷ more })
  | false ↦ elim a [
    | write_failed e ↦
        some (record { ret = on_error count (length buf) e; sent = sent; rest = more })
    | wrote r ↦ elim (r == 0) [
      | true ↦ some (record { ret = net_softerror; sent = sent; rest = more })
      | false ↦ write_loop on_error count (drop r buf) (sent ++ take r buf) more
    ]
  ]
]

unfoldable pub nwrite : List ℕ → List Room → Option WriteResult
unfolding write_loop write_error
nwrite buf more = write_loop write_error (length buf) buf [] more

unfoldable pub nsendfile : List ℕ → List Room → Option WriteResult
unfolding write_loop sendfile_error
nsendfile buf more = write_loop sendfile_error (length buf) buf [] more

-- A `uint32_t` in network order, more its four bytes.
unfoldable pub htonl_bytes : ℕ → List ℕ
htonl_bytes n = (n / 16777216 % 256) ∷ (n / 65536 % 256) ∷ (n / 256 % 256) ∷ (n % 256) ∷ []

unfoldable pub ntohl_bytes : List ℕ → ℕ
ntohl_bytes (a ∷ b ∷ c ∷ d ∷ []) = a * 16777216 + b * 65536 + c * 256 + d
ntohl_bytes _ = 0

-- Whether the `int` that `Nread` and `Nwrite` return is negative: a count is a `size_t` before.
abbrev is_negative : ℤ → Bool
is_negative (pos n) = leb (2 ^ 31) (n % 2 ^ 32)
is_negative (negsuc n) = true

-- A `size_t` in a `uint32_t`.
abbrev in_uint32 : ℕ → ℕ
in_uint32 n = n % 2 ^ 32

-- Once the length has been written.
json_write_body : List ℕ → WriteResult → Option (Bool × List ℕ × List Room)
unfolding nwrite
json_write_body str w = elim (is_negative w.ret) [
  | true ↦ some (false, w.sent, w.rest)
  | false ↦ elim (nwrite str w.rest) [
    | none ↦ none
    | some w' ↦ some (if is_negative w'.ret then false else true, w.sent ++ w'.sent, w'.rest)
  ]
]

-- With the length `hsize`.
unfoldable pub json_write_sized : ℕ → List ℕ → List Room → Option (Bool × List ℕ × List Room)
unfolding nwrite htonl_bytes json_write_body
json_write_sized hsize str more = elim (nwrite (htonl_bytes hsize) more) [
  | none ↦ none
  | some w ↦ json_write_body (take hsize str) w
]

-- `JSON_write` of the text `str`: false where the code returns -1. With what was sent. Of a text of 2 ^ 32 bytes
-- or more only the bytes that the length in a `uint32_t` counts are sent.
unfoldable pub json_write : List ℕ → List Room → Option (Bool × List ℕ × List Room)
unfolding json_write_sized
json_write str more = json_write_sized (in_uint32 (length str)) str more

-- What `JSON_read` comes to: the text handed to `cJSON_Parse`, NULL, or a text or a length of which
-- some bytes were never written.
pub data Message : Type 0 where
  text : List ℕ → Message
  no_message : Message
  indeterminate : Message

-- The second half of `JSON_read`, with the length `hsize`.
json_read_body : ℕ → ReadResult → Option (Message × List Arrival)
json_read_body hsize r = elim (is_negative r.ret) [
  | true ↦ some (no_message, r.rest)
  | false ↦ some (if length r.buf == hsize then text r.buf else indeterminate, r.rest)
]

-- `hsize + 1` is a `uint32_t`, so for the largest length `malloc` is asked for no bytes; what the code then writes
-- past them is not in the model.
json_read_sized : (ℕ → Bool) → ℕ → List Arrival → Option (Message × List Arrival)
unfolding nread json_read_body
json_read_sized malloc hsize more = elim (malloc (in_uint32 (hsize + 1))) [
  | false ↦ some (no_message, more)
  | true ↦ elim (nread hsize more) [ none ↦ none | some r ↦ json_read_body hsize r ]
]

-- `JSON_read`; `malloc n` says whether n bytes can be had.
unfoldable pub json_read : (ℕ → Bool) → List Arrival → Option (Message × List Arrival)
unfolding nread ntohl_bytes json_read_sized
json_read malloc more = elim (nread 4 more) [
  | none ↦ none
  | some r ↦ elim (is_negative r.ret) [
    | true ↦ some (no_message, r.rest)
    | false ↦ elim (length r.buf == 4) [
      | false ↦ some (indeterminate, r.rest)
      | true ↦ json_read_sized malloc (ntohl_bytes r.buf) r.rest
    ]
  ]
]
