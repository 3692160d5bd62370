-- ===== src/Streams/Life.antt =====
-- What a stream takes and gives back: iperf_new_stream, iperf_init_stream and iperf_free_stream of
-- iperf_jni/jni/iperf/src/iperf_api.c. The answers of malloc, mkstemp, unlink, ftruncate, mmap, open, getsockname,
-- getpeername, getsockdomain and setsockopt are given. iperf_errexit ends the program.
use wifitesttool.Base.{
  ℕ, suc, ◌+◌, ◌-◌, ◌≡◌, Bool, false, not, ◌&&◌, ◌||◌, Option, none, some, List, [], ◌∷◌, ◌++◌,
  length, ◌==◌, if◌then◌else◌, is_some,
}
use wifitesttool.Base.Int.{pos}
use wifitesttool.Error.{Ierror, Status, ok, error, ieinitstream, iesetcos, iesettos, iefile}
use wifitesttool.Params.{nonzero}
use wifitesttool.Streams.{Stream, iperf_add_stream}
use wifitesttool.Test.{Test}

-- Blocks of `malloc` that are not freed, mappings, and open descriptors.
pub record Resources : Type 0 where
  pub blocks : ℕ
  pub mappings : ℕ
  pub fds : List ℕ

-- `none` and `false` where a call fails.
pub record Answers : Type 0 where
  pub stream_block : Bool
  pub result_block : Bool
  pub mkstemp : Option ℕ
  pub unlink : Bool
  pub ftruncate : Bool
  pub mmap : Bool
  pub file : Option ℕ
  pub getsockname : Bool
  pub getpeername : Bool
  pub is_inet6 : Bool
  pub setsockopt : Bool

-- A stream with the descriptors of its buffer and of its file.
pub record NewStream : Type 0 where
  pub stream : Stream
  pub buffer_fd : ℕ
  pub diskfile_fd : Option ℕ

pub data Made : Type 0 where
  exits : Made
  null : Ierror → Resources → Made
  made : NewStream → List Stream → Resources → Made

-- After `memset` the stream has zeros.
abbrev pub zero_stream : ℕ → Stream
zero_stream s = record {
  id = 0;
  socket = s;
  green_light = false;
  packet_count = 0;
  omitted_packet_count = 0;
  outoforder_packets = 0;
  cnt_error = 0;
  bytes_received = 0;
  bytes_sent = 0;
  bytes_received_this_interval = 0;
  bytes_sent_this_interval = 0;
  stream_retrans = pos 0;
  start_time = record { sec = 0; usec = 0 };
  end_time = record { sec = 0; usec = 0 };
  intervals = [];
}

unfoldable pub iperf_init_stream : Test → Answers → Status
iperf_init_stream t a =
    if not a.getsockname || not a.getpeername
    then error ieinitstream
    else (if nonzero t.settings.tos && not a.setsockopt
        then error (if a.is_inet6 then iesetcos else iesettos)
        else ok)

unfoldable pub close_fd : ℕ → List ℕ → List ℕ
close_fd d [] = []
close_fd d (x ∷ xs) = if x == d then xs else x ∷ close_fd d xs

abbrev pub close_file : Option ℕ → List ℕ → List ℕ
close_file none fds = fds
close_file (some d) fds = close_fd d fds

abbrev pub unmap_free : Resources → Resources
unmap_free r = record { blocks = r.blocks - 2; mappings = r.mappings - 1; fds = r.fds }

-- From iperf_init_stream on.
abbrev pub add_if : Status → NewStream → List Stream → Resources → Made
add_if ok ns sps r = made ns (iperf_add_stream ns.stream sps) r
add_if (error e) ns sps r = null e (unmap_free (record r { fds = close_fd ns.buffer_fd r.fds }))

-- `open(test->diskfile_name, ...)`, where there is a name.
abbrev pub open_file : Test → Answers → ℕ → ℕ → List Stream → Option ℕ → Resources → Made
open_file t a s fd sps none r = null iefile (unmap_free r)
open_file t a s fd sps (some d) r =
    add_if (iperf_init_stream t a)
      (record { stream = zero_stream s; buffer_fd = fd; diskfile_fd = some d }) sps
      (record r { fds = d ∷ r.fds })

abbrev pub with_buffer : Test → Answers → ℕ → List Stream → Option ℕ → Resources → Made
with_buffer t a s sps none r = exits
with_buffer t a s sps (some fd) r =
    if a.unlink && a.ftruncate && a.mmap
    then (let r' = record r { mappings = suc r.mappings; fds = fd ∷ r.fds } in
        if is_some t.diskfile_name
        then open_file t a s fd sps a.file r'
        else add_if (iperf_init_stream t a)
            (record { stream = zero_stream s; buffer_fd = fd; diskfile_fd = none }) sps r')
    else exits

unfoldable pub iperf_new_stream : Test → Answers → ℕ → List Stream → Resources → Made
unfolding iperf_init_stream close_fd
iperf_new_stream t a s sps r =
    if a.stream_block && a.result_block
    then with_buffer t a s sps a.mkstemp (record r { blocks = r.blocks + 2 })
    else exits

-- Its timer, if it has one, is cancelled besides.
unfoldable pub iperf_free_stream : NewStream → Resources → Resources
unfolding close_fd
iperf_free_stream ns r = record {
  blocks = r.blocks - length ns.stream.intervals - 2;
  mappings = r.mappings - 1;
  fds = close_file ns.diskfile_fd (close_fd ns.buffer_fd r.fds);
}

abbrev pub only : Option ℕ → List ℕ
only none = []
only (some d) = d ∷ []

-- The descriptor that a failure leaves open: the buffer's, where the file cannot be opened, or that of the file.
abbrev pub left_open : Test → Answers → List ℕ
left_open t a =
    if is_some t.diskfile_name then only (if is_some a.file then a.file else a.mkstemp) else []

-- What holds when iperf_new_stream has returned, and of the stream with any intervals later.
abbrev pub IsSettled : Test → Answers → ℕ → List Stream → Resources → Made → Type 0
IsSettled t a s sps r exits = Unit
IsSettled t a s sps r (null e r') = r' ≡ record r { fds = left_open t a ++ r.fds }
IsSettled t a s sps r (made ns sps' r') =
    (sps' ≡ iperf_add_stream (zero_stream s) sps)
    × ((sp : Stream)
        → iperf_free_stream (record ns { stream = sp })
            (record r' { blocks = r'.blocks + length sp.intervals })
          ≡ r)
