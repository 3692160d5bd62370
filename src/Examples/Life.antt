-- ===== src/Examples/Life.antt =====
-- A stream for a test with a file, where the file is opened.
use wifitesttool.Base.{true, false, some, [], ◌∷◌}
use wifitesttool.Streams.Life.{Resources, Answers, iperf_new_stream, IsSettled}
use wifitesttool.Streams.Returned.{iperf_new_stream-IsSettled}
use wifitesttool.Test.{Test, iperf_new_test}

abbrev with_file : Test
with_file = record iperf_new_test { diskfile_name = some (b'f' ∷ []) }

abbrev granted : Answers
granted = record {
  stream_block = true;
  result_block = true;
  mkstemp = some 6;
  unlink = true;
  ftruncate = true;
  mmap = true;
  file = some 7;
  getsockname = true;
  getpeername = true;
  is_inet6 = false;
  setsockopt = true;
}

abbrev before : Resources
before = record { blocks = 10; mappings = 0; fds = 5 ∷ 4 ∷ [] }

iperf_new_stream-IsSettled_example :
    IsSettled with_file granted 5 [] before (iperf_new_stream with_file granted 5 [] before)
iperf_new_stream-IsSettled_example = iperf_new_stream-IsSettled with_file granted 5 [] before
