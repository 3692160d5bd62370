-- ===== src/Lib.antt =====
-- iperf3 as it is kept under iperf_jni/jni/iperf/src, which the application WifiTest runs to measure a
-- network. A client and a server, each a `struct iperf_test`, agree on a test over a control connection
-- of JSON messages, open streams over TCP, UDP or SCTP, and send until timers or counters end the test.
--
-- The parts that are modelled, bottom up:
-- * Timer (timer.c): the active and the free list of timers. A list is a List of records that carry
--   their address; an operation on an address that is not in the list it must be in is undefined
--   (`none`). The callbacks of `tmr_run` are an argument that may change the timers. Each turn of its
--   loop uses fuel. Time, Order, Valid, Effects and Run prove its order, its invariant, what each
--   operation does and what fuel is enough: one more than `work`, the turns that due timers can take.
--   Refines shows that any sequence of the operations does the same to a table of what is due.
-- * Net (net.c, and JSON_read and JSON_write of iperf_api.c): the answers of read, write and sendfile
--   are a list, used up by one call after another; the result is `none` where the list ends first, as a
--   call would then block. Reading, Writing and Framing hold the proofs.
-- * Error (iperf_api.h): the codes of `i_errno`. Messages (iperf_error.c): `iperf_strerror`, given the
--   texts of strerror and hstrerror, with the limits of iperf.h put into the messages.
-- * Socket (net.c) and Socket.Streams (iperf_tcp.c, iperf_udp.c, iperf_sctp.c): the functions that open
--   connections, in a state monad with `return -1`. Each system call takes its answer from a script; the
--   state keeps the open descriptors and the number of address lists that are not freed. Triples has
--   rules for pre- and postconditions, which Leaks, Opened and Listening use. Listening has
--   iperf_server_listen, with fuel for its retry, and the functions of iperf_sctp.c that listen and accept.
-- * Test (iperf.h, iperf_api.c): the fields of a test and its settings, the defaults, the reset of a
--   server test and the setters that decide who sends. Direction and Reset hold the proofs.
-- * Json (cjson.h): an interface of JSON objects, which stands for the library cJSON. Params (send_parameters and
--   get_parameters of iperf_api.c) builds and reads objects over it. Params.Received says what the server's
--   test takes over, and RoundTrip proves it for a message that the client has sent.
-- * Streams (iperf.h, iperf_api.c): a stream with its counters and intervals, the functions of TCP and
--   SCTP that send and receive, iperf_stats_callback, iperf_reset_stats and iperf_add_stream (Ids). Life
--   has what iperf_new_stream takes and iperf_free_stream gives back, and Returned compares them.
-- * Sending (iperf_send, iperf_recv and iperf_check_throttle of iperf_api.c): the loops over the streams, for
--   any send and receive functions. Protocols has those of TCP and SCTP with what they count. Accounts and
--   Balance follow the sums of bytes, Steps has the calls of a running test as a step relation, and Rate and
--   Pace bound how far a sender gets ahead of its rate.
-- * Udp (iperf_udp.c): the header of a datagram and the counts of lost and late ones.
-- * Results (send_results and get_results of iperf_api.c): what the two sides tell each other of the
--   streams at the end, on the items of the JSON objects. Exchange has the proof.
-- * Report (iperf_reporter_callback, iperf_print_intermediate, print_interval_results and iperf_print_results of
--   iperf_api.c): the lines of the reports as their numbers. Final has the summary at the end. Counts, Sums, Summary
--   and Exchanged compare the lines of a report, and the reports of the two sides.
-- * Alarms (create_client_timers, create_client_omit_timer, create_server_timers, create_server_omit_timer, the
--   callbacks, and cleanup_server): the pointers of a test to its timers, over Timer. Owned says how pointers and
--   timers belong together, Runs follows tmr_run, Steps the start, and Whole all of it in any order.
-- * Control (iperf_client_api.c, iperf_server_api.c and their parts of iperf_api.c): the client and the
--   server as processes that make calls, write messages and wait for one; `fail` and `next` are what follows
--   a handler that returns -1 or 0. Schedules lets two processes take their steps in any order, with a
--   queue of messages for each, and shows that all orders have the same end. Session has what runs are
--   made of; Whole and Refused follow a test that succeeds and one whose server cannot listen. The loops
--   take a number of turns: seven for the client, and four and the number of streams for the server.
-- * Units (units.c): numbers with units, as exact fractions. Scales has the proof.
-- * Printf (iperf_json_printf of iperf_util.c): the scan of a format, character by character. Fields has the proof.
-- * Options (iperf_parse_arguments of iperf_api.c): the options that getopt_long returns, with the
--   numbers of their arguments. Limits, Given and Accepted hold the proofs.
-- * Base has the shared names, tests, list lemmas and integers; Examples runs the theorems on data.
--
-- Numbers are unbounded: 64-bit microseconds and byte counts do not overflow in the ranges used, and an
-- `int` option is an integer ℤ, since its limits are what is proved. The microseconds and periods of
-- timers are not negative. The counts of a UDP stream wrap around as 32 bits where datagrams are counted, and are
-- taken to be below 2 ^ 31 where they are reported or sent; JSON_write and JSON_read have the length in a
-- `uint32_t` and what Nread and Nwrite return in an `int`. Intervals, which are doubles in the source, are
-- microseconds. A build for linux is modelled, with affinity, SCTP, flow labels, congestion control and sendfile.
--
-- Not modelled: cjson.c and queue.h, which are copies of other projects; the texts of formatted
-- output, and bandwidths, percentages and times in it; CPU time and random cookies; the values that system calls
-- are given, beyond what they open and close; jitter and the counts of TCP_INFO. The rate of a stream is compared exactly, in microseconds, and `write_setP` is
-- not cleared; one time is read for all streams where the source reads the clock for each. In Control
-- the calls of other components succeed or fail as a whole, the data phase and the denial of a second
-- client are each one call, a message arrives whole and in order, and signals and descriptor sets are
-- left out. Allocation fails only where a parameter says so, in tmr_create, iperf_new_stream, JSON_read
-- and cJSON_CreateObject. The timers that throttle the streams are left out of Alarms.
pub mod Base
pub mod Timer
pub mod Net
pub mod Error
pub mod Json
pub mod Params
pub mod Streams
pub mod Sending
pub mod Udp
pub mod Results
pub mod Report
pub mod Alarms
pub mod Units
pub mod Printf
pub mod Control
pub mod Socket
pub mod Test
pub mod Options
mod Examples
