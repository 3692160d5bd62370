-- ===== src/Control/Server.antt =====
-- The server's side of the control connection: iperf_jni/jni/iperf/src/iperf_server_api.c, with the server's
-- parts of iperf_exchange_parameters and iperf_exchange_results of iperf_api.c. What get_parameters makes of the
-- test is an argument, and so are `i_errno` and `errno` after a failed `listen` of the protocol.
use wifitesttool.Base.{ℕ, zero, suc, Bool, true, false, if◌then◌else◌, ◌&&◌, ◌||◌, ◌==◌}
use wifitesttool.Base.Int.{ℤ, pos, negsuc}
use wifitesttool.Control.{
  State, test_start, test_running, test_end, param_exchange, create_streams, client_terminate,
  exchange_results, display_results, iperf_start, iperf_done, server_error, Message,
  control_connection, stream_connection, cookie, closed, results, state_byte, parameters,
  i_errno_code, errno_code, new_stream, init_test, create_timers, create_omit_timer,
  create_send_timers, stats_callback, reporter_callback, on_connect, on_new_stream, on_test_finish,
  close_streams, accept, set_affinity, protocol_listen, accept_stream, relisten, cleanup, deny,
  listen, clear_affinity, Process, ret, act, get, Peer, End, ended, out_of_turns, Failure, Next,
  check, call, send, iperf_set_send_state,
}
use wifitesttool.Control.Client.{is_done, fails, took_results}
use wifitesttool.Error.{
  Ierror, ok, error, ieinittest, ieaccept, ierecvcookie, iectrlwrite, iemessage, ierecvmessage,
  ierecvparams, iesendresults, iestreamaccept, iecreatestream, ielisten, ieaffinity,
}
use wifitesttool.Params.{is_minus1, nonzero}
use wifitesttool.Test.{Test, is_ptcp}

-- `cleanup_server(test)`, and the return of -1.
abbrev pub cleans_up : Failure
cleans_up e p = call cleanup p (λ (q : Peer). ret (ended (error e) q))

abbrev pub took_cookie : Message → Peer → Next → Process End
took_cookie cookie p k = k p
took_cookie _ p k = cleans_up ierecvcookie p

abbrev pub exchange_results_server : Peer → Next → Process End
exchange_results_server p k = get (λ (m : Message).
    took_results cleans_up m p (λ (q : Peer). send cleans_up results iesendresults q k))

-- `TEST_END` on the server.
abbrev pub end_test : Peer → Next → Process End
end_test p k =
    call stats_callback (record p { test = record p.test { done = true } })
      (λ (q : Peer). call close_streams q (λ (r : Peer).
        iperf_set_send_state cleans_up exchange_results r (λ (s : Peer).
          exchange_results_server s (λ (t : Peer).
            iperf_set_send_state cleans_up display_results t
              (λ (u : Peer). call on_test_finish u (λ (v : Peer). call reporter_callback v k))))))

abbrev pub client_terminated : Peer → Next → Process End
client_terminated p k =
    call reporter_callback p
      (λ (q : Peer). call close_streams q (λ (r : Peer). k (record r { state = iperf_done })))

-- The `switch` of `iperf_handle_message_server`, on the state that was read.
unfoldable pub on_state_server : State → Peer → Next → Process End
on_state_server test_start p k = k p
on_state_server test_end p k = end_test p k
on_state_server iperf_done p k = k p
on_state_server client_terminate p k = client_terminated p k
on_state_server _ p k = cleans_up iemessage p

abbrev pub iperf_handle_message_server : Message → Peer → Next → Process End
iperf_handle_message_server (state_byte s) p k = on_state_server s (record p { state = s }) k
iperf_handle_message_server closed p k = k (record p { state = iperf_done })
iperf_handle_message_server _ p k = cleans_up ierecvmessage p

-- Whether the listener of the control connection is opened again before the test.
abbrev pub relistens : Test → Bool
relistens t =
    is_ptcp t.protocol
    && (t.no_delay || nonzero t.settings.mss || nonzero t.settings.socket_bufsize)

-- The start of a test once all streams are there.
unfoldable pub start_server : Peer → Next → Process End
start_server p k = iperf_set_send_state cleans_up test_start p (λ (q : Peer).
    check cleans_up init_test ieinittest q (λ (r : Peer).
      check cleans_up create_timers ieinittest r (λ (s : Peer).
        check cleans_up create_omit_timer ieinittest s (λ (t : Peer).
          if t.test.reverse
          then check cleans_up create_send_timers ieinittest t
              (λ (u : Peer). iperf_set_send_state cleans_up test_running u k)
          else iperf_set_send_state cleans_up test_running t k))))

abbrev pub all_streams : Peer → Next → Process End
all_streams p k =
    if relistens p.test
    then check cleans_up relisten ielisten p (λ (q : Peer). start_server q k)
    else start_server p k

-- What a connection of a stream does while the streams are created.
unfoldable pub accept_stream_of : Peer → Next → Process End
accept_stream_of p k = check cleans_up accept_stream iestreamaccept p (λ (q : Peer).
    check cleans_up new_stream iecreatestream q
      (λ (r : Peer). call on_new_stream (record r { streams = suc r.streams }) k))

abbrev pub is_creating : State → Bool
is_creating create_streams = true
is_creating _ = false

-- `streams_accepted == num_streams`, of ints.
abbrev pub is_count : ℕ → ℤ → Bool
is_count n (pos k) = n == k
is_count n (negsuc k) = false

-- The last test while the streams are created, in each turn of the loop.
abbrev pub if_all_streams : Peer → Next → Process End
if_all_streams p k =
    if is_creating p.state && is_count p.streams p.test.num_streams then all_streams p k else k p

module _ (receive : Test → Test → Test) (listen_error : Ierror) (listen_errno : ℕ) where
  abbrev pub listen_failed : Peer → Process End
  listen_failed p = iperf_set_send_state cleans_up server_error p (λ (q : Peer).
      send cleans_up (i_errno_code listen_error) iectrlwrite q (λ (r : Peer).
        send cleans_up (errno_code listen_errno) iectrlwrite r
          (λ (s : Peer). cleans_up listen_error s)))

  abbrev pub took_parameters : Message → Peer → Next → Process End
  took_parameters (parameters t) p k = act protocol_listen (λ (b : Bool).
      if b
      then iperf_set_send_state cleans_up create_streams (record p { test = receive t p.test }) k
      else listen_failed (record p { test = receive t p.test }))
  took_parameters _ p k = cleans_up ierecvparams p

  -- A free server takes the client, and then its parameters.
  abbrev pub take_client : Peer → Next → Process End
  take_client p k = get (λ (m : Message). took_cookie m p (λ (r : Peer).
      iperf_set_send_state cleans_up param_exchange r (λ (s : Peer). get (λ (n : Message).
        took_parameters n s (λ (t : Peer).
          if is_minus1 t.test.server_affinity
          then call on_connect t k
          else check cleans_up set_affinity ieaffinity t (λ (u : Peer). call on_connect u k))))))

  -- A server that has a client denies the other one, which reads and writes on another connection.
  unfoldable pub iperf_accept : Peer → Next → Process End
  iperf_accept p k = check cleans_up accept ieaccept p (λ (q : Peer).
      if q.connected
      then check cleans_up deny ierecvcookie q k
      else take_client (record q { connected = true }) k)

  -- What the sockets that `select` reports lead to.
  unfoldable pub on_message : Message → Peer → Next → Process End
  on_message control_connection p k = iperf_accept p k
  on_message stream_connection p k = elim p.state [
    | create_streams ↦ accept_stream_of p k
    | _ ↦ iperf_accept p k
  ]
  on_message m p k = iperf_handle_message_server m p k

  abbrev pub end_server : Peer → Process End
  end_server p =
      if is_minus1 p.test.server_affinity
      then ret (ended ok p)
      else check fails clear_affinity ieaffinity p (λ (q : Peer). ret (ended ok q))

  -- The loop of `iperf_run_server`, with the number of turns that it may take.
  unfoldable pub server_loop : ℕ → Peer → Process End
  server_loop zero p = ret out_of_turns
  server_loop (suc n) p =
      if is_done p.state
      then call cleanup p end_server
      else get (λ (m : Message). on_message m p (λ (q : Peer). if_all_streams q (server_loop n)))

  abbrev pub listen_server : ℕ → Peer → Process End
  listen_server fuel p =
      check fails listen ielisten p
        (λ (q : Peer). server_loop fuel (record q { state = iperf_start }))

  unfoldable pub iperf_run_server : ℕ → Peer → Process End
  iperf_run_server fuel p =
      if is_minus1 p.test.affinity
      then listen_server fuel p
      else check fails set_affinity ieaffinity p (listen_server fuel)
