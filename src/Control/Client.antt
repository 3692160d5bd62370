-- ===== src/Control/Client.antt =====
-- The client's side of the control connection: iperf_jni/jni/iperf/src/iperf_client_api.c, with the client's
-- parts of iperf_exchange_parameters and iperf_exchange_results of iperf_api.c.
use wifitesttool.Base.{ℕ, zero, suc, Bool, true, false, if◌then◌else◌}
use wifitesttool.Base.Int.{pos_part}
use wifitesttool.Control.{
  State, test_start, test_running, test_end, param_exchange, create_streams, server_terminate,
  exchange_results, display_results, iperf_done, access_denied, server_error, Message,
  control_connection, stream_connection, cookie, closed, results, state_byte, parameters,
  i_errno_code, errno_code, new_stream, init_test, create_timers, create_omit_timer,
  create_send_timers, transfer, stats_callback, reporter_callback, on_connect, on_new_stream,
  on_test_finish, close_streams, set_affinity, Process, ret, get, Peer, End, ended, out_of_turns,
  Failure, Next, check, call, send, iperf_set_send_state,
}
use wifitesttool.Error.{
  Ierror, ok, error, iestreamread, ieinittest, ieconnect, iesendcookie, iectrlread, iectrlclose,
  iemessage, ierecvmessage, iesendparams, iesendresults, ierecvresults, ieserverterm,
  ieaccessdenied, ieaffinity, iecreatestream, iestreamconnect, iestreamwrite,
}
use wifitesttool.Params.{is_minus1}

abbrev pub is_done : State → Bool
is_done iperf_done = true
is_done _ = false

abbrev pub fails : Failure
fails e p = ret (ended (error e) p)

-- The rest of `iperf_create_streams`, with the number of streams that are left.
unfoldable pub create_streams_loop : ℕ → Peer → Next → Process End
create_streams_loop zero p k = k p
create_streams_loop (suc n) p k = send fails stream_connection iestreamconnect p (λ (q : Peer).
    check fails new_stream iecreatestream q (λ (r : Peer).
      call on_new_stream (record r { streams = suc r.streams })
        (λ (s : Peer). create_streams_loop n s k)))

abbrev pub iperf_create_streams : Peer → Next → Process End
iperf_create_streams p k = create_streams_loop (pos_part p.test.num_streams) p k

-- `iperf_exchange_parameters`, in which the client sends its parameters.
abbrev pub exchange_parameters : Peer → Next → Process End
exchange_parameters p k = send fails (parameters p.test) iesendparams p k

-- `get_results`, but for what it notes in the streams.
abbrev pub took_results : Failure → Message → Peer → Next → Process End
took_results fail results p k = k p
took_results fail _ p k = fail ierecvresults p

abbrev pub exchange_results_client : Peer → Next → Process End
exchange_results_client p k =
    send fails results iesendresults p
      (λ (q : Peer). get (λ (m : Message). took_results fails m q k))

abbrev pub iperf_client_end : Failure → Peer → Next → Process End
iperf_client_end fail p k = call close_streams p (λ (q : Peer).
    call reporter_callback q (λ (r : Peer). iperf_set_send_state fail iperf_done r k))

-- A test that starts, on the client.
abbrev pub start_client : Peer → Next → Process End
start_client p k = check fails init_test ieinittest p (λ (q : Peer).
    check fails create_timers ieinittest q (λ (r : Peer).
      check fails create_omit_timer ieinittest r (λ (s : Peer).
        if s.test.reverse then k s else check fails create_send_timers ieinittest s k)))

-- The second number of an error is `errno`, and `i_errno` is the first.
abbrev pub took_errno : Ierror → Message → Peer → Process End
took_errno e (errno_code n) p = fails e p
took_errno e _ p = fails iectrlread p

abbrev pub took_error : Message → Peer → Process End
took_error (i_errno_code e) p = get (λ (m : Message). took_errno e m p)
took_error _ p = fails iectrlread p

-- The `switch` of `iperf_handle_message_client`, on the state that was read. What iperf_client_end returns is
-- not looked at.
unfoldable pub on_state_client : State → Peer → Next → Process End
on_state_client param_exchange p k = exchange_parameters p (λ (q : Peer). call on_connect q k)
on_state_client create_streams p k = iperf_create_streams p k
on_state_client test_start p k = start_client p k
on_state_client test_running p k = k p
on_state_client exchange_results p k = exchange_results_client p k
on_state_client display_results p k =
    call on_test_finish p (λ (q : Peer). iperf_client_end (λ e r. k r) q k)
on_state_client iperf_done p k = k p
on_state_client server_terminate p k = call reporter_callback p (λ (q : Peer). fails ieserverterm q)
on_state_client access_denied p k = fails ieaccessdenied p
on_state_client server_error p k = get (λ (m : Message). took_error m p)
on_state_client _ p k = fails iemessage p

abbrev pub iperf_handle_message_client : Message → Peer → Next → Process End
iperf_handle_message_client (state_byte s) p k = on_state_client s (record p { state = s }) k
iperf_handle_message_client closed p k = fails iectrlclose p
iperf_handle_message_client _ p k = fails ierecvmessage p

-- One turn of the loop after the message, where the data phase runs until the test is done.
abbrev pub run_test : Peer → Next → Process End
run_test p k =
    check fails transfer (if p.test.reverse then iestreamread else iestreamwrite) p (λ (q : Peer).
      call stats_callback (record q { test = record q.test { done = true } })
        (λ (r : Peer). iperf_set_send_state fails test_end r k))

abbrev pub is_running : State → Bool
is_running test_running = true
is_running _ = false

-- The loop of `iperf_run_client`, with the number of turns that it may take.
unfoldable pub client_loop : ℕ → Peer → Process End
client_loop zero p = ret out_of_turns
client_loop (suc n) p =
    if is_done p.state
    then ret (ended ok p)
    else get (λ (m : Message).
      iperf_handle_message_client m p
        (λ (q : Peer). if is_running q.state then run_test q (client_loop n) else client_loop n q))

abbrev pub iperf_connect : Peer → Next → Process End
iperf_connect p k =
    send fails control_connection ieconnect p
      (λ (q : Peer). send fails cookie iesendcookie (record q { connected = true }) k)

unfoldable pub iperf_run_client : ℕ → Peer → Process End
iperf_run_client fuel p =
    if is_minus1 p.test.affinity
    then iperf_connect p (client_loop fuel)
    else check fails set_affinity ieaffinity p (λ (q : Peer). iperf_connect q (client_loop fuel))
