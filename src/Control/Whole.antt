-- ===== src/Control/Whole.antt =====
-- A whole test over the control connection, from the client's connection to both ends.
use wifitesttool.Base.{
  ℕ, suc, ◌≡◌, refl, sym, ap, subst, ◌∙◌, true, false, if◌then◌else◌, [], ◌∷◌, ◌++◌, arith,
}
use wifitesttool.Base.Int.{pos, pos_part}
use wifitesttool.Control.{
  initial, test_start, test_running, test_end, param_exchange, create_streams, iperf_start,
  iperf_done, control_connection, cookie, state_byte, create_send_timers, on_connect, set_affinity,
  relisten, clear_affinity, Process, ret, Peer, End, ended, Next, check, call, iperf_set_send_state,
}
use wifitesttool.Control.Client.{
  iperf_run_client, iperf_connect, client_loop, on_state_client, create_streams_loop, run_test,
  is_running, fails,
}
use wifitesttool.Control.Schedules.{Session, Run, step, IsFinal, all_runs}
use wifitesttool.Control.Server.{
  relistens, iperf_run_server, listen_server, server_loop, on_message, iperf_accept, if_all_streams,
  all_streams, start_server, on_state_server, cleans_up, end_server,
}
use wifitesttool.Control.Session.{
  all_well, session, Leads, Leads-trans, steps, steps-Leads, either_client, either_server,
  other_server, peer, fresh_peer, turns_for, times, opens, feed-connections, accepts,
}
use wifitesttool.Error.{Ierror, ok, ieaffinity, ieinittest, ielisten}
use wifitesttool.Params.{is_minus1}
use wifitesttool.Params.Received.{Received}
use wifitesttool.Test.{Test}

-- The client's turns: one for each state that the server sends, and one to see that it is done.
abbrev pub client_turns : ℕ → ℕ
client_turns i = suc (suc (suc (suc (suc (suc (suc i))))))

-- A test at its end.
abbrev pub at_end : Test → Test
at_end t = record t { done = true }

abbrev after_message : ℕ → Next
after_message n q = if is_running q.state then run_test q (client_loop n) else client_loop n q

module _ (receive : Test → Test → Test) (listen_error : Ierror) (listen_errno : ℕ) (t u : Test)
    (i j : ℕ) where
  abbrev pub start : Session
  start =
      session (iperf_run_client (client_turns i) (fresh_peer t))
        (iperf_run_server receive listen_error listen_errno
          (suc (turns_for (pos_part t.num_streams) j)) (fresh_peer u))
        [] []

  abbrev loop : ℕ → Peer → Process End
  loop n = server_loop receive listen_error listen_errno n

  abbrev r : Test
  r = receive t u

  abbrev after_affinity : Next
  after_affinity p =
      call on_connect p
        (λ (q : Peer). if_all_streams q (loop (turns_for (pos_part t.num_streams) j)))

  connects : Leads start (
      session
        (client_loop (client_turns i) (peer t initial 0))
        (loop
          (suc (turns_for (pos_part t.num_streams) j))
          (record (fresh_peer u) { state = iperf_start }))
        []
        (control_connection ∷ cookie ∷ []))
  unfolding iperf_run_client iperf_run_server steps
  connects =
      Leads-trans _ _ _
        (either_client (is_minus1 t.affinity) fails set_affinity ieaffinity (fresh_peer t)
          (λ (q : Peer). iperf_connect q (client_loop (client_turns i))) _ [] [])
        (Leads-trans _ _ _ (steps-Leads (times 2 true) _ _ refl) (
          Leads-trans _ _ _
            (either_server (is_minus1 u.affinity) fails set_affinity ieaffinity (fresh_peer u)
              (listen_server receive listen_error listen_errno
                (suc (turns_for (pos_part t.num_streams) j)))
              (client_loop (client_turns i) (peer t initial 0)) []
              (control_connection ∷ cookie ∷ []))
            (steps-Leads (times 1 false) _ _ refl)))

  -- The server takes the parameters and asks for the streams.
  exchanges :
      Leads
        (session
          (client_loop (client_turns i) (peer t initial 0))
          (loop
            (suc (turns_for (pos_part t.num_streams) j))
            (record (fresh_peer u) { state = iperf_start }))
          []
          (control_connection ∷ cookie ∷ []))
        (session
          (client_loop (suc (suc (suc (suc (suc (suc i)))))) (peer t param_exchange 0))
          (if_all_streams (peer r create_streams 0) (loop (turns_for (pos_part t.num_streams) j)))
          (state_byte create_streams ∷ [])
          [])
  unfolding client_loop server_loop on_message on_state_client iperf_accept iperf_set_send_state
      steps
  exchanges =
      Leads-trans _ _ _
        (steps-Leads (times 4 false ++ times 3 true ++ times 3 false) _
          (session (client_loop (suc (suc (suc (suc (suc (suc i)))))) (peer t param_exchange 0))
            (if is_minus1 r.server_affinity
              then after_affinity (peer r create_streams 0)
              else check cleans_up set_affinity ieaffinity (peer r create_streams 0) after_affinity)
            (state_byte create_streams ∷ []) [])
          refl)
        (Leads-trans _ _ _
          (either_server (is_minus1 r.server_affinity) cleans_up set_affinity ieaffinity
            (peer r create_streams 0) after_affinity
            (client_loop (suc (suc (suc (suc (suc (suc i)))))) (peer t param_exchange 0))
            (state_byte create_streams ∷ []) [])
          (steps-Leads (times 1 false) _ _ refl))

  module _ (received : Received t u r) (l : ℕ) (wanted : t.num_streams ≡ pos (suc l)) where
    same_streams : pos_part r.num_streams ≡ pos_part t.num_streams
    same_streams = ap pos_part received.num_streams

    -- The server waits for a number that is not negative.
    countable : r.num_streams ≡ pos (pos_part r.num_streams)
    countable =
        let e = received.num_streams ∙ wanted in subst (λ n. n ≡ pos (pos_part n)) (sym e) refl

    abbrev client_waits : Process End
    client_waits =
        client_loop (suc (suc (suc (suc (suc i))))) (peer t create_streams (pos_part t.num_streams))

    -- The client opens the streams, and the server takes them all.
    creates :
        Leads
          (session
            (client_loop (suc (suc (suc (suc (suc (suc i)))))) (peer t param_exchange 0))
            (if_all_streams (peer r create_streams 0) (loop (turns_for (pos_part t.num_streams) j)))
            (state_byte create_streams ∷ [])
            [])
          (session
            (client_loop
              (suc (suc (suc (suc (suc i)))))
              (peer t create_streams (pos_part t.num_streams)))
            (all_streams
              (peer r create_streams (pos_part r.num_streams))
              (loop (suc (suc (suc j)))))
            []
            [])
    unfolding client_loop on_state_client steps
    creates =
        let waiting =
          if_all_streams (peer r create_streams 0) (loop (turns_for (pos_part t.num_streams) j)) in
        Leads-trans _ _ _
          (steps-Leads (times 1 true) _
            (session
              (create_streams_loop (pos_part t.num_streams) (peer t create_streams 0)
                (after_message (suc (suc (suc (suc (suc i)))))))
              waiting [] [])
            refl)
          (Leads-trans _ _ _
            (opens (pos_part t.num_streams) (pos_part t.num_streams) t 0
              (after_message (suc (suc (suc (suc (suc i)))))) waiting [] (omega arith))
            (subst
              (λ q.
                Leads
                  (session
                    (client_loop (suc (suc (suc (suc (suc i)))))
                      (peer t create_streams (pos_part t.num_streams)))
                    waiting [] q)
                  (session client_waits
                    (all_streams (peer r create_streams (pos_part r.num_streams))
                      (loop (suc (suc (suc j)))))
                    [] []))
              (sym (
                feed-connections (pos_part t.num_streams) 0 (pos_part t.num_streams) (omega arith)))
              (accepts receive listen_error listen_errno (pos_part t.num_streams) 0 j r _ []
                countable (omega (arith, same_streams)))))

    abbrev runs : Next
    runs q = iperf_set_send_state cleans_up test_running q (loop (suc (suc (suc j))))

    -- The server starts the test, and then the client does.
    starts :
        Leads
          (session
            (client_loop
              (suc (suc (suc (suc (suc i)))))
              (peer t create_streams (pos_part t.num_streams)))
            (all_streams
              (peer r create_streams (pos_part r.num_streams))
              (loop (suc (suc (suc j)))))
            []
            [])
          (session
            (client_loop (suc (suc (suc i))) (peer (at_end t) test_end (pos_part t.num_streams)))
            (loop (suc (suc (suc j))) (peer r test_running (pos_part r.num_streams)))
            []
            (state_byte test_end ∷ []))
    unfolding client_loop start_server on_state_client iperf_set_send_state steps
    starts =
        Leads-trans _ _ _
          (other_server (relistens r) cleans_up relisten ielisten
            (peer r create_streams (pos_part r.num_streams))
            (λ (q : Peer). start_server q (loop (suc (suc (suc j))))) client_waits [] [])
          (Leads-trans _ _ _
            (steps-Leads (times 4 false) _
              (session client_waits
                (if r.reverse
                  then check cleans_up create_send_timers ieinittest
                      (peer r test_start (pos_part r.num_streams)) runs
                  else runs (peer r test_start (pos_part r.num_streams)))
                (state_byte test_start ∷ []) [])
              refl)
            (Leads-trans _ _ _
              (other_server r.reverse cleans_up create_send_timers ieinittest
                (peer r test_start (pos_part r.num_streams)) runs client_waits
                (state_byte test_start ∷ []) [])
              (Leads-trans _ _ _
                (steps-Leads (times 1 false ++ times 4 true) _
                  (session
                    (if t.reverse
                      then after_message (suc (suc (suc (suc i))))
                          (peer t test_start (pos_part t.num_streams))
                      else check fails create_send_timers ieinittest
                          (peer t test_start (pos_part t.num_streams))
                          (after_message (suc (suc (suc (suc i))))))
                    (loop (suc (suc (suc j))) (peer r test_running (pos_part r.num_streams)))
                    (state_byte test_running ∷ []) [])
                  refl)
                (Leads-trans _ _ _
                  (either_client t.reverse fails create_send_timers ieinittest
                    (peer t test_start (pos_part t.num_streams))
                    (after_message (suc (suc (suc (suc i))))) _ (state_byte test_running ∷ []) [])
                  (steps-Leads (times 4 true) _ _ refl)))))

    ends :
        Leads
          (session
            (client_loop (suc (suc (suc i))) (peer (at_end t) test_end (pos_part t.num_streams)))
            (loop (suc (suc (suc j))) (peer r test_running (pos_part r.num_streams)))
            []
            (state_byte test_end ∷ []))
          (session
            (ret (ended ok (peer (at_end t) iperf_done (pos_part t.num_streams))))
            (ret (ended ok (peer (at_end r) iperf_done (pos_part r.num_streams))))
            []
            [])
    unfolding client_loop server_loop on_message on_state_client on_state_server
        iperf_set_send_state steps
    ends =
        Leads-trans _ _ _
          (steps-Leads
            (times 4 false ++ times 2 true ++ times 5 false ++ times 6 true ++ times 2 false) _
            (session (ret (ended ok (peer (at_end t) iperf_done (pos_part t.num_streams))))
              (end_server receive listen_error listen_errno
                (peer (at_end r) iperf_done (pos_part r.num_streams)))
              [] [])
            refl)
          (either_server (is_minus1 r.server_affinity) fails clear_affinity ieaffinity
            (peer (at_end r) iperf_done (pos_part r.num_streams)) (λ (q : Peer). ret (ended ok q)) _
            [] [])

    -- Both sides at the end.
    abbrev pub finish : Session
    finish =
        session (ret (ended ok (peer (at_end t) iperf_done (pos_part t.num_streams))))
          (ret (ended ok (peer (at_end r) iperf_done (pos_part t.num_streams)))) [] []

    finishes : Leads start finish
    finishes =
        subst
          (λ n. Leads start (
            session (ret (ended ok (peer (at_end t) iperf_done (pos_part t.num_streams))))
              (ret (ended ok (peer (at_end r) iperf_done n))) [] []))
          same_streams
          (Leads-trans _ _ _ connects (
            Leads-trans _ _ _ exchanges
              (Leads-trans _ _ _ creates (Leads-trans _ _ _ starts ends))))

    finish-IsFinal : IsFinal all_well all_well finish
    unfolding step
    finish-IsFinal true = refl
    finish-IsFinal false = refl

    -- Where the client asks for at least one stream, the server takes over the client's parameters, every call succeeds and every message
    -- arrives, and the loops may take enough turns, then whatever both sides have done, in any order of their
    -- steps, some more steps lead to the end: both runs return 0, in the state IPERF_DONE, with all the streams
    -- that the client asked for and with `done` set, and no message is left.
    pub every_run-finish :
        (k : ℕ) (s : Session)
        → Run all_well all_well k start s
        → (m : ℕ) × Run all_well all_well m s finish
    every_run-finish k s h =
        let (n, r) = finishes in
        let (m, e, q) = all_runs all_well all_well r finish-IsFinal h in (m, q)
