-- ===== src/Control/Refused.antt =====
-- The control connection where the server's protocol cannot listen for the streams.
use wifitesttool.Base.{ℕ, suc, refl, Bool, true, false, [], ◌∷◌, ◌++◌}
use wifitesttool.Control.{
  initial, iperf_start, server_error, cookie, Action, protocol_listen, ret, ended, Next,
  iperf_set_send_state,
}
use wifitesttool.Control.Client.{client_loop, on_state_client}
use wifitesttool.Control.Schedules.{Outcomes, Session, Run, step, IsFinal, all_runs}
use wifitesttool.Control.Server.{iperf_accept}
use wifitesttool.Control.Session.{all_well, session, in_order, in_order-Run, peer, times}
use wifitesttool.Error.{Ierror, error}
use wifitesttool.Test.{Test}

-- All calls succeed but the one of `test->protocol->listen`.
abbrev succeeds : Action → Bool
succeeds protocol_listen = false
succeeds _ = true

abbrev pub cannot_listen : Outcomes
cannot_listen = record { calls = succeeds; writes = λ m. true }

module _ (receive : Test → Test → Test) (listen_error : Ierror) (listen_errno : ℕ) (t u : Test)
    (i : ℕ) (next : Next) where
  -- The client is connected, and the server is about to take it.
  abbrev pub greeting : Session
  greeting =
      session (client_loop (suc (suc (suc i))) (peer t initial 0))
        (iperf_accept receive listen_error listen_errno
          (record { test = u; state = iperf_start; connected = false; streams = 0 }) next)
        [] (cookie ∷ [])

  abbrev pub refusal : Session
  refusal =
      session (ret (ended (error listen_error) (peer t server_error 0)))
        (ret (ended (error listen_error) (peer (receive t u) server_error 0))) [] []

  refuses : (n : ℕ) × Run all_well cannot_listen n greeting refusal
  unfolding in_order client_loop on_state_client iperf_accept iperf_set_send_state
  refuses =
      in_order-Run all_well cannot_listen
        (times 3 false ++ times 3 true ++ times 6 false ++ times 3 true) greeting refusal refl

  refusal-IsFinal : IsFinal all_well cannot_listen refusal
  unfolding step
  refusal-IsFinal true = refl
  refusal-IsFinal false = refl

  -- Where the protocol of a server that has taken a client fails to listen for the streams, and all other calls
  -- succeed, every run leads to the end at which both return -1, and `i_errno` of the client is the one
  -- that the server has, whatever both have done and in any order of their steps.
  pub every_run-refusal :
      (k : ℕ) (s : Session)
      → Run all_well cannot_listen k greeting s
      → (m : ℕ) × Run all_well cannot_listen m s refusal
  every_run-refusal k s h =
      let (n, r) = refuses in
      let (m, e, q) = all_runs all_well cannot_listen r refusal-IsFinal h in (m, q)
