-- ===== src/Control.antt =====
-- The control connection: the states of iperf_jni/jni/iperf/src/iperf_api.h, and what the client and the server
-- do with them, as processes. A process makes system calls and calls of other components (`act`, with what the
-- environment answers), writes to the other side (`put`) and waits for a message (`get`).
pub mod Client
pub mod Server
pub mod Schedules
pub mod Session
pub mod Whole
pub mod Refused
use wifitesttool.Base.{ℕ, zero, suc, Bool, true, false, if◌then◌else◌, Option}
use wifitesttool.Base.Int.{ℤ, pos}
use wifitesttool.Error.{Ierror, Status, error, iesendmessage}
use wifitesttool.Test.{Test}

-- A state, which is also the byte that tells the other side of it.
pub data State : Type 0 where
  initial test_start test_running result_request test_end stream_begin stream_running stream_end :
      State
  all_streams_end param_exchange create_streams server_terminate client_terminate exchange_results :
      State
  display_results iperf_start iperf_done access_denied server_error : State
  unknown : ℤ → State

-- What reaches the other side: connections, the cookie, state bytes, the two JSON objects and the two
-- numbers of an error.
pub data Message : Type 0 where
  control_connection stream_connection cookie closed results : Message
  state_byte : State → Message
  parameters : Test → Message
  i_errno_code : Ierror → Message
  errno_code : ℕ → Message

-- Calls that can fail, and callbacks.
pub data Action : Type 0 where
  new_stream init_test create_timers create_omit_timer create_send_timers : Action
  transfer stats_callback reporter_callback on_connect on_new_stream on_test_finish close_streams :
      Action
  accept set_affinity protocol_listen accept_stream relisten cleanup deny listen clear_affinity :
      Action

pub data Process (A : Type 0) : Type 0 where
  ret : A → Process A
  act : Action → (Bool → Process A) → Process A
  put : Message → (Bool → Process A) → Process A
  get : (Message → Process A) → Process A

-- `struct iperf_test` as one side has it, with `test->state`, whether `test->ctrl_sck` is a socket, and the
-- number of streams that it has opened or accepted.
pub record Peer : Type 0 where
  pub test : Test
  pub state : State
  pub connected : Bool
  pub streams : ℕ

-- How a side ends: what its run returns, with the test. A run whose loop has taken all the turns that it may
-- take has not ended.
pub data End : Type 0 where
  ended : Status → Peer → End
  out_of_turns : End

-- What the callers of a handler do when it returns -1.
abbrev pub Failure : Type 0
Failure = Ierror → Peer → Process End

-- What follows a handler that returns 0.
abbrev pub Next : Type 0
Next = Peer → Process End

-- `if (f(test) < 0) { i_errno = e; return -1; }`
abbrev pub check : Failure → Action → Ierror → Peer → Next → Process End
check fail a e p k = act a (λ (b : Bool). if b then k p else fail e p)

-- A call whose result is not looked at.
abbrev pub call : Action → Peer → Next → Process End
call a p k = act a (λ (b : Bool). k p)

-- The write of a message, and the error where it fails.
abbrev pub send : Failure → Message → Ierror → Peer → Next → Process End
send fail m e p k = put m (λ (b : Bool). if b then k p else fail e p)

unfoldable pub iperf_set_send_state : Failure → State → Peer → Next → Process End
iperf_set_send_state fail s p k = send fail (state_byte s) iesendmessage (record p { state = s }) k
