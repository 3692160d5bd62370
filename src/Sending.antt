-- ===== src/Sending.antt =====
-- The data phase of a test: iperf_check_throttle, iperf_send, iperf_recv and iperf_create_send_timers of
-- iperf_jni/jni/iperf/src/iperf_api.c. The send and receive functions of the protocol, and the clock, are
-- arguments; they change the rest of the world, `W`.
pub mod Accounts
pub mod Balance
pub mod Pace
pub mod Protocols
pub mod Rate
pub mod Steps
use wifitesttool.Base.{
  ℕ, zero, suc, ◌+◌, ◌*◌, Bool, true, false, not, ◌&&◌, ◌||◌, Option, none, some, List, [], ◌∷◌,
  ◌++◌, map, ◌==◌, ltb, leb, if◌then◌else◌,
}
use wifitesttool.Base.Int.{ℤ, pos, negsuc, pos_part, ◌+ℤ◌, ltb_ℤ}
use wifitesttool.Params.{nonzero}
use wifitesttool.Streams.{Stream, Running, timeval_diff}
use wifitesttool.Test.{Test}
use wifitesttool.Timer.{Timeval, million}

abbrev pub fd_isset : ℕ → List ℕ → Bool
fd_isset s [] = false
fd_isset s (x ∷ xs) = x == s || fd_isset s xs

abbrev pub fd_set : ℕ → List ℕ → List ℕ
fd_set s xs = if fd_isset s xs then xs else s ∷ xs

abbrev pub fd_clr : ℕ → List ℕ → List ℕ
fd_clr s [] = []
fd_clr s (x ∷ xs) = if x == s then fd_clr s xs else x ∷ fd_clr s xs

-- Whether a stream is below the rate, in bits per second, without rounding. Where no time has passed the
-- rate is infinite.
abbrev pub is_below : Test → Timeval → Stream → Bool
is_below t now sp =
    ltb (sp.bytes_sent * 8 * million) (t.settings.rate * timeval_diff sp.start_time now)

-- The stream, and `write_set`.
unfoldable pub iperf_check_throttle : Test → Timeval → Stream → List ℕ → Stream × List ℕ
iperf_check_throttle t now sp ws =
    if t.done
    then (sp, ws)
    else if is_below t now sp
    then (record sp { green_light = true }, fd_set sp.socket ws)
    else (record sp { green_light = false }, fd_clr sp.socket ws)

-- `SLIST_FOREACH(sp, &test->streams, streams) iperf_check_throttle(sp, &now);`
unfoldable pub throttle_all : Test → Timeval → List Stream → List ℕ → List Stream × List ℕ
throttle_all t now [] ws = ([], ws)
throttle_all t now (sp ∷ sps) ws =
    let one = iperf_check_throttle t now sp ws in
    let others = throttle_all t now sps one.1 in (one.0 ∷ others.0, others.1)

abbrev pub selected : Option (List ℕ) → ℕ → Bool
selected none s = true
selected (some set) s = fd_isset s set

-- What a pass over the streams leaves: the result if it returns, or else `none`.
pub record Pass (W : Type 0) : Type 0 where
  pub ret : Option ℤ
  pub test : Test
  pub streams : List Stream
  pub write_set : List ℕ
  pub world : W

abbrev pub count_block : ℕ → Test → Test
count_block n t = record t { bytes_sent = t.bytes_sent + n; blocks_sent = t.blocks_sent +ℤ pos 1 }

-- With more rounds to come, whether the bytes or the blocks that were asked for are sent.
abbrev pub is_enough : ℕ → Test → Bool
is_enough multisend t =
    ltb 1 multisend
    && ((not (t.settings.bytes == 0) && leb t.settings.bytes t.bytes_sent)
        || (nonzero t.settings.blocks && not (ltb_ℤ t.blocks_sent t.settings.blocks)))

abbrev pub is_paced : Test → Bool
is_paced t = not (t.settings.rate == 0) && not (nonzero t.settings.burst)

abbrev pub throttle_if : Bool → Test → Timeval → Stream → List ℕ → Stream × List ℕ
throttle_if true t now sp ws = iperf_check_throttle t now sp ws
throttle_if false t now sp ws = (sp, ws)

abbrev pub result_of : Option ℤ → ℤ
result_of none = pos 0
result_of (some r) = r

module _ {W : Type 0} where
  abbrev pub put_head : Stream → Option (Pass W) → Option (Pass W)
  put_head sp none = none
  put_head sp (some p) = some (record p { streams = sp ∷ p.streams })

  -- NET_SOFTERROR, which is -1, only ends the pass.
  abbrev pub stop : ℕ → Test → List Stream → List ℕ → W → Option (Pass W)
  stop n t sps ws w = some (record {
    ret = if n == 0 then none else some (negsuc n);
    test = t;
    streams = sps;
    write_set = ws;
    world = w;
  })

  abbrev pub end_pass : Test → List Stream → List ℕ → W → Option (Pass W)
  end_pass t sps ws w =
      some (record { ret = none; test = t; streams = sps; write_set = ws; world = w })

  abbrev pub sent_by : Running → Pass W → ℤ × Running × W
  sent_by r p = (
    result_of p.ret,
    record r { test = p.test; streams = p.streams; write_set = p.write_set },
    p.world,
  )

  module _ (snd : Stream → W → Option (ℤ × Stream × W)) where
    -- The inner loop of iperf_send.
    unfoldable pub send_streams :
        ℕ → Option (List ℕ) → Timeval → List Stream → Test → List ℕ → W → Option (Pass W)
    send_streams multisend set now [] t ws w = end_pass t [] ws w
    send_streams multisend set now (sp ∷ sps) t ws w =
        elim (sp.green_light && selected set sp.socket) [
          | false ↦ put_head sp (send_streams multisend set now sps t ws w)
          | true ↦ elim (snd sp w) [
            | none ↦ none
            | some (negsuc n, sp', w') ↦ stop n t (sp' ∷ sps) ws w'
            | some (pos n, sp', w') ↦
                let t' = count_block n t in
                let throttled = throttle_if (is_paced t) t' now sp' ws in
                elim (is_enough multisend t') [
                  | true ↦ end_pass t' (throttled.0 ∷ sps) throttled.1 w'
                  | false ↦
                      put_head throttled.0 (send_streams multisend set now sps t' throttled.1 w')
                ]
          ]
        ]

    module _ (gettimeofday : W → Timeval × W) where
      -- `now` is read where the rate is to be kept, and is not used elsewhere.
      abbrev pub time_if : Bool → Timeval → W → Timeval × W
      time_if true now w = gettimeofday w
      time_if false now w = (now, w)

      -- The outer loop, with the number of rounds that are left.
      unfoldable pub send_rounds :
          ℕ → Option (List ℕ) → Timeval → List Stream → Test → List ℕ → W → Option (Pass W)
      unfolding send_streams
      send_rounds zero set now sps t ws w = end_pass t sps ws w
      send_rounds (suc m) set now sps t ws w =
          let (now', w') = time_if (is_paced t) now w in
          elim (send_streams (suc m) set now' sps t ws w') [
            | none ↦ none
            | some p ↦ elim p.ret [
              | some r ↦ some p
              | none ↦ send_rounds m set now' p.streams p.test p.write_set p.world
            ]
          ]

      abbrev pub rounds_of : Test → ℕ
      rounds_of t =
          if nonzero t.settings.burst
          then pos_part t.settings.burst
          else if t.settings.rate == 0
          then pos_part t.multisend
          else 1

      -- After a burst all streams are throttled.
      after_rounds : Pass W → Pass W
      after_rounds p =
          let (now, w) = gettimeofday p.world in
          let throttled = throttle_all p.test now p.streams p.write_set in
          record p { streams = throttled.0; write_set = throttled.1; world = w }

      end_rounds : Pass W → Pass W
      unfolding after_rounds
      end_rounds p = elim p.ret [
        | some r ↦ p
        | none ↦ if nonzero p.test.settings.burst then after_rounds p else p
      ]

      -- `set` is `write_setP`, without the sockets that are cleared in it at the end.
      unfoldable pub iperf_send : Option (List ℕ) → Timeval → Running → W → Option (ℤ × Running × W)
      unfolding send_rounds end_rounds
      iperf_send set now r w =
          elim (send_rounds (rounds_of r.test) set now r.streams r.test r.write_set w) [
            | none ↦ none
            | some p ↦ some (sent_by r (end_rounds p))
          ]

  module _ (rcv : Stream → W → Option (ℤ × Stream × W)) where
    unfoldable pub recv_streams : List ℕ → List Stream → Test → List ℕ → W → Option (Pass W)
    recv_streams set [] t ws w = end_pass t [] ws w
    recv_streams set (sp ∷ sps) t ws w = elim (fd_isset sp.socket set) [
      | false ↦ put_head sp (recv_streams set sps t ws w)
      | true ↦ elim (rcv sp w) [
        | none ↦ none
        | some (negsuc n, sp', w') ↦ some (record {
          ret = some (negsuc n);
          test = t;
          streams = sp' ∷ sps;
          write_set = ws;
          world = w';
        })
        | some (pos n, sp', w') ↦ put_head sp' (recv_streams set sps (count_block n t) ws w')
      ]
    ]

    unfoldable pub iperf_recv : List ℕ → Running → W → Option (ℤ × Running × W)
    unfolding recv_streams
    iperf_recv set r w = elim (recv_streams set r.streams r.test r.write_set w) [
      | none ↦ none
      | some p ↦ some (sent_by r p)
    ]

abbrev pub start_at : Timeval → Stream → Stream
start_at now sp = record sp { start_time = now }

-- `iperf_init_test`: every stream starts at the time `now`.
unfoldable pub iperf_init_test : Timeval → Running → Running
iperf_init_test now r = record r { streams = map (λ (sp : Stream). start_at now sp) r.streams }
