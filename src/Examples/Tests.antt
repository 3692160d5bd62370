-- ===== src/Examples/Tests.antt =====
-- Tests of iperf_api.c with the defaults, and the options of a client.
use wifitesttool.Base.{◌≡◌, refl, true, false, none, some, List, [], ◌∷◌}
use wifitesttool.Base.Int.{pos}
use wifitesttool.Test.{
  Test, client, server, pudp, iperf_new_test, iperf_defaults, iperf_set_test_role,
  iperf_set_test_reverse, set_protocol, iperf_reset_test,
}
use wifitesttool.Test.Direction.{IsDirected, role-IsDirected, reverse-IsDirected}
use wifitesttool.Test.Reset.{Agree, SameLeftovers, iperf_reset_test-Agree}
use wifitesttool.Options.{Flag, Parse, client_opt, udp, bandwidth, parallel}
use wifitesttool.Options.Accepted.{Accepted}

abbrev defaults : Test
defaults = iperf_defaults true iperf_new_test

-- `-c h -P 4 -u -b 5M`.
abbrev flags : List Flag
flags = client_opt (b'h' ∷ []) ∷ parallel (pos 4) ∷ udp ∷ bandwidth none 5000000 ∷ []

abbrev accepted : Parse
accepted = record {
  test = record (set_protocol true pudp (iperf_set_test_role true client defaults)) {
    server_hostname = some (b'h' ∷ []);
    num_streams = pos 4;
    settings = record defaults.settings { rate = 5000000; blksize = pos 8192 };
  };
  blksize = pos 8192;
  server_flag = false;
  client_flag = true;
  rate_flag = true;
  duration_flag = false;
}

iperf_reset_test_example :
    Agree (iperf_reset_test true accepted.test) (iperf_set_test_role true server defaults)
    × ((iperf_reset_test true accepted.test).role ≡ (iperf_set_test_role true server defaults).role)
    × ((iperf_reset_test true accepted.test).sender
        ≡ (iperf_set_test_role true server defaults).sender)
    × ((iperf_reset_test true accepted.test).sender_has_retransmits
        ≡ (iperf_set_test_role true server defaults).sender_has_retransmits)
    × SameLeftovers (iperf_reset_test true accepted.test).settings accepted.test.settings
iperf_reset_test_example = iperf_reset_test-Agree true accepted.test

role_example :
    IsDirected true (iperf_set_test_role true client defaults)
    × IsDirected true (iperf_set_test_role true server defaults)
role_example = role-IsDirected true defaults

abbrev downloading : Test
downloading = iperf_set_test_role true client defaults

reverse_example :
    IsDirected true (set_protocol true pudp downloading)
    × IsDirected true (set_protocol true pudp (iperf_set_test_reverse true true downloading))
    × IsDirected true (iperf_set_test_reverse true true (set_protocol true pudp downloading))
unfolding iperf_set_test_role iperf_defaults
reverse_example = reverse-IsDirected true downloading pudp refl role_example.0
