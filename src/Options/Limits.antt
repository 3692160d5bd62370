-- ===== src/Options/Limits.antt =====
-- The limits that the switch of iperf_parse_arguments sets: iperf_jni/jni/iperf/src/iperf_api.c and the
-- bounds of iperf.h and iperf_api.h.
use wifitesttool.Base.{
  ◌≡◌, refl, ◌⊎◌, Bool, true, false, not, ◌&&◌, ◌||◌, none, some, List, [], ◌∷◌, arith,
}
use wifitesttool.Base.Int.{ℤ, pos, ◌≤ℤ◌}
use wifitesttool.Error.{Ierror, ieaffinity}
use wifitesttool.Test.{
  Text, Role, no_role, client, server, Test, iperf_set_test_role, iperf_set_test_reverse,
  set_protocol, minus1,
}
use wifitesttool.Options.{
  Flag, Parse, Parsed, parsed, bad, exits, unless, lt, is_zero, for_client, with_test, set_client,
  set_server, set_bandwidth, set_affinity, parse_flag, parse_flags, and_then, max_time, max_streams,
  max_tcp_buffer, max_mss, max_burst, min_interval, max_interval, interval, version, server_opt,
  client_opt, bandwidth, time, parallel, window, set_mss, flowlabel, omit, affinity, help,
}

-- The fields of a test that the options bound. 100000 and 60000000 microseconds stand for 0.1 and 60 s.
pub record Limited
    (interval duration streams bufsize mss burst flowlabel omit affinity server_affinity : ℤ)
    : Type 0 where
  pub interval_ok : (interval ≡ pos 0) ⊎ ((min_interval ≤ℤ interval) × (interval ≤ℤ max_interval))
  pub duration_ok : duration ≤ℤ max_time
  pub streams_ok : streams ≤ℤ max_streams
  pub bufsize_ok : bufsize ≤ℤ max_tcp_buffer
  pub mss_ok : mss ≤ℤ max_mss
  pub burst_ok : (pos 0 ≤ℤ burst) × (burst ≤ℤ max_burst)
  pub flowlabel_ok : (pos 0 ≤ℤ flowlabel) × (flowlabel ≤ℤ pos 0xfffff)
  pub omit_ok : (pos 0 ≤ℤ omit) × (omit ≤ℤ pos 60)
  pub affinity_ok : (minus1 ≤ℤ affinity) × (affinity ≤ℤ pos 1024)
  pub server_affinity_ok : (minus1 ≤ℤ server_affinity) × (server_affinity ≤ℤ pos 1024)

abbrev pub InLimits : Test → Type 0
InLimits t =
    Limited t.stats_interval t.duration t.num_streams t.settings.socket_bufsize t.settings.mss
      t.settings.burst t.settings.flowlabel t.omit t.affinity t.server_affinity

abbrev pub Keeps : Parsed → Type 0
Keeps (parsed p) = InLimits p.test
Keeps (bad e) = Unit
Keeps exits = Unit

unless-Keeps : (b : Bool) (e : Ierror) (r : Parsed) → (b ≡ false → Keeps r) → Keeps (unless b e r)
unless-Keeps true e r k = tt
unless-Keeps false e r k = k refl

set_client-Keeps :
    (h : Bool) (s : Text) (r : Role) (p : Parse) → InLimits p.test → Keeps (set_client h s r p)
unfolding set_client iperf_set_test_role
set_client-Keeps h s no_role p v = v
set_client-Keeps h s client p v = v
set_client-Keeps h s server p v = tt

set_server-Keeps : (h : Bool) (r : Role) (p : Parse) → InLimits p.test → Keeps (set_server h r p)
unfolding set_server iperf_set_test_role
set_server-Keeps h no_role p v = v
set_server-Keeps h client p v = tt
set_server-Keeps h server p v = v

pub within : (n lo hi : ℤ) → (lt n lo || lt hi n) ≡ false → (lo ≤ℤ n) × (n ≤ℤ hi)
within n lo hi q = ground arith

pub below : (n hi : ℤ) → lt hi n ≡ false → n ≤ℤ hi
below n hi q = ground arith

interval_within :
    (i : ℤ)
    → ((lt i min_interval || lt max_interval i) && not (is_zero i)) ≡ false
    → (i ≡ pos 0) ⊎ ((min_interval ≤ℤ i) × (i ≤ℤ max_interval))
interval_within i q = ground arith

label_within :
    (n : ℤ) → (lt n (pos 1) || lt (pos 0xfffff) n) ≡ false → (pos 0 ≤ℤ n) × (n ≤ℤ pos 0xfffff)
label_within n q = ground arith

cpu_within : (n : ℤ) → (lt n (pos 0) || lt (pos 1024) n) ≡ false → (minus1 ≤ℤ n) × (n ≤ℤ pos 1024)
cpu_within n q = ground arith

positive : (n hi : ℤ) → (not (lt (pos 0) n) || lt hi n) ≡ false → (pos 0 ≤ℤ n) × (n ≤ℤ hi)
positive n hi q = ground arith

-- An option leaves a test within the limits.
pub parse_flag-Keeps :
    (h : Bool) (f : Flag) (p : Parse) → InLimits p.test → Keeps (parse_flag h f p)
unfolding parse_flag set_bandwidth set_affinity iperf_set_test_role iperf_set_test_reverse
    set_protocol
parse_flag-Keeps h (interval i) p v =
    unless-Keeps _ _ (with_test (record p.test { stats_interval = i; reporter_interval = i }) p)
      (λ q. record {
        interval_ok = interval_within i q;
        duration_ok = v.duration_ok;
        streams_ok = v.streams_ok;
        bufsize_ok = v.bufsize_ok;
        mss_ok = v.mss_ok;
        burst_ok = v.burst_ok;
        flowlabel_ok = v.flowlabel_ok;
        omit_ok = v.omit_ok;
        affinity_ok = v.affinity_ok;
        server_affinity_ok = v.server_affinity_ok;
      })
parse_flag-Keeps h (time n) p v =
    unless-Keeps _ _
      (for_client (record p.test { duration = n }) (record p { duration_flag = true }))
      (λ q. record {
        interval_ok = v.interval_ok;
        duration_ok = below n max_time q;
        streams_ok = v.streams_ok;
        bufsize_ok = v.bufsize_ok;
        mss_ok = v.mss_ok;
        burst_ok = v.burst_ok;
        flowlabel_ok = v.flowlabel_ok;
        omit_ok = v.omit_ok;
        affinity_ok = v.affinity_ok;
        server_affinity_ok = v.server_affinity_ok;
      })
parse_flag-Keeps h (parallel n) p v =
    unless-Keeps _ _ (for_client (record p.test { num_streams = n }) p) (λ q. record {
      interval_ok = v.interval_ok;
      duration_ok = v.duration_ok;
      streams_ok = below n max_streams q;
      bufsize_ok = v.bufsize_ok;
      mss_ok = v.mss_ok;
      burst_ok = v.burst_ok;
      flowlabel_ok = v.flowlabel_ok;
      omit_ok = v.omit_ok;
      affinity_ok = v.affinity_ok;
      server_affinity_ok = v.server_affinity_ok;
    })
parse_flag-Keeps h (window n) p v =
    unless-Keeps _ _
      (for_client (record p.test { settings = record p.test.settings { socket_bufsize = n } }) p)
      (λ q. record {
        interval_ok = v.interval_ok;
        duration_ok = v.duration_ok;
        streams_ok = v.streams_ok;
        bufsize_ok = below n max_tcp_buffer q;
        mss_ok = v.mss_ok;
        burst_ok = v.burst_ok;
        flowlabel_ok = v.flowlabel_ok;
        omit_ok = v.omit_ok;
        affinity_ok = v.affinity_ok;
        server_affinity_ok = v.server_affinity_ok;
      })
parse_flag-Keeps h (set_mss n) p v =
    unless-Keeps _ _
      (for_client (record p.test { settings = record p.test.settings { mss = n } }) p)
      (λ q. record {
        interval_ok = v.interval_ok;
        duration_ok = v.duration_ok;
        streams_ok = v.streams_ok;
        bufsize_ok = v.bufsize_ok;
        mss_ok = below n max_mss q;
        burst_ok = v.burst_ok;
        flowlabel_ok = v.flowlabel_ok;
        omit_ok = v.omit_ok;
        affinity_ok = v.affinity_ok;
        server_affinity_ok = v.server_affinity_ok;
      })
parse_flag-Keeps h (bandwidth none r) p v = v
parse_flag-Keeps h (bandwidth (some b) r) p v =
    unless-Keeps _ _
      (for_client (record p.test { settings = record p.test.settings { burst = b; rate = r } })
        (record p { rate_flag = true }))
      (λ q. record {
        interval_ok = v.interval_ok;
        duration_ok = v.duration_ok;
        streams_ok = v.streams_ok;
        bufsize_ok = v.bufsize_ok;
        mss_ok = v.mss_ok;
        burst_ok = positive b max_burst q;
        flowlabel_ok = v.flowlabel_ok;
        omit_ok = v.omit_ok;
        affinity_ok = v.affinity_ok;
        server_affinity_ok = v.server_affinity_ok;
      })
parse_flag-Keeps h (flowlabel n) p v =
    unless-Keeps _ _
      (for_client (record p.test { settings = record p.test.settings { flowlabel = n } }) p)
      (λ q. record {
        interval_ok = v.interval_ok;
        duration_ok = v.duration_ok;
        streams_ok = v.streams_ok;
        bufsize_ok = v.bufsize_ok;
        mss_ok = v.mss_ok;
        burst_ok = v.burst_ok;
        flowlabel_ok = label_within n q;
        omit_ok = v.omit_ok;
        affinity_ok = v.affinity_ok;
        server_affinity_ok = v.server_affinity_ok;
      })
parse_flag-Keeps h (omit n) p v = unless-Keeps _ _ (for_client (record p.test { omit = n }) p) (λ q.
    record {
      interval_ok = v.interval_ok;
      duration_ok = v.duration_ok;
      streams_ok = v.streams_ok;
      bufsize_ok = v.bufsize_ok;
      mss_ok = v.mss_ok;
      burst_ok = v.burst_ok;
      flowlabel_ok = v.flowlabel_ok;
      omit_ok = within n (pos 0) (pos 60) q;
      affinity_ok = v.affinity_ok;
      server_affinity_ok = v.server_affinity_ok;
    })
parse_flag-Keeps h (affinity a none) p v =
    unless-Keeps _ _ (with_test (record p.test { affinity = a }) p) (λ q. record {
      interval_ok = v.interval_ok;
      duration_ok = v.duration_ok;
      streams_ok = v.streams_ok;
      bufsize_ok = v.bufsize_ok;
      mss_ok = v.mss_ok;
      burst_ok = v.burst_ok;
      flowlabel_ok = v.flowlabel_ok;
      omit_ok = v.omit_ok;
      affinity_ok = cpu_within a q;
      server_affinity_ok = v.server_affinity_ok;
    })
parse_flag-Keeps h (affinity a (some b)) p v =
    unless-Keeps _ ieaffinity
      (unless (lt b (pos 0) || lt (pos 1024) b) ieaffinity
        (for_client (record p.test { affinity = a; server_affinity = b }) p))
      (λ q.
        unless-Keeps _ _ (for_client (record p.test { affinity = a; server_affinity = b }) p) (λ q2.
          record {
            interval_ok = v.interval_ok;
            duration_ok = v.duration_ok;
            streams_ok = v.streams_ok;
            bufsize_ok = v.bufsize_ok;
            mss_ok = v.mss_ok;
            burst_ok = v.burst_ok;
            flowlabel_ok = v.flowlabel_ok;
            omit_ok = v.omit_ok;
            affinity_ok = cpu_within a q;
            server_affinity_ok = cpu_within b q2;
          }))
parse_flag-Keeps h server_opt p v = set_server-Keeps h p.test.role p v
parse_flag-Keeps h (client_opt s) p v = set_client-Keeps h s p.test.role p v
parse_flag-Keeps h version p v = tt
parse_flag-Keeps h help p v = tt
parse_flag-Keeps h f p v = v

and_then-Keeps :
    (h : Bool) (r : Parsed) (k : Parse → Parsed)
    → Keeps r
    → ((p : Parse) → InLimits p.test → Keeps (k p))
    → Keeps (and_then h r k)
and_then-Keeps h (parsed p) k v f = f p v
and_then-Keeps h (bad e) k v f = tt
and_then-Keeps h exits k v f = tt

pub parse_flags-Keeps :
    (h : Bool) (fs : List Flag) (p : Parse) → InLimits p.test → Keeps (parse_flags h fs p)
unfolding parse_flags
parse_flags-Keeps h [] p v = v
parse_flags-Keeps h (f ∷ fs) p v =
    and_then-Keeps h (parse_flag h f p) (parse_flags h fs) (parse_flag-Keeps h f p v)
      (parse_flags-Keeps h fs)
