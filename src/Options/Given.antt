-- ===== src/Options/Given.antt =====
-- Which options are given, and what iperf_parse_arguments of iperf_jni/jni/iperf/src/iperf_api.c notes of them.
use wifitesttool.Base.{◌≡◌, refl, Bool, true, false, ◌||◌, none, List, [], ◌∷◌, arith}
use wifitesttool.Options.{
  Flag, port, format, interval, daemon, verbose, json, version, server_opt, client_opt, bind,
  version4, version6, file, affinity, time, debug, pidfile, help, Parse, Parsed, parsed, bad, exits,
  and_then, parse_flag, parse_flags, set_client, set_server, set_bandwidth, set_affinity,
}

-- The options that only a server takes.
abbrev pub is_for_server : Flag → Bool
is_for_server daemon = true
is_for_server (pidfile s) = true
is_for_server _ = false

-- The options that only a client takes: all but these, and `-A` where it names an affinity of the server.
abbrev pub is_for_client : Flag → Bool
is_for_client (port n) = false
is_for_client (format c) = false
is_for_client (interval i) = false
is_for_client daemon = false
is_for_client verbose = false
is_for_client json = false
is_for_client version = false
is_for_client server_opt = false
is_for_client (client_opt s) = false
is_for_client (bind a) = false
is_for_client version4 = false
is_for_client version6 = false
is_for_client (file s) = false
is_for_client (affinity a none) = false
is_for_client debug = false
is_for_client (pidfile s) = false
is_for_client help = false
is_for_client _ = true

abbrev pub is_time : Flag → Bool
is_time (time n) = true
is_time _ = false

abbrev pub is_any : (Flag → Bool) → List Flag → Bool
is_any test [] = false
is_any test (f ∷ fs) = test f || is_any test fs

-- What has been noted after `p`, where the options that are given are for a server, for a client, or a time.
pub record Noted (for_server for_client for_time : Bool) (p q : Parse) : Type 0 where
  pub server_flag : q.server_flag ≡ for_server || p.server_flag
  pub client_flag : q.client_flag ≡ for_client || p.client_flag
  pub duration_flag : q.duration_flag ≡ for_time || p.duration_flag

abbrev pub Notes : Bool → Bool → Bool → Parse → Parsed → Type 0
Notes s c d p (parsed q) = Noted s c d p q
Notes s c d p (bad e) = Unit
Notes s c d p exits = Unit

parse_flag-Notes :
    (h : Bool) (f : Flag) (p : Parse)
    → Notes (is_for_server f) (is_for_client f) (is_time f) p (parse_flag h f p)
unfolding parse_flag set_bandwidth set_affinity set_client set_server
parse_flag-Notes h f p = ground arith

or-later : (a b c d e : Bool) → d ≡ a || c → e ≡ b || d → e ≡ (a || b) || c
or-later a b c d e g h = ground arith

Noted-trans :
    (s c d s' c' d' : Bool) (p q r : Parse)
    → Noted s c d p q
    → Noted s' c' d' q r
    → Noted (s || s') (c || c') (d || d') p r
Noted-trans s c d s' c' d' p q r m n = record {
  server_flag = or-later s s' p.server_flag q.server_flag r.server_flag m.server_flag n.server_flag;
  client_flag = or-later c c' p.client_flag q.client_flag r.client_flag m.client_flag n.client_flag;
  duration_flag =
      or-later d d' p.duration_flag q.duration_flag r.duration_flag m.duration_flag n.duration_flag;
}

Notes-trans :
    (s c d s' c' d' : Bool) (p q : Parse) (r : Parsed)
    → Noted s c d p q
    → Notes s' c' d' q r
    → Notes (s || s') (c || c') (d || d') p r
Notes-trans s c d s' c' d' p q (parsed r) m n = Noted-trans s c d s' c' d' p q r m n
Notes-trans s c d s' c' d' p q (bad e) m n = tt
Notes-trans s c d s' c' d' p q exits m n = tt

and_then-Notes :
    (h : Bool) (s c d s' c' d' : Bool) (p : Parse) (r : Parsed) (k : Parse → Parsed)
    → Notes s c d p r
    → ((q : Parse) → Notes s' c' d' q (k q))
    → Notes (s || s') (c || c') (d || d') p (and_then h r k)
and_then-Notes h s c d s' c' d' p (parsed q) k m n = Notes-trans s c d s' c' d' p q (k q) m (n q)
and_then-Notes h s c d s' c' d' p (bad e) k m n = tt
and_then-Notes h s c d s' c' d' p exits k m n = tt

pub parse_flags-Notes :
    (h : Bool) (fs : List Flag) (p : Parse)
    → Notes
        (is_any is_for_server fs)
        (is_any is_for_client fs)
        (is_any is_time fs)
        p
        (parse_flags h fs p)
unfolding parse_flags
parse_flags-Notes h [] p = record { server_flag = refl; client_flag = refl; duration_flag = refl }
parse_flags-Notes h (f ∷ fs) p =
    and_then-Notes h (is_for_server f) (is_for_client f) (is_time f) (is_any is_for_server fs)
      (is_any is_for_client fs) (is_any is_time fs) p (parse_flag h f p) (parse_flags h fs)
      (parse_flag-Notes h f p) (parse_flags-Notes h fs)
