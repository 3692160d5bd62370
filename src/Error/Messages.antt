-- ===== src/Error/Messages.antt =====
-- `iperf_strerror` of iperf_jni/jni/iperf/src/iperf_error.c.
use Prim.Native.String.{String}
use wifitesttool.Base.{
  ℕ, ◌+◌, ◌≤◌, ◌<◌, Bool, true, false, ◌||◌, Option, none, some, List, [], ◌∷◌, ◌++◌, length,
  length-append, if◌then◌else◌, arith,
}
use wifitesttool.Base.Strings.{codes}
use wifitesttool.Error.{
  Ierror, ienone, ieservclient, ienorole, ieserveronly, ieclientonly, ieduration, ienumstreams,
  ieblocksize, iebufsize, ieinterval, iemss, ienosendfile, ieomit, ieunimp, iefile, ieburst,
  ieendconditions, ienewtest, ieinittest, ielisten, ieconnect, ieaccept, iesendcookie, ierecvcookie,
  iectrlwrite, iectrlread, iectrlclose, iemessage, iesendmessage, ierecvmessage, iesendparams,
  ierecvparams, iepackageresults, iesendresults, ierecvresults, ieselect, ieclientterm,
  ieserverterm, ieaccessdenied, iesetnodelay, iesetmss, iesetbuf, iesettos, iesetcos, iesetflow,
  iereuseaddr, ienonblocking, iesetwindowsize, ieprotocol, ieaffinity, iedaemon, iecreatestream,
  ieinitstream, iestreamlisten, iestreamconnect, iestreamaccept, iestreamwrite, iestreamread,
  iestreamclose, iestreamid, ienewtimer, ieupdatetimer, iesetcongestion, iepidfile, iev6only,
  iesetsctpdisablefrag,
}

-- What snprintf writes, with the limits put in.
unfoldable pub message : Ierror → String
message ienone = "no error"
message ieservclient = "cannot be both server and client"
message ienorole = "must either be a client (-c) or server (-s)"
message ieserveronly = "some option you are trying to set is server only"
message ieclientonly = "some option you are trying to set is client only"
message ieduration = "test duration too long (maximum = 3600 seconds)"
message ienumstreams = "number of parallel streams too large (maximum = 128)"
message ieblocksize = "block size too large (maximum = 1048576 bytes)"
message iebufsize = "socket buffer size too large (maximum = 536870912 bytes)"
message ieinterval = "invalid report interval (min = 0.1, max = 60 seconds)"
message iemss = "TCP MSS too large (maximum = 9216 bytes)"
message ienosendfile = "this OS does not support sendfile"
message ieomit = "bogus value for --omit"
message ieunimp = "an option you are trying to set is not implemented yet"
message iefile = "unable to open -F file"
message ieburst = "invalid burst count (maximum = 1000)"
message ieendconditions = "only one test end condition (-t, -n, -k) may be specified"
message ienewtest = "unable to create a new test"
message ieinittest = "test initialization failed"
message ielisten = "unable to start listener for connections"
message ieconnect = "unable to connect to server"
message ieaccept = "unable to accept connection from client"
message iesendcookie = "unable to send cookie to server"
message ierecvcookie = "unable to receive cookie at server"
message iectrlwrite = "unable to write to the control socket"
message iectrlread = "unable to read from the control socket"
message iectrlclose = "control socket has closed unexpectedly"
message iemessage = "received an unknown control message"
message iesendmessage = "unable to send control message"
message ierecvmessage = "unable to receive control message"
message iesendparams = "unable to send parameters to server"
message ierecvparams = "unable to receive parameters from client"
message iepackageresults = "unable to package results"
message iesendresults = "unable to send results"
message ierecvresults = "unable to receive results"
message ieselect = "select failed"
message ieclientterm = "the client has terminated"
message ieserverterm = "the server has terminated"
message ieaccessdenied = "the server is busy running a test. try again later"
message iesetnodelay = "unable to set TCP NODELAY"
message iesetmss = "unable to set TCP MSS"
message iesetbuf = "unable to set socket buffer size"
message iesettos = "unable to set IP TOS"
message iesetcos = "unable to set IPv6 traffic class"
message iesetflow = "unable to set IPv6 flow label"
message iereuseaddr = "unable to reuse address on socket"
message ienonblocking = "unable to set socket to non-blocking"
message iesetwindowsize = "unable to set socket window size"
message ieprotocol = "protocol does not exist"
message ieaffinity = "unable to set CPU affinity"
message iedaemon = "unable to become a daemon"
message iecreatestream = "unable to create a new stream"
message ieinitstream = "unable to initialize stream"
message iestreamlisten = "unable to start stream listener"
message iestreamconnect = "unable to connect stream"
message iestreamaccept = "unable to accept stream connection"
message iestreamwrite = "unable to write to stream socket"
message iestreamread = "unable to read from stream socket"
message iestreamclose = "stream socket has closed unexpectedly"
message iestreamid = "stream has an invalid id"
message ienewtimer = "unable to create new timer"
message ieupdatetimer = "unable to update timer"
message iesetcongestion =
    "unable to set TCP_CONGESTION: Supplied congestion control algorithm not supported on this host"
message iepidfile = "unable to write PID file"
message iev6only = "Unable to set/reset IPV6_V6ONLY"
message iesetsctpdisablefrag = "unable to set SCTP_DISABLE_FRAG"

-- Whether the text of errno is to follow, or the one of h_errno.
unfoldable pub perr : Ierror → Bool
perr iefile = true
perr ienewtest = true
perr ieinittest = true
perr ielisten = true
perr ieconnect = true
perr ieaccept = true
perr iesendcookie = true
perr ierecvcookie = true
perr iectrlwrite = true
perr iectrlread = true
perr iesendmessage = true
perr ierecvmessage = true
perr iesendparams = true
perr ierecvparams = true
perr iepackageresults = true
perr iesendresults = true
perr ierecvresults = true
perr ieselect = true
perr iesetnodelay = true
perr iesetmss = true
perr iesetbuf = true
perr iesettos = true
perr iesetcos = true
perr iereuseaddr = true
perr ienonblocking = true
perr iesetwindowsize = true
perr ieaffinity = true
perr iedaemon = true
perr iecreatestream = true
perr ieinitstream = true
perr iestreamlisten = true
perr iestreamconnect = true
perr iestreamaccept = true
perr iestreamwrite = true
perr iestreamread = true
perr ienewtimer = true
perr ieupdatetimer = true
perr iepidfile = true
perr iev6only = true
perr iesetsctpdisablefrag = true
perr _ = false

unfoldable pub herr : Ierror → Bool
herr ieaccept = true
herr iecreatestream = true
herr ieinitstream = true
herr iestreamconnect = true
herr _ = false

-- `strerror(errno)` or `hstrerror(h_errno)`, where that is not 0.
abbrev pub text_of : Option (List ℕ) → List ℕ
text_of none = []
text_of (some t) = t

-- The text that is put behind the message, for the texts of h_errno and errno.
unfoldable pub appended : Bool → Bool → Option (List ℕ) → Option (List ℕ) → List ℕ
appended true p (some t) e = t
appended h true _ e = text_of e
appended h false _ e = []

unfoldable pub iperf_strerror : Ierror → Option (List ℕ) → Option (List ℕ) → List ℕ
unfolding message perr herr appended
iperf_strerror e h_errno errno =
    let colon = if herr e || perr e then b':' ∷ b' ' ∷ [] else [] in
    codes (message e) ++ (colon ++ appended (herr e) (perr e) h_errno errno)

-- Every code has a message, of at most 120 characters.
message-length :
    (e : Ierror) → (0 < length (codes (message e))) × (length (codes (message e)) ≤ 120)
unfolding message
message-length ienone = (omega arith, omega arith)
message-length e = (omega arith, omega arith)

length-appended :
    (h p : Bool) (t e : Option (List ℕ)) (n : ℕ)
    → length (text_of t) ≤ n
    → length (text_of e) ≤ n
    → length (appended h p t e) ≤ n
unfolding appended
length-appended true p (some t) e n a b = a
length-appended true true none e n a b = b
length-appended true false none e n a b = omega arith
length-appended false true t e n a b = b
length-appended false false t e n a b = omega arith

colon-length :
    (b : Bool) (xs : List ℕ) → length ((if b then b':' ∷ b' ' ∷ [] else []) ++ xs) ≤ 2 + length xs
colon-length true xs = omega arith
colon-length false xs = omega arith

-- With texts of at most 133 bytes for h_errno and errno, the text of every code is not empty and fits,
-- with its final 0, in the 256 bytes of `errstr`.
pub iperf_strerror-length :
    (e : Ierror) (h_errno errno : Option (List ℕ))
    → length (text_of h_errno) ≤ 133
    → length (text_of errno) ≤ 133
    → (0 < length (iperf_strerror e h_errno errno))
      × (length (iperf_strerror e h_errno errno) + 1 ≤ 256)
unfolding iperf_strerror
iperf_strerror-length e h_errno errno a b =
    let m = message-length e in
    let t = length-appended (herr e) (perr e) h_errno errno 133 a b in
    let tail = appended (herr e) (perr e) h_errno errno in
    let c = colon-length (herr e || perr e) tail in
    let l =
      length-append (codes (message e))
        ((if herr e || perr e then b':' ∷ b' ' ∷ [] else []) ++ tail) in
    (omega (arith, l, m.0), omega (arith, l, m.1, c, t))
