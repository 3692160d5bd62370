-- ===== src/Error.antt =====
-- The values of `i_errno` of iperf_jni/jni/iperf/src/iperf_api.h.
pub mod Messages

pub data Ierror : Type 0 where
  ienone ieservclient ienorole ieserveronly ieclientonly ieduration ienumstreams ieblocksize :
      Ierror
  iebufsize ieinterval iemss ienosendfile ieomit ieunimp iefile ieburst ieendconditions : Ierror
  ienewtest ieinittest ielisten ieconnect ieaccept iesendcookie ierecvcookie iectrlwrite : Ierror
  iectrlread iectrlclose iemessage iesendmessage ierecvmessage iesendparams ierecvparams : Ierror
  iepackageresults iesendresults ierecvresults ieselect ieclientterm ieserverterm : Ierror
  ieaccessdenied iesetnodelay iesetmss iesetbuf iesettos iesetcos iesetflow iereuseaddr : Ierror
  ienonblocking iesetwindowsize ieprotocol ieaffinity iedaemon iesetcongestion iepidfile : Ierror
  iev6only iesetsctpdisablefrag iecreatestream ieinitstream iestreamlisten iestreamconnect : Ierror
  iestreamaccept iestreamwrite iestreamread iestreamclose iestreamid ienewtimer : Ierror
  ieupdatetimer : Ierror

-- What a function returns: 0, or -1 with `i_errno`.
pub data Status : Type 0 where
  ok : Status
  error : Ierror → Status
