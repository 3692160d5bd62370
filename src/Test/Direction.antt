-- ===== src/Test/Direction.antt =====
-- Who sends: the role, the direction and the protocol, in the orders in which they can be set.
use wifitesttool.Base.{◌≡◌, Bool, true, false, not, arith}
use wifitesttool.Test.{
  Test, Role, client, server, no_role, Protocol, retransmits_of, iperf_set_test_role,
  iperf_set_test_reverse, set_protocol,
}

-- A client sends unless the test is reversed, a server only if it is.
abbrev pub is_sender : Role → Bool → Bool
is_sender client reverse = not reverse
is_sender server reverse = reverse
is_sender no_role reverse = reverse

-- The field `sender` says so, and retransmissions are counted exactly by the sender of a TCP test.
pub record IsDirected (h : Bool) (t : Test) : Type 0 where
  pub sender : t.sender ≡ is_sender t.role t.reverse
  pub retransmits : t.sender_has_retransmits ≡ retransmits_of h t

-- Giving a test a role directs it, whatever its direction was.
pub role-IsDirected :
    (h : Bool) (t : Test)
    → IsDirected h (iperf_set_test_role h client t) × IsDirected h (iperf_set_test_role h server t)
unfolding iperf_set_test_role
role-IsDirected h t = (ground arith, ground arith)

-- A directed test that is not reversed stays directed when a protocol is chosen, and also when it is reversed
-- before the choice or after it.
pub reverse-IsDirected :
    (h : Bool) (t : Test) (p : Protocol)
    → t.reverse ≡ false
    → IsDirected h t
    → IsDirected h (set_protocol h p t)
      × IsDirected h (set_protocol h p (iperf_set_test_reverse h true t))
      × IsDirected h (iperf_set_test_reverse h true (set_protocol h p t))
unfolding iperf_set_test_reverse set_protocol
reverse-IsDirected h t p e d = (ground arith, ground arith, ground arith)

-- Reversing a directed test that is reversed already turns the sender round again and leaves the
-- direction: it is not directed.
pub reverse_twice :
    (h : Bool) (t : Test)
    → t.reverse ≡ true
    → IsDirected h t
    → ¬ IsDirected h (iperf_set_test_reverse h true t)
unfolding iperf_set_test_reverse
reverse_twice h t e d d' = ground arith
