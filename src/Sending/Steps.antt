-- ===== src/Sending/Steps.antt =====
-- What a running test does, as steps: the calls of iperf_send, iperf_recv, iperf_stats_callback and the omit
-- timer's procedure, in any order.
use wifitesttool.Base.{ℕ, ◌≡◌, true, false, Option, some, List, subst, sym}
use wifitesttool.Base.Int.{ℤ}
use wifitesttool.Sending.{iperf_send, iperf_recv}
use wifitesttool.Sending.Accounts.{Counted}
use wifitesttool.Sending.Balance.{
  IsAccounted, KeepsAccounts, stats-IsAccounted, omit-IsAccounted, iperf_send-IsAccounted,
  iperf_recv-IsAccounted,
}
use wifitesttool.Sending.Protocols.{Transfer}
use wifitesttool.Streams.{Running, iperf_stats_callback, omit_timer_proc}
use wifitesttool.Timer.{Timeval}

module _ {W : Type 0} (p : Transfer W) (gettimeofday : W → Timeval × W) where
  -- The sender sends, the receiver receives, both report, and both end the omitted time.
  pub data Step : Running × W → Running × W → Type 0 where
    sends :
        (set : Option (List ℕ)) (now : Timeval) (r r' : Running) (w w' : W) (n : ℤ)
        → r.test.sender ≡ true
        → iperf_send p.send gettimeofday set now r w ≡ some (n, r', w')
        → Step (r, w) (r', w')
    receives :
        (set : List ℕ) (r r' : Running) (w w' : W) (n : ℤ)
        → r.test.sender ≡ false
        → iperf_recv p.recv set r w ≡ some (n, r', w')
        → Step (r, w) (r', w')
    reports : (now : Timeval) (r : Running) (w : W) → Step (r, w) (iperf_stats_callback now r, w)
    omit_ends :
        (now : Timeval) (r : Running) (w : W)
        → r.omitting ≡ true
        → Step (r, w) (omit_timer_proc now r, w)

  pub data Reach (s : Running × W) : Running × W → Type 0 where
    here : Reach s s
    next : {s' s'' : Running × W} → Reach s s' → Step s' s'' → Reach s s''

  Step-IsAccounted : {s s' : Running × W} → Step s s' → IsAccounted s.0 → IsAccounted s'.0
  Step-IsAccounted (sends set now r r' w w' n e f) a = subst KeepsAccounts f (
      iperf_send-IsAccounted r a p.send
        (λ sp sp' v v' m g.
          subst (λ b. Counted b m sp sp') (sym e) (p.send-Counted sp sp' v v' m g))
        gettimeofday set now w)
  Step-IsAccounted (receives set r r' w w' n e f) a = subst KeepsAccounts f (
      iperf_recv-IsAccounted r a p.recv
        (λ sp sp' v v' m g.
          subst (λ b. Counted b m sp sp') (sym e) (p.recv-Counted sp sp' v v' m g))
        set w)
  Step-IsAccounted (reports now r w) a = stats-IsAccounted now r a
  Step-IsAccounted (omit_ends now r w e) a = omit-IsAccounted now r e a

  -- However a test runs whose accounts are in order, by sends or receives, reports and the end of the omitted
  -- time in any order, they stay in order: the bytes of the test are those of its streams. While the test does
  -- not omit, the bytes of each stream are those of its intervals that are not omitted and those since the last
  -- interval; while it omits, the intervals of a stream that are not omitted have no bytes.
  pub Reach-IsAccounted : {s s' : Running × W} → Reach s s' → IsAccounted s.0 → IsAccounted s'.0
  Reach-IsAccounted here a = a
  Reach-IsAccounted (next h k) a = Step-IsAccounted k (Reach-IsAccounted h a)
