-- ===== src/Sending/Balance.antt =====
-- A running test keeps its accounts: whatever it sends or receives, and whenever it reports or ends the
-- omitted time.
use wifitesttool.Base.{
  ℕ, zero, suc, ◌+◌, ◌≡◌, refl, sym, subst, ◌∙◌, Bool, true, false, Option, none, some, List, [],
  ◌∷◌, ◌++◌, map, if◌then◌else◌, arith, All, Bool-cases, Option-cases, inl, inr,
}
use wifitesttool.Base.Int.{ℤ}
use wifitesttool.Params.{nonzero}
use wifitesttool.Sending.{
  Pass, send_streams, send_rounds, recv_streams, time_if, is_paced, rounds_of, after_rounds,
  end_rounds, iperf_send, iperf_recv,
}
use wifitesttool.Sending.Accounts.{
  total, kept, this_interval, IsBalanced, Counted, Keeps, KeepsPass, Keeps-trans,
  throttle_all-Keeps, send_streams-Keeps, recv_streams-Keeps,
}
use wifitesttool.Streams.{
  Interval, Stream, Running, iperf_reset_stats, iperf_stats_callback, omit_timer_proc, reset_stream,
  stats_stream, new_interval,
}
use wifitesttool.Test.{Test}
use wifitesttool.Timer.{Timeval}

-- The bytes of the test are those of its streams, and those of each stream are the ones of its intervals,
-- without the omitted ones, and of the time since the last interval.
pub record IsAccounted (r : Running) : Type 0 where
  pub counted : r.test.bytes_sent ≡ total r.streams
  pub balanced : All (IsBalanced r.test.sender r.omitting) r.streams

kept-append :
    (is : List Interval) (i : Interval)
    → kept (is ++ i ∷ []) ≡ kept is + (if i.omitted then 0 else i.bytes_transferred)
kept-append [] i = omega arith
kept-append (x ∷ is) i = omega (arith, kept-append is i)

kept-new :
    (t : Test) (now : Timeval) (sp : Stream)
    → kept (sp.intervals ++ new_interval t false now sp ∷ [])
      ≡ kept sp.intervals + this_interval t.sender sp
kept-new t now sp = kept-append sp.intervals (new_interval t false now sp)

none_now :
    (sender : Bool) (t : Test) (omitting : Bool) (now : Timeval) (sp : Stream)
    → this_interval sender (stats_stream t omitting now sp) ≡ 0
none_now true t omitting now sp = refl
none_now false t omitting now sp = refl

stats-IsBalanced :
    (t : Test) (omitting : Bool) (now : Timeval) (sp : Stream)
    → IsBalanced t.sender omitting sp
    → IsBalanced t.sender omitting (stats_stream t omitting now sp)
stats-IsBalanced t true now sp b =
    omega (arith, kept-append sp.intervals (new_interval t true now sp))
stats-IsBalanced t false now sp b =
    omega (arith, kept-new t now sp, none_now t.sender t false now sp)

reset-IsBalanced :
    (sender : Bool) (now : Timeval) (sp : Stream)
    → IsBalanced sender true sp
    → IsBalanced sender false (reset_stream now sp)
reset-IsBalanced true now sp b = omega arith
reset-IsBalanced false now sp b = omega arith

total-same :
    (f : Stream → Stream)
    → ((sp : Stream)
        → (f sp).bytes_sent + (f sp).bytes_received ≡ sp.bytes_sent + sp.bytes_received)
    → (sps : List Stream) → total (map f sps) ≡ total sps
unfolding total
total-same f e [] = refl
total-same f e (sp ∷ sps) = omega (arith, e sp, total-same f e sps)

total-zero :
    (f : Stream → Stream)
    → ((sp : Stream) → (f sp).bytes_sent + (f sp).bytes_received ≡ 0)
    → (sps : List Stream) → total (map f sps) ≡ 0
unfolding total
total-zero f e [] = refl
total-zero f e (sp ∷ sps) = omega (arith, e sp, total-zero f e sps)

All-mapped :
    (P Q : Stream → Type 0) (f : Stream → Stream)
    → ((sp : Stream) → P sp → Q (f sp))
    → (sps : List Stream) → All P sps
    → All Q (map f sps)
All-mapped P Q f g [] a = a
All-mapped P Q f g (sp ∷ sps) a = (g sp a.0, All-mapped P Q f g sps a.1)

pub stats-IsAccounted :
    (now : Timeval) (r : Running) → IsAccounted r → IsAccounted (iperf_stats_callback now r)
unfolding iperf_stats_callback
stats-IsAccounted now r a = record {
  counted =
      a.counted ∙ sym (total-same (stats_stream r.test r.omitting now) (λ sp. refl) r.streams);
  balanced =
      All-mapped (IsBalanced r.test.sender r.omitting) (IsBalanced r.test.sender r.omitting)
        (stats_stream r.test r.omitting now) (stats-IsBalanced r.test r.omitting now) r.streams
        a.balanced;
}

pub omit-IsAccounted :
    (now : Timeval) (r : Running)
    → r.omitting ≡ true
    → IsAccounted r
    → IsAccounted (omit_timer_proc now r)
unfolding omit_timer_proc iperf_reset_stats
omit-IsAccounted now r e a = record {
  counted = sym (total-zero (reset_stream now) (λ sp. refl) r.streams);
  balanced =
      All-mapped (IsBalanced r.test.sender true) (IsBalanced r.test.sender false) (reset_stream now)
        (reset-IsBalanced r.test.sender now) r.streams
        (subst (λ o. All (IsBalanced r.test.sender o) r.streams) e a.balanced);
}

abbrev pub KeepsAccounts : {W : Type 0} → Option (ℤ × Running × W) → Type 0
KeepsAccounts none = Unit
KeepsAccounts (some (n, r, w)) = IsAccounted r

module _ {W : Type 0} (sender omitting : Bool) where
  KeepsPass-trans :
      (t t1 : Test) (sps sps1 : List Stream) (o : Option (Pass W))
      → Keeps sender omitting t t1 sps sps1
      → KeepsPass sender omitting t1 sps1 o
      → KeepsPass sender omitting t sps o
  KeepsPass-trans t t1 sps sps1 none a b = tt
  KeepsPass-trans t t1 sps sps1 (some p) a b =
      Keeps-trans sender omitting t t1 p.test sps sps1 p.streams a b

  Keeps-IsAccounted :
      (r : Running) (p : Pass W)
      → IsAccounted r
      → Keeps r.test.sender r.omitting r.test p.test r.streams p.streams
      → IsAccounted (record r { test = p.test; streams = p.streams; write_set = p.write_set })
  Keeps-IsAccounted r p a k = record {
    counted = omega (arith, a.counted, k.bytes);
    balanced = subst (λ s. All (IsBalanced s r.omitting) p.streams) (sym k.direction) k.balanced;
  }

  module _ (snd : Stream → W → Option (ℤ × Stream × W)) (gettimeofday : W → Timeval × W) where
    end_rounds-Keeps :
        (t : Test) (sps : List Stream) (p : Pass W)
        → Keeps sender omitting t p.test sps p.streams
        → KeepsPass sender omitting t sps (some (end_rounds snd gettimeofday p))
    unfolding end_rounds after_rounds
    end_rounds-Keeps t sps p k = elim (Option-cases p.ret) [
      | inr (n, e) ↦ rw (e, KeepsPass) k
      | inl e ↦
          rw (e, KeepsPass)
            (elim (Bool-cases (nonzero p.test.settings.burst)) [
              | inr f ↦ rw (f, KeepsPass) k
              | inl f ↦
                  rw (f, KeepsPass)
                    (Keeps-trans sender omitting t p.test p.test sps p.streams _ k (
                      throttle_all-Keeps sender omitting p.test (gettimeofday p.world).0 p.streams
                        p.write_set k.balanced))
            ])
    ]

    module _
        (counts : (sp sp' : Stream) (w w' : W) (r : ℤ)
          → snd sp w ≡ some (r, sp', w')
          → Counted sender r sp sp') where
      send_rounds-Keeps :
          (m : ℕ) (set : Option (List ℕ)) (now : Timeval) (sps : List Stream) (t : Test)
          (ws : List ℕ) (w : W)
          → All (IsBalanced sender omitting) sps
          → KeepsPass sender omitting t sps (send_rounds snd gettimeofday m set now sps t ws w)
      unfolding send_rounds
      send_rounds-Keeps zero set now sps t ws w b = record {
        bytes = refl;
        balanced = b;
        direction = refl;
      }
      send_rounds-Keeps (suc m) set now sps t ws w b =
          let (now', w') = time_if snd gettimeofday (is_paced t) now w in
          elim (Option-cases (send_streams snd (suc m) set now' sps t ws w')) [
            | inl e ↦ rw (e, KeepsPass) tt
            | inr (p, e) ↦
                let k : Keeps sender omitting t p.test sps p.streams =
                  subst (KeepsPass sender omitting t sps) e (
                    send_streams-Keeps sender omitting snd counts (suc m) set now' sps t ws w' b) in
                rw (e, KeepsPass)
                  (elim (Option-cases p.ret) [
                    | inr (n, f) ↦ rw (f, KeepsPass) k
                    | inl f ↦
                        rw (f, KeepsPass)
                          (KeepsPass-trans t p.test sps p.streams _ k (
                            send_rounds-Keeps m set now' p.streams p.test p.write_set p.world
                              k.balanced))
                  ])
          ]

module _ {W : Type 0} (r : Running) (a : IsAccounted r) where
  module _ (snd : Stream → W → Option (ℤ × Stream × W))
      (counts : (sp sp' : Stream) (w w' : W) (n : ℤ)
        → snd sp w ≡ some (n, sp', w')
        → Counted r.test.sender n sp sp')
      (gettimeofday : W → Timeval × W) where
    pub iperf_send-IsAccounted :
        (set : Option (List ℕ)) (now : Timeval) (w : W)
        → KeepsAccounts (iperf_send snd gettimeofday set now r w)
    unfolding iperf_send
    iperf_send-IsAccounted set now w =
        elim (Option-cases (
          send_rounds snd gettimeofday (rounds_of snd gettimeofday r.test) set now r.streams r.test
            r.write_set w)) [
              | inl e ↦ rw (e, KeepsAccounts) tt
              | inr (p, e) ↦
                  rw (e, KeepsAccounts)
                    (Keeps-IsAccounted r.test.sender r.omitting r (end_rounds snd gettimeofday p) a
                      (end_rounds-Keeps r.test.sender r.omitting snd gettimeofday r.test r.streams p
                        (subst (KeepsPass r.test.sender r.omitting r.test r.streams) e (
                          send_rounds-Keeps r.test.sender r.omitting snd gettimeofday counts _ set
                            now r.streams r.test r.write_set w a.balanced))))
            ]

  module _ (rcv : Stream → W → Option (ℤ × Stream × W))
      (counts : (sp sp' : Stream) (w w' : W) (n : ℤ)
        → rcv sp w ≡ some (n, sp', w')
        → Counted r.test.sender n sp sp') where
    pub iperf_recv-IsAccounted : (set : List ℕ) (w : W) → KeepsAccounts (iperf_recv rcv set r w)
    unfolding iperf_recv
    iperf_recv-IsAccounted set w =
        elim (Option-cases (recv_streams rcv set r.streams r.test r.write_set w)) [
          | inl e ↦ rw (e, KeepsAccounts) tt
          | inr (p, e) ↦
              rw (e, KeepsAccounts)
                (Keeps-IsAccounted r.test.sender r.omitting r p a (
                  subst (KeepsPass r.test.sender r.omitting r.test r.streams) e (
                    recv_streams-Keeps r.test.sender r.omitting rcv counts set r.streams r.test
                      r.write_set w a.balanced)))
        ]
