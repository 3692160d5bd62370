-- ===== src/Sending/Pace.antt =====
-- iperf_send keeps every stream close to the rate, for a sender with a rate and without bursts.
use wifitesttool.Base.{
  ℕ, ◌≤◌, ◌≡◌, refl, Bool, true, false, ◌&&◌, Option, none, some, List, [], ◌∷◌, All, Bool-cases,
  Option-cases, inl, inr, arith, subst, sym,
}
use wifitesttool.Base.Int.{ℤ, pos, negsuc}
use wifitesttool.Sending.{
  Pass, throttle_if, count_block, selected, is_paced, is_enough, put_head, send_streams,
  send_rounds, end_rounds, iperf_send, rounds_of, time_if,
}
use wifitesttool.Params.{nonzero}
use wifitesttool.Sending.Rate.{IsPaced, SendsUpTo, IsPaced-later, failed-IsPaced, throttle-IsPaced}
use wifitesttool.Streams.{Stream, Running}
use wifitesttool.Test.{Test, Settings}
use wifitesttool.Timer.{Timeval}
use wifitesttool.Timer.Time.{to_usecs}

and-left : (a b : Bool) → a && b ≡ true → a ≡ true
and-left true b e = refl
and-left false b e = e

-- With the settings of the test, which do not change.
abbrev AllPaced : {W : Type 0} → Settings → ℕ → Timeval → Option (Pass W) → Type 0
AllPaced s blk now none = Unit
AllPaced s blk now (some p) = All (IsPaced s.rate blk now) p.streams × p.test.settings ≡ s

module _ {W : Type 0} (s : Settings) (blk : ℕ) (now : Timeval) where
  put_head-AllPaced :
      (sp : Stream) (o : Option (Pass W))
      → IsPaced s.rate blk now sp
      → AllPaced s blk now o
      → AllPaced s blk now (put_head sp o)
  put_head-AllPaced sp none p a = tt
  put_head-AllPaced sp (some q) p a = ((p, a.0), a.1)

module _ (rate blk : ℕ) (now : Timeval) where
  All-later :
      (before : Timeval) (sps : List Stream)
      → to_usecs before ≤ to_usecs now
      → All (IsPaced rate blk before) sps
      → All (IsPaced rate blk now) sps
  All-later before [] h a = tt
  All-later before (sp ∷ sps) h a =
      (IsPaced-later rate blk before now sp h a.0, All-later before sps h a.1)

-- The streams that iperf_send leaves at the time `now`; there are none while it blocks.
abbrev pub PacedAt : {W : Type 0} → ℕ → Timeval → Option (ℤ × Running × W) → Type 0
PacedAt blk now none = Unit
PacedAt blk now (some (n, r, w)) = All (IsPaced r.test.settings.rate blk now) r.streams

module _ {W : Type 0} (blk : ℕ) (snd : Stream → W → Option (ℤ × Stream × W))
    (sends : (sp sp' : Stream) (w w' : W) (n : ℤ)
      → snd sp w ≡ some (n, sp', w')
      → SendsUpTo blk n sp sp') where
  send_streams-AllPaced :
      (m : ℕ) (set : Option (List ℕ)) (now : Timeval) (sps : List Stream) (t : Test) (ws : List ℕ)
      (w : W)
      → is_paced t ≡ true
      → t.done ≡ false
      → All (IsPaced t.settings.rate blk now) sps
      → AllPaced t.settings blk now (send_streams snd m set now sps t ws w)
  unfolding send_streams
  send_streams-AllPaced m set now [] t ws w e d a = (tt, refl)
  send_streams-AllPaced m set now (sp ∷ sps) t ws w e d a =
      let rate = t.settings.rate in
      elim (Bool-cases (sp.green_light && selected set sp.socket)) [
        | inr f ↦
            rw (f, send_streams)
              (put_head-AllPaced t.settings blk now sp _ a.0
                (send_streams-AllPaced m set now sps t ws w e d a.1))
        | inl f ↦
            rw (f, send_streams)
              (elim (Option-cases (snd sp w)) [
                | inl g ↦ rw (g, AllPaced) tt
                | inr ((negsuc n, sp', w'), g) ↦
                    rw (g, AllPaced)
                      (
                        (
                          failed-IsPaced rate blk n now sp sp' a.0 (sends sp sp' w w' (negsuc n) g),
                          a.1,
                        ),
                        refl,
                      )
                | inr ((pos n, sp', w'), g) ↦
                    rw (g, AllPaced)
                      (let t' = count_block n t in
                        let throttled = throttle_if (is_paced t) t' now sp' ws in
                        let p =
                          throttle-IsPaced (is_paced t) blk now t' sp sp' ws (pos n) e d
                            (and-left _ _ f) a.0 (sends sp sp' w w' (pos n) g) in
                        elim (Bool-cases (is_enough m t')) [
                          | inl h ↦ rw (h, AllPaced) ((p, a.1), refl)
                          | inr h ↦
                              rw (h, AllPaced)
                                (put_head-AllPaced t.settings blk now throttled.0 _ p
                                  (send_streams-AllPaced m set now sps t' throttled.1 w' e d a.1))
                        ])
              ])
      ]

  module _ (gettimeofday : W → Timeval × W) where
    no_burst : (t : Test) → is_paced t ≡ true → nonzero t.settings.burst ≡ false
    no_burst t e = ground arith

    -- A paced test sends in one round, for which it reads the clock once.
    one_round : (t : Test) → is_paced t ≡ true → rounds_of snd gettimeofday t ≡ 1
    one_round t e = ground arith

    end_rounds-AllPaced :
        (t : Test) (now : Timeval) (p : Pass W)
        → is_paced t ≡ true
        → AllPaced t.settings blk now (some p)
        → AllPaced t.settings blk now (some (end_rounds snd gettimeofday p))
    unfolding end_rounds
    end_rounds-AllPaced t now p e a = elim (Option-cases p.ret) [
      | inr (n, f) ↦ rw (f, AllPaced) a
      | inl f ↦ rw (f, subst (λ x. nonzero x.burst ≡ false) (sym a.1) (no_burst t e), AllPaced) a
    ]

    send_rounds-AllPaced :
        (set : Option (List ℕ)) (now : Timeval) (sps : List Stream) (t : Test) (ws : List ℕ) (w : W)
        → is_paced t ≡ true
        → t.done ≡ false
        → All (IsPaced t.settings.rate blk (time_if snd gettimeofday (is_paced t) now w).0) sps
        → AllPaced t.settings blk
            (time_if snd gettimeofday (is_paced t) now w).0
            (send_rounds snd gettimeofday 1 set now sps t ws w)
    unfolding send_rounds
    send_rounds-AllPaced set now sps t ws w e d a =
        let (now', w') = time_if snd gettimeofday (is_paced t) now w in
        elim (Option-cases (send_streams snd 1 set now' sps t ws w')) [
          | inl f ↦ rw (f, AllPaced) tt
          | inr (p, f) ↦
              let k : AllPaced t.settings blk now' (some p) =
                subst (AllPaced t.settings blk now') f
                  (send_streams-AllPaced 1 set now' sps t ws w' e d a) in
              rw (f, AllPaced)
                (elim (Option-cases p.ret) [
                  | inr (n, g) ↦ rw (g, AllPaced) k
                  | inl g ↦ rw (g, AllPaced) k
                ])
        ]

    paced_time :
        (t : Test) (now : Timeval) (w : W)
        → is_paced t ≡ true
        → (time_if snd gettimeofday (is_paced t) now w).0 ≡ (gettimeofday w).0
    paced_time t now w e = rw (e) refl

    -- A test with a rate, without bursts and not done, whose send function sends at most `blk` bytes, keeps
    -- every stream paced: where each is paced at some time before the call, each is paced after the
    -- call, at the time that the call has read. So no stream is ever more than `blk` bytes ahead of the rate, and
    -- one that is ahead of it has no green light.
    pub iperf_send-IsPaced :
        (set : Option (List ℕ)) (before now : Timeval) (r : Running) (w : W)
        → is_paced r.test ≡ true
        → r.test.done ≡ false
        → to_usecs before ≤ to_usecs (gettimeofday w).0
        → All (IsPaced r.test.settings.rate blk before) r.streams
        → PacedAt blk (gettimeofday w).0 (iperf_send snd gettimeofday set now r w)
    unfolding iperf_send
    iperf_send-IsPaced set before now r w e d h a =
        let t = r.test in
        let read = (time_if snd gettimeofday (is_paced t) now w).0 in
        let same = paced_time t now w e in
        let later =
          subst (λ c. All (IsPaced t.settings.rate blk c) r.streams) (sym same)
            (All-later t.settings.rate blk (gettimeofday w).0 before r.streams h a) in
        let rounds = rounds_of snd gettimeofday t in
        let k =
          subst
            (λ m.
              AllPaced t.settings blk read
                (send_rounds snd gettimeofday m set now r.streams t r.write_set w))
            (sym (one_round t e))
            (send_rounds-AllPaced set now r.streams t r.write_set w e d later) in
        elim (Option-cases
          (send_rounds snd gettimeofday rounds set now r.streams t r.write_set w)) [
            | inl f ↦ rw (f, PacedAt) tt
            | inr (p, f) ↦
                rw (f, PacedAt)
                  (let k' : AllPaced t.settings blk read (some p) =
                      subst (AllPaced t.settings blk read) f k in
                    let q = end_rounds-AllPaced t read p e k' in
                    subst
                      (λ c.
                        All (IsPaced (end_rounds snd gettimeofday p).test.settings.rate blk c)
                          (end_rounds snd gettimeofday p).streams)
                      same
                      (subst
                        (λ s. All (IsPaced s.rate blk read) (end_rounds snd gettimeofday p).streams)
                        (sym q.1) q.0))
          ]
