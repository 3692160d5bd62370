-- ===== src/Sending/Rate.antt =====
-- How far a stream is ahead of the rate of its test, and what a send and iperf_check_throttle of
-- iperf_jni/jni/iperf/src/iperf_api.c do to that.
use wifitesttool.Base.{
  ℕ, ◌+◌, ◌*◌, ◌≤◌, ◌≡◌, Bool, true, false, List, Bool-cases, inl, inr, arith, ap, sym, ◌∙◌, ltb→lt,
}
use wifitesttool.Base.Int.{ℤ, negsuc, pos_part}
use wifitesttool.Sending.{iperf_check_throttle, throttle_if, is_below}
use wifitesttool.Streams.{Stream, timeval_diff}
use wifitesttool.Test.{Test}
use wifitesttool.Timer.{Timeval, million}
use wifitesttool.Timer.Time.{to_usecs}

-- At the time `now`, in bits and in microseconds: a stream is at most a block of `blk` bytes ahead of the
-- rate, and not ahead of it while its light is green.
pub record IsPaced (rate blk : ℕ) (now : Timeval) (sp : Stream) : Type 0 where
  pub started : to_usecs sp.start_time ≤ to_usecs now
  pub bounded :
      sp.bytes_sent * 8 * million ≤ rate * timeval_diff sp.start_time now + blk * 8 * million
  pub green :
      sp.green_light ≡ true → sp.bytes_sent * 8 * million ≤ rate * timeval_diff sp.start_time now

-- What a send function that sends at most `blk` bytes does to a stream when it returns `r`.
pub record SendsUpTo (blk : ℕ) (r : ℤ) (sp sp' : Stream) : Type 0 where
  pub moved : sp'.bytes_sent ≡ sp.bytes_sent + pos_part r
  pub at_most : pos_part r ≤ blk
  pub same_start : sp'.start_time ≡ sp.start_time
  pub same_light : sp'.green_light ≡ sp.green_light

diff_mono :
    (a b c : Timeval)
    → to_usecs a ≤ to_usecs b
    → to_usecs b ≤ to_usecs c
    → timeval_diff a b ≤ timeval_diff a c
unfolding timeval_diff
diff_mono a b c h k = omega arith

mul_mono : (r a b : ℕ) → a ≤ b → r * a ≤ r * b
mul_mono r a b h = grind arith

pub IsPaced-later :
    (rate blk : ℕ) (now later : Timeval) (sp : Stream)
    → to_usecs now ≤ to_usecs later
    → IsPaced rate blk now sp
    → IsPaced rate blk later sp
IsPaced-later rate blk now later sp h p =
    let d = mul_mono rate _ _ (diff_mono sp.start_time now later p.started h) in
    record {
      started = omega (arith, h, p.started);
      bounded = omega (arith, d, p.bounded);
      green = λ e. (let g = p.green e in omega (arith, d, g));
    }

pub failed-IsPaced :
    (rate blk n : ℕ) (now : Timeval) (sp sp' : Stream)
    → IsPaced rate blk now sp
    → SendsUpTo blk (negsuc n) sp sp'
    → IsPaced rate blk now sp'
failed-IsPaced rate blk n now sp sp' p s =
    let d : rate * timeval_diff sp'.start_time now ≡ rate * timeval_diff sp.start_time now =
      ap (λ x. rate * timeval_diff x now) s.same_start in
    let st : to_usecs sp'.start_time ≡ to_usecs sp.start_time = ap (λ x. to_usecs x) s.same_start in
    record {
      started = omega (arith, p.started, st);
      bounded = omega (arith, p.bounded, s.moved, d);
      green = λ e. (let g = p.green (sym s.same_light ∙ e) in omega (arith, g, s.moved, d));
    }

-- A block that is sent while the light is green, and the check after it.
pub throttle-IsPaced :
    (b : Bool) (blk : ℕ) (now : Timeval) (t : Test) (sp sp' : Stream) (ws : List ℕ) (r : ℤ)
    → b ≡ true
    → t.done ≡ false
    → sp.green_light ≡ true
    → IsPaced t.settings.rate blk now sp
    → SendsUpTo blk r sp sp'
    → IsPaced t.settings.rate blk now (throttle_if b t now sp' ws).0
unfolding iperf_check_throttle
throttle-IsPaced b blk now t sp sp' ws r c e g p s =
    let q = p.green g in
    let d : t.settings.rate * timeval_diff sp'.start_time now
        ≡ t.settings.rate * timeval_diff sp.start_time now =
      ap (λ x. t.settings.rate * timeval_diff x now) s.same_start in
    let st : to_usecs sp'.start_time ≡ to_usecs sp.start_time = ap (λ x. to_usecs x) s.same_start in
    let ahead : sp'.bytes_sent * 8 * million
        ≤ t.settings.rate * timeval_diff sp'.start_time now + blk * 8 * million =
      omega (arith, q, d, s.moved, s.at_most) in
    elim (Bool-cases (is_below t now sp')) [
      | inl f ↦
          rw (c, e, f)
            (record {
              started = omega (arith, p.started, st);
              bounded = ahead;
              green = λ x. (let lt = ltb→lt _ _ f in omega (arith, lt));
            })
      | inr f ↦
          rw (c, e, f)
            (record {
              started = omega (arith, p.started, st);
              bounded = ahead;
              green = λ x. grind arith;
            })
    ]
