-- ===== src/Sending/Accounts.antt =====
-- The sums of bytes that a running test keeps, by stream and by interval.
use wifitesttool.Base.{
  ℕ, ◌+◌, ◌≡◌, refl, Bool, true, false, not, ◌&&◌, Option, none, some, List, [], ◌∷◌, if◌then◌else◌,
  arith, All, Bool-cases, Option-cases, inl, inr, ◌∙◌,
}
use wifitesttool.Base.Int.{ℤ, pos, negsuc, pos_part}
use wifitesttool.Sending.{
  Pass, iperf_check_throttle, throttle_if, throttle_all, count_block, selected, is_paced, is_enough,
  put_head, send_streams, recv_streams, fd_isset,
}
use wifitesttool.Streams.{Interval, Stream}
use wifitesttool.Test.{Test}
use wifitesttool.Timer.{Timeval}

-- What a stream has moved, in the direction of the test.
abbrev pub amount : Bool → Stream → ℕ
amount sender sp = if sender then sp.bytes_sent else sp.bytes_received

abbrev pub this_interval : Bool → Stream → ℕ
this_interval sender sp =
    if sender then sp.bytes_sent_this_interval else sp.bytes_received_this_interval

unfoldable pub total : List Stream → ℕ
total [] = 0
total (sp ∷ sps) = sp.bytes_sent + sp.bytes_received + total sps

-- The bytes of the intervals that are not omitted.
abbrev pub kept : List Interval → ℕ
kept [] = 0
kept (i ∷ is) = (if i.omitted then 0 else i.bytes_transferred) + kept is

-- While the test does not omit, the intervals and the bytes since the last one make up the bytes of the stream;
-- while it omits, the intervals that are not omitted have no bytes.
abbrev pub IsBalanced : Bool → Bool → Stream → Type 0
IsBalanced sender true sp = kept sp.intervals ≡ 0
IsBalanced sender false sp = kept sp.intervals + this_interval sender sp ≡ amount sender sp

-- What a send or receive function does to a stream when it returns `r`.
pub record Counted (sender : Bool) (r : ℤ) (sp sp' : Stream) : Type 0 where
  pub moved : amount sender sp' ≡ amount sender sp + pos_part r
  pub moved_now : this_interval sender sp' ≡ this_interval sender sp + pos_part r
  pub other_way : amount (not sender) sp' ≡ amount (not sender) sp
  pub intervals : sp'.intervals ≡ sp.intervals

pub record Keeps (sender omitting : Bool) (t t' : Test) (sps sps' : List Stream) : Type 0 where
  pub bytes : t'.bytes_sent + total sps ≡ t.bytes_sent + total sps'
  pub balanced : All (IsBalanced sender omitting) sps'
  pub direction : t'.sender ≡ t.sender

abbrev pub KeepsPass : {W : Type 0} → Bool → Bool → Test → List Stream → Option (Pass W) → Type 0
KeepsPass sender omitting t sps none = Unit
KeepsPass sender omitting t sps (some p) = Keeps sender omitting t p.test sps p.streams

Counted-IsBalanced :
    (sender omitting : Bool) (r : ℤ) (sp sp' : Stream)
    → Counted sender r sp sp'
    → IsBalanced sender omitting sp
    → IsBalanced sender omitting sp'
Counted-IsBalanced sender true r sp sp' c b = rw (c.intervals) b
Counted-IsBalanced sender false r sp sp' c b =
    rw (c.intervals) (omega (arith, c.moved, c.moved_now))

Counted-sum :
    (sender : Bool) (r : ℤ) (sp sp' : Stream)
    → Counted sender r sp sp'
    → sp'.bytes_sent + sp'.bytes_received ≡ sp.bytes_sent + sp.bytes_received + pos_part r
Counted-sum true r sp sp' c = omega (arith, c.moved, c.other_way)
Counted-sum false r sp sp' c = omega (arith, c.moved, c.other_way)

-- Throttling changes the green light only.
throttle-Counted :
    (sender b : Bool) (t : Test) (now : Timeval) (sp : Stream) (ws : List ℕ)
    → Counted sender (pos 0) sp (throttle_if b t now sp ws).0
unfolding iperf_check_throttle
throttle-Counted sender b t now sp ws = ground arith

module _ (sender omitting : Bool) where
  Keeps-nil : (t : Test) → Keeps sender omitting t t [] []
  Keeps-nil t = record { bytes = refl; balanced = tt; direction = refl }

  pub Keeps-trans :
      (t t1 t2 : Test) (sps sps1 sps2 : List Stream)
      → Keeps sender omitting t t1 sps sps1
      → Keeps sender omitting t1 t2 sps1 sps2
      → Keeps sender omitting t t2 sps sps2
  Keeps-trans t t1 t2 sps sps1 sps2 a b = record {
    bytes = omega (arith, a.bytes, b.bytes);
    balanced = b.balanced;
    direction = b.direction ∙ a.direction;
  }

  Keeps-cons :
      (t : Test) (sp sp' : Stream) (sps sps' : List Stream)
      → sp'.bytes_sent + sp'.bytes_received ≡ sp.bytes_sent + sp.bytes_received + 0
      → IsBalanced sender omitting sp'
      → Keeps sender omitting t t sps sps'
      → Keeps sender omitting t t (sp ∷ sps) (sp' ∷ sps')
  unfolding total
  Keeps-cons t sp sp' sps sps' e b k = record {
    bytes = omega (arith, k.bytes);
    balanced = (b, k.balanced);
    direction = refl;
  }

  pub throttle_all-Keeps :
      (t : Test) (now : Timeval) (sps : List Stream) (ws : List ℕ)
      → All (IsBalanced sender omitting) sps
      → Keeps sender omitting t t sps (throttle_all t now sps ws).0
  unfolding throttle_all
  throttle_all-Keeps t now [] ws b = Keeps-nil t
  throttle_all-Keeps t now (sp ∷ sps) ws b =
      let one = throttle_if true t now sp ws in
      let c = throttle-Counted sender true t now sp ws in
      let k = throttle_all-Keeps t now sps one.1 b.1 in
      Keeps-cons t sp one.0 sps _ (Counted-sum sender (pos 0) sp one.0 c)
        (Counted-IsBalanced sender omitting (pos 0) sp one.0 c b.0) k

  Keeps-here :
      (t t' : Test) (sp sp' : Stream) (sps : List Stream)
      → t'.bytes_sent + (sp.bytes_sent + sp.bytes_received)
        ≡ t.bytes_sent + (sp'.bytes_sent + sp'.bytes_received)
      → t'.sender ≡ t.sender
      → IsBalanced sender omitting sp'
      → All (IsBalanced sender omitting) sps
      → Keeps sender omitting t t' (sp ∷ sps) (sp' ∷ sps)
  unfolding total
  Keeps-here t t' sp sp' sps e d b k = record {
    bytes = omega arith;
    balanced = (b, k);
    direction = d;
  }

module _ {W : Type 0} (sender omitting : Bool) where
  Keeps-put_head :
      (t t' : Test) (sp sp' : Stream) (sps : List Stream) (o : Option (Pass W))
      → t'.bytes_sent + (sp.bytes_sent + sp.bytes_received)
        ≡ t.bytes_sent + (sp'.bytes_sent + sp'.bytes_received)
      → t'.sender ≡ t.sender
      → IsBalanced sender omitting sp'
      → KeepsPass sender omitting t' sps o
      → KeepsPass sender omitting t (sp ∷ sps) (put_head sp' o)
  unfolding total
  Keeps-put_head t t' sp sp' sps none e d b k = tt
  Keeps-put_head t t' sp sp' sps (some p) e d b k = record {
    bytes = omega (arith, k.bytes);
    balanced = (b, k.balanced);
    direction = k.direction ∙ d;
  }

  module _ (snd : Stream → W → Option (ℤ × Stream × W))
      (counts : (sp sp' : Stream) (w w' : W) (r : ℤ)
        → snd sp w ≡ some (r, sp', w')
        → Counted sender r sp sp') where
    pub send_streams-Keeps :
        (m : ℕ) (set : Option (List ℕ)) (now : Timeval) (sps : List Stream) (t : Test) (ws : List ℕ)
        (w : W)
        → All (IsBalanced sender omitting) sps
        → KeepsPass sender omitting t sps (send_streams snd m set now sps t ws w)
    unfolding send_streams
    send_streams-Keeps m set now [] t ws w b = Keeps-nil sender omitting t
    send_streams-Keeps m set now (sp ∷ sps) t ws w b =
        elim (Bool-cases (sp.green_light && selected set sp.socket)) [
          | inr e ↦
              rw (e, send_streams)
                (Keeps-put_head t t sp sp sps _ refl refl b.0
                  (send_streams-Keeps m set now sps t ws w b.1))
          | inl e ↦
              rw (e, send_streams)
                (elim (Option-cases (snd sp w)) [
                  | inl f ↦ rw (f, KeepsPass) tt
                  | inr ((negsuc n, sp', w'), f) ↦
                      rw (f, KeepsPass)
                        (let c = counts sp sp' w w' (negsuc n) f in
                          Keeps-here sender omitting t t sp sp' sps
                            (omega (arith, Counted-sum sender (negsuc n) sp sp' c)) refl
                            (Counted-IsBalanced sender omitting (negsuc n) sp sp' c b.0) b.1)
                  | inr ((pos n, sp', w'), f) ↦
                      rw (f, KeepsPass)
                        (let t' = count_block n t in
                          let throttled = throttle_if (is_paced t) t' now sp' ws in
                          let c = counts sp sp' w w' (pos n) f in
                          let d = throttle-Counted sender (is_paced t) t' now sp' ws in
                          let sums : t'.bytes_sent + (sp.bytes_sent + sp.bytes_received)
                              ≡ t.bytes_sent
                                + (throttled.0.bytes_sent + throttled.0.bytes_received) =
                            omega (
                              arith,
                              Counted-sum sender (pos n) sp sp' c,
                              Counted-sum sender (pos 0) sp' throttled.0 d,
                            ) in
                          let good =
                            Counted-IsBalanced sender omitting (pos 0) sp' throttled.0 d
                              (Counted-IsBalanced sender omitting (pos n) sp sp' c b.0) in
                          elim (Bool-cases (is_enough m t')) [
                            | inl g ↦
                                rw (g, KeepsPass)
                                  (Keeps-here sender omitting t t' sp throttled.0 sps sums refl good
                                    b.1)
                            | inr g ↦
                                rw (g, KeepsPass)
                                  (Keeps-put_head t t' sp throttled.0 sps _ sums refl good
                                    (send_streams-Keeps m set now sps t' throttled.1 w' b.1))
                          ])
                ])
        ]

  module _ (rcv : Stream → W → Option (ℤ × Stream × W))
      (counts : (sp sp' : Stream) (w w' : W) (r : ℤ)
        → rcv sp w ≡ some (r, sp', w')
        → Counted sender r sp sp') where
    pub recv_streams-Keeps :
        (set : List ℕ) (sps : List Stream) (t : Test) (ws : List ℕ) (w : W)
        → All (IsBalanced sender omitting) sps
        → KeepsPass sender omitting t sps (recv_streams rcv set sps t ws w)
    unfolding recv_streams
    recv_streams-Keeps set [] t ws w b = Keeps-nil sender omitting t
    recv_streams-Keeps set (sp ∷ sps) t ws w b = elim (Bool-cases (fd_isset sp.socket set)) [
      | inr e ↦
          rw (e, recv_streams)
            (Keeps-put_head t t sp sp sps _ refl refl b.0 (recv_streams-Keeps set sps t ws w b.1))
      | inl e ↦
          rw (e, recv_streams)
            (elim (Option-cases (rcv sp w)) [
              | inl f ↦ rw (f, KeepsPass) tt
              | inr ((negsuc n, sp', w'), f) ↦
                  rw (f, KeepsPass)
                    (let c = counts sp sp' w w' (negsuc n) f in
                      Keeps-here sender omitting t t sp sp' sps
                        (omega (arith, Counted-sum sender (negsuc n) sp sp' c)) refl
                        (Counted-IsBalanced sender omitting (negsuc n) sp sp' c b.0) b.1)
              | inr ((pos n, sp', w'), f) ↦
                  rw (f, KeepsPass)
                    (let c = counts sp sp' w w' (pos n) f in
                      Keeps-put_head t (count_block n t) sp sp' sps _
                        (omega (arith, Counted-sum sender (pos n) sp sp' c)) refl
                        (Counted-IsBalanced sender omitting (pos n) sp sp' c b.0)
                        (recv_streams-Keeps set sps (count_block n t) ws w' b.1))
            ])
    ]
