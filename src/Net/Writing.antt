-- ===== src/Net/Writing.antt =====
-- What `Nwrite` and `Nsendfile` send, for every way in which the kernel takes the bytes.
use wifitesttool.Base.{
  ℕ, zero, suc, ◌+◌, ◌-◌, ◌≤◌, ◌<◌, ◌≡◌, ◌⊎◌, refl, Option, none, some, List, [], ◌∷◌, ◌++◌, arith,
  length, take, drop, suc-==-zero, inl, inr, length-append, length-drop, take-append-drop,
}
use mathlib.Core.List.{append-nil, append_assoc}
use wifitesttool.Base.Int.{ℤ, pos}
use wifitesttool.Net.{
  Errno, Room, wrote, write_failed, WriteResult, write_loop, write_error, sendfile_error, nwrite,
  nsendfile, net_softerror, net_harderror,
}

-- What a call that returns has done with the bytes `whole`: it has sent the first ones. It returns
-- their number, and fewer than all only after an EINTR, or an error that leaves bytes unsent.
abbrev IsWritten : (ℕ → ℕ → Errno → ℤ) → List ℕ → Option WriteResult → Type 0
IsWritten on_error whole none = Unit
IsWritten on_error whole (some r) =
    (unsent : List ℕ) × (whole ≡ r.sent ++ unsent)
    × (((r.ret ≡ pos (length whole)) × (unsent ≡ []))
        ⊎ ((0 < length unsent)
            × ((r.ret ≡ net_softerror)
                ⊎ ((e : Errno) × (r.ret ≡ on_error (length whole) (length unsent) e)))))

write_loop-IsWritten :
    (on_error : ℕ → ℕ → Errno → ℤ) (whole buf sent : List ℕ) (more : List Room)
    → whole ≡ sent ++ buf
    → IsWritten on_error whole (write_loop on_error (length whole) buf sent more)
unfolding write_loop
write_loop-IsWritten on_error whole [] sent [] h = ([], h, inl (refl, refl))
write_loop-IsWritten on_error whole (b ∷ buf) sent [] h =
    rw (suc-==-zero (length buf), IsWritten) tt
write_loop-IsWritten on_error whole [] sent (a ∷ more) h = ([], h, inl (refl, refl))
write_loop-IsWritten on_error whole (b ∷ buf) sent (write_failed e ∷ more) h =
    rw (suc-==-zero (length buf), IsWritten) (b ∷ buf, h, inr (omega arith, inr (e, refl)))
write_loop-IsWritten on_error whole (b ∷ buf) sent (wrote zero ∷ more) h =
    rw (suc-==-zero (length buf), IsWritten) (b ∷ buf, h, inr (omega arith, inl refl))
write_loop-IsWritten on_error whole (b ∷ buf) sent (wrote (suc r) ∷ more) h =
    rw (suc-==-zero (length buf), suc-==-zero r, IsWritten)
      (write_loop-IsWritten on_error whole (drop r buf) (sent ++ b ∷ take r buf) more
        (ground (arith, append_assoc sent (b ∷ take r buf) (drop r buf), take-append-drop r buf)))

-- The kernel takes some bytes at every call.
abbrev pub Takes : List Room → Type 0
Takes [] = Unit
Takes (wrote n ∷ more) = (0 < n) × Takes more
Takes (write_failed e ∷ more) = ⊥

record Sent (had count : ℕ) (buf sent : List ℕ) (o : Option WriteResult) : Type 0 where
  rest : List Room
  writes : o ≡ some (record { ret = pos count; sent = sent ++ buf; rest = rest })
  takes : Takes rest
  uses : had ≤ length rest + length buf

write_loop-Sent :
    (on_error : ℕ → ℕ → Errno → ℤ) (count : ℕ) (buf sent : List ℕ) (more : List Room)
    → Takes more
    → length buf ≤ length more
    → Sent (length more) count buf sent (write_loop on_error count buf sent more)
unfolding write_loop
write_loop-Sent on_error count [] sent [] t h = record {
  rest = [];
  writes = ground (arith, append-nil sent);
  takes = tt;
  uses = omega arith;
}
write_loop-Sent on_error count (b ∷ buf) sent [] t h = absurd (omega arith)
write_loop-Sent on_error count [] sent (a ∷ more) t h = record {
  rest = a ∷ more;
  writes = ground (arith, append-nil sent);
  takes = t;
  uses = omega arith;
}
write_loop-Sent on_error count (b ∷ buf) sent (write_failed e ∷ more) t h = absurd t
write_loop-Sent on_error count (b ∷ buf) sent (wrote zero ∷ more) t h = absurd (omega arith)
write_loop-Sent on_error count (b ∷ buf) sent (wrote (suc r) ∷ more) t h =
    let s =
      write_loop-Sent on_error count (drop r buf) (sent ++ b ∷ take r buf) more t.1
        (omega (arith, length-drop r buf)) in
    record {
      rest = s.rest;
      writes =
          rw (suc-==-zero (length buf), suc-==-zero r, write_loop)
            (ground (
              arith,
              s.writes,
              append_assoc sent (b ∷ take r buf) (drop r buf),
              take-append-drop r buf,
            ));
      takes = s.takes;
      uses = omega (arith, s.uses, length-drop r buf);
    }

-- If the kernel takes some bytes at every call, and there are as many calls as bytes, `Nwrite` sends
-- all of them, in order, and returns their number.
pub nwrite_all :
    (buf : List ℕ) (more : List Room)
    → Takes more
    → length buf ≤ length more
    → (rest : List Room) × (nwrite buf more
        ≡ some (record { ret = pos (length buf); sent = buf; rest = rest }))
      × Takes rest
      × (length more ≤ length rest + length buf)
unfolding nwrite
nwrite_all buf more t h =
    let s = write_loop-Sent write_error (length buf) buf [] more t h in
    (s.rest, s.writes, s.takes, s.uses)

-- The first bytes were sent, and their number is returned, or a NET_ error with bytes unsent.
abbrev pub CountsSent : List ℕ → Option WriteResult → Type 0
CountsSent whole none = Unit
CountsSent whole (some r) =
    (unsent : List ℕ) × (whole ≡ r.sent ++ unsent)
    × ((r.ret ≡ pos (length r.sent))
        ⊎ (((r.ret ≡ net_softerror) ⊎ (r.ret ≡ net_harderror)) × (0 < length unsent)))

counts_of :
    (on_error : ℕ → ℕ → Errno → ℤ) (whole : List ℕ) (o : Option WriteResult)
    → ((count nleft : ℕ) (e : Errno)
        → (on_error count nleft e ≡ pos (count - nleft))
          ⊎ ((on_error count nleft e ≡ net_softerror) ⊎ (on_error count nleft e ≡ net_harderror)))
    → IsWritten on_error whole o
    → CountsSent whole o
counts_of on_error whole none f w = tt
counts_of on_error whole (some r) f (unsent, e, inl (p, q)) =
    (unsent, e, inl (ground (arith, append-nil r.sent)))
counts_of on_error whole (some r) f (unsent, e, inr (lt, inl p)) = (unsent, e, inr (inl p, lt))
counts_of on_error whole (some r) f (unsent, e, inr (lt, inr (x, p))) =
    (unsent, e, ground (arith, f (length whole) (length unsent) x, length-append r.sent unsent))

write_error_cases :
    (count nleft : ℕ) (e : Errno)
    → (write_error count nleft e ≡ pos (count - nleft))
      ⊎ ((write_error count nleft e ≡ net_softerror) ⊎ (write_error count nleft e ≡ net_harderror))
unfolding write_error
write_error_cases count nleft e = ground arith

sendfile_error_cases :
    (count nleft : ℕ) (e : Errno)
    → (sendfile_error count nleft e ≡ pos (count - nleft))
      ⊎ ((sendfile_error count nleft e ≡ net_softerror)
          ⊎ (sendfile_error count nleft e ≡ net_harderror))
unfolding sendfile_error
sendfile_error_cases count nleft e = ground arith

-- Whatever the kernel does, `Nwrite` and `Nsendfile`, when they return, have sent the first bytes of
-- the buffer, in order. They return the number of these, or a NET_ error, which leaves some unsent.
pub writes-CountsSent :
    (buf : List ℕ) (more : List Room)
    → CountsSent buf (nwrite buf more) × CountsSent buf (nsendfile buf more)
unfolding nwrite nsendfile
writes-CountsSent buf more = (
  counts_of write_error buf _ write_error_cases
      (write_loop-IsWritten write_error buf buf [] more refl),
  counts_of sendfile_error buf _ sendfile_error_cases
      (write_loop-IsWritten sendfile_error buf buf [] more refl),
)
