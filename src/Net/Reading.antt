-- ===== src/Net/Reading.antt =====
-- What `Nread` reads, for every way in which the bytes arrive.
use wifitesttool.Base.{
  ℕ, zero, suc, ◌+◌, ◌-◌, ◌≤◌, ◌<◌, ◌≡◌, ◌⊎◌, refl, Option, none, some, List, [], ◌∷◌, ◌++◌, arith,
  leb, length, take, drop, Bool-cases, inl, inr, length-append, take-append_le, take-append_ge,
  drop-append_le, drop-append_ge, length-drop, length-take, take-append-drop,
}
use mathlib.Core.List.{append-nil, append_assoc}
use wifitesttool.Base.Int.{pos}
use wifitesttool.Net.{
  eintr, Arrival, got, read_failed, ReadResult, nread_loop, nread, net_harderror,
}

-- The bytes that arrive.
abbrev pub stream : List Arrival → List ℕ
stream [] = []
stream (got bs ∷ more) = bs ++ stream more
stream (read_failed e ∷ more) = stream more

-- Bytes keep arriving: there is no end of file, and no error but EINTR.
abbrev pub Flows : List Arrival → Type 0
Flows [] = Unit
Flows (got bs ∷ more) = (0 < length bs) × Flows more
Flows (read_failed e ∷ more) = (e ≡ eintr) × Flows more

record Filled (count n : ℕ) (buf : List ℕ) (more : List Arrival) (o : Option ReadResult)
    : Type 0 where
  rest : List Arrival
  reads : o ≡ some (record { ret = pos count; buf = buf ++ take n (stream more); rest = rest })
  left : stream rest ≡ drop n (stream more)
  flows : Flows rest

nread_loop-Filled :
    (count n : ℕ) (buf : List ℕ) (more : List Arrival)
    → Flows more
    → n ≤ length (stream more)
    → n ≤ count
    → Filled count n buf more (nread_loop count n buf more)
unfolding nread_loop
nread_loop-Filled count zero buf [] f h k = record {
  rest = [];
  reads = ground (arith, append-nil buf);
  left = refl;
  flows = tt;
}
nread_loop-Filled count (suc n) buf [] f h k = absurd (omega arith)
nread_loop-Filled count zero buf (a ∷ more) f h k = record {
  rest = a ∷ more;
  reads = ground (arith, append-nil buf);
  left = refl;
  flows = f;
}
nread_loop-Filled count (suc n) buf (read_failed e ∷ more) f h k =
    let r = nread_loop-Filled count (suc n) buf more f.1 h k in
    record { rest = r.rest; reads = ground (arith, r.reads); left = r.left; flows = r.flows }
nread_loop-Filled count (suc n) buf (got bs ∷ more) f h k =
    elim (Bool-cases (leb (length bs) (suc n))) [
      | inl e ↦
          let r =
            nread_loop-Filled count (suc n - length bs) (buf ++ bs) more f.1
              (ground (arith, length-append bs (stream more))) (omega arith) in
          record {
            rest = r.rest;
            reads = ground (
              arith,
              r.reads,
              append_assoc buf bs (take (suc n - length bs) (stream more)),
              take-append_ge (suc n) bs (stream more),
            );
            left = ground (arith, r.left, drop-append_ge (suc n) bs (stream more));
            flows = r.flows;
          }
      | inr e ↦ record {
        rest = got (drop (suc n) bs) ∷ more;
        reads = ground (arith, take-append_le (suc n) bs (stream more));
        left = ground (arith, drop-append_le (suc n) bs (stream more));
        flows = (ground (arith, length-drop (suc n) bs), f.1);
      }
    ]

-- Once `count` bytes arrive, with no end of file and no error but EINTR, `Nread` returns `count` and
-- the first `count` of them, however they were cut up, and leaves the others to the next call.
pub nread_all :
    (count : ℕ) (more : List Arrival)
    → Flows more
    → count ≤ length (stream more)
    → (rest : List Arrival) × (nread count more
        ≡ some (record { ret = pos count; buf = take count (stream more); rest = rest }))
      × (stream rest ≡ drop count (stream more))
      × Flows rest
unfolding nread
nread_all count more f h =
    let r = nread_loop-Filled count count [] more f h (omega arith) in
    (r.rest, r.reads, r.left, r.flows)

-- What any call of the loop that returns has done with `whole`, the bytes from its start on.
abbrev pub IsRead : ℕ → List ℕ → Option ReadResult → Type 0
IsRead count whole none = Unit
IsRead count whole (some r) =
    (whole ≡ r.buf ++ stream r.rest)
    × (length r.buf ≤ count)
    × ((r.ret ≡ pos (length r.buf)) ⊎ (r.ret ≡ net_harderror))

nil_of_length : (xs : List ℕ) → length xs ≡ 0 → xs ≡ []
nil_of_length [] h = refl
nil_of_length (x ∷ xs) h = absurd (omega arith)

nread_loop-IsRead :
    (count n : ℕ) (buf : List ℕ) (more : List Arrival)
    → length buf + n ≡ count
    → IsRead count (buf ++ stream more) (nread_loop count n buf more)
unfolding nread_loop
nread_loop-IsRead count n buf [] h = ground (arith, append-nil buf)
nread_loop-IsRead count n buf (read_failed e ∷ more) h =
    ground (arith, nread_loop-IsRead count n buf more h)
nread_loop-IsRead count n buf (got bs ∷ more) h = ground (
  arith,
  nil_of_length bs,
  append_assoc buf bs (stream more),
  length-append buf bs,
  nread_loop-IsRead count (n - length bs) (buf ++ bs) more,
  append_assoc buf (take n bs) (drop n bs ++ stream more),
  append_assoc (take n bs) (drop n bs) (stream more),
  take-append-drop n bs,
  length-append buf (take n bs),
  length-take n bs,
)

-- Whenever `Nread` returns, it has taken its bytes off the front of what arrives, at most `count`
-- of them, and returns their number, or NET_HARDERROR.
pub nread-IsRead : (count : ℕ) (more : List Arrival) → IsRead count (stream more) (nread count more)
unfolding nread
nread-IsRead count more = nread_loop-IsRead count count [] more (omega arith)
