-- ===== src/Net/Framing.antt =====
-- A message that JSON_write sends is the one that JSON_read reads.
use wifitesttool.Base.{
  ℕ, ◌+◌, ◌≤◌, ◌<◌, ◌^◌, ◌%◌, leb, subst, take-length, ◌≡◌, refl, ap, ◌∙◌, Bool, true, false, some,
  List, ◌++◌, arith, length, take, drop, take-append_length, drop-append_length, length-append,
}
use mathlib.Core.List.{append_assoc}
use wifitesttool.Base.Int.{pos}
use wifitesttool.Net.{
  Arrival, Room, text, ReadResult, WriteResult, htonl_bytes, ntohl_bytes, json_write,
  json_write_sized, json_read, nread, nwrite,
}
use wifitesttool.Net.Reading.{stream, Flows, nread_all}
use wifitesttool.Net.Writing.{Takes, nwrite_all}

pub ntohl-htonl : (n : ℕ) → n < 2 ^ 32 → ntohl_bytes (htonl_bytes n) ≡ n
unfolding ntohl_bytes htonl_bytes
ntohl-htonl n h = omega arith

length-htonl : (n : ℕ) → length (htonl_bytes n) ≡ 4
unfolding htonl_bytes
length-htonl n = refl

abbrev pub frame : List ℕ → List ℕ
frame str = htonl_bytes (length str) ++ str

sized_two :
    (n : ℕ) (str : List ℕ) (more : List Room) (w w' : WriteResult)
    → leb (2 ^ 31) (n % 2 ^ 32) ≡ false
    → nwrite (htonl_bytes n) more ≡ some w
    → w.ret ≡ pos 4
    → nwrite (take n str) w.rest ≡ some w'
    → w'.ret ≡ pos n
    → json_write_sized n str more ≡ some (true, w.sent ++ w'.sent, w'.rest)
unfolding json_write_sized
sized_two n str more w w' h p a q b = ground arith

json_write_two :
    (str : List ℕ) (more : List Room) (w w' : WriteResult)
    → length str < 2 ^ 31
    → nwrite (htonl_bytes (length str)) more ≡ some w
    → w.ret ≡ pos (length (htonl_bytes (length str)))
    → nwrite str w.rest ≡ some w'
    → w'.ret ≡ pos (length str)
    → json_write str more ≡ some (true, w.sent ++ w'.sent, w'.rest)
unfolding json_write
json_write_two str more w w' h p a q b =
    let e : length str ≡ length str % 2 ^ 32 = omega (arith, h) in
    let f : leb (2 ^ 31) (length str % 2 ^ 32) ≡ false = grind (arith, h) in
    let g : nwrite (take (length str) str) w.rest ≡ some w' =
      ap (λ s. nwrite s w.rest) (take-length (length str) str refl) ∙ q in
    subst (λ n. json_write_sized n str more ≡ some (true, w.sent ++ w'.sent, w'.rest)) e
      (sized_two (length str) str more w w' f p (a ∙ ap pos (length-htonl (length str))) g b)

json_read_two :
    (malloc : ℕ → Bool) (more : List Arrival) (n : ℕ) (r r' : ReadResult)
    → n < 2 ^ 31
    → nread 4 more ≡ some r
    → r.ret ≡ pos 4
    → length r.buf ≡ 4
    → ntohl_bytes r.buf ≡ n
    → malloc (n + 1) ≡ true
    → nread n r.rest ≡ some r'
    → r'.ret ≡ pos n
    → length r'.buf ≡ n
    → json_read malloc more ≡ some (text r'.buf, r'.rest)
unfolding json_read
json_read_two malloc more n r r' h p a b c m q d e =
    let f : (n + 1) % 2 ^ 32 ≡ n + 1 = omega (arith, h) in
    let g : leb (2 ^ 31) (n % 2 ^ 32) ≡ false = grind (arith, h) in ground (arith, f, g)

-- JSON_write sends the length in network order and then the text, and returns success, if the kernel
-- takes some bytes at every call, there are as many calls as bytes, and the text is shorter than 2 ^ 31 bytes.
pub json_write-frame :
    (str : List ℕ) (more : List Room)
    → Takes more
    → length str + 4 ≤ length more
    → length str < 2 ^ 31
    → (rest : List Room) × (json_write str more ≡ some (true, frame str, rest))
json_write-frame str more t h s =
    let l = length-htonl (length str) in
    let (r1, p1, t1, u1) = nwrite_all (htonl_bytes (length str)) more t (omega (arith, l)) in
    let (r2, p2, t2, u2) = nwrite_all str r1 t1 (omega (arith, l)) in
    (r2, json_write_two str more _ _ s p1 refl p2 refl)

-- JSON_read of the bytes of a message and any others, however they are cut up and interrupted by
-- EINTR, gives the text and leaves the others, if the text is shorter than 2 ^ 31 bytes and `malloc`
-- gives memory for it.
pub json_read-frame :
    (malloc : ℕ → Bool) (str tail : List ℕ) (more : List Arrival)
    → length str < 2 ^ 31
    → malloc (length str + 1) ≡ true
    → Flows more
    → stream more ≡ frame str ++ tail
    → (rest : List Arrival) × (json_read malloc more ≡ some (text str, rest))
      × (stream rest ≡ tail)
      × Flows rest
json_read-frame malloc str tail more lt m f e =
    let b = htonl_bytes (length str) in
    let l = length-htonl (length str) in
    let e' : stream more ≡ b ++ (str ++ tail) = e ∙ append_assoc b str tail in
    let n : length (stream more) ≡ 4 + (length str + length tail) =
      omega (arith, ap length e', length-append b (str ++ tail), length-append str tail) in
    let (r1, p1, q1, f1) = nread_all 4 more f (omega arith) in
    let head : take 4 (stream more) ≡ b = rw e' (take-append_length 4 b (str ++ tail) l) in
    let body : stream r1 ≡ str ++ tail =
      q1 ∙ (ap (drop 4) e' ∙ drop-append_length 4 b (str ++ tail) l) in
    let (r2, p2, q2, f2) =
      nread_all (length str) r1 f1 (omega (arith, ap length body, length-append str tail)) in
    let got : take (length str) (stream r1) ≡ str =
      ap (take (length str)) body ∙ take-append_length (length str) str tail refl in
    (
      r2,
      json_read_two malloc more (length str) _ _ lt p1 refl (ap length head ∙ l)
            (ap ntohl_bytes head ∙ ntohl-htonl (length str) (omega (arith, lt))) m p2 refl
            (ap length got)
          ∙ ap (λ (t : List ℕ). some (text t, r2)) got,
      q2 ∙ (ap (drop (length str)) body ∙ drop-append_length (length str) str tail refl),
      f2,
    )
