-- ===== src/Examples/Wire.antt =====
-- Messages of net.c that arrive and leave in pieces.
use wifitesttool.Base.{
  ℕ, ◌+◌, ◌≤◌, ◌≡◌, refl, Bool, true, some, List, [], ◌∷◌, arith, length, take, drop,
}
use wifitesttool.Base.Int.{pos}
use wifitesttool.Net.{
  Arrival, got, read_failed, eintr, eagain, Room, wrote, write_failed, text, nread, nwrite,
  nsendfile, json_write, json_read, htonl_bytes,
}
use wifitesttool.Net.Reading.{stream, Flows, IsRead, nread_all, nread-IsRead}
use wifitesttool.Net.Writing.{Takes, CountsSent, nwrite_all, writes-CountsSent}
use wifitesttool.Net.Framing.{frame, json_write-frame, json_read-frame}

-- The length 2 and the text `{}` in two pieces with an interruption between them, and one byte more.
abbrev pieces : List Arrival
pieces = got (0 ∷ 0 ∷ []) ∷ read_failed eintr ∷ got (0 ∷ 2 ∷ b'{' ∷ b'}' ∷ 9 ∷ []) ∷ []

abbrev broken : List Arrival
broken = got (1 ∷ 2 ∷ []) ∷ read_failed eagain ∷ []

abbrev any_size : ℕ → Bool
any_size n = true

pieces-Flows : Flows pieces
pieces-Flows = (omega arith, (refl, (omega arith, tt)))

json_read_example :
    (rest : List Arrival) × (json_read any_size pieces ≡ some (text (b'{' ∷ b'}' ∷ []), rest))
    × (stream rest ≡ 9 ∷ [])
    × Flows rest
unfolding htonl_bytes
json_read_example =
    json_read-frame any_size (b'{' ∷ b'}' ∷ []) (9 ∷ []) pieces (omega arith) refl pieces-Flows refl

abbrev slow : List Room
slow = wrote 3 ∷ wrote 1 ∷ wrote 1 ∷ wrote 1 ∷ wrote 1 ∷ wrote 1 ∷ []

slow-Takes : Takes slow
slow-Takes =
    (omega arith, (omega arith, (omega arith, (omega arith, (omega arith, (omega arith, tt))))))

json_write_example :
    (rest : List Room) × (json_write (b'{' ∷ b'}' ∷ []) slow
      ≡ some (true, frame (b'{' ∷ b'}' ∷ []), rest))
json_write_example = json_write-frame (b'{' ∷ b'}' ∷ []) slow slow-Takes (omega arith) (omega arith)

nread_all_example :
    (rest : List Arrival) × (nread 3 pieces
      ≡ some (record { ret = pos 3; buf = take 3 (stream pieces); rest = rest }))
    × (stream rest ≡ drop 3 (stream pieces))
    × Flows rest
nread_all_example = nread_all 3 pieces pieces-Flows (omega arith)

nread_example : IsRead 5 (stream broken) (nread 5 broken)
nread_example = nread-IsRead 5 broken

nwrite_all_example :
    (rest : List Room) × (nwrite (7 ∷ 8 ∷ []) slow
      ≡ some (record { ret = pos 2; sent = 7 ∷ 8 ∷ []; rest = rest }))
    × Takes rest
    × (length slow ≤ length rest + 2)
nwrite_all_example = nwrite_all (7 ∷ 8 ∷ []) slow slow-Takes (omega arith)

abbrev interrupted : List Room
interrupted = wrote 2 ∷ write_failed eintr ∷ []

writes_example :
    CountsSent (7 ∷ 8 ∷ 9 ∷ []) (nwrite (7 ∷ 8 ∷ 9 ∷ []) interrupted)
    × CountsSent (7 ∷ 8 ∷ 9 ∷ []) (nsendfile (7 ∷ 8 ∷ 9 ∷ []) interrupted)
writes_example = writes-CountsSent (7 ∷ 8 ∷ 9 ∷ []) interrupted
