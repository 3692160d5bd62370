-- ===== src/Params/RoundTrip.antt =====
-- From send_parameters of a client to get_parameters of a server, over the bytes of the control
-- connection: iperf_jni/jni/iperf/src/iperf_api.c.
use Prim.Native.String.{String}
use mathlib.Core.Path.{fun_ext, subst}
use wifitesttool.Base.{
  ℕ, ◌+◌, ◌^◌, ◌≤◌, ◌<◌, ◌≡◌, ◌∙◌, ap, sym, Bool, true, some, List, ◌++◌, length,
}
use wifitesttool.Error.{ok}
use wifitesttool.Json.{Json, or_else}
use wifitesttool.Net.{Arrival, Room, text, json_read, json_write}
use wifitesttool.Net.Framing.{frame, json_read-frame, json_write-frame}
use wifitesttool.Net.Reading.{stream, Flows}
use wifitesttool.Net.Writing.{Takes}
use wifitesttool.Params.{entries, add_entries, read_items, send_parameters, get_parameters}
use wifitesttool.Params.Received.{
  Received, IsSendable, found, get_item-add_entries, entries-Shows, read-Received,
}
use wifitesttool.Test.{Test}

module _ (lib : Json) where
  open lib use {Object, Item, create_object, get_item, print, parse, get_item-create, parse-print}

  -- The text that a client sends, from an empty object.
  abbrev pub message : Test → Object → List ℕ
  message c j = print (add_entries lib (entries lib c) j)

  get_item-message :
      (c : Test) (j j' : Object)
      → create_object ≡ some j
      → ((name : String) → get_item j' name ≡ get_item (add_entries lib (entries lib c) j) name)
      → get_item j' ≡ found lib (entries lib c)
  get_item-message c j j' e same = fun_ext (λ name.
      same name
      ∙ get_item-add_entries lib (entries lib c) j name
      ∙ ap (λ o. or_else o (found lib (entries lib c) name)) (get_item-create j name e))

  parsed-Received :
      (h : Bool) (c s : Test) (j j' : Object)
      → create_object ≡ some j
      → ((name : String) → get_item j' name ≡ get_item (add_entries lib (entries lib c) j) name)
      → IsSendable c
      → Received c s (read_items lib h (get_item j') s)
  parsed-Received h c s j j' e same v =
      subst (λ item. Received c s (read_items lib h item s)) (sym (get_item-message c j j' e same))
        (read-Received lib h c s (found lib (entries lib c))
          (entries-Shows lib c.protocol c.reverse c) v)

  send_parameters_lem :
      (c : Test) (j : Object) (room left : List Room) (sent : List ℕ)
      → create_object ≡ some j
      → json_write (message c j) room ≡ some (true, sent, left)
      → send_parameters lib c room ≡ some (ok, sent, left)
  unfolding send_parameters
  send_parameters_lem c j room left sent e w = rw (e, send_parameters) (rw (w, send_parameters))

  get_parameters_lem :
      (h : Bool) (malloc : ℕ → Bool) (s : Test) (more rest : List Arrival) (m : List ℕ) (j : Object)
      → json_read malloc more ≡ some (text m, rest)
      → parse m ≡ some j
      → get_parameters lib h malloc s more ≡ some (some (ok, read_items lib h (get_item j) s), rest)
  unfolding get_parameters
  get_parameters_lem h malloc s more rest m j r p = rw (r, get_parameters) (rw (p, get_parameters))

  -- For a JSON library with the documented behaviour, numbers that fit into int64_t, a kernel that takes
  -- some bytes at every call, a message shorter than 2 ^ 31 bytes, and memory for it: send_parameters of a client returns 0. A server
  -- to which these bytes arrive, however they are cut up, and any others, returns 0 from get_parameters.
  -- It then has the parameters of the client, keeps of its own those that the client leaves out as 0, and
  -- leaves the other bytes unread.
  pub get_parameters-Received :
      (h : Bool) (malloc : ℕ → Bool) (c s : Test) (j : Object) (room : List Room) (tail : List ℕ)
      (more : List Arrival)
      → create_object ≡ some j
      → IsSendable c
      → Takes room
      → length (message c j) + 4 ≤ length room
      → length (message c j) < 2 ^ 31
      → malloc (length (message c j) + 1) ≡ true
      → Flows more
      → stream more ≡ frame (message c j) ++ tail
      → (left : List Room) × (rest : List Arrival) × (s' : Test) × (send_parameters lib c room
          ≡ some (ok, frame (message c j), left))
        × (get_parameters lib h malloc s more ≡ some (some (ok, s'), rest))
        × Received c s s'
        × (stream rest ≡ tail)
  get_parameters-Received h malloc c s j room tail more e v takes enough small mem flows arrives =
      let (left, sends) = json_write-frame (message c j) room takes enough small in
      let (rest, reads, others, _) =
        json_read-frame malloc (message c j) tail more small mem flows arrives in
      let (j', parses, same) = parse-print (add_entries lib (entries lib c) j) in
      (
        left,
        rest,
        read_items lib h (get_item j') s,
        send_parameters_lem c j room left _ e sends,
        get_parameters_lem h malloc s more rest (message c j) j' reads parses,
        parsed-Received h c s j j' e same v,
        others,
      )
