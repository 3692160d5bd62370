-- ===== src/Params.antt =====
-- The parameters of a test: send_parameters and get_parameters of iperf_jni/jni/iperf/src/iperf_api.c.
pub mod Received
pub mod RoundTrip
use Prim.Native.String.{String}
use wifitesttool.Base.{
  ℕ, ◌≡◌, Bool, true, false, not, Option, none, some, List, [], ◌∷◌, ◌==◌, is_some, if◌then◌else◌,
  ◌&&◌, ◌||◌,
}
use wifitesttool.Base.Int.{ℤ, pos, negsuc, pos_part}
use wifitesttool.Error.{Status, ok, error, iesendparams, ierecvparams}
use wifitesttool.Json.{Json}
use wifitesttool.Net.{
  Arrival, Room, Message, text, no_message, indeterminate, json_read, json_write,
}
use wifitesttool.Test.{
  Text, Protocol, ptcp, pudp, psctp, is_ptcp, Settings, Test, iperf_set_test_reverse, set_protocol,
}

abbrev is_int : ℕ → ℤ → Bool
is_int n (pos m) = m == n
is_int n (negsuc m) = false

abbrev pub nonzero : ℤ → Bool
nonzero n = not (is_int 0 n)

abbrev pub is_minus1 : ℤ → Bool
is_minus1 (negsuc n) = n == 0
is_minus1 (pos n) = false

abbrev pub protocol_name : Protocol → String
protocol_name ptcp = "tcp"
protocol_name pudp = "udp"
protocol_name psctp = "sctp"

module _ (lib : Json) where
  open lib use {
    Object, Item, create_object, create_true, create_int, create_string, add_item, get_item,
    valueint, valuestring, print, parse,
  }

  -- One statement of send_parameters: `if (test) cJSON_Add...ToObject(j, name, item);`
  pub record Entry : Type 0 where
    pub given : Bool
    pub name : String
    pub item : Item

  abbrev flag : Bool → String → Entry
  flag b k = record { given = b; name = k; item = create_true }

  abbrev int : Bool → String → ℤ → Entry
  int b k n = record { given = b; name = k; item = create_int n }

  abbrev pub string_item : Option Text → Item
  string_item none = create_true
  string_item (some s) = create_string s

  abbrev string : String → Option Text → Entry
  string k s = record { given = is_some s; name = k; item = string_item s }

  -- The statements in their order, the first for the protocol.
  abbrev pub entries_of : Protocol → Bool → Test → List Entry
  entries_of protocol reverse t =
      flag true (protocol_name protocol)
      ∷ int true "omit" t.omit
      ∷ int (not (is_minus1 t.server_affinity)) "server_affinity" t.server_affinity
      ∷ int (nonzero t.duration) "time" t.duration
      ∷ int (not (t.settings.bytes == 0)) "num" (pos t.settings.bytes)
      ∷ int (nonzero t.settings.blocks) "blockcount" t.settings.blocks
      ∷ int (nonzero t.settings.mss) "MSS" t.settings.mss
      ∷ flag t.no_delay "nodelay"
      ∷ int true "parallel" t.num_streams
      ∷ flag reverse "reverse"
      ∷ int (nonzero t.settings.socket_bufsize) "window" t.settings.socket_bufsize
      ∷ int (nonzero t.settings.blksize) "len" t.settings.blksize
      ∷ int (not (t.settings.rate == 0)) "bandwidth" (pos t.settings.rate)
      ∷ int (nonzero t.settings.burst) "burst" t.settings.burst
      ∷ int (nonzero t.settings.tos) "TOS" t.settings.tos
      ∷ int (nonzero t.settings.flowlabel) "flowlabel" t.settings.flowlabel
      ∷ string "title" t.title
      ∷ string "congestion" t.congestion
      ∷ []

  abbrev pub entries : Test → List Entry
  entries t = entries_of t.protocol t.reverse t

  unfoldable pub add_entries : List Entry → Object → Object
  add_entries [] j = j
  add_entries (e ∷ es) j = add_entries es (if e.given then add_item e.name e.item j else j)

  sent_parameters : Option (Bool × List ℕ × List Room) → Option (Status × List ℕ × List Room)
  sent_parameters none = none
  sent_parameters (some (true, sent, rest)) = some (ok, sent, rest)
  sent_parameters (some (false, sent, rest)) = some (error iesendparams, sent, rest)

  -- What it returns and what it sends on the control socket; `none` while it blocks.
  unfoldable pub send_parameters : Test → List Room → Option (Status × List ℕ × List Room)
  unfolding add_entries sent_parameters
  send_parameters t more = elim create_object [
    | none ↦ some (error iesendparams, [], more)
    | some j ↦ sent_parameters (json_write (print (add_entries (entries t) j)) more)
  ]

  -- `if ((j_p = cJSON_GetObjectItem(j, name)) != NULL) set(j_p)`
  abbrev pub when_item : Option Item → (Item → Test → Test) → Test → Test
  when_item none set t = t
  when_item (some i) set t = set i t

  -- `if ((j_p = cJSON_GetObjectItem(j, name)) != NULL) field = j_p->valueint;`
  abbrev pub int_or : Option Item → ℤ → ℤ
  int_or none n = n
  int_or (some i) n = valueint i

  -- A negative number that is stored as an unsigned one is not modelled.
  abbrev pub nat_or : Option Item → ℕ → ℕ
  nat_or none n = n
  nat_or (some i) n = pos_part (valueint i)

  abbrev pub string_or : Option Item → Option Text → Option Text
  string_or none s = s
  string_or (some i) s = some (valuestring i)

  -- `if (test->sender && ...) test->sender_has_retransmits = 1;`
  abbrev pub note_retransmits : Bool → Test → Test
  note_retransmits h t = record t {
    sender_has_retransmits =
        if t.sender && (is_ptcp t.protocol && h) then pos 1 else t.sender_has_retransmits;
  }

  -- The reads of get_parameters, in their order, from what `item` finds and what it finds of the protocols
  -- and the direction.
  abbrev pub read_found :
      Bool
      → (String → Option Item)
      → Option Item
      → Option Item
      → Option Item
      → Option Item
      → Test
      → Test
  read_found h item tcp udp sctp reverse t0 =
      let t1 = when_item tcp (λ _ t. set_protocol h ptcp t) t0 in
      let t2 = when_item udp (λ _ t. set_protocol h pudp t) t1 in
      let t3 = when_item sctp (λ _ t. set_protocol h psctp t) t2 in
      let t4 = record t3 { omit = int_or (item "omit") t3.omit } in
      let t5 = record t4 { server_affinity = int_or (item "server_affinity") t4.server_affinity } in
      let t6 = record t5 { duration = int_or (item "time") t5.duration } in
      let t7 = record t6 {
        settings = record t6.settings { bytes = nat_or (item "num") t6.settings.bytes };
      } in
      let t8 = record t7 {
        settings = record t7.settings { blocks = int_or (item "blockcount") t7.settings.blocks };
      } in
      let t9 = record t8 {
        settings = record t8.settings { mss = int_or (item "MSS") t8.settings.mss };
      } in
      let t10 = record t9 { no_delay = is_some (item "nodelay") || t9.no_delay } in
      let t11 = record t10 { num_streams = int_or (item "parallel") t10.num_streams } in
      let t12 = when_item reverse (λ _ t. iperf_set_test_reverse h true t) t11 in
      let t13 = record t12 {
        settings = record t12.settings {
          socket_bufsize = int_or (item "window") t12.settings.socket_bufsize;
        };
      } in
      let t14 = record t13 {
        settings = record t13.settings { blksize = int_or (item "len") t13.settings.blksize };
      } in
      let t15 = record t14 {
        settings = record t14.settings { rate = nat_or (item "bandwidth") t14.settings.rate };
      } in
      let t16 = record t15 {
        settings = record t15.settings { burst = int_or (item "burst") t15.settings.burst };
      } in
      let t17 = record t16 {
        settings = record t16.settings { tos = int_or (item "TOS") t16.settings.tos };
      } in
      let t18 = record t17 {
        settings = record t17.settings {
          flowlabel = int_or (item "flowlabel") t17.settings.flowlabel;
        };
      } in
      let t19 = record t18 { title = string_or (item "title") t18.title } in
      let t20 = record t19 { congestion = string_or (item "congestion") t19.congestion } in
      note_retransmits h t20

  abbrev pub read_items : Bool → (String → Option Item) → Test → Test
  read_items h item t = read_found h item (item "tcp") (item "udp") (item "sctp") (item "reverse") t

  parsed_parameters : Bool → Option Object → Test → Status × Test
  parsed_parameters h none t = (error ierecvparams, t)
  parsed_parameters h (some j) t = (ok, read_items h (get_item j) t)

  -- `none` where the text is indeterminate.
  received_parameters : Bool → Message → Test → Option (Status × Test)
  unfolding parsed_parameters
  received_parameters h (text s) t = some (parsed_parameters h (parse s) t)
  received_parameters h no_message t = some (error ierecvparams, t)
  received_parameters h indeterminate t = none

  taken :
      Bool → Option (Message × List Arrival) → Test → Option (Option (Status × Test) × List Arrival)
  unfolding received_parameters
  taken h none t = none
  taken h (some (m, rest)) t = some (received_parameters h m t, rest)

  unfoldable pub get_parameters :
      Bool → (ℕ → Bool) → Test → List Arrival → Option (Option (Status × Test) × List Arrival)
  unfolding taken
  get_parameters h malloc t more = taken h (json_read malloc more) t
