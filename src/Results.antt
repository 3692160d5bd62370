-- ===== src/Results.antt =====
-- send_results and get_results of iperf_jni/jni/iperf/src/iperf_api.c, on the items of the JSON objects that they
-- build and look up. An item that is missing is `none`. CPU times and jitter, which are doubles, are there or
-- not; a number that stands for a count is not negative.
pub mod Exchange
use wifitesttool.Base.{
  ℕ, Bool, true, false, not, ◌&&◌, Option, none, some, List, [], ◌∷◌, map, ◌==◌, if◌then◌else◌,
}
use wifitesttool.Base.Int.{ℤ, pos, negsuc, pos_part}
use wifitesttool.Error.{Ierror, Status, ok, error, ierecvresults, iestreamid}
use wifitesttool.Params.{nonzero}
use wifitesttool.Streams.{Stream}
use wifitesttool.Test.{Test, minus1}

-- What is said of a stream.
pub record Values : Type 0 where
  pub id : ℤ
  pub bytes : ℤ
  pub retransmits : ℤ
  pub errors : ℤ
  pub packets : ℤ

-- An object of the array `streams`: `none` where one of its items is missing.
abbrev pub StreamItem : Type 0
StreamItem = Option Values

pub record Message : Type 0 where
  pub cpu_util : Bool
  pub sender_has_retransmits : Option ℤ
  pub streams : Option (List StreamItem)

abbrev pub values_of : Test → Stream → Values
values_of t sp = record {
  id = pos sp.id;
  bytes = pos (if t.sender then sp.bytes_sent else sp.bytes_received);
  retransmits = if t.sender && nonzero t.sender_has_retransmits then sp.stream_retrans else minus1;
  errors = pos sp.cnt_error;
  packets = pos sp.packet_count;
}

abbrev pub item_of : Test → Stream → StreamItem
item_of t sp = some (values_of t sp)

-- The object that send_results writes, where there is memory for it.
unfoldable pub send_results : Test → List Stream → Message
send_results t sps = record {
  cpu_util = true;
  sender_has_retransmits = some (if not t.sender then minus1 else t.sender_has_retransmits);
  streams = some (map (item_of t) sps);
}

-- What the other side has counted of a stream.
abbrev pub take_values : Test → Values → Stream → Stream
take_values t v sp =
    if t.sender
    then record sp {
      cnt_error = pos_part v.errors;
      packet_count = pos_part v.packets;
      bytes_received = pos_part v.bytes;
    }
    else record sp { bytes_sent = pos_part v.bytes; stream_retrans = v.retransmits }

abbrev pub is_id : ℤ → ℕ → Bool
is_id (pos n) k = k == n
is_id (negsuc n) k = false

abbrev pub put_first : Stream → Option (List Stream) → Option (List Stream)
put_first sp none = none
put_first sp (some sps) = some (sp ∷ sps)

-- The first stream with the id of `v` takes its values; `none` where there is none.
unfoldable pub note_values : Test → Values → List Stream → Option (List Stream)
note_values t v [] = none
note_values t v (sp ∷ sps) = elim (is_id v.id sp.id) [
  | true ↦ some (take_values t v sp ∷ sps)
  | false ↦ put_first sp (note_values t v sps)
]

abbrev pub noted : Status → List Stream → Option (List Stream) → Status × List Stream
noted s sps none = (error iestreamid, sps)
noted s sps (some sps') = (s, sps')

abbrev pub note_item : Test → StreamItem → Status × List Stream → Status × List Stream
note_item t none (s, sps) = (error ierecvresults, sps)
note_item t (some v) (s, sps) = noted s sps (note_values t v sps)

-- The loop over the array, which goes on after an error.
unfoldable pub note_items : Test → List StreamItem → Status × List Stream → Status × List Stream
note_items t [] s = s
note_items t (x ∷ xs) s = note_items t xs (note_item t x s)

abbrev pub note_streams : Test → Option (List StreamItem) → List Stream → Status × List Stream
note_streams t none sps = (error ierecvresults, sps)
note_streams t (some items) sps = note_items t items (ok, sps)

-- What it returns, with the test and the streams.
unfoldable pub get_results : Test → List Stream → Message → Status × Test × List Stream
get_results t sps m = elim m.sender_has_retransmits [
  | none ↦ (error ierecvresults, t, sps)
  | some n ↦
      if m.cpu_util
      then (let t' = if t.sender then t else record t { sender_has_retransmits = n } in
          let (s, sps') = note_streams t' m.streams sps in (s, t', sps'))
      else (error ierecvresults, t, sps)
]
