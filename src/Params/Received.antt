-- ===== src/Params/Received.antt =====
-- What a server makes of the parameters that a client sends: iperf_jni/jni/iperf/src/iperf_api.c.
use Prim.Native.String.{String}
use wifitesttool.Base.{
  Bool-cases, inl, inr, ap, ℕ, ◌≡◌, refl, ◌∙◌, Bool, true, false, not, Option, none, some, List, [],
  ◌∷◌, ◌==◌, is_some, if◌then◌else◌, arith, ◌||◌,
}
use wifitesttool.Base.Int.{ℤ, pos, pos_part}
use wifitesttool.Base.Strings.{same_name}
use wifitesttool.Json.{Json, IsInt64, or_else}
use wifitesttool.Params.{
  string_item, int_or, nat_or, string_or, read_found, Entry, entries_of, add_entries, nonzero,
  is_minus1, read_items,
}
use wifitesttool.Test.{
  Text, is_ptcp, is_pudp, Test, Protocol, ptcp, pudp, psctp, set_protocol, iperf_set_test_reverse,
}

abbrev pub is_psctp : Protocol → Bool
is_psctp psctp = true
is_psctp _ = false

-- The parameters that stand in the object, and of the others those that the server had before.
pub record Received (c s s' : Test) : Type 0 where
  pub protocol : s'.protocol ≡ c.protocol
  pub omit : s'.omit ≡ c.omit
  pub server_affinity :
      s'.server_affinity
      ≡ (if not (is_minus1 c.server_affinity) then c.server_affinity else s.server_affinity)
  pub duration : s'.duration ≡ (if nonzero c.duration then c.duration else s.duration)
  pub num_streams : s'.num_streams ≡ c.num_streams
  pub no_delay : s'.no_delay ≡ (c.no_delay || s.no_delay)
  pub reverse : s'.reverse ≡ (c.reverse || s.reverse)
  pub sender : s'.sender ≡ (if c.reverse then not s.sender else s.sender)
  pub bytes :
      s'.settings.bytes
      ≡ (if not (c.settings.bytes == 0) then c.settings.bytes else s.settings.bytes)
  pub blocks :
      s'.settings.blocks
      ≡ (if nonzero c.settings.blocks then c.settings.blocks else s.settings.blocks)
  pub mss : s'.settings.mss ≡ (if nonzero c.settings.mss then c.settings.mss else s.settings.mss)
  pub socket_bufsize : s'.settings.socket_bufsize ≡ (
      if nonzero c.settings.socket_bufsize
      then c.settings.socket_bufsize
      else s.settings.socket_bufsize)
  pub blksize :
      s'.settings.blksize
      ≡ (if nonzero c.settings.blksize then c.settings.blksize else s.settings.blksize)
  pub rate :
      s'.settings.rate ≡ (if not (c.settings.rate == 0) then c.settings.rate else s.settings.rate)
  pub burst :
      s'.settings.burst ≡ (if nonzero c.settings.burst then c.settings.burst else s.settings.burst)
  pub tos : s'.settings.tos ≡ (if nonzero c.settings.tos then c.settings.tos else s.settings.tos)
  pub flowlabel :
      s'.settings.flowlabel
      ≡ (if nonzero c.settings.flowlabel then c.settings.flowlabel else s.settings.flowlabel)
  pub title : s'.title ≡ or_else c.title s.title
  pub congestion : s'.congestion ≡ or_else c.congestion s.congestion

-- The numbers that are sent fit into `int64_t`.
pub record IsSendable (t : Test) : Type 0 where
  pub omit : IsInt64 t.omit
  pub server_affinity : IsInt64 t.server_affinity
  pub duration : IsInt64 t.duration
  pub bytes : IsInt64 (pos t.settings.bytes)
  pub blocks : IsInt64 t.settings.blocks
  pub mss : IsInt64 t.settings.mss
  pub num_streams : IsInt64 t.num_streams
  pub socket_bufsize : IsInt64 t.settings.socket_bufsize
  pub blksize : IsInt64 t.settings.blksize
  pub rate : IsInt64 (pos t.settings.rate)
  pub burst : IsInt64 t.settings.burst
  pub tos : IsInt64 t.settings.tos
  pub flowlabel : IsInt64 t.settings.flowlabel

abbrev chosen : Bool → Bool → Bool → Protocol → Protocol
chosen tcp udp sctp p = if sctp then psctp else if udp then pudp else if tcp then ptcp else p

module _ (lib : Json) where
  open lib use {
    Object, Item, create_object, create_true, create_int, create_string, add_item, get_item,
    valueint, valuestring, get_item-add, get_item-create, valueint-create, valuestring-create,
  }

  -- The first statement that adds an item of the name.
  abbrev pub found : List (Entry lib) → String → Option Item
  found [] name = none
  found (e ∷ es) name =
      or_else (if same_name e.name name then (if e.given then some e.item else none) else none)
        (found es name)

  or_else_assoc : (a b c : Option Item) → or_else (or_else a b) c ≡ or_else a (or_else b c)
  or_else_assoc none b c = refl
  or_else_assoc (some a) b c = refl

  if_none : (b : Bool) → ◌≡◌ {A = Option Item} (if b then none else none) none
  if_none true = refl
  if_none false = refl

  pub get_item-add_entries :
      (es : List (Entry lib)) (j : Object) (name : String)
      → get_item (add_entries lib es j) name ≡ or_else (get_item j name) (found es name)
  unfolding add_entries
  get_item-add_entries [] j name = ground arith
  get_item-add_entries (e ∷ es) j name = elim (Bool-cases e.given) [
    | inl g ↦ rw (g) (
        get_item-add_entries es (add_item e.name e.item j) name
        ∙ ap (λ o. or_else o (found es name)) (get_item-add j e.name name e.item)
        ∙ or_else_assoc (get_item j name) _ (found es name))
    | inr g ↦ rw (g, if_none (same_name e.name name)) (get_item-add_entries es j name)
  ]

  -- What read_items makes of a test, field by field.
  record ReadBy (item : String → Option Item) (tcp udp sctp reverse_item : Option Item)
      (s s' : Test) : Type 0 where
    protocol : s'.protocol ≡ chosen (is_some tcp) (is_some udp) (is_some sctp) s.protocol
    reverse : s'.reverse ≡ (is_some reverse_item || s.reverse)
    sender : s'.sender ≡ (if is_some reverse_item then not s.sender else s.sender)
    no_delay : s'.no_delay ≡ (is_some (item "nodelay") || s.no_delay)
    omit : s'.omit ≡ int_or lib (item "omit") s.omit
    server_affinity : s'.server_affinity ≡ int_or lib (item "server_affinity") s.server_affinity
    duration : s'.duration ≡ int_or lib (item "time") s.duration
    num_streams : s'.num_streams ≡ int_or lib (item "parallel") s.num_streams
    bytes : s'.settings.bytes ≡ nat_or lib (item "num") s.settings.bytes
    blocks : s'.settings.blocks ≡ int_or lib (item "blockcount") s.settings.blocks
    mss : s'.settings.mss ≡ int_or lib (item "MSS") s.settings.mss
    socket_bufsize :
        s'.settings.socket_bufsize ≡ int_or lib (item "window") s.settings.socket_bufsize
    blksize : s'.settings.blksize ≡ int_or lib (item "len") s.settings.blksize
    rate : s'.settings.rate ≡ nat_or lib (item "bandwidth") s.settings.rate
    burst : s'.settings.burst ≡ int_or lib (item "burst") s.settings.burst
    tos : s'.settings.tos ≡ int_or lib (item "TOS") s.settings.tos
    flowlabel : s'.settings.flowlabel ≡ int_or lib (item "flowlabel") s.settings.flowlabel
    title : s'.title ≡ string_or lib (item "title") s.title
    congestion : s'.congestion ≡ string_or lib (item "congestion") s.congestion

  read_found-ReadBy :
      (h : Bool) (item : String → Option Item) (tcp udp sctp reverse : Option Item) (s : Test)
      → ReadBy item tcp udp sctp reverse s (read_found lib h item tcp udp sctp reverse s)
  unfolding set_protocol iperf_set_test_reverse
  read_found-ReadBy h item none none none none s = ground arith
  read_found-ReadBy h item _ _ _ _ s = ground arith

  -- What the object of a client shows.
  pub record Shows (item : String → Option Item) (protocol : Protocol) (reverse : Bool) (c : Test)
      : Type 0 where
    pub tcp : item "tcp" ≡ (if is_ptcp protocol then some create_true else none)
    pub udp : item "udp" ≡ (if is_pudp protocol then some create_true else none)
    pub sctp : item "sctp" ≡ (if is_psctp protocol then some create_true else none)
    pub no_delay : item "nodelay" ≡ (if c.no_delay then some create_true else none)
    pub reversed : item "reverse" ≡ (if reverse then some create_true else none)
    pub omit : item "omit" ≡ (if true then some (create_int c.omit) else none)
    pub server_affinity : item "server_affinity" ≡ (
        if (not (is_minus1 c.server_affinity)) then some (create_int c.server_affinity) else none)
    pub duration :
        item "time" ≡ (if (nonzero c.duration) then some (create_int c.duration) else none)
    pub num_streams : item "parallel" ≡ (if true then some (create_int c.num_streams) else none)
    pub bytes :
        item "num"
        ≡ (if (not (c.settings.bytes == 0)) then some (create_int (pos c.settings.bytes)) else none)
    pub blocks :
        item "blockcount"
        ≡ (if (nonzero c.settings.blocks) then some (create_int c.settings.blocks) else none)
    pub mss :
        item "MSS" ≡ (if (nonzero c.settings.mss) then some (create_int c.settings.mss) else none)
    pub socket_bufsize : item "window" ≡ (
        if (nonzero c.settings.socket_bufsize)
        then some (create_int c.settings.socket_bufsize)
        else none)
    pub blksize :
        item "len"
        ≡ (if (nonzero c.settings.blksize) then some (create_int c.settings.blksize) else none)
    pub rate :
        item "bandwidth"
        ≡ (if (not (c.settings.rate == 0)) then some (create_int (pos c.settings.rate)) else none)
    pub burst :
        item "burst"
        ≡ (if (nonzero c.settings.burst) then some (create_int c.settings.burst) else none)
    pub tos :
        item "TOS" ≡ (if (nonzero c.settings.tos) then some (create_int c.settings.tos) else none)
    pub flowlabel :
        item "flowlabel"
        ≡ (if (nonzero c.settings.flowlabel) then some (create_int c.settings.flowlabel) else none)
    pub title : item "title" ≡ (if is_some c.title then some (string_item lib c.title) else none)
    pub congestion :
        item "congestion"
        ≡ (if is_some c.congestion then some (string_item lib c.congestion) else none)

  pub entries-Shows :
      (p : Protocol) (reverse : Bool) (c : Test)
      → Shows (found (entries_of lib p reverse c)) p reverse c
  entries-Shows ptcp reverse c = ground arith
  entries-Shows _ reverse c = ground arith

  int_shown :
      (o : Option Item) (b : Bool) (n d : ℤ)
      → o ≡ (if b then some (create_int n) else none)
      → IsInt64 n
      → int_or lib o d ≡ (if b then n else d)
  int_shown o true n d e v = rw e (valueint-create n v)
  int_shown o false n d e v = rw e

  nat_shown :
      (o : Option Item) (b : Bool) (n d : ℕ)
      → o ≡ (if b then some (create_int (pos n)) else none)
      → IsInt64 (pos n)
      → nat_or lib o d ≡ (if b then n else d)
  nat_shown o true n d e v = rw e (ap pos_part (valueint-create (pos n) v))
  nat_shown o false n d e v = rw e

  string_shown :
      (o : Option Item) (s d : Option Text)
      → o ≡ (if is_some s then some (string_item lib s) else none)
      → string_or lib o d ≡ or_else s d
  string_shown o none d e = rw e
  string_shown o (some s) d e = rw e (ap some (valuestring-create s))

  shown : (o : Option Item) (b : Bool) → o ≡ (if b then some create_true else none) → is_some o ≡ b
  shown o true e = rw e
  shown o false e = rw e

  chosen_lem :
      (p q : Protocol) (a b d : Bool)
      → a ≡ is_ptcp p
      → b ≡ is_pudp p
      → d ≡ is_psctp p
      → chosen a b d q ≡ p
  chosen_lem ptcp q a b d x y z = rw (x, y, z)
  chosen_lem pudp q a b d x y z = rw (x, y, z)
  chosen_lem psctp q a b d x y z = rw (x, y, z)

  pub read-Received :
      (h : Bool) (c s : Test) (item : String → Option Item)
      → Shows item c.protocol c.reverse c
      → IsSendable c
      → Received c s (read_items lib h item s)
  read-Received h c s item w v =
      let r = read_found-ReadBy h item (item "tcp") (item "udp") (item "sctp") (item "reverse") s in
      let turned = shown (item "reverse") c.reverse w.reversed in
      record {
        protocol =
            r.protocol
            ∙ chosen_lem c.protocol s.protocol _ _ _ (shown (item "tcp") _ w.tcp)
                (shown (item "udp") _ w.udp) (shown (item "sctp") _ w.sctp);
        reverse = r.reverse ∙ ap (λ b. b || s.reverse) turned;
        sender = r.sender ∙ ap (λ b. if b then not s.sender else s.sender) turned;
        no_delay =
            r.no_delay ∙ ap (λ b. b || s.no_delay) (shown (item "nodelay") c.no_delay w.no_delay);
        omit = r.omit ∙ int_shown (item "omit") true c.omit s.omit w.omit v.omit;
        server_affinity =
            r.server_affinity
            ∙ int_shown (item "server_affinity") (not (is_minus1 c.server_affinity))
                c.server_affinity s.server_affinity w.server_affinity v.server_affinity;
        duration =
            r.duration
            ∙ int_shown (item "time") (nonzero c.duration) c.duration s.duration w.duration
                v.duration;
        num_streams =
            r.num_streams
            ∙ int_shown (item "parallel") true c.num_streams s.num_streams w.num_streams
                v.num_streams;
        bytes =
            r.bytes
            ∙ nat_shown (item "num") (not (c.settings.bytes == 0)) c.settings.bytes s.settings.bytes
                w.bytes v.bytes;
        blocks =
            r.blocks
            ∙ int_shown (item "blockcount") (nonzero c.settings.blocks) c.settings.blocks
                s.settings.blocks w.blocks v.blocks;
        mss =
            r.mss
            ∙ int_shown (item "MSS") (nonzero c.settings.mss) c.settings.mss s.settings.mss w.mss
                v.mss;
        socket_bufsize =
            r.socket_bufsize
            ∙ int_shown (item "window") (nonzero c.settings.socket_bufsize)
                c.settings.socket_bufsize s.settings.socket_bufsize w.socket_bufsize
                v.socket_bufsize;
        blksize =
            r.blksize
            ∙ int_shown (item "len") (nonzero c.settings.blksize) c.settings.blksize
                s.settings.blksize w.blksize v.blksize;
        rate =
            r.rate
            ∙ nat_shown (item "bandwidth") (not (c.settings.rate == 0)) c.settings.rate
                s.settings.rate w.rate v.rate;
        burst =
            r.burst
            ∙ int_shown (item "burst") (nonzero c.settings.burst) c.settings.burst s.settings.burst
                w.burst v.burst;
        tos =
            r.tos
            ∙ int_shown (item "TOS") (nonzero c.settings.tos) c.settings.tos s.settings.tos w.tos
                v.tos;
        flowlabel =
            r.flowlabel
            ∙ int_shown (item "flowlabel") (nonzero c.settings.flowlabel) c.settings.flowlabel
                s.settings.flowlabel w.flowlabel v.flowlabel;
        title = r.title ∙ string_shown (item "title") c.title s.title w.title;
        congestion =
            r.congestion ∙ string_shown (item "congestion") c.congestion s.congestion w.congestion;
      }
