-- ===== src/Results/Exchange.antt =====
-- What one side takes over from the results of the other.
use wifitesttool.Base.{
  ℕ, ◌≡◌, refl, sym, subst, ap, ◌∙◌, Bool, true, false, not, Option, none, some, List, [], ◌∷◌, map,
  ◌==◌, if◌then◌else◌, All, arith,
}
use wifitesttool.Error.{Status, ok}
use wifitesttool.Results.{
  is_id, Values, values_of, item_of, send_results, take_values, put_first, note_values, noted,
  note_items, get_results,
}
use wifitesttool.Params.{nonzero}
use wifitesttool.Streams.{Stream}
use wifitesttool.Test.{Test, minus1}

-- No stream has the id `k`.
abbrev pub Differ : ℕ → List Stream → Type 0
Differ k bs = All (λ (b : Stream). (k == b.id) ≡ false) bs

-- The streams of the two sides have the same ids in the same order, and all are different.
abbrev pub Match : List Stream → List Stream → Type 0
Match [] [] = Unit
Match (a ∷ xs) (b ∷ bs) = (a.id ≡ b.id) × Differ a.id bs × Match xs bs
Match _ _ = ⊥

-- What a stream `a` of one side takes over from its partner `b` on the side of `u`: the sender takes what has
-- been received, lost and counted, and the receiver what has been sent and, where the sender counts
-- them, the retransmissions.
abbrev pub learned : Bool → Test → Stream → Stream → Stream
learned true u a b = record a {
  cnt_error = b.cnt_error;
  packet_count = b.packet_count;
  bytes_received = b.bytes_received;
}
learned false u a b = record a {
  bytes_sent = b.bytes_sent;
  stream_retrans = if nonzero u.sender_has_retransmits then b.stream_retrans else minus1;
}

-- Each stream with what it takes over from its partner.
abbrev pub exchanged : Bool → Test → List Stream → List Stream → List Stream
exchanged sender u [] bs = []
exchanged sender u (a ∷ xs) [] = a ∷ xs
exchanged sender u (a ∷ xs) (b ∷ bs) = learned sender u a b ∷ exchanged sender u xs bs

-- A receiver also learns whether the sender counts retransmissions.
abbrev pub informed : Test → Test → Test
informed t u =
    if t.sender then t else record t { sender_has_retransmits = u.sender_has_retransmits }

abbrev cons_result : Stream → Status × List Stream → Status × List Stream
cons_result a (s, sps) = (s, a ∷ sps)

noted-cons :
    (s : Status) (a : Stream) (xs : List Stream) (o : Option (List Stream))
    → noted s (a ∷ xs) (put_first a o) ≡ cons_result a (noted s xs o)
noted-cons s a xs none = refl
noted-cons s a xs (some x) = refl

note_values_pass :
    (t : Test) (v : Values) (a : Stream) (xs : List Stream)
    → is_id v.id a.id ≡ false
    → note_values t v (a ∷ xs) ≡ put_first a (note_values t v xs)
unfolding note_values
note_values_pass t v a xs e = rw (e, note_values) refl

note_values_here :
    (t : Test) (v : Values) (a : Stream) (xs : List Stream)
    → is_id v.id a.id ≡ true
    → note_values t v (a ∷ xs) ≡ some (take_values t v a ∷ xs)
unfolding note_values
note_values_here t v a xs e = rw (e, note_values) refl

-- A stream with another id is passed over.
pass_over :
    (t u : Test) (a : Stream) (bs xs : List Stream) (s : Status)
    → Differ a.id bs
    → note_items t (map (item_of u) bs) (s, a ∷ xs)
      ≡ cons_result a (note_items t (map (item_of u) bs) (s, xs))
unfolding note_items
pass_over t u a [] xs s d = refl
pass_over t u a (b ∷ bs) xs s d =
    let rest = noted s xs (note_values t (values_of u b) xs) in
    ap (λ o. note_items t (map (item_of u) bs) (noted s (a ∷ xs) o))
      (note_values_pass t (values_of u b) a xs d.0)
    ∙ ap (note_items t (map (item_of u) bs)) (noted-cons s a xs (note_values t (values_of u b) xs))
    ∙ pass_over t u a bs rest.1 rest.0 d.1

take_values-learned :
    (t u : Test) (a b : Stream)
    → u.sender ≡ not t.sender
    → take_values t (values_of u b) a ≡ learned t.sender u a b
take_values-learned t u a b h = ground arith

take_values-id : (t : Test) (v : Values) (a : Stream) → (take_values t v a).id ≡ a.id
take_values-id t v a = ground arith

Match-exchanged :
    (t u : Test) (xs bs : List Stream) (s : Status)
    → u.sender ≡ not t.sender
    → Match xs bs
    → note_items t (map (item_of u) bs) (s, xs) ≡ (s, exchanged t.sender u xs bs)
unfolding note_items
Match-exchanged t u [] [] s h m = refl
Match-exchanged t u [] (b ∷ bs) s h m = absurd m
Match-exchanged t u (a ∷ xs) [] s h m = absurd m
Match-exchanged t u (a ∷ xs) (b ∷ bs) s h m =
    let e : (a.id == b.id) ≡ true = grind arith in
    let a' = take_values t (values_of u b) a in
    let d = subst (λ k. Differ k bs) (sym (take_values-id t (values_of u b) a)) m.1 in
    ap (λ o. note_items t (map (item_of u) bs) (noted s (a ∷ xs) o))
      (note_values_here t (values_of u b) a xs e)
    ∙ pass_over t u a' bs xs s d
    ∙ ap (cons_result a') (Match-exchanged t u xs bs s h m.2)
    ∙ ap (λ x. (s, x ∷ exchanged t.sender u xs bs)) (take_values-learned t u a b h)

informed-sender : (t u : Test) → (informed t u).sender ≡ t.sender
informed-sender t u = ground arith

-- What get_results makes of the test.
taken : Test → Test → Test
taken t u = if t.sender then t else record t {
  sender_has_retransmits = if not u.sender then minus1 else u.sender_has_retransmits;
}

taken-informed : (t u : Test) → u.sender ≡ not t.sender → taken t u ≡ informed t u
unfolding taken
taken-informed t u h = ground arith

-- Where one of two tests `t` and `u` sends and the other receives, and their streams have the same ids in
-- the same order, all different, `t` takes over the results of `u` without an error: a sender learns for each
-- stream the bytes and packets received and the lost ones, and a receiver the bytes sent, the
-- retransmissions, and whether the sender counts those.
pub get_results-exchanged :
    (t u : Test) (xs bs : List Stream)
    → u.sender ≡ not t.sender
    → Match xs bs
    → get_results t xs (send_results u bs) ≡ (ok, informed t u, exchanged t.sender u xs bs)
unfolding get_results send_results taken
get_results-exchanged t u xs bs h m =
    ap (λ (x : Test). (let r = note_items x (map (item_of u) bs) (ok, xs) in (r.0, x, r.1)))
      (taken-informed t u h)
    ∙ ap (λ r. (r.0, informed t u, r.1))
        (Match-exchanged (informed t u) u xs bs ok (h ∙ ap not (sym (informed-sender t u))) m)
    ∙ ap (λ b. (ok, informed t u, exchanged b u xs bs)) (informed-sender t u)
