-- ===== src/Streams/Ids.antt =====
-- The ids that iperf_add_stream gives to the streams of a test, which the results name.
use wifitesttool.Base.{
  ℕ, zero, suc, ◌+◌, ◌≡◌, refl, ap, ◌∙◌, List, [], ◌∷◌, ◌++◌, map, length, length-append, arith,
}
use wifitesttool.Streams.{Stream, iperf_add_stream, next_id}

abbrev id_of : Stream → ℕ
id_of sp = sp.id

abbrev pub ids : List Stream → List ℕ
ids sps = map id_of sps

-- `n` numbers from `k` on.
abbrev pub count_from : ℕ → ℕ → List ℕ
count_from k zero = []
count_from k (suc n) = k ∷ count_from (suc k) n

-- 1, and then 3, 4, 5 and so on.
abbrev pub numbers : ℕ → List ℕ
numbers zero = []
numbers (suc n) = 1 ∷ count_from 3 n

count_from-snoc : (k n m : ℕ) → k + n ≡ m → count_from k n ++ m ∷ [] ≡ count_from k (suc n)
count_from-snoc k zero m e = ap (λ x. x ∷ []) (omega (arith, e))
count_from-snoc k (suc n) m e = ap (λ l. k ∷ l) (count_from-snoc (suc k) n m (omega (arith, e)))

ids-append : (a b : List Stream) → ids (a ++ b) ≡ ids a ++ ids b
ids-append [] b = refl
ids-append (x ∷ a) b = ap (λ l. x.id ∷ l) (ids-append a b)

next-numbers :
    (sps : List Stream) → numbers (length sps) ++ next_id sps ∷ [] ≡ numbers (suc (length sps))
next-numbers [] = refl
next-numbers (x ∷ sps) = ap (λ l. 1 ∷ l) (count_from-snoc 3 (length sps) _ (omega arith))

add-numbers :
    (sp : Stream) (sps : List Stream)
    → ids sps ≡ numbers (length sps)
    → ids (iperf_add_stream sp sps) ≡ numbers (length (iperf_add_stream sp sps))
unfolding iperf_add_stream
add-numbers sp sps e =
    let l : suc (length sps) ≡ length (sps ++ (record sp { id = next_id sps } ∷ [])) =
      omega (arith, length-append sps (record sp { id = next_id sps } ∷ [])) in
    ids-append sps (record sp { id = next_id sps } ∷ [])
    ∙ ap (λ l. l ++ next_id sps ∷ []) e
    ∙ next-numbers sps
    ∙ ap numbers l

-- `iperf_add_stream` for each stream in turn.
unfoldable pub add_all : List Stream → List Stream → List Stream
add_all [] sps = sps
add_all (x ∷ xs) sps = add_all xs (iperf_add_stream x sps)

add_all-numbers :
    (new sps : List Stream)
    → ids sps ≡ numbers (length sps)
    → ids (add_all new sps) ≡ numbers (length (add_all new sps))
unfolding add_all
add_all-numbers [] sps e = e
add_all-numbers (x ∷ new) sps e = add_all-numbers new (iperf_add_stream x sps) (add-numbers x sps e)

length-add_all : (new sps : List Stream) → length (add_all new sps) ≡ length new + length sps
unfolding add_all iperf_add_stream
length-add_all [] sps = omega arith
length-add_all (x ∷ new) sps = omega (
  arith,
  length-add_all new (iperf_add_stream x sps),
  length-append sps (record x { id = next_id sps } ∷ []),
)

-- The streams that are added to a test without streams get the ids 1, 3, 4, 5 and so on, in the
-- order in which they are added: all different, and none is 2.
pub iperf_add_stream-ids : (new : List Stream) → ids (add_all new []) ≡ numbers (length new)
iperf_add_stream-ids new =
    let l : length (add_all new []) ≡ length new = omega (arith, length-add_all new []) in
    add_all-numbers new [] refl ∙ ap numbers l
