-- ===== src/Routing/Neighbor/DdData.antt =====
-- NdnRoutingNeighbor::sendDDData: the answer to a request for a pack of database digests. The packs'
-- signatures and encryption are left out.
use mathlib.Core.List.{append-nil, append_assoc}
use ndn_based_protocol.Prelude.{
  ℕ, zero, suc, ◌+◌, ◌%◌, ◌^◌, ◌≡◌, refl, Bool, true, ◌&&◌, ◌||◌, Option, none, some, List, [], ◌∷◌,
  ◌++◌, map, nat_beq, ltb, length, length-append, get_elem?, if◌then◌else◌, arith, ◌∙◌, ap,
}
use ndn_based_protocol.Routing.Lsa.{LinkStateDigest}
use ndn_based_protocol.Routing.Neighbor.{Neighbor, DdDataPack}

-- ddList[i].ls.push_back(digest)
unfoldable pub push_digest : ℕ → LinkStateDigest → List DdDataPack → List DdDataPack
push_digest i d [] = []
push_digest zero d (p ∷ ps) = record p { ls = p.ls ++ (d ∷ []) } ∷ ps
push_digest (suc i) d (p ∷ ps) = p ∷ push_digest i d ps

-- The loop that makes the packs, at its round `i`: each holds one digest.
unfoldable pub fill_packs : ℕ → ℕ → List LinkStateDigest → List DdDataPack → List DdDataPack
fill_packs number i [] packs = packs
fill_packs number i (d ∷ ds) packs =
    fill_packs number (suc i) ds
      (push_digest i d (packs ++ (record { number_of_dd_packets = number; ls = [] } ∷ [])))

-- The list of packs after a request for the first one; with no digest there is one empty pack.
unfoldable pub make_packs : List LinkStateDigest → List DdDataPack → List DdDataPack
make_packs [] packs = packs ++ (record { number_of_dd_packets = 0; ls = [] } ∷ [])
make_packs (d ∷ ds) packs = fill_packs (length (d ∷ ds) % 2 ^ 16) 0 (d ∷ ds) packs

-- requestedIndex == sendingIndex || requestedIndex == sendingIndex - 1, and the index is in range.
unfoldable pub is_legal : Neighbor → ℕ → Bool
is_legal n requested =
    (nat_beq requested n.sending_index || nat_beq (suc requested) n.sending_index)
    && (ltb requested (length n.database_summary) || nat_beq requested 0)

-- NdnRoutingNeighbor::sendDDData for an index that is not negative: the new state and the pack that is
-- sent, or `none` where the code refuses the index.
unfoldable pub send_dd_data : Neighbor → ℕ → Option (Neighbor × Option DdDataPack)
send_dd_data n requested =
    let packs =
      if nat_beq requested 0 then make_packs n.database_summary n.dd_list else n.dd_list in
    if is_legal n requested
    then some
        (record n { dd_list = packs; sending_index = requested + 1 }, get_elem? packs requested)
    else none

-- The pack with one digest.
abbrev pub pack_of : ℕ → LinkStateDigest → DdDataPack
pack_of number d = record { number_of_dd_packets = number; ls = d ∷ [] }

push_digest-last :
    (packs : List DdDataPack) (number : ℕ) (d : LinkStateDigest)
    → push_digest
        (length packs)
        d
        (packs ++ (record { number_of_dd_packets = number; ls = [] } ∷ []))
      ≡ packs ++ (pack_of number d ∷ [])
unfolding push_digest
push_digest-last [] number d = refl
push_digest-last (p ∷ packs) number d = ap (λ ps. p ∷ ps) (push_digest-last packs number d)

fill_packs-append :
    (number i : ℕ) (ds : List LinkStateDigest) (packs : List DdDataPack)
    → i ≡ length packs
    → fill_packs number i ds packs ≡ packs ++ map (pack_of number) ds
unfolding fill_packs
fill_packs-append number i [] packs at = rw (append-nil packs)
fill_packs-append number i (d ∷ ds) packs at =
    rw (at, push_digest-last packs number d)
      (fill_packs-append number (suc (length packs)) ds (packs ++ (pack_of number d ∷ []))
          (omega (arith, length-append packs (pack_of number d ∷ [])))
        ∙ append_assoc packs (pack_of number d ∷ []) (map (pack_of number) ds))

fill_packs-head :
    (number i : ℕ) (ds : List LinkStateDigest) (p : DdDataPack) (ps : List DdDataPack)
    → get_elem? (fill_packs number (suc i) ds (p ∷ ps)) 0 ≡ some p
unfolding fill_packs push_digest
fill_packs-head number i [] p ps = refl
fill_packs-head number i (d ∷ ds) p ps = fill_packs-head number (suc i) ds p _

fill_packs-again :
    (number : ℕ) (d : LinkStateDigest) (ds : List LinkStateDigest) (ps : List DdDataPack)
    → get_elem? (fill_packs number 0 (d ∷ ds) (pack_of number d ∷ ps)) 0
      ≡ some (record { number_of_dd_packets = number; ls = d ∷ d ∷ [] })
unfolding fill_packs push_digest
fill_packs-again number d ds ps =
    fill_packs-head number 0 ds (record { number_of_dd_packets = number; ls = d ∷ d ∷ [] }) _

-- The first request of a peer, for the index 0, at a cleared neighbour with a summary makes one pack for
-- each digest, in order, and sends the first. The same request again, as a retransmission is, is
-- answered by a pack that holds the first digest twice.
pub send_dd_data_first :
    (n : Neighbor) (d : LinkStateDigest) (ds : List LinkStateDigest)
    → n.database_summary ≡ d ∷ ds
    → n.dd_list ≡ []
    → n.sending_index ≡ 0
    → let number = length (d ∷ ds) % 2 ^ 16 in
      let after = record n { dd_list = map (pack_of number) (d ∷ ds); sending_index = 1 } in
      (send_dd_data n 0 ≡ some (after, some (pack_of number d)))
      × ((again : Neighbor) × (send_dd_data after 0
            ≡ some (again, some (record { number_of_dd_packets = number; ls = d ∷ d ∷ [] }))))
unfolding send_dd_data is_legal make_packs
send_dd_data_first n d ds summary no_packs index =
    let number : ℕ = length (d ∷ ds) % 2 ^ 16 in
    let made : fill_packs number 0 (d ∷ ds) [] ≡ map (pack_of number) (d ∷ ds) =
      fill_packs-append number 0 (d ∷ ds) [] refl in
    let in_range : (ltb 0 (length (d ∷ ds)) || nat_beq 0 0) ≡ true = ground arith in
    let old : List DdDataPack = map (pack_of number) (d ∷ ds) in
    let head = fill_packs-again number d ds (map (pack_of number) ds) in
    (
      rw (summary, no_packs, index, made, in_range),
      (
        record n { dd_list = fill_packs number 0 (d ∷ ds) old; sending_index = 1 },
        rw (summary, head, in_range),
      ),
    )
