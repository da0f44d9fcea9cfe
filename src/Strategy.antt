-- ===== src/Strategy.antt =====
-- src/networkLayer/ndn/strategy: MyNextHopStrategy and MyForwardStrategy. The interface numbers of
-- `getAllNicsInMap()`, in the map's order, are an argument.
use ndn_based_protocol.Prelude.{
  ℕ, ℤ, ◌&&◌, ◌||◌, not, List, [], ◌∷◌, ◌++◌, ltb, length, int_eq, ◌==◌, is_positive, if◌then◌else◌,
  Option, none, some,
}
use ndn_based_protocol.Declaration.{
  MacAddress, broadcast_mac, zero_mac, ndn_routing, ndn_addrassignment,
}
use ndn_based_protocol.Util.{codes, slash, split, part_is}
use ndn_based_protocol.Pit.{PitEntry, get_all_pending_interfaces}

abbrev pub Face : Type 0
Face = ℤ × MacAddress

abbrev pub routing_word : List ℕ
routing_word = codes "routing"

abbrev pub addr_word : List ℕ
addr_word = codes "addr"

abbrev pub local_word : List ℕ
local_word = codes "local"

abbrev pub hop_word : List ℕ
hop_word = codes "hop"

abbrev pub broadcast_word : List ℕ
broadcast_word = codes "broadcast"

-- Every interface but the incoming one, with the broadcast address.
unfoldable pub all_but : ℤ → List ℤ → List Face
all_but i [] = []
all_but i (n ∷ ns) = let rest = all_but i ns in if n == i then rest else (n, broadcast_mac) ∷ rest

-- MyNextHopStrategy::operator()
unfoldable pub next_hops_of : List ℤ → ℤ → List (List ℕ) → List Face
next_hops_of nics i splits =
    if ltb 3 (length splits)
      && part_is splits 1 routing_word
      && not (i == ndn_routing)
      && (part_is splits 2 local_word || part_is splits 2 hop_word)
    then (ndn_routing, zero_mac) ∷ []
    else if ltb 3 (length splits)
        && part_is splits 1 addr_word
        && not (i == ndn_addrassignment)
        && (part_is splits 2 local_word
            || part_is splits 2 hop_word
            || part_is splits 2 broadcast_word)
    then ((ndn_addrassignment, zero_mac)
        ∷ (if part_is splits 2 broadcast_word then all_but i nics else []))
    else all_but i nics

unfoldable pub next_hops : List ℤ → ℤ → List ℕ → List Face
next_hops nics i name = next_hops_of nics i (split name slash)

-- The loop of MyForwardStrategy over the pending interfaces.
unfoldable pub pending_faces : ℤ → List ℤ → List Face
pending_faces i [] = []
pending_faces i (j ∷ js) =
    let rest = pending_faces i js in
    if j == i then rest else if is_positive j then (j, broadcast_mac) ∷ rest else rest

unfoldable pub upper_faces : ℤ → List (List ℕ) → List Face
upper_faces i splits =
    if ltb 1 (length splits) && part_is splits 1 routing_word && not (i == ndn_routing)
    then (ndn_routing, zero_mac) ∷ []
    else if ltb 1 (length splits) && part_is splits 1 addr_word && not (i == ndn_addrassignment)
    then (ndn_addrassignment, zero_mac) ∷ []
    else []

abbrev pub interfaces_or_none : Option PitEntry → List ℤ
interfaces_or_none none = []
interfaces_or_none (some e) = get_all_pending_interfaces e

-- MyForwardStrategy::operator()
unfoldable pub forward_faces : ℤ → List ℕ → Option PitEntry → List Face
forward_faces i name entry =
    pending_faces i (interfaces_or_none entry) ++ upper_faces i (split name slash)
