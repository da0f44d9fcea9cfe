-- ===== src/Tests/Protocol.antt =====
-- The routing protocol at concrete states.
use ndn_based_protocol.Prelude.{
  ℕ, ◌+◌, ◌≤◌, ◌≡◌, ◌≢◌, refl, ℤ, pos, true, false, ◌&&◌, none, some, [], ◌∷◌, length, leb, arith,
  nat_eq, bytes_eq, ◌==◌, if◌then◌else◌,
}
use ndn_based_protocol.Prelude.Map.{lookup}
use ndn_based_protocol.Declaration.{zero_mac}
use ndn_based_protocol.Packet.{new_interest}
use ndn_based_protocol.Routing.Lsa.{LinkStateDigest}
use ndn_based_protocol.Routing.LsaDatabase.{find_in, find_lsa}
use ndn_based_protocol.Routing.LsaDatabase.Contents.{IsDatabase}
use ndn_based_protocol.Routing.LsaDatabase.Topology.Linked.{linked}
use ndn_based_protocol.Routing.LsaDatabase.Topology.Parents.{Connected, IsParent, Present}
use ndn_based_protocol.Routing.MinimumHopTree.{
  MinimumHopTree, get_registered_sons, get_last_registration_time,
}
use ndn_based_protocol.Routing.MinimumHopTree.Registration.{DistinctSons}
use ndn_based_protocol.Routing.Graph.{int_ltb}
use ndn_based_protocol.Routing.Protocol.{
  Peer, Interface, up, Retransmission, Protocol, Environment, in_pending,
}
use ndn_based_protocol.Routing.Protocol.Triggers.{register_parents}
use ndn_based_protocol.Routing.Protocol.Registering.{parents_of}
use ndn_based_protocol.Routing.Protocol.Parents.{register_parents-IsParent}
use ndn_based_protocol.Routing.RegisterController.{register_son, deregister_son}
use ndn_based_protocol.Routing.RegisterController.Ordering.{
  is_registered, last_time, latest_decides,
}
use ndn_based_protocol.Routing.LsaController.{accept_lsa, end_request, handle_lsa}
use ndn_based_protocol.Routing.InfoController.{is_wanted, handle_info}
use ndn_based_protocol.Routing.LsaController.Newest.{is_news, after_news, accept_lsa-newest}
use ndn_based_protocol.Routing.InfoController.Requests.{
  digest_pending, Answer, request_faces, handle_info_once,
}
use ndn_based_protocol.Routing.CronJobHandler.{expire, expire_times}
use ndn_based_protocol.Routing.Dispatch.Reachable.{
  Reaches, at_once, after, retransmission_expired, occur, Grown, reached-Grown,
}
use ndn_based_protocol.Routing.CronJobHandler.Retries.{three_retries}
use ndn_based_protocol.Tests.Neighbors.{talking}
use ndn_based_protocol.Tests.Routing.{our_lsa, new_lsa, one_lsa, one_lsa-IsDatabase}

abbrev environment : Environment
environment = record {
  rand = λ n. 7 + n;
  clock = λ n. 1000 + n;
  sign_signature = λ lsa. our_lsa.signature;
  verify_signature = λ lsa. true;
  verify_router_id = λ lsa. true;
  sign_hello = λ pack. our_lsa.signature;
  verify_hello = λ key pack. true;
  verify_hello_router_id = λ pack. true;
  sign_dd = λ pack. our_lsa.signature;
  verify_dd = λ key pack. true;
  md5 = λ bytes. bytes;
  encrypt = λ bytes. bytes;
  decrypt = λ bytes. bytes;
  run = λ command. true;
  junk = 0;
}

abbrev peer_12 : Peer
peer_12 = record {
  router_id = 12;
  mac_address = zero_mac;
  ipv4_address = 3232235777;
  ipv4_mask = 4294967040;
  public_key = [];
  neighbor = talking;
}

abbrev interface_2 : Interface
interface_2 = record {
  interface_id = pos 2;
  mac_address = zero_mac;
  ipv4_address = 3232235778;
  ipv4_mask = 4294967040;
  cost = 1;
  neighbors = (12, peer_12) ∷ [];
  state = up;
}

abbrev no_tree : MinimumHopTree
no_tree = record { registered_sons = []; last_operation_time = []; registered_parents = [] }

abbrev waiting : Retransmission
waiting = record { packet = new_interest 0; source_mac = zero_mac; retransmission_time = 0 }

abbrev router_11 : Protocol
router_11 = record {
  router_id = 11;
  interfaces = (pos 2, interface_2) ∷ [];
  database = one_lsa;
  broadcast_lsa_pending_request_list = [];
  minimum_hop_tree = no_tree;
  public_key = our_lsa.public_key;
  routing_table = [];
  timers = (65 ∷ [], waiting) ∷ [];
  hello_timers = [];
  sent = [];
  drawn = 0;
  read = 0;
}

our_lsa-known : find_in router_11.router_id router_11.database.adj_lsa ≡ some our_lsa
unfolding find_in
our_lsa-known = refl

register_parents-IsParent_example :
    (t : Protocol) × (register_parents environment router_11 ≡ some t)
    × (t.database ≡ one_lsa)
    × ((root parent : ℕ)
        → root ≢ 11
        → lookup root (parents_of t) ≡ some parent
        → IsParent (linked one_lsa.adj_lsa) 11 root parent)
    × ((root : ℕ)
        → root ≢ 11
        → Connected (linked one_lsa.adj_lsa) root 11
        → Present root (parents_of t))
register_parents-IsParent_example = register_parents-IsParent environment router_11 our_lsa-known

no_tree-Distinct : (r : ℕ) → DistinctSons (get_registered_sons no_tree r)
unfolding get_registered_sons lookup
no_tree-Distinct r = tt

never_before : int_ltb (last_time no_tree 21 12) (pos 5) ≡ true
unfolding get_last_registration_time lookup
never_before = refl

latest_decides_example :
    let register = λ (u : MinimumHopTree) (time : ℤ). (register_son u 21 12 time).1 in
    let deregister = λ (u : MinimumHopTree) (time : ℤ). (deregister_son u 21 12 time).1 in
    (is_registered (deregister (register no_tree (pos 5)) (pos 6)) 21 12 ≡ false)
    × (is_registered (register (deregister no_tree (pos 6)) (pos 5)) 21 12 ≡ false)
    × (is_registered (register (deregister no_tree (pos 5)) (pos 6)) 21 12 ≡ true)
    × (is_registered (deregister (register no_tree (pos 6)) (pos 5)) 21 12 ≡ true)
    × (last_time (deregister (register no_tree (pos 5)) (pos 6)) 21 12 ≡ pos 6)
    × (last_time (register (deregister no_tree (pos 6)) (pos 5)) 21 12 ≡ pos 6)
latest_decides_example =
    latest_decides no_tree 21 12 (pos 5) (pos 6) no_tree-Distinct never_before refl

accept_lsa-newest_example :
    let t = (accept_lsa environment (pos 2) new_lsa router_11).1 in
    IsDatabase t.database
    × ((type id : ℕ)
        → find_lsa t.database type id ≡ (
            if is_news new_lsa router_11 && (type == new_lsa.ls_type && id == new_lsa.router_id)
            then some new_lsa
            else find_lsa one_lsa type id))
    × (handle_lsa environment (pos 2) interface_2 false new_lsa router_11
        ≡ after_news environment
            (is_news new_lsa router_11)
            (end_request environment (pos 2) interface_2 false new_lsa t))
accept_lsa-newest_example =
    accept_lsa-newest environment (pos 2) interface_2 false new_lsa router_11 one_lsa-IsDatabase

abbrev announced : LinkStateDigest
announced = record { router_id = 30; link_state_type = 0; sequence_num = 4; ls_age = 0 }

announced-wanted : is_wanted announced router_11 ≡ true
unfolding is_wanted find_lsa find_in in_pending
announced-wanted = refl

handle_info_once_example :
    let t = handle_info environment interface_2 (new_interest 0) announced router_11 in
    (digest_pending announced t ≡ true)
    × Answer environment interface_2 announced router_11 t (request_faces announced router_11)
handle_info_once_example =
    handle_info_once environment interface_2 (new_interest 0) announced router_11 (omega arith)
      announced-wanted

first_timer : lookup (65 ∷ []) router_11.timers ≡ some waiting
unfolding lookup
first_timer = refl

three_retries_example :
    (length (expire_times 5 environment true (65 ∷ []) router_11).sent
      ≡ length router_11.sent + (if leb 3 5 then 3 else 5))
    × (3 ≤ 5 → lookup (65 ∷ []) (expire_times 5 environment true (65 ∷ []) router_11).timers ≡ none)
three_retries_example =
    three_retries 5 environment true (65 ∷ []) router_11 waiting first_timer refl

abbrev resent : Protocol
resent = expire environment false (65 ∷ []) router_11

-- A retransmission leads from one state to the other.
resent-reached : Reaches environment router_11 resent
unfolding occur
resent-reached = after (retransmission_expired false (65 ∷ [])) at_once refl

reached-Grown_example : Grown one_lsa resent.database
reached-Grown_example = reached-Grown environment router_11 resent one_lsa-IsDatabase resent-reached
