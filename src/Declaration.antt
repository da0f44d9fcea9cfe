-- ===== src/Declaration.antt =====
-- src/util/declaration.h, and the MAC address constants of the strategies.
use ndn_based_protocol.Prelude.{ℕ, List, [], ◌∷◌, ℤ, negsuc}

abbrev pub tlv_interest : ℕ
tlv_interest = 5

abbrev pub tlv_data : ℕ
tlv_data = 6

abbrev pub tlv_name : ℕ
tlv_name = 7

abbrev pub tlv_can_be_prefix : ℕ
tlv_can_be_prefix = 33

abbrev pub tlv_must_be_freshed : ℕ
tlv_must_be_freshed = 18

abbrev pub tlv_nonce : ℕ
tlv_nonce = 10

abbrev pub tlv_hop_limit : ℕ
tlv_hop_limit = 34

abbrev pub tlv_application_parameters : ℕ
tlv_application_parameters = 36

abbrev pub tlv_content : ℕ
tlv_content = 21

abbrev pub cs_capacity : ℕ
cs_capacity = 100

abbrev pub ndn_routing : ℤ
ndn_routing = negsuc 0

abbrev pub ndn_addrassignment : ℤ
ndn_addrassignment = negsuc 1

abbrev pub max_age : ℕ
max_age = 3600

-- struct MacAddress
pub record MacAddress : Type 0 where
  pub addr : List ℕ

-- MacAddress("ff:ff:ff:ff:ff:ff")
abbrev pub broadcast_mac : MacAddress
broadcast_mac = record { addr = 255 ∷ 255 ∷ 255 ∷ 255 ∷ 255 ∷ 255 ∷ [] }

-- MacAddress("00:00:00:00:00:00")
abbrev pub zero_mac : MacAddress
zero_mac = record { addr = 0 ∷ 0 ∷ 0 ∷ 0 ∷ 0 ∷ 0 ∷ [] }
