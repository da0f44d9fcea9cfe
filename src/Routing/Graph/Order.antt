-- ===== src/Routing/Graph/Order.antt =====
-- The order of `int`.
use ndn_based_protocol.Prelude.{◌≡◌, ℤ, pos, negsuc, true, false, arith}
use ndn_based_protocol.Routing.Graph.{int_ltb}

pub int_ltb_irrefl : (c : ℤ) → int_ltb c c ≡ false
int_ltb_irrefl (pos n) = ground arith
int_ltb_irrefl (negsuc n) = ground arith

pub int_ltb_asym : (a b : ℤ) → int_ltb a b ≡ true → int_ltb b a ≡ false
int_ltb_asym (pos a) (pos b) h = ground arith
int_ltb_asym (pos a) (negsuc b) h = ground arith
int_ltb_asym (negsuc a) (pos b) h = ground arith
int_ltb_asym (negsuc a) (negsuc b) h = ground arith

pub int_ge_trans : (a b c : ℤ) → int_ltb a b ≡ false → int_ltb b c ≡ false → int_ltb a c ≡ false
int_ge_trans (pos a) (pos b) (pos c) h k = ground arith
int_ge_trans (pos a) (pos b) (negsuc c) h k = ground arith
int_ge_trans (pos a) (negsuc b) (pos c) h k = ground arith
int_ge_trans (pos a) (negsuc b) (negsuc c) h k = ground arith
int_ge_trans (negsuc a) (pos b) (pos c) h k = ground arith
int_ge_trans (negsuc a) (pos b) (negsuc c) h k = ground arith
int_ge_trans (negsuc a) (negsuc b) (pos c) h k = ground arith
int_ge_trans (negsuc a) (negsuc b) (negsuc c) h k = ground arith

pub int_ltb_trans : (a b c : ℤ) → int_ltb a b ≡ true → int_ltb b c ≡ true → int_ltb a c ≡ true
int_ltb_trans (pos a) (pos b) (pos c) h k = ground arith
int_ltb_trans (pos a) (pos b) (negsuc c) h k = ground arith
int_ltb_trans (pos a) (negsuc b) (pos c) h k = ground arith
int_ltb_trans (pos a) (negsuc b) (negsuc c) h k = ground arith
int_ltb_trans (negsuc a) (pos b) (pos c) h k = ground arith
int_ltb_trans (negsuc a) (pos b) (negsuc c) h k = ground arith
int_ltb_trans (negsuc a) (negsuc b) (pos c) h k = ground arith
int_ltb_trans (negsuc a) (negsuc b) (negsuc c) h k = ground arith
