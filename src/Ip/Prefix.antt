-- ===== src/Ip/Prefix.antt =====
-- The prefix length of a network mask.
use ndn_based_protocol.Prelude.{
  ℕ, zero, suc, ◌-◌, ◌^◌, ◌≤◌, ◌<◌, ◌≡◌, refl, ℤ, pos, negsuc, Bool, true, ◌&&◌, int_eq, nat_eq,
  int_beq_iff, ◌==◌, if◌then◌else◌, arith,
}
use ndn_based_protocol.Ip.{ntohl, get_prefix_length}

all_below : ℕ → (ℕ → Bool) → Bool
all_below zero test = true
all_below (suc n) test = test n && all_below n test

all_below_sound :
    (n : ℕ) (test : ℕ → Bool) (k : ℕ) → all_below n test ≡ true → k < n → test k ≡ true
unfolding all_below
all_below_sound zero test k h lt = absurd (omega arith)
all_below_sound (suc n) test k h lt = ground (arith, all_below_sound n test k)

-- The mask of `p` leading ones.
abbrev pub mask_of : ℕ → ℕ
mask_of p = 2 ^ 32 - 2 ^ (32 - p)

abbrev prefix_of : ℕ → ℤ
prefix_of p = if p == 0 then negsuc 0 else pos p

prefix_table : all_below 33 (λ p. get_prefix_length (ntohl (mask_of p)) == prefix_of p) ≡ true
unfolding all_below get_prefix_length
prefix_table = refl

-- For a mask of up to 32 leading ones, getPrefixLength counts them, but for the mask 0.0.0.0, for which it
-- gives -1.
pub get_prefix_length-mask_of :
    (p : ℕ) → p ≤ 32 → get_prefix_length (ntohl (mask_of p)) ≡ (if p == 0 then negsuc 0 else pos p)
get_prefix_length-mask_of p h =
    (int_beq_iff (get_prefix_length (ntohl (mask_of p))) (prefix_of p)).0
      (all_below_sound 33 _ p prefix_table (omega arith))
