-- ===== src/Routing/Lsa/Extent.antt =====
-- How much memory LsaDataPack::decode reads, and how many links it makes of it.
use ndn_based_protocol.Prelude.{
  >>=-some, Option, Option-cases, inl, inr, ap, length-append, take_exact, ℕ, zero, suc, ◌+◌, ◌-◌,
  ◌*◌, ◌/◌, ◌≤◌, ◌<◌, ◌≡◌, refl, none, some, List, [], ◌∷◌, ◌++◌, length, arith, drop, length-drop,
  ltb, >>=-eq-some, take_exact-total, true,
}
use ndn_based_protocol.Tlv.{read16, read32, read64}
use ndn_based_protocol.Routing.Lsa.{
  NdnLink, LsaDataPack, decode_link, decode_links, decode_header, decode_lsa, header_size,
}

-- A read of a fixed size succeeds where the memory is long enough.
read16-total :
    (raw : List ℕ)
    → 2 ≤ length raw
    → (n : ℕ) × (rest : List ℕ) × (read16 raw ≡ some (n, rest)) × (length rest + 2 ≡ length raw)
unfolding read16
read16-total [] h = absurd (omega arith)
read16-total (a ∷ []) h = absurd (omega arith)
read16-total (a ∷ b ∷ rest) h = (a * 256 + b, rest, refl, omega arith)

read32-total :
    (raw : List ℕ)
    → 4 ≤ length raw
    → (n : ℕ) × (rest : List ℕ) × (read32 raw ≡ some (n, rest)) × (length rest + 4 ≡ length raw)
unfolding read32
read32-total raw h =
    let (hi, r, e, l) = read16-total raw (omega arith) in
    let (lo, r', e', l') = read16-total r (omega arith) in
    (hi * 65536 + lo, r', rw (e, e'), omega arith)

read64-total :
    (raw : List ℕ)
    → 8 ≤ length raw
    → (n : ℕ) × (rest : List ℕ) × (read64 raw ≡ some (n, rest)) × (length rest + 8 ≡ length raw)
unfolding read64
read64-total raw h =
    let (hi, r, e, l) = read32-total raw (omega arith) in
    let (lo, r', e', l') = read32-total r (omega arith) in
    (hi * 4294967296 + lo, r', rw (e, e'), omega arith)

decode_link-total : (raw : List ℕ) → 22 ≤ length raw → (l : NdnLink) × (decode_link raw ≡ some l)
unfolding decode_link
decode_link-total raw h =
    let (t, r1, e1, l1) = read16-total raw (omega arith) in
    let (i, r2, e2, l2) = read64-total r1 (omega arith) in
    let (d, r3, e3, l3) = read32-total r2 (omega arith) in
    let (m, r4, e4, l4) = read32-total r3 (omega arith) in
    let (c, r5, e5, l5) = read32-total r4 (omega arith) in
    (
      record { link_type = t; link_id = i; link_data = d; link_data_mask = m; link_cost = c },
      rw (e1, e2, e3, e4, e5),
    )

decode_header-total :
    (self : LsaDataPack) (raw : List ℕ)
    → 398 ≤ length raw
    → (head : LsaDataPack) × (behind : List ℕ) × (decode_header self raw ≡ some (head, behind))
      × (length behind + 398 ≡ length raw)
      × (head.links ≡ self.links)
unfolding decode_header
decode_header-total self raw h =
    let (t, r1, e1, l1) = read16-total raw (omega arith) in
    let (i, r2, e2, l2) = read64-total r1 (omega arith) in
    let (s, r3, e3, l3) = read32-total r2 (omega arith) in
    let (a, r4, e4, l4) = read16-total r3 (omega arith) in
    let d5 = length-drop 252 r4 in
    let d6 = length-drop 128 (drop 252 r4) in
    let (k, e5) = take_exact-total 252 r4 (omega arith) in
    let (g, e6) = take_exact-total 128 (drop 252 r4) (omega arith) in
    let (c, r5, e7, l7) = read16-total (drop 128 (drop 252 r4)) (omega arith) in
    let head : LsaDataPack = record self {
      ls_type = t;
      router_id = i;
      seq_num = s;
      ls_age = a;
      number_of_links = c;
      public_key = k;
      signature = g;
    } in
    (
      head,
      r5,
      >>=-some _ e1 (
          >>=-some _ e2
            (>>=-some _ e3 (>>=-some _ e4 (>>=-some _ e5 (>>=-some _ e6 (>>=-some _ e7 refl)))))),
      omega arith,
      refl,
    )

decode_links-total :
    (fuel : ℕ) (raw : List ℕ) (left : ℕ)
    → left ≤ fuel
    → (left + 21) / 22 * 22 ≤ length raw
    → (ls : List NdnLink) × (decode_links fuel raw left ≡ some ls) × (length ls ≡ (left + 21) / 22)
unfolding decode_links
decode_links-total zero raw left f h = ([], ground arith, omega arith)
decode_links-total (suc fuel) raw zero f h = ([], refl, omega arith)
decode_links-total (suc fuel) raw (suc left) f h =
    let (l, e) = decode_link-total raw (omega arith) in
    let more : ltb 0 (suc left) ≡ true = ground arith in
    let (ls, e', n) =
      decode_links-total fuel (drop 22 raw) (suc left - 22) (omega arith)
        (omega (arith, length-drop 22 raw)) in
    (l ∷ ls, rw (more, e, e'), omega arith)

-- Inversions: a read that succeeds had the memory.
read16-length : (raw : List ℕ) {p : ℕ × List ℕ} → read16 raw ≡ some p → length p.1 + 2 ≡ length raw
unfolding read16
read16-length [] e = cc
read16-length (a ∷ []) e = cc
read16-length (a ∷ b ∷ rest) e = ground arith

read32-length : (raw : List ℕ) {p : ℕ × List ℕ} → read32 raw ≡ some p → length p.1 + 4 ≡ length raw
unfolding read32
read32-length raw e =
    let (a, e1, f) = >>=-eq-some (read16 raw) _ e in
    let (b, e2, g) = >>=-eq-some (read16 a.1) _ f in
    let l1 = read16-length raw e1 in let l2 = read16-length a.1 e2 in ground (arith, l1, l2, g)

read64-length : (raw : List ℕ) {p : ℕ × List ℕ} → read64 raw ≡ some p → length p.1 + 8 ≡ length raw
unfolding read64
read64-length raw e =
    let (a, e1, f) = >>=-eq-some (read32 raw) _ e in
    let (b, e2, g) = >>=-eq-some (read32 a.1) _ f in
    let l1 = read32-length raw e1 in let l2 = read32-length a.1 e2 in ground (arith, l1, l2, g)

decode_link-length : (raw : List ℕ) {l : NdnLink} → decode_link raw ≡ some l → 22 ≤ length raw
unfolding decode_link
decode_link-length raw e =
    let (p1, e1, f1) = >>=-eq-some (read16 raw) _ e in
    let (p2, e2, f2) = >>=-eq-some (read64 p1.1) _ f1 in
    let (p3, e3, f3) = >>=-eq-some (read32 p2.1) _ f2 in
    let (p4, e4, f4) = >>=-eq-some (read32 p3.1) _ f3 in
    let (p5, e5, f5) = >>=-eq-some (read32 p4.1) _ f4 in
    omega (
      arith,
      read16-length raw e1,
      read64-length p1.1 e2,
      read32-length p2.1 e3,
      read32-length p3.1 e4,
      read32-length p4.1 e5,
    )

decode_header-length :
    (self : LsaDataPack) (raw : List ℕ) {p : LsaDataPack × List ℕ}
    → decode_header self raw ≡ some p
    → length p.1 + 398 ≡ length raw
unfolding decode_header
decode_header-length self raw e =
    let (p1, e1, f1) = >>=-eq-some (read16 raw) _ e in
    let (p2, e2, f2) = >>=-eq-some (read64 p1.1) _ f1 in
    let (p3, e3, f3) = >>=-eq-some (read32 p2.1) _ f2 in
    let (p4, e4, f4) = >>=-eq-some (read16 p3.1) _ f3 in
    let (key, e5, f5) = >>=-eq-some (take_exact 252 p4.1) _ f4 in
    let (sign, e6, f6) = >>=-eq-some (take_exact 128 (drop 252 p4.1)) _ f5 in
    let (p7, e7, f7) = >>=-eq-some (read16 (drop 128 (drop 252 p4.1))) _ f6 in
    let l1 = read16-length raw e1 in
    let l2 = read64-length p1.1 e2 in
    let l3 = read32-length p2.1 e3 in
    let l4 = read16-length p3.1 e4 in
    let l7 = read16-length (drop 128 (drop 252 p4.1)) e7 in
    ground (arith, l1, l2, l3, l4, l7, length-drop 252 p4.1, length-drop 128 (drop 252 p4.1), f7)

decode_links-length :
    (fuel : ℕ) (raw : List ℕ) (left : ℕ) {ls : List NdnLink}
    → decode_links fuel raw left ≡ some ls
    → (left + 21) / 22 * 22 ≤ length raw
unfolding decode_links
decode_links-length zero raw zero e = omega arith
decode_links-length zero raw (suc left) e = ground arith
decode_links-length (suc fuel) raw zero e = omega arith
decode_links-length (suc fuel) raw (suc left) e =
    let more : ltb 0 (suc left) ≡ true = ground arith in
    let (l, e1, f1) = >>=-eq-some (decode_link raw) _ (rw more at e) in
    let (ls, e2, f2) = >>=-eq-some (decode_links fuel (drop 22 raw) (suc left - 22)) _ f1 in
    omega (
      arith,
      decode_link-length raw e1,
      decode_links-length fuel (drop 22 raw) (suc left - 22) e2,
      length-drop 22 raw,
    )

-- The end of the last link that the loop of LsaDataPack::decode reads: a link that starts before the
-- end of the data is read whole.
abbrev pub read_extent : ℕ → ℕ
read_extent data_length = header_size + (data_length - header_size + 21) / 22 * 22

-- LsaDataPack::decode succeeds on memory that holds the header and every link that starts before the
-- end of the data, and appends one link for each started 22 bytes; on shorter memory it reads past
-- the end, also where the memory is as long as the data.
pub decode_lsa-reads :
    (self : LsaDataPack) (raw : List ℕ) (data_length : ℕ)
    → (read_extent data_length ≤ length raw
        → (l : LsaDataPack) × (decode_lsa self raw data_length ≡ some l)
          × (length l.links ≡ length self.links + (data_length - header_size + 21) / 22))
      × (length raw < read_extent data_length → decode_lsa self raw data_length ≡ none)
unfolding decode_lsa
decode_lsa-reads self raw n = (
  λ h.
      let (head, behind, e, l, k) = decode_header-total self raw (omega arith) in
      let (ls, e', m) = decode_links-total n behind (n - header_size) (omega arith) (omega arith) in
      (
        record head { links = head.links ++ ls },
        rw (e, e'),
        omega (arith, length-append head.links ls, ap (λ xs. length xs) k, m),
      ),
  λ h. elim (Option-cases (decode_lsa self raw n)) [
    | inl failed ↦ failed
    | inr (l, e) ↦
        let (p, e1, f1) = >>=-eq-some (decode_header self raw) _ e in
        let (ls, e2, f2) = >>=-eq-some (decode_links n p.1 (n - header_size)) _ f1 in
        absurd (
          omega (
            arith,
            decode_header-length self raw e1,
            decode_links-length n p.1 (n - header_size) e2,
          ))
  ],
)

abbrev pub count_links : Option LsaDataPack → Option ℕ
count_links none = none
count_links (some l) = some (length l.links)
