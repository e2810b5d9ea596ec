-- ===== src/Ip/Private.antt =====
-- internal/util/ip.go: the ranges that `isPrivateIP` accepts.
use fabrica_net.Base.{
  ℕ, zero, suc, ◌+◌, ◌*◌, ◌/◌, ◌≤◌, ◌<◌, bit_and, bit_and_step, bit_and_mask, Bool, true, false,
  ◌&&◌, Option, none, some, List, [], ◌∷◌, ◌==◌, if◌then◌else◌, ◌⊎◌, ◌↔◌, inl, inr, ◌≡◌, ◌∙◌, refl,
  sym, ap, length, get_or, drop, Bool-cases, arith,
}
use fabrica_net.Ip.{
  Text, to4, is_mapped, is_private_v4, is_private_v6, is_private_parsed, is_private_ip,
}

-- The masks of the source on bytes.
mask_f0 : (b : ℕ) → b < 256 → bit_and b 0xf0 ≡ b / 16 * 16
mask_f0 b h = omega (
  arith,
  bit_and_step b 240,
  bit_and_step (b / 2) 120,
  bit_and_step (b / 2 / 2) 60,
  bit_and_step (b / 2 / 2 / 2) 30,
  bit_and_mask 4 (b / 2 / 2 / 2 / 2),
)

mask_fe : (b : ℕ) → b < 256 → bit_and b 0xfe ≡ b / 2 * 2
mask_fe b h = omega (arith, bit_and_step b 254, bit_and_mask 7 (b / 2))

-- The IPv4 ranges 10.0.0.0/8, 172.16.0.0/12 and 192.168.0.0/16, of the first two bytes.
abbrev pub InV4Ranges : ℕ → ℕ → Type 0
InV4Ranges a b = (a ≡ 10) ⊎ (((a ≡ 172) × (16 ≤ b) × (b < 32)) ⊎ ((a ≡ 192) × (b ≡ 168)))

v4_ranges : (a b c d : ℕ) → b < 256 → (is_private_v4 (a ∷ b ∷ c ∷ d ∷ []) ≡ true) ↔ InV4Ranges a b
unfolding is_private_v4
v4_ranges a b c d h = let m = mask_f0 b h in ground arith

get_or-drop : (n i : ℕ) (xs : List ℕ) → get_or (drop n xs) i 0 ≡ get_or xs (n + i) 0
get_or-drop zero i xs = let e : 0 + i ≡ i = omega arith in rw e refl
get_or-drop (suc n) i [] = refl
get_or-drop (suc n) i (x ∷ xs) =
    let e : suc n + i ≡ suc (n + i) = omega arith in rw e (get_or-drop n i xs)

-- The ranges of `isPrivateIP`, of sixteen bytes: IPv4 in the mapped form, and fc00::/7.
abbrev pub InRanges : List ℕ → Type 0
InRanges ip =
    ((is_mapped ip ≡ true) × InV4Ranges (get_or ip 12 0) (get_or ip 13 0))
    ⊎ ((is_mapped ip ≡ false) × (0xfc ≤ get_or ip 0 0) × (get_or ip 0 0 < 0xfe))

v4_private :
    (ip : List ℕ)
    → get_or ip 13 0 < 256
    → (is_private_v4 (drop 12 ip) ≡ true) ↔ InV4Ranges (get_or ip 12 0) (get_or ip 13 0)
unfolding is_private_v4
v4_private ip h =
    let m = mask_f0 (get_or ip 13 0) h in
    let e₀ = get_or-drop 12 0 ip in let e₁ = get_or-drop 12 1 ip in rw (e₀, e₁) (ground arith)

v6_private :
    (ip : List ℕ)
    → length ip ≡ 16
    → get_or ip 0 0 < 256
    → (is_private_v6 ip ≡ true) ↔ ((0xfc ≤ get_or ip 0 0) × (get_or ip 0 0 < 0xfe))
unfolding is_private_v6
v6_private ip l h = let m = mask_fe (get_or ip 0 0) h in ground arith

to4-sixteen :
    (ip : List ℕ) → length ip ≡ 16 → to4 ip ≡ (if is_mapped ip then some (drop 12 ip) else none)
unfolding to4
to4-sixteen ip l =
    let four : (length ip == 4) ≡ false = ground arith in
    let sixteen : (length ip == 16) ≡ true = ground arith in
    ap
      (λ b.
        if b
        then some ip
        else if (length ip == 16) && is_mapped ip
        then some (drop 12 ip)
        else none)
      four
    ∙ ap (λ b. if b && is_mapped ip then some (drop 12 ip) else none) sixteen

-- The test on a parsed address, by its form.
abbrev parsed_test : List ℕ → Option (List ℕ) → Bool
parsed_test ip o = elim o [ some ip4 ↦ is_private_v4 ip4 | none ↦ is_private_v6 ip ]

-- Of a text that `ParseIP` reads as sixteen bytes, its IPv4 form included, `isPrivateIP` accepts just
-- 10.0.0.0/8, 172.16.0.0/12 and 192.168.0.0/16 of the IPv4 addresses, and of the others fc00::/7; a text
-- that is no address it rejects.
pub is_private_ip-InRanges :
    (parse_ip : Text → Option (List ℕ)) (addr bad : Text) (ip : List ℕ)
    → parse_ip addr ≡ some ip
    → parse_ip bad ≡ none
    → length ip ≡ 16
    → get_or ip 0 0 < 256
    → get_or ip 13 0 < 256
    → ((is_private_ip parse_ip addr ≡ true) ↔ InRanges ip) × (is_private_ip parse_ip bad ≡ false)
unfolding is_private_ip is_private_parsed
is_private_ip-InRanges parse_ip addr bad ip p q l h₀ h₁₃ =
    let parsed : is_private_ip parse_ip addr ≡ parsed_test ip (to4 ip) = ap is_private_parsed p in
    let tested = parsed ∙ ap (parsed_test ip) (to4-sixteen ip l) in
    let v4 = v4_private ip h₁₃ in
    let v6 = v6_private ip l h₀ in
    (
      elim (Bool-cases (is_mapped ip)) [
        | inl m ↦
            let t : is_private_ip parse_ip addr ≡ is_private_v4 (drop 12 ip) =
              tested ∙ ap (λ b. parsed_test ip (if b then some (drop 12 ip) else none)) m in
            (
              λ e. inl (m, v4.0 (sym t ∙ e)),
              λ r. elim r [
                | inl (y, s) ↦ t ∙ v4.1 s
                | inr (n, s, s') ↦ absurd (let z : true ≡ false = sym m ∙ n in cc)
              ],
            )
        | inr m ↦
            let t : is_private_ip parse_ip addr ≡ is_private_v6 ip =
              tested ∙ ap (λ b. parsed_test ip (if b then some (drop 12 ip) else none)) m in
            (
              λ e. let (low, high) = v6.0 (sym t ∙ e) in inr (m, low, high),
              λ r. elim r [
                | inl (y, s) ↦ absurd (let z : true ≡ false = sym y ∙ m in cc)
                | inr (n, s, s') ↦ t ∙ v6.1 (s, s')
              ],
            )
      ],
      ap is_private_parsed q,
    )
