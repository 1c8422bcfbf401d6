-- ===== src/Gateway/Address/Ranges.antt =====
-- The range of a block is the set of addresses that share its leading bits.
use native.Mathlib.Decide.{dec_lt}
use native.Mathlib.Nat.{
  div-add-mod, mod-lt, mod-eq_of_lt, pow-le-pow_right, div-lt_iff_lt-mul, mul-le-mul_left,
}
use Prim.Native.Nat.{bit_and, bit_or}
use alchemy_alibaba.Prelude.{
  ℕ, zero, suc, ◌+◌, ◌-◌, ◌*◌, ◌/◌, ◌%◌, ◌^◌, ◌≤◌, ◌<◌, ◌≡◌, ◌↔◌, refl, ap, ◌∙◌, arith, true, ◌&&◌,
  leb,
}
use alchemy_alibaba.Gateway.Bits.{and_mask, or_low, pow_pos, pow_add}
use alchemy_alibaba.Gateway.Address.{range_of, mask_of, to_uint32}

-- The number of addresses of a block.
abbrev pub size_of : ℕ → ℕ
size_of prefix = 2 ^ (32 - prefix)

-- All 32 digits are those of the prefix and those of the size.
size_split : (p : ℕ) → p ≤ 32 → 2 ^ 32 ≡ size_of p * 2 ^ p
size_split p h =
    let whole : 32 ≡ (32 - p) + p = omega arith in ap (λ t. 2 ^ t) whole ∙ pow_add (32 - p) p

size-le : (p : ℕ) → size_of p ≤ 2 ^ 32
size-le p = pow-le-pow_right {n = 2} (omega arith) {j = 32} (omega arith)

mask_lem : (p : ℕ) → p ≤ 32 → mask_of p ≡ 2 ^ 32 - size_of p
unfolding mask_of
mask_lem zero h = refl
mask_lem (suc p) h = ground (arith, pow_pos (32 - suc p), size-le (suc p))

-- The digits of a block's number.
abbrev pub network_of : ℕ → ℕ → ℕ
network_of p value = value / size_of p

-- The range in terms of quotients.
masked : (p a : ℕ) → p ≤ 32 → a < 2 ^ 32 → bit_and a (mask_of p) ≡ size_of p * network_of p a
masked p a h b =
    let whole : 32 ≡ (32 - p) + p = omega arith in
    ap (bit_and a) (mask_lem p h ∙ ap (λ t. 2 ^ t - size_of p) whole)
    ∙ and_mask (32 - p) p a (omega (arith, ap (λ t. 2 ^ t) whole))

network_fits : (p a : ℕ) → size_of p * network_of p a ≤ a
network_fits p a = omega (arith, div-add-mod a (size_of p))

pub start_lem : (p a : ℕ) → p ≤ 32 → a < 2 ^ 32 → (range_of a p).start ≡ size_of p * network_of p a
unfolding range_of
start_lem p a h b = ap to_uint32 (masked p a h b) ∙ mod-eq_of_lt (omega (arith, network_fits p a))

-- The end of the block lies below 2 ^ 32.
end_fits : (p a : ℕ) → p ≤ 32 → a < 2 ^ 32 → size_of p * network_of p a + size_of p ≤ 2 ^ 32
end_fits p a h b =
    let q : ℕ = network_of p a in
    let below : q < 2 ^ p =
      (div-lt_iff_lt-mul (pow_pos (32 - p))).1 (omega (arith, size_split p h)) in
    omega (arith, size_split p h, mul-le-mul_left (size_of p) below)

pub end_lem :
    (p a : ℕ)
    → p ≤ 32
    → a < 2 ^ 32
    → (range_of a p).end ≡ size_of p * network_of p a + (size_of p - 1)
unfolding range_of
end_lem p a h b =
    let q : ℕ = network_of p a in
    let low : 0xffffffff - mask_of p ≡ size_of p - 1 =
      omega (arith, mask_lem p h, pow_pos (32 - p), size-le p) in
    ap (λ t. to_uint32 (bit_or t (0xffffffff - mask_of p))) (start_lem p a h b)
    ∙ ap (λ t. to_uint32 (bit_or (size_of p * q) t)) low
    ∙ ap to_uint32 (or_low (32 - p) q)
    ∙ mod-eq_of_lt (omega (arith, end_fits p a h b, pow_pos (32 - p)))

-- A value lies in the range of a block exactly when it has the block's leading digits.
pub same_network_iff :
    (p a v : ℕ)
    → p ≤ 32
    → a < 2 ^ 32
    → ((leb (range_of a p).start v && leb v (range_of a p).end) ≡ true)
      ↔ (network_of p v ≡ network_of p a)
same_network_iff p a v h b =
    let q : ℕ = network_of p a in
    let d : ℕ = network_of p v in
    let value = div-add-mod v (size_of p) in
    let rest : v % size_of p < size_of p = mod-lt v (pow_pos (32 - p)) in
    let from = start_lem p a h b in
    let to = end_lem p a h b in
    (
      λ inside.
          let above : size_of p * q ≤ v = ground (arith, from) in
          let below : v ≤ size_of p * q + (size_of p - 1) = ground (arith, to) in
          elim (dec_lt d q) [
            | yes less ↦
                absurd (omega (arith, value, rest, above, mul-le-mul_left (size_of p) less))
            | no not_less ↦ elim (dec_lt q d) [
              | yes more ↦
                  absurd (omega (arith, value, rest, below, mul-le-mul_left (size_of p) more))
              | no not_more ↦ omega arith
            ]
          ],
      λ same.
          let equal : size_of p * d ≡ size_of p * q = ap (λ t. size_of p * t) same in
          let above : (range_of a p).start ≤ v = omega (arith, from, equal, value) in
          let below : v ≤ (range_of a p).end = omega (arith, to, equal, value, rest) in
          ground arith,
    )

pub start-le-end : (p a : ℕ) → p ≤ 32 → a < 2 ^ 32 → (range_of a p).start ≤ (range_of a p).end
start-le-end p a h b = omega (arith, start_lem p a h b, end_lem p a h b)

pub end-lt : (p a : ℕ) → p ≤ 32 → a < 2 ^ 32 → (range_of a p).end < 2 ^ 32
end-lt p a h b = omega (arith, end_lem p a h b, end_fits p a h b, pow_pos (32 - p))
