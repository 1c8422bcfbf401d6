-- ===== src/Gateway/Address.antt =====
-- IPv4 addresses and CIDR blocks of packages/rds-access/src/gateway/connectivity.ts.
pub mod Ranges
pub mod Blocks
use Prim.Native.Nat.{bit_and, bit_or}
use alchemy_alibaba.Prelude.{
  ℕ, zero, suc, ◌+◌, ◌-◌, ◌*◌, ◌%◌, ◌^◌, String, Bool, true, false, ◌&&◌, List, [], ◌∷◌, Option,
  none, some, leb, ltb, ◌==◌, if◌then◌else◌, length, all,
}
use alchemy_alibaba.Errors.Pattern.{codes}
use alchemy_alibaba.Gateway.Text.{trim, split, is_digit, decimal}

-- `/^\d{1,3}$/` and the bound of an octet.
unfoldable pub octet : List ℕ → Option ℕ
unfolding decimal
octet part =
    if leb 1 (length part) && leb (length part) 3 && all is_digit part
    then (if ltb 255 (decimal 0 part) then none else some (decimal 0 part))
    else none

-- The loop over the parts.
unfoldable pub octets_value : ℕ → List (List ℕ) → Option ℕ
unfolding octet
octets_value result [] = some result
octets_value result (part ∷ parts) = elim (octet part) [
  | none ↦ none
  | some o ↦ octets_value (result * 256 + o) parts
]

-- `result >>> 0`
abbrev pub to_uint32 : ℕ → ℕ
to_uint32 n = n % 2 ^ 32

-- `ipv4ToInt`
unfoldable pub ipv4_to_int : List ℕ → Option ℕ
unfolding octets_value split
ipv4_to_int value =
    if length (split b'.' value) == 4
    then elim (octets_value 0 (split b'.' value)) [ none ↦ none | some n ↦ some (to_uint32 n) ]
    else none

pub record Range : Type 0 where
  pub start : ℕ
  pub end : ℕ
  pub prefix : ℕ

-- `prefix === 0 ? 0 : (0xffffffff << (32 - prefix)) >>> 0`
unfoldable pub mask_of : ℕ → ℕ
mask_of prefix = if prefix == 0 then 0 else to_uint32 (0xffffffff * 2 ^ (32 - prefix))

-- `addressInt & mask`, and `start | ~mask`, as unsigned numbers.
unfoldable pub range_of : ℕ → ℕ → Range
unfolding mask_of
range_of address prefix = record {
  start = to_uint32 (bit_and address (mask_of prefix));
  end =
      to_uint32
        (bit_or (to_uint32 (bit_and address (mask_of prefix))) (0xffffffff - mask_of prefix));
  prefix = prefix;
}

abbrev pub in_range : Option Range → Option ℕ → Bool
in_range (some r) (some v) = leb r.start v && leb v r.end
in_range _ _ = false

abbrev pub ranges_meet : Option Range → Option Range → Bool
ranges_meet (some a) (some b) = leb a.start b.end && leb b.start a.end
ranges_meet _ _ = false

abbrev pub block_range : Option (ℕ × ℕ) → Option Range
block_range none = none
block_range (some (a, p)) = some (range_of a p)

-- JavaScript's `Number(text)` where it is an integer that is not negative: white space around the
-- text is dropped, the empty text is 0, digits are decimal. `other_number` stands for the texts
-- of other forms, such as `8.0`, `1e1` or `0x8`.
module _ (other_number : List ℕ → Option ℕ) where
  abbrev number_of_trimmed : List ℕ → Option ℕ
  number_of_trimmed [] = some 0
  number_of_trimmed (c ∷ s) =
      if all is_digit (c ∷ s) then some (decimal 0 (c ∷ s)) else other_number (c ∷ s)

  unfoldable pub number_of : List ℕ → Option ℕ
  unfolding decimal trim
  number_of text = number_of_trimmed (trim text)

  -- The prefix of `[address, prefixText]`: 32 where there is none, and what is neither an integer
  -- nor between 0 and 32 is refused.
  unfoldable pub prefix_of : List (List ℕ) → Option ℕ
  unfolding number_of
  prefix_of [] = some 32
  prefix_of (text ∷ _) = elim (number_of text) [
    | none ↦ none
    | some n ↦ if leb n 32 then some n else none
  ]

  abbrev block_parts : List (List ℕ) → Option (ℕ × ℕ)
  block_parts [] = none
  block_parts (address ∷ rest) = elim (ipv4_to_int address) [
    | none ↦ none
    | some a ↦ elim (prefix_of rest) [ none ↦ none | some p ↦ some (a, p) ]
  ]

  -- The address and the prefix that a block is written with.
  unfoldable pub parse_block : String → Option (ℕ × ℕ)
  unfolding ipv4_to_int prefix_of trim split
  parse_block cidr = block_parts (split b'/' (trim (codes cidr)))

  -- `parseCidr`
  unfoldable pub parse_cidr : String → Option Range
  unfolding parse_block range_of
  parse_cidr cidr = block_range (parse_block cidr)

  -- `cidrContains`
  unfoldable pub cidr_contains : String → String → Bool
  unfolding parse_cidr ipv4_to_int
  cidr_contains cidr ip = in_range (parse_cidr cidr) (ipv4_to_int (codes ip))

  -- `cidrOverlaps`
  unfoldable pub cidr_overlaps : String → String → Bool
  unfolding parse_cidr
  cidr_overlaps left right = ranges_meet (parse_cidr left) (parse_cidr right)
