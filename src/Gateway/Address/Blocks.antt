-- ===== src/Gateway/Address/Blocks.antt =====
-- `cidrContains` and `cidrOverlaps` in terms of the addresses that a block stands for.
use alchemy_alibaba.Prelude.{
  ℕ, ◌^◌, ◌≤◌, ◌<◌, max, ◌≡◌, ◌↔◌, refl, ap, arith, Bool, true, false, ◌&&◌, leb, Option, none,
  some, String, List, [], ◌∷◌, inl, inr, Bool-cases, subst, le→leb, leb→le,
}
use alchemy_alibaba.Errors.Pattern.{codes}
use alchemy_alibaba.Gateway.Text.{split, trim}
use alchemy_alibaba.Gateway.Address.{
  Range, range_of, ipv4_to_int, prefix_of, parse_block, parse_cidr, cidr_contains, cidr_overlaps,
  in_range, ranges_meet, block_parts, block_range,
}
use alchemy_alibaba.Gateway.Address.Ranges.{network_of, same_network_iff, start-le-end, end-lt}

ipv4_to_int-lt : (text : List ℕ) {v : ℕ} → ipv4_to_int text ≡ some v → v < 2 ^ 32
unfolding ipv4_to_int
ipv4_to_int-lt text h = ground arith

both : {a b : Bool} → a ≡ true → b ≡ true → (a && b) ≡ true
both h k = ground arith

module _ (other_number : List ℕ → Option ℕ) where
  prefix_of-le : (parts : List (List ℕ)) {p : ℕ} → prefix_of other_number parts ≡ some p → p ≤ 32
  unfolding prefix_of
  prefix_of-le [] h = ground arith
  prefix_of-le (t ∷ rest) h = ground arith

  block_bounds :
      (parts : List (List ℕ)) {a p : ℕ}
      → block_parts other_number parts ≡ some (a, p)
      → (a < 2 ^ 32) × (p ≤ 32)
  block_bounds [] h = cc
  block_bounds (address ∷ rest) h = grind (arith, ipv4_to_int-lt, prefix_of-le)

  parse_block_bounds :
      (cidr : String) {a p : ℕ}
      → parse_block other_number cidr ≡ some (a, p)
      → (a < 2 ^ 32) × (p ≤ 32)
  unfolding parse_block
  parse_block_bounds cidr h = block_bounds (split b'/' (trim (codes cidr))) h

  -- The block `cidr` is written with an address and a prefix, and the value has its leading digits.
  pub record InBlock (cidr : String) (v : ℕ) : Type 0 where
    pub address : ℕ
    pub prefix : ℕ
    pub block : parse_block other_number cidr ≡ some (address, prefix)
    pub same : network_of prefix v ≡ network_of prefix address

  -- The text is the host address `v`, which lies in the block.
  pub record HostIn (cidr ip : String) : Type 0 where
    pub value : ℕ
    pub host : ipv4_to_int (codes ip) ≡ some value
    pub inside : InBlock cidr value

  parse_cidr-some :
      (cidr : String) (a p : ℕ)
      → parse_block other_number cidr ≡ some (a, p)
      → parse_cidr other_number cidr ≡ some (range_of a p)
  unfolding parse_cidr
  parse_cidr-some cidr a p h = ap block_range h

  -- A parsed range is that of the block's address and prefix.
  record Parsed (cidr : String) (r : Range) : Type 0 where
    address : ℕ
    prefix : ℕ
    block : parse_block other_number cidr ≡ some (address, prefix)
    range : r ≡ range_of address prefix

  Parsed-of_parts :
      (cidr : String) (parts : Option (ℕ × ℕ)) {r : Range}
      → parse_block other_number cidr ≡ parts
      → block_range parts ≡ some r
      → Parsed cidr r
  Parsed-of_parts cidr none e h = cc
  Parsed-of_parts cidr (some (a, p)) e h = record { address = a; prefix = p; block = e; range = cc }

  parse_cidr-Parsed :
      (cidr : String) {r : Range} → parse_cidr other_number cidr ≡ some r → Parsed cidr r
  unfolding parse_cidr
  parse_cidr-Parsed cidr h = Parsed-of_parts cidr (parse_block other_number cidr) refl h

  in_range-some :
      (o : Option Range) (w : Option ℕ)
      → in_range o w ≡ true
      → (r : Range) × (v : ℕ) × (o ≡ some r)
        × (w ≡ some v)
        × ((leb r.start v && leb v r.end) ≡ true)
  in_range-some none w h = cc
  in_range-some (some r) none h = cc
  in_range-some (some r) (some v) h = (r, v, refl, refl, h)

  -- A value that lies in the range of a text lies in its block, and conversely.
  InBlock-of_range :
      (cidr : String) (r : Range) (v : ℕ)
      → parse_cidr other_number cidr ≡ some r
      → (leb r.start v && leb v r.end) ≡ true
      → InBlock cidr v
  InBlock-of_range cidr r v e h =
      let q = parse_cidr-Parsed cidr e in
      let b = parse_block_bounds cidr q.block in
      record {
        address = q.address;
        prefix = q.prefix;
        block = q.block;
        same = (same_network_iff q.prefix q.address v b.1 b.0).0 (rw q.range at h);
      }

  range_of-InBlock :
      (cidr : String) (v : ℕ) (i : InBlock cidr v)
      → (parse_cidr other_number cidr ≡ some (range_of i.address i.prefix))
        × ((leb (range_of i.address i.prefix).start v && leb v (range_of i.address i.prefix).end)
            ≡ true)
  range_of-InBlock cidr v i =
      let b = parse_block_bounds cidr i.block in
      (
        parse_cidr-some cidr i.address i.prefix i.block,
        (same_network_iff i.prefix i.address v b.1 b.0).1 i.same,
      )

  -- `cidrContains` holds exactly when the second text is a host address, the first a block, and
  -- the address has the leading digits of the block, as many as its prefix says.
  pub cidr_contains_iff :
      (cidr ip : String) → (cidr_contains other_number cidr ip ≡ true) ↔ HostIn cidr ip
  unfolding cidr_contains
  cidr_contains_iff cidr ip = (
    λ h.
        let (r, v, a, b, c) =
          in_range-some (parse_cidr other_number cidr) (ipv4_to_int (codes ip)) h in
        record { value = v; host = b; inside = InBlock-of_range cidr r v a c },
    λ i. let (a, b) = range_of-InBlock cidr i.value i.inside in rw (a, i.host, in_range) b,
  )

  ranges_meet-some :
      (o w : Option Range)
      → ranges_meet o w ≡ true
      → (a : Range) × (b : Range) × (o ≡ some a)
        × (w ≡ some b)
        × ((leb a.start b.end && leb b.start a.end) ≡ true)
  ranges_meet-some none w h = cc
  ranges_meet-some (some a) none h = cc
  ranges_meet-some (some a) (some b) h = (a, b, refl, refl, h)

  Parsed-range_bounds :
      (cidr : String) {r : Range} → Parsed cidr r → (r.start ≤ r.end) × (r.end < 2 ^ 32)
  Parsed-range_bounds cidr q =
      let b = parse_block_bounds cidr q.block in
      rw q.range (start-le-end q.prefix q.address b.1 b.0, end-lt q.prefix q.address b.1 b.0)

  -- `cidrOverlaps` holds exactly when both texts are blocks and some 32-bit address lies in both.
  pub cidr_overlaps_iff :
      (left right : String)
      → (cidr_overlaps other_number left right ≡ true)
        ↔ ((v : ℕ) × (v < 2 ^ 32) × InBlock left v × InBlock right v)
  unfolding cidr_overlaps
  cidr_overlaps_iff left right = (
    λ h.
        let (a, b, p, q, meet) =
          ranges_meet-some (parse_cidr other_number left) (parse_cidr other_number right) h in
        let A = Parsed-range_bounds left (parse_cidr-Parsed left p) in
        let B = Parsed-range_bounds right (parse_cidr-Parsed right q) in
        let first : (leb a.start b.end) ≡ true = ground arith in
        let second : (leb b.start a.end) ≡ true = ground arith in
        let v : ℕ = max a.start b.start in
        let in_a : (leb a.start v && leb v a.end) ≡ true =
          both (le→leb a.start v (omega arith))
            (le→leb v a.end (omega (arith, leb→le b.start a.end second))) in
        let in_b : (leb b.start v && leb v b.end) ≡ true =
          both (le→leb b.start v (omega arith))
            (le→leb v b.end (omega (arith, leb→le a.start b.end first))) in
        (
          v,
          omega (arith, leb→le b.start a.end second),
          InBlock-of_range left a v p in_a,
          InBlock-of_range right b v q in_b,
        ),
    λ found.
        let (v, small, l, r) = found in
        let (p, a) = range_of-InBlock left v l in
        let (q, b) = range_of-InBlock right v r in rw (p, q, ranges_meet) (ground arith),
  )

  -- Blocks that do not overlap have no host address in common.
  pub disjoint_blocks :
      (left right ip : String)
      → cidr_overlaps other_number left right ≡ false
      → cidr_contains other_number left ip ≡ true
      → cidr_contains other_number right ip ≡ false
  disjoint_blocks left right ip apart inside =
      elim (Bool-cases (cidr_contains other_number right ip)) [
        | inr no_ ↦ no_
        | inl both_ ↦
            let l = (cidr_contains_iff left ip).0 inside in
            let r = (cidr_contains_iff right ip).0 both_ in
            let same : r.value ≡ l.value = cc (l.host, r.host) in
            let shared = (cidr_overlaps_iff left right).1 (
              l.value,
              ipv4_to_int-lt (codes ip) l.host,
              l.inside,
              subst (InBlock right) same r.inside,
            ) in
            cc (apart, shared)
      ]
