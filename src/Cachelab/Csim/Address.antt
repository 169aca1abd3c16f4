-- ===== src/Cachelab/Csim/Address.antt =====
-- The fields of an address: block offset, set index and tag.
use sysprog2021s.Prelude.{
  ℕ, ◌+◌, ◌-◌, ◌*◌, ◌/◌, ◌%◌, ◌^◌, ◌≤◌, ◌<◌, ◌≡◌, ap, ◌∙◌, true, none, some, ltb, lt→ltb, arith,
}
use sysprog2021s.Prelude.Bits.{pow-add, two-pow-pos, mul-mod-mul, mod-div}
use native.Mathlib.Nat.{mul-div-mul_left, mod-lt, mul_comm}
use sysprog2021s.Cachelab.Csim.{Param, shift_left, shift_right, tag_of, set_of}

cut_field :
    (a t b s n : ℕ) → n ≡ t + (b + s) → (a * 2 ^ t) % 2 ^ n / 2 ^ (t + b) ≡ a / 2 ^ b % 2 ^ s
cut_field a t b s n e =
    rw (e, pow-add, pow-add, pow-add, mul_comm a (2 ^ t))
      (ap (λ (k : ℕ). k / (2 ^ t * 2 ^ b))
          (mul-mod-mul (2 ^ t) a (2 ^ b * 2 ^ s) (two-pow-pos t) product_pos)
        ∙ mul-div-mul_left (a % (2 ^ b * 2 ^ s)) (2 ^ b) (two-pow-pos t)
        ∙ mod-div a (2 ^ b) (2 ^ s) (two-pow-pos b) (two-pow-pos s))
  where
    product_pos : 0 < 2 ^ b * 2 ^ s
    product_pos = grind (arith, two-pow-pos b, two-pow-pos s)

-- For one or more set bits, and fewer than 64 bits of set and block index, the two shifts that cut the set index out of
-- an address are defined, and give the `s` bits above the `b` block bits; the tag is what stands
-- above those; and the index is below the number of sets.
pub address_fields :
    (p : Param) (addr : ℕ)
    → 0 < p.s
    → p.s + p.b < 64
    → (set_of p addr ≡ some (addr / 2 ^ p.b % 2 ^ p.s))
      × (tag_of p addr ≡ some (addr / 2 ^ (p.s + p.b)))
      × (addr / 2 ^ p.b % 2 ^ p.s < 2 ^ p.s)
unfolding set_of tag_of shift_left shift_right
address_fields p addr pos fits =
    let t = (64 + 2 ^ 33 - p.s - p.b) % 2 ^ 32 in
    let whole : 64 ≡ t + (p.b + p.s) = omega arith in
    let first : ltb t 64 ≡ true = lt→ltb t 64 (omega arith) in
    let second : ltb (t + p.b) 64 ≡ true = lt→ltb (t + p.b) 64 (omega arith) in
    let third : ltb (p.s + p.b) 64 ≡ true = lt→ltb (p.s + p.b) 64 fits in
    (
      rw (first, second) (ap some (cut_field addr t p.b p.s 64 whole)),
      rw third,
      mod-lt (addr / 2 ^ p.b) (two-pow-pos p.s),
    )

-- With no set bits (a fully associative cache) the set index is cut out by a shift of 64 bits or
-- more, which C leaves undefined.
set_of_undefined : (p : Param) (addr : ℕ) → p.s ≡ 0 → p.b ≤ 64 → set_of p addr ≡ none
unfolding set_of shift_left shift_right
set_of_undefined p addr z le = ground arith
