-- ===== src/Kademlia/Words.antt =====
-- KademliaPeer.cpp, getBinaryId: the bits of an id and the word they spell.
use native.Mathlib.Nat.{
  mod-lt, mod-eq_of_lt, mod-add-div', pow-succ', one-le-pow, mul-add-mod_self_right,
}
use quantas.Common.{
  ℕ, zero, suc, ◌<◌, ◌≤◌, ◌+◌, ◌*◌, ◌/◌, ◌%◌, ◌^◌, ◌≡◌, refl, sym, ap, ◌∙◌, Bool, false, List, [],
  ◌∷◌, length, leb, ◌==◌, arith, if◌then◌else◌,
}
use quantas.Kademlia.{get_binary_id}

-- The word of a list of bits, the highest first.
pub value_of : List Bool → ℕ
value_of [] = 0
value_of (b ∷ bs) = (if b then 2 ^ length bs else 0) + value_of bs

length-get_binary_id : (size id : ℕ) → length (get_binary_id size id) ≡ size
unfolding get_binary_id
length-get_binary_id zero id = refl
length-get_binary_id (suc size) id = ap suc (length-get_binary_id size id)

split_below : (b p r : ℕ) → b < 2 → r < p → b * p + r < 2 * p
split_below zero p r bit below = omega (arith, below)
split_below (suc zero) p r bit below = omega (arith, below)
split_below (suc (suc b)) p r bit below = absurd (omega (arith, bit))

bit_word : (b w : ℕ) → b < 2 → (if b == 1 then w else 0) ≡ b * w
bit_word zero w bit = omega arith
bit_word (suc zero) w bit = omega arith
bit_word (suc (suc b)) w bit = absurd (omega (arith, bit))

regroup : (r b h p : ℕ) → r + (b + h * 2) * p ≡ h * (2 * p) + (b * p + r)
regroup r b h p = omega arith

-- The bit of weight `p` and the word below it make the word that ends with that bit.
mod_double : (id p : ℕ) → 0 < p → id % (2 * p) ≡ (id / p % 2) * p + id % p
mod_double id p positive =
    let q : ℕ = id / p in
    let whole : id % p + q * p ≡ id = mod-add-div' id p in
    let halves : q % 2 + q / 2 * 2 ≡ q = mod-add-div' q 2 in
    let below : id % p < p = mod-lt id positive in
    let bit : q % 2 < 2 = mod-lt q (omega arith) in
    let small : (q % 2) * p + id % p < 2 * p = split_below (q % 2) p (id % p) bit below in
    let again : id ≡ (q / 2) * (2 * p) + ((q % 2) * p + id % p) =
      sym whole ∙ ap (λ x. id % p + x * p) (sym halves) ∙ regroup (id % p) (q % 2) (q / 2) p in
    ap (λ x. x % (2 * p)) again
    ∙ mul-add-mod_self_right (q / 2) (2 * p) ((q % 2) * p + id % p)
    ∙ mod-eq_of_lt small

-- The bits that getBinaryId writes, the highest first, spell the id it was given, less the part
-- that does not fit in their number; they are at most the 64 bits of the word it masks.
pub value_of-get_binary_id :
    (size id : ℕ) → size ≤ 64 → value_of (get_binary_id size id) ≡ id % 2 ^ size
unfolding value_of get_binary_id
value_of-get_binary_id zero id fits = omega arith
value_of-get_binary_id (suc size) id fits =
    let narrow : leb 64 size ≡ false = ground arith in
    let bit : id / 2 ^ size % 2 < 2 = mod-lt (id / 2 ^ size) (omega arith) in
    let positive : 0 < 2 ^ size = one-le-pow size 2 (omega arith) in
    rw
      (
        narrow,
        length-get_binary_id size id,
        value_of-get_binary_id size id (omega (arith, fits)),
        bit_word (id / 2 ^ size % 2) (2 ^ size) bit,
      )
      (sym (mod_double id (2 ^ size) positive) ∙ ap (λ x. id % x) (sym (pow-succ' 2 size)))
