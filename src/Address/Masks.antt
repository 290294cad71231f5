-- ===== src/Address/Masks.antt =====
-- The IPv4 suffix mask as a power of two.
use fort_validator.Base.{
  ℕ, ◌+◌, ◌-◌, ◌*◌, ◌/◌, ◌%◌, ◌^◌, ◌≤◌, ◌≡◌, refl, true, arith, ◌==◌, all_below, all_below-at,
}
use Prim.Native.Nat.{bit_and, bit_or}
use fort_validator.Base.Bits.{bit_and-ones, bit_or-ones}
use fort_validator.Address.{u32_suffix_mask}

mask_table : all_below 33 (λ len. u32_suffix_mask len == 2 ^ (32 - len) - 1) ≡ true
unfolding all_below u32_suffix_mask
mask_table = refl

pub u32_suffix_mask-eq-ones : (len : ℕ) → len ≤ 32 → u32_suffix_mask len ≡ 2 ^ (32 - len) - 1
u32_suffix_mask-eq-ones len h =
    let t =
      all_below-at 33 (λ l. u32_suffix_mask l == 2 ^ (32 - l) - 1) len mask_table (omega arith) in
    ground arith

pub and-u32_suffix_mask :
    (len x : ℕ) → len ≤ 32 → bit_and x (u32_suffix_mask len) ≡ x % 2 ^ (32 - len)
and-u32_suffix_mask len x h = rw (u32_suffix_mask-eq-ones len h) (bit_and-ones (32 - len) x)

pub or-u32_suffix_mask :
    (len x : ℕ)
    → len ≤ 32
    → bit_or x (u32_suffix_mask len) ≡ x / 2 ^ (32 - len) * 2 ^ (32 - len) + (2 ^ (32 - len) - 1)
or-u32_suffix_mask len x h = rw (u32_suffix_mask-eq-ones len h) (bit_or-ones (32 - len) x)
