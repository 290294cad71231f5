-- ===== src/Address/Ipv6/Bytes.antt =====
-- The bytes of an IPv6 address, as numbers.
use fort_validator.Base.{ℕ, zero, suc, ◌+◌, ◌*◌, ◌/◌, ◌%◌, ◌^◌, ◌<◌, ◌≡◌, ap, ◌∙◌, arith}
use native.Mathlib.Nat.{
  pow-suc, one-le-pow, div-add-mod, mod-lt, mul-add-div, mul-add-mod_self_left, div-eq_of_lt,
  mod-eq_of_lt, mul-div_cancel, mul-mod_left,
}
use fort_validator.Address.Ipv6.{byte, set_byte}

pub pow256_pos : (n : ℕ) → 0 < 256 ^ n
pow256_pos n = one-le-pow n 256 (omega arith)

pub pow256_suc : (n : ℕ) → 256 ^ suc n ≡ 256 * 256 ^ n
pow256_suc n = omega (arith, pow-suc 256 n)

-- The quotient and the remainder of a number that is written in terms of a divisor.
pub div-shape : (p h l : ℕ) → l < p → (p * h + l) / p ≡ h
div-shape p h l lt = rw (mul-add-div {m = p} (omega arith) h l, div-eq_of_lt lt) (omega arith)

pub mod-shape : (p h l : ℕ) → l < p → (p * h + l) % p ≡ l
mod-shape p h l lt = mul-add-mod_self_left p h l ∙ mod-eq_of_lt lt

-- A remainder by a product.
pub mod-product : (p w x : ℕ) → 0 < p → 0 < w → x % (p * w) ≡ p * (x / p % w) + x % p
mod-product p w x hp hw =
    let q = x / p in
    let small : p * (q % w) + x % p < p * w = grind (arith, mod-lt x hp, mod-lt q hw) in
    let whole : x ≡ p * w * (q / w) + (p * (q % w) + x % p) =
      omega (arith, div-add-mod x p, ap (λ z. p * z) (div-add-mod q w)) in
    ap (λ y. y % (p * w)) whole ∙ mod-shape (p * w) (q / w) (p * (q % w) + x % p) small

pub mod-byte : (n x : ℕ) → x % 256 ^ suc n ≡ 256 ^ n * byte x n + x % 256 ^ n
unfolding byte
mod-byte n x =
    let e : 256 ^ suc n ≡ 256 ^ n * 256 = omega (arith, pow256_suc n) in
    rw e (mod-product (256 ^ n) 256 x (pow256_pos n) (omega arith))

pub byte-lt : (a n : ℕ) → byte a n < 256
unfolding byte
byte-lt a n = omega arith

-- The effect of a write, on a number that is written in terms of the byte.
pub set_byte-shape :
    (n h b l v : ℕ)
    → b < 256
    → l < 256 ^ n
    → let p = 256 ^ n in set_byte (p * (256 * h + b) + l) n v ≡ p * (256 * h + v % 256) + l
unfolding set_byte byte
set_byte-shape n h b l v hb hl =
    let p = 256 ^ n in
    let e : (p * (256 * h + b) + l) / p % 256 ≡ b =
      ap (λ q. q % 256) (div-shape p (256 * h + b) l hl) ∙ omega arith in
    rw e (grind arith)

pub pow256_add : (a b : ℕ) → 256 ^ (a + b) ≡ 256 ^ a * 256 ^ b
pow256_add zero b = let e : zero + b ≡ b = omega arith in rw e (omega arith)
pow256_add (suc a) b =
    let e : suc a + b ≡ suc (a + b) = omega arith in
    rw e (omega (arith, pow256_suc (a + b), pow256_add a b, ap (λ p. p * 256 ^ b) (pow256_suc a)))

-- The byte where a multiple of its place begins, and a write of it.
pub byte-multiple : (i h : ℕ) → byte (h * 256 ^ i) i ≡ h % 256
unfolding byte
byte-multiple i h = ap (λ q. q % 256) (mul-div_cancel h (pow256_pos i))

pub set_byte-multiple :
    (i h v : ℕ) → set_byte (h * 256 ^ i) i v ≡ (256 * (h / 256) + v % 256) * 256 ^ i
set_byte-multiple i h v =
    let p = 256 ^ i in
    let shape : h * p ≡ p * (256 * (h / 256) + h % 256) + 0 =
      omega (arith, ap (λ q. q * p) (div-add-mod h 256)) in
    ap (λ x. set_byte x i v) shape
    ∙ set_byte-shape i (h / 256) (h % 256) 0 v (omega arith) (pow256_pos i)
    ∙ omega arith

pub mod-multiple : (p w h : ℕ) → 0 < p → 0 < w → h * p % (p * w) ≡ p * (h % w)
mod-multiple p w h hp hw =
    mod-product p w (h * p) hp hw ∙ rw (mul-div_cancel h {n = p} hp, mul-mod_left h p) (omega arith)
