-- ===== src/Address/Ipv6/Quadrant.antt =====
-- addr6_set_quadrant() and addr6_or_quadrant() of address.c, as arithmetic on the address.
use Prim.Native.Nat.{bit_and, bit_or}
use fort_validator.Base.{ℕ, ◌+◌, ◌-◌, ◌*◌, ◌/◌, ◌%◌, ◌^◌, ◌≤◌, ◌<◌, ◌≡◌, refl, sym, ap, ◌∙◌, arith}
use fort_validator.Base.Bits.{
  bit_and-ones, bit_or-ones, bit_or_split, bit_or-lt, two_pow_pos, two_pow-add,
}
use fort_validator.Address.{u32_suffix_mask}
use fort_validator.Address.Masks.{u32_suffix_mask-eq-ones}
use fort_validator.Address.Ipv6.{
  byte, set_byte, edit_quadrant, addr6_set_quadrant, addr6_or_quadrant,
}
use fort_validator.Address.Ipv6.Bytes.{pow256_add, div-shape, set_byte-shape}

-- A number around one of its bytes: `h` above it, `r` below it within the quadrant that ends at
-- the place `n`, and `l` below the quadrant.
abbrev around : ℕ → ℕ → ℕ → ℕ → ℕ → ℕ → ℕ
around n k h c r l = 256 ^ n * (256 ^ k * (256 * h + c) + r) + l

below : (n k r l : ℕ) → r < 256 ^ k → l < 256 ^ n → 256 ^ n * r + l < 256 ^ (n + k)
below n k r l hr hl = rw (pow256_add n k) (grind arith)

around-eq :
    (n k h c r l : ℕ) → around n k h c r l ≡ 256 ^ (n + k) * (256 * h + c) + (256 ^ n * r + l)
around-eq n k h c r l = rw (pow256_add n k) (grind arith)

set-around :
    (n k h c r l v : ℕ)
    → c < 256
    → r < 256 ^ k
    → l < 256 ^ n
    → set_byte (around n k h c r l) (n + k) v ≡ around n k h (v % 256) r l
set-around n k h c r l v hc hr hl =
    ap (λ x. set_byte x (n + k) v) (around-eq n k h c r l)
    ∙ set_byte-shape (n + k) h c (256 ^ n * r + l) v hc (below n k r l hr hl)
    ∙ sym (around-eq n k h (v % 256) r l)

byte-around :
    (n k h c r l : ℕ) → c < 256 → r < 256 ^ k → l < 256 ^ n → byte (around n k h c r l) (n + k) ≡ c
unfolding byte
byte-around n k h c r l hc hr hl =
    ap (λ x. x / 256 ^ (n + k) % 256) (around-eq n k h c r l)
    ∙ ap (λ q. q % 256)
        (div-shape (256 ^ (n + k)) (256 * h + c) (256 ^ n * r + l) (below n k r l hr hl))
    ∙ omega arith

-- A read, and a write of what it gives.
edit-around :
    (op : ℕ → ℕ → ℕ) (x m n k h c r l v : ℕ)
    → m ≡ n + k
    → x ≡ around n k h c r l
    → c < 256
    → r < 256 ^ k
    → l < 256 ^ n
    → set_byte x m (op (byte x m) v) ≡ around n k h (op c v % 256) r l
edit-around op x m n k h c r l v em e hc hr hl =
    rw (em, e, byte-around n k h c r l hc hr hl) (set-around n k h c r l (op c v) hc hr hl)

-- Four bytes as a quadrant.
abbrev quad : ℕ → ℕ → ℕ → ℕ → ℕ
quad c3 c2 c1 c0 = c3 * 2 ^ 24 + c2 * 2 ^ 16 + c1 * 2 ^ 8 + c0

-- A number around one of its quadrants.
abbrev pub around4 : ℕ → ℕ → ℕ → ℕ → ℕ
around4 n h q l = 256 ^ n * (2 ^ 32 * h + q) + l

module _ (op : ℕ → ℕ → ℕ) (quadrant h c3 c2 c1 c0 l v : ℕ) where
  abbrev n : ℕ
  n = 12 - 4 * quadrant

  abbrev u3 : ℕ
  u3 = op c3 (v / 2 ^ 24) % 256

  abbrev u2 : ℕ
  u2 = op c2 (bit_and (v / 2 ^ 16) 0xFF) % 256

  abbrev u1 : ℕ
  u1 = op c1 (bit_and (v / 2 ^ 8) 0xFF) % 256

  abbrev u0 : ℕ
  u0 = op c0 (bit_and v 0xFF) % 256

  edit_quadrant-around :
      c3 < 256
      → c2 < 256
      → c1 < 256
      → c0 < 256
      → l < 256 ^ n
      → edit_quadrant op (around4 n h (quad c3 c2 c1 c0) l) quadrant v
        ≡ around4 n h (quad u3 u2 u1 u0) l
  unfolding edit_quadrant
  edit_quadrant-around h3 h2 h1 h0 hl =
      let into : (x y : ℕ) → x ≡ y → 256 ^ n * x + l ≡ 256 ^ n * y + l =
        λ x y e. ap (λ z. 256 ^ n * z + l) e in
      let a = around4 n h (quad c3 c2 c1 c0) l in
      let s3 =
        edit-around op a (n + 3) n 3 h c3 (c2 * 2 ^ 16 + c1 * 2 ^ 8 + c0) l (v / 2 ^ 24) refl
          (into _ _ (omega arith)) h3 (omega arith) hl in
      let s2 =
        edit-around op _ (n + 2) n 2 (256 * h + u3) c2 (c1 * 2 ^ 8 + c0) l
          (bit_and (v / 2 ^ 16) 0xFF) refl (s3 ∙ into _ _ (omega arith)) h2 (omega arith) hl in
      let s1 =
        edit-around op _ (n + 1) n 1 (256 * (256 * h + u3) + u2) c1 c0 l (bit_and (v / 2 ^ 8) 0xFF)
          refl (s2 ∙ into _ _ (omega arith)) h1 (omega arith) hl in
      let s0 =
        edit-around op _ n n 0 (256 * (256 * (256 * h + u3) + u2) + u1) c0 0 l (bit_and v 0xFF)
          (omega arith) (s1 ∙ into _ _ (omega arith)) h0 (omega arith) hl in
      s0 ∙ into _ _ (omega arith)

and_byte : (x : ℕ) → bit_and x 0xFF ≡ x % 256
and_byte x = bit_and-ones 8 x

quad_bytes :
    (q : ℕ) → q < 2 ^ 32 → q ≡ quad (q / 2 ^ 24) (q / 2 ^ 16 % 256) (q / 2 ^ 8 % 256) (q % 256)
quad_bytes q h = omega arith

-- addr6_set_quadrant() replaces the quadrant.
pub set_quadrant-around :
    (quadrant h q l v : ℕ)
    → q < 2 ^ 32
    → v < 2 ^ 32
    → l < 256 ^ (12 - 4 * quadrant)
    → addr6_set_quadrant (around4 (12 - 4 * quadrant) h q l) quadrant v
      ≡ around4 (12 - 4 * quadrant) h v l
unfolding addr6_set_quadrant
set_quadrant-around quadrant h q l v hq hv hl =
    let n = 12 - 4 * quadrant in
    let e =
      edit_quadrant-around (λ old new. new) quadrant h (q / 2 ^ 24) (q / 2 ^ 16 % 256)
        (q / 2 ^ 8 % 256) (q % 256) l v (omega arith) (omega arith) (omega arith) (omega arith)
        hl in
    ap (λ z. addr6_set_quadrant (around4 n h z l) quadrant v) (quad_bytes q hq)
    ∙ e
    ∙ ap (λ z. around4 n h z l)
        (rw (and_byte (v / 2 ^ 16), and_byte (v / 2 ^ 8), and_byte v) (omega arith))

-- `|` of two quadrants, byte by byte.
or_quad :
    (q v : ℕ)
    → q < 2 ^ 32
    → v < 2 ^ 32
    → quad
        (bit_or (q / 2 ^ 24) (v / 2 ^ 24) % 256)
        (bit_or (q / 2 ^ 16 % 256) (v / 2 ^ 16 % 256) % 256)
        (bit_or (q / 2 ^ 8 % 256) (v / 2 ^ 8 % 256) % 256)
        (bit_or (q % 256) (v % 256) % 256)
      ≡ bit_or q v
or_quad q v hq hv =
    let two : (x : ℕ) → x / 2 ^ 8 / 2 ^ 8 ≡ x / 2 ^ 16 = λ x. omega arith in
    let three : (x : ℕ) → x / 2 ^ 16 / 2 ^ 8 ≡ x / 2 ^ 24 = λ x. omega arith in
    let s0 = bit_or_split 8 q v in
    let s1 = bit_or_split 8 (q / 2 ^ 8) (v / 2 ^ 8) in
    let s2 = bit_or_split 8 (q / 2 ^ 16) (v / 2 ^ 16) in
    let s1' = rw (two q, two v) at s1 in
    let s2' = rw (three q, three v) at s2 in
    let l3 = bit_or-lt 8 (q / 2 ^ 24) (v / 2 ^ 24) (omega arith) (omega arith) in
    let l2 = bit_or-lt 8 (q / 2 ^ 16 % 256) (v / 2 ^ 16 % 256) (omega arith) (omega arith) in
    let l1 = bit_or-lt 8 (q / 2 ^ 8 % 256) (v / 2 ^ 8 % 256) (omega arith) (omega arith) in
    let l0 = bit_or-lt 8 (q % 256) (v % 256) (omega arith) (omega arith) in
    omega (arith, s0, s1', s2', l3, l2, l1, l0)

-- addr6_or_quadrant() adds the bits of the value to the quadrant.
or_quadrant-around :
    (quadrant h q l v : ℕ)
    → q < 2 ^ 32
    → v < 2 ^ 32
    → l < 256 ^ (12 - 4 * quadrant)
    → addr6_or_quadrant (around4 (12 - 4 * quadrant) h q l) quadrant v
      ≡ around4 (12 - 4 * quadrant) h (bit_or q v) l
unfolding addr6_or_quadrant
or_quadrant-around quadrant h q l v hq hv hl =
    let n = 12 - 4 * quadrant in
    let e =
      edit_quadrant-around bit_or quadrant h (q / 2 ^ 24) (q / 2 ^ 16 % 256) (q / 2 ^ 8 % 256)
        (q % 256) l v (omega arith) (omega arith) (omega arith) (omega arith) hl in
    ap (λ z. addr6_or_quadrant (around4 n h z l) quadrant v) (quad_bytes q hq)
    ∙ e
    ∙ ap (λ z. around4 n h z l)
        (rw (and_byte (v / 2 ^ 16), and_byte (v / 2 ^ 8), and_byte v) (or_quad q v hq hv))

-- The suffix of `k + j` bits that begins in a quadrant above the last `k`.
abbrev pub filled : ℕ → ℕ → ℕ → ℕ
filled h q j = 2 ^ 32 * h + (q / 2 ^ j * 2 ^ j + (2 ^ j - 1))

-- The bits that addr6_or_quadrant() adds are the suffix of the quadrant.
pub or_suffix-around :
    (quadrant h q l len : ℕ)
    → q < 2 ^ 32
    → len ≤ 32
    → l < 256 ^ (12 - 4 * quadrant)
    → addr6_or_quadrant (around4 (12 - 4 * quadrant) h q l) quadrant (u32_suffix_mask len)
      ≡ 256 ^ (12 - 4 * quadrant) * filled h q (32 - len) + l
or_suffix-around quadrant h q l len hq le hl =
    let n = 12 - 4 * quadrant in
    let j = 32 - len in
    let whole : 2 ^ 32 ≡ 2 ^ j * 2 ^ len =
      ap (λ k. 2 ^ k) {x = 32} {y = j + len} (omega arith) ∙ two_pow-add j len in
    let room : 2 ^ j ≤ 2 ^ 32 = grind (arith, two_pow_pos len) in
    let m = u32_suffix_mask-eq-ones len le in
    or_quadrant-around quadrant h q l (u32_suffix_mask len) hq (omega (arith, m, two_pow_pos j)) hl
    ∙ ap (λ z. around4 n h z l) (ap (bit_or q) m ∙ bit_or-ones j q)
