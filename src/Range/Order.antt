-- ===== src/Range/Order.antt =====
-- What the comparison callbacks say of two ranges, as an interface that every callback fills.
use fort_validator.Base.{◌+◌, ◌≤◌, ◌<◌, ◌≡◌, arith}
use fort_validator.SortedArray.{
  Comparison, equal, child, parent, left, right, adjacent_left, adjacent_right, intersection,
}
use fort_validator.Range.{Node, asn_cmp, r4_cmp}

-- `a` holds every number of `b`.
abbrev pub Covers : Node → Node → Type 0
Covers a b = (a.min ≤ b.min) × (b.max ≤ a.max)

abbrev pub Verdict : Comparison → Node → Node → Type 0
Verdict equal a b = (a.min ≡ b.min) × (a.max ≡ b.max)
Verdict child a b = Covers a b
Verdict parent a b = Covers b a × ¬ (Covers a b)
Verdict left a b = b.max + 1 < a.min
Verdict right a b = a.max + 1 < b.min
Verdict adjacent_left a b = b.max + 1 ≡ a.min
Verdict adjacent_right a b = a.max + 1 ≡ b.min
Verdict intersection a b = (a.min ≤ b.max) × (b.min ≤ a.max) × ¬ (Covers a b)

-- `cmp` compares the elements as the ranges that `node` reads them as.
pub record IsRangeCmp {A : Type 0} (cmp : A → A → Comparison) (node : A → Node) : Type 0 where
  pub verdict : (a b : A) → Verdict (cmp a b) (node a) (node b)

-- The result of asn_cmp() says how the two ranges lie: equal, one within the other, apart on one
-- side, adjacent on one side, or overlapping.
pub asn_cmp-Verdict : (a b : Node) → Verdict (asn_cmp a b) a b
unfolding asn_cmp
asn_cmp-Verdict a b = ground arith

-- The two callbacks are one function.
pub r4_cmp-eq-asn_cmp : (a b : Node) → r4_cmp a b ≡ asn_cmp a b
unfolding asn_cmp r4_cmp
r4_cmp-eq-asn_cmp a b = ground arith

-- The callback of asn.c compares ranges.
pub asn_cmp-IsRangeCmp : IsRangeCmp asn_cmp (λ n. n)
asn_cmp-IsRangeCmp = record { verdict = asn_cmp-Verdict }
