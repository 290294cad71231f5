-- ===== src/Rtr/Pdu/Bytes.antt =====
-- rtr/primitive_writer.c and rtr/primitive_reader.c: integers in network byte order. A reader is
-- given the bytes that are left and returns those that are left after it; bytes that are combined
-- with `|` have no bits in common, so the model adds them.
use fort_validator.Base.{ℕ, zero, suc, ◌+◌, ◌*◌, ◌/◌, ◌%◌, ◌^◌, List, [], ◌∷◌}
use fort_validator.Base.Results.{Result, ok, err, crit, einval, one, ◌>>=◌}

abbrev pub Read : Type 0 → Type 0
Read A = List ℕ → Result (A × List ℕ)

-- The value of `a || b || …`, where the calls return 0 or an error.
abbrev pub disjunction : {A : Type 0} → Result A → Result A
disjunction crit = crit
disjunction (err e) = err one
disjunction (ok a) = ok a

unfoldable pub write_int8 : ℕ → List ℕ
write_int8 value = value % 2 ^ 8 ∷ []

unfoldable pub write_int16 : ℕ → List ℕ
write_int16 value = value / 2 ^ 8 % 2 ^ 8 ∷ value % 2 ^ 8 ∷ []

unfoldable pub write_int32 : ℕ → List ℕ
write_int32 value =
    value / 2 ^ 24 % 2 ^ 8 ∷ value / 2 ^ 16 % 2 ^ 8 ∷ value / 2 ^ 8 % 2 ^ 8 ∷ value % 2 ^ 8 ∷ []

-- The argument is ntohl(value.s_addr).
unfoldable pub write_in_addr : ℕ → List ℕ
unfolding write_int32
write_in_addr value = write_int32 value

-- The loop of write_in6_addr(), over the bytes of the address.
unfoldable pub write_in6_addr : List ℕ → List ℕ
write_in6_addr [] = []
write_in6_addr (b ∷ bytes) = b % 2 ^ 8 ∷ write_in6_addr bytes

unfoldable pub read_int8 : Read ℕ
read_int8 (a ∷ rest) = ok (a, rest)
read_int8 _ = err einval

unfoldable pub read_int16 : Read ℕ
read_int16 (a ∷ b ∷ rest) = ok (a * 2 ^ 8 + b, rest)
read_int16 _ = err einval

unfoldable pub read_int32 : Read ℕ
read_int32 (a ∷ b ∷ c ∷ d ∷ rest) = ok (a * 2 ^ 24 + b * 2 ^ 16 + c * 2 ^ 8 + d, rest)
read_int32 _ = err einval

-- The number read is stored in s_addr, without htonl(); the result is ntohl() of that.
unfoldable pub read_in_addr : (ℕ → ℕ) → Read ℕ
unfolding read_int32
read_in_addr ntohl buf = do (value, rest) ← read_int32 buf; ok (ntohl value, rest)

-- The loop of read_in6_addr(), for the number of bytes still to read.
unfoldable pub read_in6_addr : ℕ → Read (List ℕ)
unfolding read_int8
read_in6_addr zero buf = ok ([], buf)
read_in6_addr (suc n) buf = do
  (b, rest) ← read_int8 buf
  (bytes, rest1) ← read_in6_addr n rest
  ok (b ∷ bytes, rest1)
