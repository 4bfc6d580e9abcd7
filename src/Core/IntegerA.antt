-- ===== src/Core/IntegerA.antt =====
-- src/core/integer_a.cpp: the arithmetic of the atomic memory operations and their codes.
use homemade_risc_v_64_vecto.Base.{
  ℕ, suc, ◌+◌, ◌%◌, ◌^◌, bit_and, bit_or, bit_xor, u32, Bool, ltb, ◌==◌, if◌then◌else◌, Option,
  none, some, List, [], ◌∷◌,
}

pub data AtomicOperation : Type 0 where
  swap add exclusive_or conjunction disjunction : AtomicOperation
  minimum_signed maximum_signed minimum_unsigned maximum_unsigned : AtomicOperation

-- `signed_less<UInt>` for a type of `n + 1` bits.
unfoldable pub signed_less : ℕ → ℕ → ℕ → Bool
signed_less n lhs rhs = ltb (bit_xor lhs (2 ^ n)) (bit_xor rhs (2 ^ n))

unfoldable pub calculate : ℕ → AtomicOperation → ℕ → ℕ → ℕ
calculate n swap observed operand = operand
calculate n add observed operand = (observed + operand) % 2 ^ suc n
calculate n exclusive_or observed operand = bit_xor observed operand
calculate n conjunction observed operand = bit_and observed operand
calculate n disjunction observed operand = bit_or observed operand
calculate n minimum_signed observed operand =
    if signed_less n observed operand then observed else operand
calculate n maximum_signed observed operand =
    if signed_less n observed operand then operand else observed
calculate n minimum_unsigned observed operand = if ltb observed operand then observed else operand
calculate n maximum_unsigned observed operand = if ltb observed operand then operand else observed

-- The arms of the switch, and the switch.
abbrev pub atomic_codes : List (ℕ × AtomicOperation)
atomic_codes =
    (0x01, swap)
    ∷ (0x00, add)
    ∷ (0x04, exclusive_or)
    ∷ (0x0C, conjunction)
    ∷ (0x08, disjunction)
    ∷ (0x10, minimum_signed)
    ∷ (0x14, maximum_signed)
    ∷ (0x18, minimum_unsigned)
    ∷ (0x1C, maximum_unsigned)
    ∷ []

unfoldable pub find_operation : List (ℕ × AtomicOperation) → ℕ → Option AtomicOperation
find_operation [] function5 = none
find_operation ((code, operation) ∷ rest) function5 =
    if function5 == code then some operation else find_operation rest function5

unfoldable pub decode_atomic_operation : ℕ → Option AtomicOperation
decode_atomic_operation function5 = find_operation atomic_codes function5

unfoldable pub execute_atomic_operation : AtomicOperation → ℕ → ℕ → Bool → ℕ
execute_atomic_operation operation observed operand word_operation =
    if word_operation
    then calculate 31 operation (u32 observed) (u32 operand)
    else calculate 63 operation observed operand
