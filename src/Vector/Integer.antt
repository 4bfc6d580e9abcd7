-- ===== src/Vector/Integer.antt =====
-- src/vector/vector_integer.cpp: decoding and arithmetic of the vector integer instructions.
use homemade_risc_v_64_vecto.Base.{
  ℕ, ◌+◌, ◌-◌, ◌*◌, ◌/◌, ◌%◌, ◌^◌, bit_and, bit_or, u64, sub64, shr, Bool, true, false, not, ◌&&◌,
  ◌==◌, if◌then◌else◌, Option, none, some, List, [], ◌∷◌,
}
use homemade_risc_v_64_vecto.Core.IntegerM.{differs}

pub data VectorIntegerOperation : Type 0 where
  add subtract multiply divide_unsigned divide_signed : VectorIntegerOperation
  remainder_unsigned remainder_signed : VectorIntegerOperation

pub data VectorIntegerOperandForm : Type 0 where
  vector_vector vector_scalar vector_immediate : VectorIntegerOperandForm

pub record VectorIntegerInstruction : Type 0 where
  pub operation : VectorIntegerOperation
  pub form : VectorIntegerOperandForm
  pub masked : Bool
  pub destination : ℕ
  pub source2 : ℕ
  pub source1 : ℕ

unfoldable pub mask_for : ℕ → ℕ
mask_for width = if width == 64 then 2 ^ 64 - 1 else 2 ^ width - 1

unfoldable pub negative : ℕ → ℕ → Bool
negative value width = not (bit_and value (2 ^ (width - 1)) == 0)

unfoldable pub negate : ℕ → ℕ → ℕ
negate value mask = bit_and (sub64 0 value) mask

-- On operands already reduced to the element's width.
unfoldable pub signed_divide : ℕ → ℕ → ℕ → ℕ
signed_divide lhs rhs width =
    let mask = mask_for width in
    let dividend = bit_and lhs mask in
    let divisor = bit_and rhs mask in
    let lhs_negative = negative dividend width in
    let rhs_negative = negative divisor width in
    let quotient =
      (if lhs_negative then negate dividend mask else dividend)
      / (if rhs_negative then negate divisor mask else divisor) in
    if divisor == 0
    then mask
    else if dividend == 2 ^ (width - 1) && divisor == mask
    then dividend
    else if differs lhs_negative rhs_negative
    then negate quotient mask
    else quotient

abbrev pub vector_integer_codes : List (ℕ × VectorIntegerOperation)
vector_integer_codes =
    (0x00, add)
    ∷ (0x02, subtract)
    ∷ (0x25, multiply)
    ∷ (0x20, divide_unsigned)
    ∷ (0x21, divide_signed)
    ∷ (0x22, remainder_unsigned)
    ∷ (0x23, remainder_signed)
    ∷ []

unfoldable pub find_vector_operation :
    List (ℕ × VectorIntegerOperation) → ℕ → Option VectorIntegerOperation
find_vector_operation [] funct6 = none
find_vector_operation ((code, operation) ∷ rest) funct6 =
    if funct6 == code then some operation else find_vector_operation rest funct6

unfoldable pub decode_operand_form : ℕ → Option VectorIntegerOperandForm
decode_operand_form funct3 =
    if funct3 == 0
    then some vector_vector
    else if funct3 == 4
    then some vector_scalar
    else if funct3 == 3
    then some vector_immediate
    else none

abbrev pub is_add : VectorIntegerOperation → Bool
is_add add = true
is_add _ = false

abbrev pub is_immediate : VectorIntegerOperandForm → Bool
is_immediate vector_immediate = true
is_immediate _ = false

unfoldable pub vector_integer_fields :
    ℕ
    → Option VectorIntegerOperandForm
    → Option VectorIntegerOperation
    → Option VectorIntegerInstruction
vector_integer_fields instruction none operation = none
vector_integer_fields instruction (some form) none = none
vector_integer_fields instruction (some form) (some operation) =
    if is_immediate form && not (is_add operation)
    then none
    else some (record {
      operation = operation;
      form = form;
      masked = bit_and instruction (2 ^ 25) == 0;
      destination = bit_and (shr instruction 7) 0x1F;
      source2 = bit_and (shr instruction 20) 0x1F;
      source1 = bit_and (shr instruction 15) 0x1F;
    })

unfoldable pub decode_vector_integer_instruction : ℕ → Option VectorIntegerInstruction
decode_vector_integer_instruction instruction =
    vector_integer_fields instruction (decode_operand_form (bit_and (shr instruction 12) 7))
      (find_vector_operation vector_integer_codes (bit_and (shr instruction 26) 0x3F))

-- The switch of `execute_vector_integer_operation`, on the masked operands.
unfoldable pub element_result : VectorIntegerOperation → ℕ → ℕ → ℕ → ℕ
element_result add lhs rhs width = bit_and (u64 (lhs + rhs)) (mask_for width)
element_result subtract lhs rhs width = bit_and (sub64 lhs rhs) (mask_for width)
element_result multiply lhs rhs width = bit_and (u64 (lhs * rhs)) (mask_for width)
element_result divide_unsigned lhs rhs width = if rhs == 0 then mask_for width else lhs / rhs
element_result remainder_unsigned lhs rhs width = if rhs == 0 then lhs else lhs % rhs
element_result divide_signed lhs rhs width = signed_divide lhs rhs width
element_result remainder_signed lhs rhs width =
    if rhs == 0
    then lhs
    else if lhs == 2 ^ (width - 1) && rhs == mask_for width
    then 0
    else bit_and (sub64 lhs (u64 (signed_divide lhs rhs width * rhs))) (mask_for width)

unfoldable pub execute_vector_integer_operation : VectorIntegerOperation → ℕ → ℕ → ℕ → ℕ
execute_vector_integer_operation operation lhs rhs sew_bits =
    element_result operation (bit_and lhs (mask_for sew_bits)) (bit_and rhs (mask_for sew_bits))
      sew_bits

unfoldable pub sign_extend_vector_immediate : ℕ → ℕ → ℕ
sign_extend_vector_immediate immediate sew_bits =
    bit_and (if not (bit_and immediate 0x10 == 0) then bit_or immediate 0xE0 else immediate)
      (mask_for sew_bits)
