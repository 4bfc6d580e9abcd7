-- ===== src/Vector/State.antt =====
-- src/vector/vector_state.cpp: the vector registers as bytes. `none` is the exception of an index out
-- of range.
use homemade_risc_v_64_vecto.Base.{
  ℕ, leb, ◌||◌, if◌then◌else◌, Option, none, some, List, [], get_or, set, replicate,
}

abbrev pub register_count : ℕ
register_count = 32

abbrev pub register_bytes : ℕ
register_bytes = 32

pub record VectorState : Type 0 where
  pub registers : List (List ℕ)

abbrev pub reset_vectors : VectorState
reset_vectors = record { registers = replicate register_count (replicate register_bytes 0) }

unfoldable pub register_value : VectorState → ℕ → Option (List ℕ)
register_value s index =
    if leb register_count index then none else some (get_or s.registers index [])

unfoldable pub set_register_value : VectorState → ℕ → List ℕ → Option VectorState
set_register_value s index value =
    if leb register_count index
    then none
    else some (record s { registers = set s.registers index value })

unfoldable pub byte_value : VectorState → ℕ → ℕ → Option ℕ
byte_value s register_index byte_index =
    if leb register_count register_index || leb register_bytes byte_index
    then none
    else some (get_or (get_or s.registers register_index []) byte_index 0)

unfoldable pub set_byte_value : VectorState → ℕ → ℕ → ℕ → Option VectorState
set_byte_value s register_index byte_index value =
    if leb register_count register_index || leb register_bytes byte_index
    then none
    else some (record s {
      registers =
          set s.registers register_index
            (set (get_or s.registers register_index []) byte_index value);
    })
