-- ===== src/Bus/Access.antt =====
-- include/rvemu/bus/access.hpp and physical_address.hpp: widths, access types, structured errors
-- and the result that reads, writes and compare-exchanges share. A physical address is its 64-bit
-- value; the `detail` text of an error, which is for people only, is left out.
use Prim.Native.String.{String}
use homemade_risc_v_64_vecto.Base.{ℕ, Bool, true, false}

-- `unnamed` is a value of the enumeration's underlying type that no enumerator has.
pub data AccessWidth : Type 0 where
  byte half_word word double_word : AccessWidth
  unnamed : ℕ → AccessWidth

abbrev pub width_in_bytes : AccessWidth → ℕ
width_in_bytes byte = 1
width_in_bytes half_word = 2
width_in_bytes word = 4
width_in_bytes double_word = 8
width_in_bytes (unnamed n) = 0

pub data AccessType : Type 0 where
  instruction_fetch load store atomic dma_read dma_write initialization : AccessType

pub data BusErrorCode : Type 0 where
  no_error invalid_width address_overflow unmapped out_of_bounds : BusErrorCode
  read_only region_overlap invalid_region backend_failure : BusErrorCode

pub record BusError : Type 0 where
  pub code : BusErrorCode
  pub address : ℕ
  pub size : ℕ
  pub region : String

abbrev pub empty_error : BusError
empty_error = record { code = no_error; address = 0; size = 0; region = "" }

pub record AccessResult : Type 0 where
  pub error : BusError
  pub value : ℕ
  pub exchanged : Bool

abbrev pub is_no_error : BusErrorCode → Bool
is_no_error no_error = true
is_no_error _ = false

-- `AccessResult::ok`.
abbrev pub is_ok : AccessResult → Bool
is_ok r = is_no_error r.error.code

abbrev pub success_with : ℕ → Bool → AccessResult
success_with v e = record { error = empty_error; value = v; exchanged = e }

-- `AccessResult::success()` and `AccessResult::success(v)`: the default arguments written out.
abbrev pub success : AccessResult
success = success_with 0 false

abbrev pub success_value : ℕ → AccessResult
success_value v = success_with v false

abbrev pub failure : BusError → AccessResult
failure e = record { error = e; value = 0; exchanged = false }

abbrev pub is_dma_write : AccessType → Bool
is_dma_write dma_write = true
is_dma_write _ = false
