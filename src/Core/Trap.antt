-- ===== src/Core/Trap.antt =====
-- include/rvemu/core/trap.hpp: privilege modes, causes, and the codes that they stand for.
use homemade_risc_v_64_vecto.Base.{ℕ, Bool, true, false}

pub data PrivilegeMode : Type 0 where
  user supervisor machine : PrivilegeMode

abbrev pub privilege_rank : PrivilegeMode → ℕ
privilege_rank user = 0
privilege_rank supervisor = 1
privilege_rank machine = 3

abbrev pub is_user : PrivilegeMode → Bool
is_user user = true
is_user _ = false

abbrev pub is_supervisor : PrivilegeMode → Bool
is_supervisor supervisor = true
is_supervisor _ = false

abbrev pub is_machine : PrivilegeMode → Bool
is_machine machine = true
is_machine _ = false

pub data ExceptionCause : Type 0 where
  instruction_address_misaligned instruction_access_fault illegal_instruction : ExceptionCause
  breakpoint load_address_misaligned load_access_fault : ExceptionCause
  store_address_misaligned store_access_fault : ExceptionCause
  environment_call_from_user environment_call_from_supervisor : ExceptionCause
  environment_call_from_machine : ExceptionCause
  instruction_page_fault load_page_fault store_page_fault : ExceptionCause

abbrev pub exception_code : ExceptionCause → ℕ
exception_code instruction_address_misaligned = 0
exception_code instruction_access_fault = 1
exception_code illegal_instruction = 2
exception_code breakpoint = 3
exception_code load_address_misaligned = 4
exception_code load_access_fault = 5
exception_code store_address_misaligned = 6
exception_code store_access_fault = 7
exception_code environment_call_from_user = 8
exception_code environment_call_from_supervisor = 9
exception_code environment_call_from_machine = 11
exception_code instruction_page_fault = 12
exception_code load_page_fault = 13
exception_code store_page_fault = 15

pub data InterruptCause : Type 0 where
  supervisor_software machine_software supervisor_timer : InterruptCause
  machine_timer supervisor_external machine_external : InterruptCause

abbrev pub interrupt_code : InterruptCause → ℕ
interrupt_code supervisor_software = 1
interrupt_code machine_software = 3
interrupt_code supervisor_timer = 5
interrupt_code machine_timer = 7
interrupt_code supervisor_external = 9
interrupt_code machine_external = 11

pub record Trap : Type 0 where
  pub cause : ExceptionCause
  pub value : ℕ
  pub program_counter : ℕ
  pub instruction : ℕ
