-- ===== src/Core/Cpu/Guest.antt =====
-- src/core/cpu.cpp: guest accesses through the MMU and the bus. A result is
-- `none` if the retries of a translation run out of fuel.
use homemade_risc_v_64_vecto.Base.{
  ℕ, ◌^◌, bit_and, shr, Bool, not, ◌&&◌, ◌==◌, if◌then◌else◌, Option, none, some,
}
use homemade_risc_v_64_vecto.Bus.Access.{
  AccessWidth, half_word, AccessType, AccessResult, is_ok, success,
}
use homemade_risc_v_64_vecto.Bus.Access
use homemade_risc_v_64_vecto.Bus.Region.{RegionOps}
use homemade_risc_v_64_vecto.Bus.Routing.{Bus}
use homemade_risc_v_64_vecto.Bus.Routing
use homemade_risc_v_64_vecto.Core.Trap.{
  PrivilegeMode, user, supervisor, machine, is_machine, ExceptionCause, Trap,
  instruction_access_fault, load_access_fault, store_access_fault,
}
use homemade_risc_v_64_vecto.Core.Csr.Names.{code_of, mstatus, satp}
use homemade_risc_v_64_vecto.Core.Csr.Access.{peek}
use homemade_risc_v_64_vecto.Core.Decoder.{InstructionPacket}
use homemade_risc_v_64_vecto.Core.Cpu.State.{CpuState}
use homemade_risc_v_64_vecto.Memory.Sv39.{MmuAccessKind, MmuContext, TranslationResult}
use homemade_risc_v_64_vecto.Memory.Sv39
use homemade_risc_v_64_vecto.Memory.Tlb.{Mmu}
use homemade_risc_v_64_vecto.Memory.Walk.{translate}

pub record Cpu (D : Type 0) : Type 0 where
  pub bus : Bus D
  pub mmu : Mmu
  pub state : CpuState
  pub suppress_cycle_increment : Bool
  pub suppress_instret_increment : Bool

pub record StepResult : Type 0 where
  pub retired : Bool
  pub stalled : Bool
  pub instruction_length : ℕ
  pub trap : Option Trap

pub record GuestAccessResult : Type 0 where
  pub access : AccessResult
  pub trap : Option Trap
  pub token : ℕ

abbrev pub make_trap : InstructionPacket → ExceptionCause → ℕ → Trap
make_trap packet cause value = record {
  cause = cause;
  value = value;
  program_counter = packet.program_counter;
  instruction = packet.bits;
}

unfoldable pub privilege_from_mpp : ℕ → PrivilegeMode
privilege_from_mpp status =
    let mpp = bit_and (shr status 11) 3 in
    if mpp == 1 then supervisor else if mpp == 3 then machine else user

abbrev pub access_fault_cause : MmuAccessKind → ExceptionCause
access_fault_cause Sv39.MmuAccessKind.instruction_fetch = instruction_access_fault
access_fault_cause Sv39.MmuAccessKind.load = load_access_fault
access_fault_cause Sv39.MmuAccessKind.store = store_access_fault
access_fault_cause Sv39.MmuAccessKind.atomic = store_access_fault

unfoldable pub fetch_context : CpuState → MmuContext
fetch_context s = record {
  privilege = s.privilege;
  satp = peek s.csrs (code_of satp);
  mstatus = peek s.csrs (code_of mstatus);
}

-- With mstatus.MPRV set, M-mode loads and stores with the privilege that MPP holds.
unfoldable pub data_context : CpuState → MmuContext
data_context s =
    let status = peek s.csrs (code_of mstatus) in
    record {
      privilege =
          if is_machine s.privilege && not (bit_and status (2 ^ 17) == 0)
          then privilege_from_mpp status
          else s.privilege;
      satp = peek s.csrs (code_of satp);
      mstatus = status;
    }

abbrev pub access_context : CpuState → MmuAccessKind → MmuContext
access_context s kind = if Sv39.is_fetch kind then fetch_context s else data_context s

-- What a guest access does at the physical address: the result, a reservation's token, the bus.
abbrev pub Transfer : Type 0 → Type 0
Transfer D = Bus D → ℕ → (AccessResult × ℕ) × Bus D

module _ {D : Type 0} where
  abbrev pub with_memory : Cpu D → Bus D → Mmu → Cpu D
  with_memory c b m = record c { bus = b; mmu = m }

  -- After the translation: its fault, or the transfer and the fault of a refusal by the bus.
  unfoldable pub finish_access :
      Cpu D
      → InstructionPacket
      → ℕ
      → ExceptionCause
      → Transfer D
      → Option (TranslationResult × Bus D × Mmu)
      → Option (GuestAccessResult × Cpu D)
  finish_access c packet virtual_address refused transfer none = none
  finish_access c packet virtual_address refused transfer (some (translated, b, m)) =
      elim translated.fault [
        | some fault ↦ some (
          record {
            access = success;
            trap = some (make_trap packet fault.cause fault.value);
            token = 0;
          },
          with_memory c b m,
        )
        | none ↦ elim translated.physical_address [
          | none ↦ none
          | some physical ↦
              let ((access, token), b') = transfer b physical in
              some (
                record {
                  access = access;
                  trap =
                      if not (is_ok access)
                      then some (make_trap packet refused virtual_address)
                      else none;
                  token = if not (is_ok access) then 0 else token;
                },
                with_memory c b' m,
              )
        ]
      ]

  abbrev pub without_token : AccessResult × Bus D → (AccessResult × ℕ) × Bus D
  without_token (access, b) = ((access, 0), b)

module _ {D : Type 0} (ops : RegionOps D) (fuel : ℕ) where
  unfoldable pub guest_read :
      Cpu D
      → InstructionPacket
      → ℕ
      → AccessWidth
      → MmuAccessKind
      → AccessType
      → Option (GuestAccessResult × Cpu D)
  guest_read c packet virtual_address w kind bus_type =
      finish_access c packet virtual_address (access_fault_cause kind)
        (λ b physical. without_token (Routing.read ops b physical w bus_type))
        (translate ops fuel c.bus c.mmu virtual_address w kind (access_context c.state kind))

  -- A store translates as an atomic access, so that the page must be readable too.
  unfoldable pub guest_write :
      Cpu D
      → InstructionPacket
      → ℕ
      → AccessWidth
      → ℕ
      → AccessType
      → Option (GuestAccessResult × Cpu D)
  guest_write c packet virtual_address w value bus_type =
      finish_access c packet virtual_address store_access_fault
        (λ b physical. without_token (Routing.write ops b physical w value bus_type))
        (translate ops fuel c.bus c.mmu virtual_address w Sv39.MmuAccessKind.atomic
          (data_context c.state))

  unfoldable pub guest_load_reserved :
      Cpu D → InstructionPacket → ℕ → AccessWidth → Option (GuestAccessResult × Cpu D)
  guest_load_reserved c packet virtual_address w =
      finish_access c packet virtual_address load_access_fault
        (λ b physical.
          let (loaded, b') = Routing.load_reserved ops b physical w in
          ((loaded.access, loaded.token), b'))
        (translate ops fuel c.bus c.mmu virtual_address w Sv39.MmuAccessKind.load
          (data_context c.state))

  unfoldable pub guest_store_conditional :
      Cpu D → InstructionPacket → ℕ → ℕ → AccessWidth → ℕ → Option (GuestAccessResult × Cpu D)
  guest_store_conditional c packet token virtual_address w value =
      finish_access c packet virtual_address store_access_fault
        (λ b physical. without_token (Routing.store_conditional ops b token physical w value))
        (translate ops fuel c.bus c.mmu virtual_address w Sv39.MmuAccessKind.store
          (data_context c.state))

  unfoldable pub guest_compare_exchange :
      Cpu D → InstructionPacket → ℕ → AccessWidth → ℕ → ℕ → Option (GuestAccessResult × Cpu D)
  guest_compare_exchange c packet virtual_address w expected desired =
      finish_access c packet virtual_address store_access_fault
        (λ b physical.
          without_token
            (Routing.compare_exchange ops b physical w expected desired Access.AccessType.atomic))
        (translate ops fuel c.bus c.mmu virtual_address w Sv39.MmuAccessKind.store
          (data_context c.state))
