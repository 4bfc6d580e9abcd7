-- ===== src/Memory/Sv39.antt =====
-- src/memory/mmu.cpp and include/rvemu/memory/mmu.hpp: the Sv39 format, permissions and the physical
-- address that a leaf entry gives.
use homemade_risc_v_64_vecto.Base.{
  ℕ, ◌+◌, ◌-◌, ◌*◌, ◌/◌, ◌^◌, bit_or, bit_and, add64, shl64, shr, Bool, true, false, not, ◌||◌,
  ◌&&◌, ltb, leb, ◌==◌, if◌then◌else◌, Option,
}
use homemade_risc_v_64_vecto.Core.Trap.{
  PrivilegeMode, is_user, is_supervisor, ExceptionCause, instruction_page_fault, load_page_fault,
  store_page_fault,
}

pub data MmuAccessKind : Type 0 where
  instruction_fetch load store atomic : MmuAccessKind

pub record MmuContext : Type 0 where
  pub privilege : PrivilegeMode
  pub satp : ℕ
  pub mstatus : ℕ

pub record MmuFault : Type 0 where
  pub cause : ExceptionCause
  pub value : ℕ

pub record TranslationResult : Type 0 where
  pub physical_address : Option ℕ
  pub fault : Option MmuFault

abbrev pub pte_valid_flag : ℕ
pte_valid_flag = 1

abbrev pub pte_read_flag : ℕ
pte_read_flag = 2

abbrev pub pte_write_flag : ℕ
pte_write_flag = 4

abbrev pub pte_execute_flag : ℕ
pte_execute_flag = 8

abbrev pub pte_user_flag : ℕ
pte_user_flag = 16

abbrev pub pte_global_flag : ℕ
pte_global_flag = 32

abbrev pub pte_accessed_flag : ℕ
pte_accessed_flag = 64

abbrev pub pte_dirty_flag : ℕ
pte_dirty_flag = 128

-- `(flags & flag) != 0U`.
abbrev pub has : ℕ → ℕ → Bool
has flags flag = not (bit_and flags flag == 0)

abbrev pub satp_mode : ℕ → ℕ
satp_mode satp = shr satp 60

abbrev pub satp_asid : ℕ → ℕ
satp_asid satp = bit_and (shr satp 44) 0xFFFF

abbrev pub satp_root_ppn : ℕ → ℕ
satp_root_ppn satp = bit_and satp (2 ^ 44 - 1)

abbrev pub vpn : ℕ → ℕ → ℕ
vpn virtual_address level = bit_and (shr virtual_address (12 + 9 * level)) 0x1FF

abbrev pub pte_ppn : ℕ → ℕ
pte_ppn pte = bit_and (shr pte 10) (2 ^ 44 - 1)

abbrev pub pte_flags : ℕ → ℕ
pte_flags pte = bit_and pte 0x3FF

unfoldable pub canonical_sv39 : ℕ → Bool
canonical_sv39 virtual_address =
    let sign = bit_and (shr virtual_address 38) 1 in
    let high = shr virtual_address 39 in if sign == 0 then high == 0 else high == 2 ^ 25 - 1

unfoldable pub pte_valid : ℕ → Bool
pte_valid flags =
    has flags pte_valid_flag && not (has flags pte_write_flag && not (has flags pte_read_flag))

abbrev pub pte_leaf : ℕ → Bool
pte_leaf flags = has flags (bit_or pte_read_flag pte_execute_flag)

abbrev pub page_size_for_level : ℕ → ℕ
page_size_for_level level = shl64 4096 (9 * level)

abbrev pub virtual_page_for_level : ℕ → ℕ → ℕ
virtual_page_for_level virtual_address level = virtual_address / page_size_for_level level

-- The sum, and whether it wrapped.
abbrev pub add_overflows : ℕ → ℕ → Bool × ℕ
add_overflows lhs rhs = (ltb (add64 lhs rhs) lhs, add64 lhs rhs)

abbrev pub page_fault_cause : MmuAccessKind → ExceptionCause
page_fault_cause instruction_fetch = instruction_page_fault
page_fault_cause load = load_page_fault
page_fault_cause store = store_page_fault
page_fault_cause atomic = store_page_fault

abbrev pub page_fault : MmuAccessKind → ℕ → MmuFault
page_fault kind virtual_address = record { cause = page_fault_cause kind; value = virtual_address }

abbrev pub is_fetch : MmuAccessKind → Bool
is_fetch instruction_fetch = true
is_fetch _ = false

-- `kind == Store || kind == Atomic`.
abbrev pub writes : MmuAccessKind → Bool
writes store = true
writes atomic = true
writes _ = false

-- The second half of `permission_allows`: the switch on the kind of the access.
abbrev pub kind_allowed : ℕ → MmuAccessKind → ℕ → Bool
kind_allowed flags instruction_fetch mstatus = has flags pte_execute_flag
kind_allowed flags load mstatus =
    has flags pte_read_flag || (has mstatus (2 ^ 19) && has flags pte_execute_flag)
kind_allowed flags store mstatus = has flags pte_write_flag
kind_allowed flags atomic mstatus = has flags pte_read_flag && has flags pte_write_flag

unfoldable pub permission_allows : ℕ → MmuAccessKind → MmuContext → Bool
permission_allows flags kind context =
    let user_page = has flags pte_user_flag in
    if is_user context.privilege && not user_page
    then false
    else if is_supervisor context.privilege
        && user_page
        && (is_fetch kind || not (has context.mstatus (2 ^ 18)))
    then false
    else kind_allowed flags kind context.mstatus

unfoldable pub superpage_aligned : ℕ → ℕ → Bool
superpage_aligned ppn level =
    if level == 2
    then bit_and ppn (2 ^ 18 - 1) == 0
    else if level == 1
    then bit_and ppn (2 ^ 9 - 1) == 0
    else true

unfoldable pub compose_physical_address : ℕ → ℕ → ℕ → ℕ
compose_physical_address virtual_address ppn level =
    let page_offset = bit_and virtual_address 4095 in
    let ppn0 = if level == 0 then bit_and ppn 0x1FF else vpn virtual_address 0 in
    let ppn1 = if leb level 1 then bit_and (shr ppn 9) 0x1FF else vpn virtual_address 1 in
    let ppn2 = bit_and (shr ppn 18) (2 ^ 26 - 1) in
    bit_or (bit_or (bit_or (shl64 ppn2 30) (shl64 ppn1 21)) (shl64 ppn0 12)) page_offset
