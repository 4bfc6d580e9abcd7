-- ===== src/Devices/Plic.antt =====
-- src/devices/plic.cpp: the platform-level interrupt controller, with a machine context (0) and a
-- supervisor context (1). Arrays indexed by source have an unused entry 0.
use homemade_risc_v_64_vecto.Base.{
  ℕ, zero, suc, ◌+◌, ◌-◌, ◌*◌, ◌/◌, ◌^◌, bit_or, bit_and, u8, u32, add64, Bool, true, false, not,
  ◌||◌, ◌&&◌, ltb, leb, ◌==◌, if◌then◌else◌, List, get_or, set, replicate,
}
use homemade_risc_v_64_vecto.Bus.Access.{
  AccessWidth, AccessType, AccessResult, BusErrorCode, width_in_bytes, success, success_value,
  failure,
}
use homemade_risc_v_64_vecto.Core.Trap.{machine_external, supervisor_external}
use homemade_risc_v_64_vecto.Core.Csr.State.{CsrFile}
use homemade_risc_v_64_vecto.Core.Csr.Context.{set_interrupt_pending}
use homemade_risc_v_64_vecto.Devices.Clint.{is_word}
use homemade_risc_v_64_vecto.Devices.Map.{plic}

abbrev pub source_count : ℕ
source_count = 31

abbrev pub pending_offset : ℕ
pending_offset = 0x1000

abbrev pub enable_offset : ℕ → ℕ
enable_offset context = if context == 0 then 0x2000 else 0x2080

abbrev pub context_offset : ℕ → ℕ
context_offset context = if context == 0 then 0x200000 else 0x201000

abbrev pub priority_mask : ℕ
priority_mask = 7

pub record Plic : Type 0 where
  pub priority : List ℕ
  pub level : List Bool
  pub pending : List Bool
  pub claimed_by : List ℕ
  pub enable : List ℕ
  pub threshold : List ℕ

abbrev pub new_plic : Plic
new_plic = record {
  priority = replicate (source_count + 1) 0;
  level = replicate (source_count + 1) false;
  pending = replicate (source_count + 1) false;
  claimed_by = replicate (source_count + 1) 0;
  enable = replicate 2 0;
  threshold = replicate 2 0;
}

abbrev pub unsupported_access : ℕ → AccessWidth → AccessResult
unsupported_access offset w = failure (record {
  code = BusErrorCode.invalid_width;
  address = add64 plic.base offset;
  size = width_in_bytes w;
  region = plic.name;
})

unfoldable pub set_source_level : Plic → ℕ → Bool → Plic
set_source_level p source asserted =
    if source == 0 || ltb source_count source then p else record p {
      level = set p.level source asserted;
      pending =
          if asserted && get_or p.claimed_by source 0 == 0
          then set p.pending source true
          else p.pending;
    }

-- A source that this context could take now.
unfoldable pub is_candidate : Plic → ℕ → ℕ → Bool
is_candidate p context source =
    get_or p.pending source false
    && get_or p.claimed_by source 0 == 0
    && not (bit_and (get_or p.enable context 0) (2 ^ source) == 0)
    && ltb (get_or p.threshold context 0) (get_or p.priority source 0)

-- The body of the loop over the sources.
unfoldable pub consider : Plic → ℕ → ℕ → ℕ → ℕ
consider p context source selected =
    if not (is_candidate p context source)
    then selected
    else if selected == 0 || ltb (get_or p.priority selected 0) (get_or p.priority source 0)
    then source
    else selected

-- The loop from `source` on, for the rounds that are left.
unfoldable pub select_loop : ℕ → Plic → ℕ → ℕ → ℕ → ℕ
select_loop zero p context source selected = selected
select_loop (suc left) p context source selected =
    select_loop left p context (source + 1) (consider p context source selected)

unfoldable pub select : Plic → ℕ → ℕ
select p context = select_loop source_count p context 1 0

abbrev pub context_pending : Plic → ℕ → Bool
context_pending p context = not (select p context == 0)

unfoldable pub synchronize : Plic → CsrFile → CsrFile
synchronize p csrs =
    set_interrupt_pending (set_interrupt_pending csrs machine_external (context_pending p 0))
      supervisor_external (context_pending p 1)

-- The pending word: a bit for each source.
unfoldable pub pending_word : ℕ → Plic → ℕ → ℕ → ℕ
pending_word zero p source word = word
pending_word (suc left) p source word =
    pending_word left p (source + 1)
      (if get_or p.pending source false then bit_or word (2 ^ source) else word)

abbrev pub is_priority_offset : ℕ → Bool
is_priority_offset offset = leb 4 offset && ltb offset (4 * (source_count + 1))

-- A read of the claim register.
unfoldable pub claim : Plic → ℕ → AccessResult × Plic
claim p context =
    let source = select p context in
    (
      success_value source,
      if not (source == 0)
          then record p {
            pending = set p.pending source false;
            claimed_by = set p.claimed_by source (u8 (context + 1));
          }
          else p,
    )

unfoldable pub read : Plic → ℕ → AccessWidth → AccessType → AccessResult × Plic
read p offset w t =
    if not (is_word w) || not (bit_and offset 3 == 0)
    then (unsupported_access offset w, p)
    else if is_priority_offset offset
    then (success_value (get_or p.priority (offset / 4) 0), p)
    else if offset == pending_offset
    then (success_value (pending_word source_count p 1 0), p)
    else if offset == enable_offset 0
    then (success_value (get_or p.enable 0 0), p)
    else if offset == context_offset 0
    then (success_value (get_or p.threshold 0 0), p)
    else if offset == context_offset 0 + 4
    then claim p 0
    else if offset == enable_offset 1
    then (success_value (get_or p.enable 1 0), p)
    else if offset == context_offset 1
    then (success_value (get_or p.threshold 1 0), p)
    else if offset == context_offset 1 + 4
    then claim p 1
    else (success, p)

-- A write of the claim register.
unfoldable pub complete : Plic → ℕ → ℕ → Plic
complete p context value =
    let source = u32 value in
    if ltb 0 source && leb source source_count && get_or p.claimed_by source 0 == context + 1
    then record p {
      claimed_by = set p.claimed_by source 0;
      pending = set p.pending source (get_or p.level source false);
    }
    else p

abbrev pub write_enable : Plic → ℕ → ℕ → Plic
write_enable p context value = record p {
  enable = set p.enable context (bit_and (u32 value) (2 ^ 32 - 1 - 1));
}

abbrev pub write_threshold : Plic → ℕ → ℕ → Plic
write_threshold p context value = record p {
  threshold = set p.threshold context (bit_and (u32 value) priority_mask);
}

unfoldable pub write : Plic → ℕ → AccessWidth → ℕ → AccessType → AccessResult × Plic
write p offset w value t =
    if not (is_word w) || not (bit_and offset 3 == 0)
    then (unsupported_access offset w, p)
    else if is_priority_offset offset
    then (
      success,
      record p { priority = set p.priority (offset / 4) (bit_and (u32 value) priority_mask) },
    )
    else if offset == enable_offset 0
    then (success, write_enable p 0 value)
    else if offset == context_offset 0
    then (success, write_threshold p 0 value)
    else if offset == context_offset 0 + 4
    then (success, complete p 0 value)
    else if offset == enable_offset 1
    then (success, write_enable p 1 value)
    else if offset == context_offset 1
    then (success, write_threshold p 1 value)
    else if offset == context_offset 1 + 4
    then (success, complete p 1 value)
    else (success, p)

unfoldable pub compare_exchange : Plic → ℕ → AccessWidth → ℕ → ℕ → AccessType → AccessResult × Plic
compare_exchange p offset w expected desired t = (unsupported_access offset w, p)
