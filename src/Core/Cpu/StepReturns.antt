-- ===== src/Core/Cpu/StepReturns.antt =====
-- src/core/cpu.cpp, `fetch` and `step`: a step of the hart comes to an end.
use homemade_risc_v_64_vecto.Base.{
  ℕ, suc, ◌-◌, ◌≡◌, ◌≢◌, Bool, true, false, not, ltb, ◌==◌, if◌then◌else◌, Option, none, some,
  bit_and, u16, arith,
}
use homemade_risc_v_64_vecto.Bus.Access.{AccessWidth, AccessType}
use homemade_risc_v_64_vecto.Bus.Range.{max_u64}
use homemade_risc_v_64_vecto.Bus.Region.{RegionOps}
use homemade_risc_v_64_vecto.Bus.Routing.{Bus}
use homemade_risc_v_64_vecto.Bus.Layout.{IsWellFormed}
use homemade_risc_v_64_vecto.Bus.Upkeep.{read-IsWellFormed}
use homemade_risc_v_64_vecto.Memory.Sv39.{MmuAccessKind, MmuFault, TranslationResult}
use homemade_risc_v_64_vecto.Memory.Tlb.{Mmu}
use homemade_risc_v_64_vecto.Memory.WalkLaws.{Steady, translate-Completes}
use homemade_risc_v_64_vecto.Memory.WalkUpkeep.{LeavesWellFormed, translate-LeavesWellFormed}
use homemade_risc_v_64_vecto.Core.Trap.{ExceptionCause, Trap}
use homemade_risc_v_64_vecto.Core.Compressed.Expand.{decompress_rv64c}
use homemade_risc_v_64_vecto.Core.Decoder.{InstructionPacket, compressed}
use homemade_risc_v_64_vecto.Core.Cpu.Guest.{
  Cpu, GuestAccessResult, Transfer, finish_access, guest_read,
}
use homemade_risc_v_64_vecto.Core.Cpu.Fetch.{FetchResult, fetch, fetch_lower, fetch_upper}
use homemade_risc_v_64_vecto.Core.Cpu.Execute.{Outcome}
use homemade_risc_v_64_vecto.Core.Cpu.Dispatch.{
  FloatingUnit, execute, execute_expanded, execute_standard, restore_encoding,
}
use homemade_risc_v_64_vecto.Core.Cpu.Step.{count_step, execute_fetched}
use homemade_risc_v_64_vecto.Core.Cpu.Returns.{
  Returns, gives, illegal-Returns, finish_access-Returns,
}
use homemade_risc_v_64_vecto.Core.Cpu.Termination.{execute_standard-Returns}
use homemade_risc_v_64_vecto.Core.Cpu.UnitFree.{is_beyond_integer, is_integer, fetches_integer}

-- The bus of the machine that an access leaves behind.
abbrev BusStays : (D : Type 0) → Option (GuestAccessResult × Cpu D) → Type 0
BusStays D none = Unit
BusStays D (some (result, c)) = IsWellFormed c.bus

-- The access returns, on a well-formed bus.
record Serves (D : Type 0) (o : Option (GuestAccessResult × Cpu D)) : Type 0 where
  returning : Returns o
  valid : BusStays D o

-- A fetch ends with a trap or with an instruction.
abbrev Decided : Option Trap → Option InstructionPacket → Type 0
Decided (some trap) instruction = Unit
Decided none (some packet) = Unit
Decided none none = ⊥

abbrev Ready : (D : Type 0) → Option (FetchResult × Cpu D) → Type 0
Ready D none = ⊥
Ready D (some (result, c)) = Decided result.trap result.instruction × IsWellFormed c.bus

pub record IsReady (D : Type 0) (o : Option (FetchResult × Cpu D)) : Type 0 where
  ready : Ready D o

module _ {D : Type 0} where
  finish_access-BusStays :
      (c : Cpu D) (packet : InstructionPacket) (va : ℕ) (refused : ExceptionCause)
      (transfer : Transfer D) (translated : Option (TranslationResult × Bus D × Mmu))
      → ((b : Bus D) (pa : ℕ) → IsWellFormed b → IsWellFormed (transfer b pa).1)
      → LeavesWellFormed D translated
      → BusStays D (finish_access c packet va refused transfer translated)
  unfolding finish_access
  finish_access-BusStays c packet va refused transfer none keeps h = tt
  finish_access-BusStays c packet va refused transfer (some (t, b, m)) keeps h =
      ends t.fault t.physical_address
    where
      ends :
          (fault : Option MmuFault) (physical : Option ℕ)
          → BusStays D (
              finish_access c packet va refused transfer
                (some (record { physical_address = physical; fault = fault }, b, m)))
      ends (some f) physical = h.kept
      ends none none = tt
      ends none (some pa) = keeps b pa h.kept

  on_trap :
      (trap : Option Trap) {f : Trap → Option (FetchResult × Cpu D)}
      {x : Option (FetchResult × Cpu D)}
      → ((t : Trap) → IsReady D (f t))
      → IsReady D x
      → IsReady D (elim trap [ some t ↦ f t | none ↦ x ])
  on_trap none h k = k
  on_trap (some t) h k = h t

  choose :
      (b : Bool) {x y : Option (FetchResult × Cpu D)}
      → IsReady D x
      → IsReady D y
      → IsReady D (if b then x else y)
  choose true h k = h
  choose false h k = k

module _ {D : Type 0} (ops : RegionOps D) (fuel : ℕ) (steady : Steady ops) where
  guest_read-Serves :
      (c : Cpu D) (packet : InstructionPacket) (va : ℕ) (w : AccessWidth) (kind : MmuAccessKind)
      (t : AccessType)
      → IsWellFormed c.bus
      → Serves D (guest_read ops (suc fuel) c packet va w kind t)
  unfolding guest_read
  guest_read-Serves c packet va w kind t valid = record {
    returning =
        finish_access-Returns c packet va _ _ kind _
          (translate-Completes ops fuel c.bus c.mmu va w kind _ steady valid);
    valid =
        finish_access-BusStays c packet va _ _ _ (λ b pa v. read-IsWellFormed ops b pa w t v)
          (translate-LeavesWellFormed ops (suc fuel) c.bus c.mmu va w kind _ valid);
  }

  fetch_upper-IsReady :
      (pc lower : ℕ) (o : Option (GuestAccessResult × Cpu D))
      → Serves D o
      → IsReady D (fetch_upper ops (suc fuel) pc lower o)
  unfolding fetch_upper
  fetch_upper-IsReady pc lower none h = absurd (no_result h.returning.returned)
    where
      no_result : false ≢ true
      no_result = cc
  fetch_upper-IsReady pc lower (some (result, c)) h =
      on_trap result.trap (λ t. record { ready = (tt, h.valid) }) (record { ready = (tt, h.valid) })

  fetch_lower-IsReady :
      (packet : InstructionPacket) (pc : ℕ) (o : Option (GuestAccessResult × Cpu D))
      → Serves D o
      → IsReady D (fetch_lower ops (suc fuel) pc packet o)
  unfolding fetch_lower
  fetch_lower-IsReady packet pc none h = absurd (no_result h.returning.returned)
    where
      no_result : false ≢ true
      no_result = cc
  fetch_lower-IsReady packet pc (some (result, c)) h =
      on_trap result.trap (λ t. record { ready = (tt, h.valid) })
        (choose (not (bit_and (bit_and result.access.value 0xFFFF) 3 == 3))
          (record { ready = (tt, h.valid) })
          (choose (ltb (max_u64 - 2) pc) (record { ready = (tt, h.valid) })
            (fetch_upper-IsReady pc _ _ (guest_read-Serves c packet _ _ _ _ h.valid))))

  pub fetch-IsReady : (c : Cpu D) → IsWellFormed c.bus → IsReady D (fetch ops (suc fuel) c)
  unfolding fetch
  fetch-IsReady c valid =
      let pc : ℕ = c.state.program_counter in
      let packet : InstructionPacket = record { program_counter = pc; bits = 0; length = 0 } in
      choose (not (bit_and pc 1 == 0)) (record { ready = (tt, valid) })
        (fetch_lower-IsReady packet pc _ (guest_read-Serves c packet _ _ _ _ valid))

  module _ (unit : FloatingUnit D) where
    restore_encoding-Returns :
        (bits : ℕ) (o : Outcome D) → Returns o → Returns (restore_encoding bits o)
    unfolding restore_encoding
    restore_encoding-Returns bits none h = h
    restore_encoding-Returns bits (some r) h = gives _

    execute_expanded-Returns :
        (c : Cpu D) (packet : InstructionPacket) (o : Option ℕ)
        → IsWellFormed c.bus
        → elim o [
          | none ↦ true
          | some expanded ↦ not (is_beyond_integer (record packet { bits = expanded }))
        ]
          ≡ true
        → Returns (execute_expanded ops unit (suc fuel) c packet o)
    unfolding execute_expanded
    execute_expanded-Returns c packet none valid h = illegal-Returns c packet
    execute_expanded-Returns c packet (some expanded) valid h =
        restore_encoding-Returns packet.bits _ (
          execute_standard-Returns ops fuel steady unit c (record packet { bits = expanded }) valid
            (ground arith))

    pub execute-Returns :
        (c : Cpu D) (packet : InstructionPacket)
        → IsWellFormed c.bus
        → is_integer packet ≡ true
        → Returns (execute ops unit (suc fuel) c packet)
    unfolding execute
    execute-Returns c packet valid h = encoded (compressed packet) h
      where
        encoded :
            (short : Bool)
            → (if short
                then elim (decompress_rv64c (u16 packet.bits)) [
                  | none ↦ true
                  | some expanded ↦ not (is_beyond_integer (record packet { bits = expanded }))
                ]
                else not (is_beyond_integer packet))
              ≡ true
            → Returns (
                if short
                then execute_expanded ops unit
                    (suc fuel)
                    c
                    packet
                    (decompress_rv64c (u16 packet.bits))
                else execute_standard ops unit (suc fuel) c packet)
        encoded true k = execute_expanded-Returns c packet _ valid k
        encoded false k =
            execute_standard-Returns ops fuel steady unit c packet valid (ground arith)

    count_step-Returns : (o : Outcome D) → Returns o → Returns (count_step o)
    unfolding count_step
    count_step-Returns none h = h
    count_step-Returns (some r) h = gives _

    pub execute_fetched-Returns :
        (o : Option (FetchResult × Cpu D))
        → IsReady D o
        → fetches_integer o ≡ true
        → Returns (execute_fetched ops unit (suc fuel) o)
    unfolding execute_fetched
    execute_fetched-Returns none h single = absurd h.ready
    execute_fetched-Returns (some (result, d)) h single =
        decided result.instruction result.trap h.ready.0 single
      where
        decided :
            (instruction : Option InstructionPacket) (trap : Option Trap)
            → Decided trap instruction
            → elim instruction [ none ↦ true | some packet ↦ is_integer packet ] ≡ true
            → Returns (
                execute_fetched ops unit
                  (suc fuel)
                  (some (record { instruction = instruction; trap = trap }, d)))
        decided instruction (some t) k one = gives _
        decided none none k one = absurd k
        decided (some packet) none k one =
            count_step-Returns _ (execute-Returns d packet h.ready.1 one)
