-- ===== src/Core/Cpu/Precise.antt =====
-- src/core/cpu.cpp: an instruction either retires or traps, and one that traps leaves the registers,
-- the program counter and the privilege mode as they were.
use homemade_risc_v_64_vecto.Base.{
  ℕ, ◌≡◌, refl, ◌⊎◌, inl, inr, Bool, true, false, ◌==◌, arith, if◌then◌else◌, Option, none, some,
}
use homemade_risc_v_64_vecto.Bus.Routing.{Bus}
use homemade_risc_v_64_vecto.Core.Trap.{ExceptionCause, Trap}
use homemade_risc_v_64_vecto.Core.Decoder.{InstructionPacket, DecodedInstruction}
use homemade_risc_v_64_vecto.Core.Cpu.State.{CpuState, set_integer}
use homemade_risc_v_64_vecto.Core.Cpu.Guest.{
  Cpu, StepResult, GuestAccessResult, Transfer, make_trap, finish_access,
}
use homemade_risc_v_64_vecto.Core.Cpu.Execute.{
  Outcome, LoadForm, fail, illegal, retire, finish_write, write_and_retire, write_result, jal, jalr,
  finish_branch, fence, finish_load, finish_store,
}
use homemade_risc_v_64_vecto.Memory.Sv39.{TranslationResult}
use homemade_risc_v_64_vecto.Memory.Tlb.{Mmu}

-- What an instruction that traps may not change. The control registers are not in it: a vector
-- instruction records where it stopped in vstart.
pub record Unmoved (s t : CpuState) : Type 0 where
  pub integers : t.integer_registers ≡ s.integer_registers
  pub floats : t.floating_registers ≡ s.floating_registers
  pub counter : t.program_counter ≡ s.program_counter
  pub mode : t.privilege ≡ s.privilege
  pub waiting : t.waiting_for_interrupt ≡ s.waiting_for_interrupt

-- A trap, if there is one, of the instruction at this address.
abbrev pub TrapsAt : ℕ → Option Trap → Type 0
TrapsAt pc none = Unit
TrapsAt pc (some trap) = trap.program_counter ≡ pc

abbrev pub has_trap : Option Trap → Bool
has_trap none = false
has_trap (some trap) = true

-- The two ends of an instruction.
abbrev pub Ends : CpuState → ℕ → StepResult → CpuState → Type 0
Ends s pc result t =
    ((result.retired ≡ true) × (has_trap result.trap ≡ false))
    ⊎ ((result.retired ≡ false)
        × (has_trap result.trap ≡ true)
        × TrapsAt pc result.trap
        × Unmoved s t)

abbrev pub Precisely : (D : Type 0) → CpuState → ℕ → Outcome D → Type 0
Precisely D s pc none = Unit
Precisely D s pc (some (result, c)) = Ends s pc result c.state

pub record IsPrecise (D : Type 0) (s : CpuState) (pc : ℕ) (outcome : Outcome D) : Type 0 where
  pub ends : Precisely D s pc outcome

-- A guest access keeps the state of the hart, and its trap is one of the instruction's.
abbrev pub Accesses : (D : Type 0) → CpuState → ℕ → Option (GuestAccessResult × Cpu D) → Type 0
Accesses D s pc none = Unit
Accesses D s pc (some (result, c)) = (c.state ≡ s) × TrapsAt pc result.trap

pub unmoved : (s : CpuState) → Unmoved s s
unmoved s = record { integers = refl; floats = refl; counter = refl; mode = refl; waiting = refl }

module _ {D : Type 0} where
  pub finish_access-Accesses :
      (c : Cpu D) (packet : InstructionPacket) (va : ℕ) (refused : ExceptionCause)
      (transfer : Transfer D) (translated : Option (TranslationResult × Bus D × Mmu))
      → Accesses D c.state packet.program_counter
          (finish_access c packet va refused transfer translated)
  unfolding finish_access
  finish_access-Accesses c packet va refused transfer none = tt
  finish_access-Accesses c packet va refused transfer (some (t, b, m)) = ground arith

  module _ (s : CpuState) (packet : InstructionPacket) where
    pub retire-IsPrecise :
        (c : Cpu D) (next : ℕ) → IsPrecise D s packet.program_counter (retire c packet next)
    unfolding retire
    retire-IsPrecise c next = record { ends = inl (refl, refl) }

    pub write-IsPrecise :
        (c : Cpu D) (d v next : ℕ)
        → IsPrecise D s packet.program_counter (write_and_retire c packet d v next)
    unfolding write_and_retire finish_write
    write-IsPrecise c d v next = finished (set_integer c.state d v)
      where
        finished :
            (o : Option CpuState)
            → IsPrecise D s packet.program_counter (finish_write c packet next o)
        finished none = record { ends = tt }
        finished (some t) = record { ends = inl (refl, refl) }

    pub fail-IsPrecise :
        (c : Cpu D) (trap : Trap)
        → Unmoved s c.state
        → trap.program_counter ≡ packet.program_counter
        → IsPrecise D s packet.program_counter (fail c packet trap)
    unfolding fail
    fail-IsPrecise c trap u e = record { ends = inr (refl, refl, e, u) }

    pub illegal-IsPrecise :
        (c : Cpu D) → Unmoved s c.state → IsPrecise D s packet.program_counter (illegal c packet)
    unfolding illegal
    illegal-IsPrecise c u = fail-IsPrecise c _ u refl

    pub pick :
        (b : Bool) {x y : Outcome D}
        → IsPrecise D s packet.program_counter x
        → IsPrecise D s packet.program_counter y
        → IsPrecise D s packet.program_counter (if b then x else y)
    pick true h k = h
    pick false h k = k

    -- The same for a test on an optional value.
    pub on_option :
        {A : Type 0} (o : Option A) {x : Outcome D} {f : A → Outcome D}
        → IsPrecise D s packet.program_counter x
        → ((a : A) → IsPrecise D s packet.program_counter (f a))
        → IsPrecise D s packet.program_counter (elim o [ none ↦ x | some a ↦ f a ])
    on_option none h k = h
    on_option (some a) h k = k a

  module _ (c : Cpu D) (packet : InstructionPacket) (i : DecodedInstruction) (next : ℕ) where
    pub own_illegal : IsPrecise D c.state packet.program_counter (illegal c packet)
    own_illegal = illegal-IsPrecise c.state packet c (unmoved c.state)

    pub own_fail :
        (cause : ExceptionCause) (value : ℕ)
        → IsPrecise D c.state packet.program_counter (fail c packet (make_trap packet cause value))
    own_fail cause value = fail-IsPrecise c.state packet c _ (unmoved c.state) refl

    pub jal-IsPrecise : IsPrecise D c.state packet.program_counter (jal c packet i next)
    unfolding jal
    jal-IsPrecise = pick c.state packet _ (own_fail _ _) (write-IsPrecise c.state packet c _ _ _)

    pub jalr-IsPrecise :
        (source1 : ℕ) → IsPrecise D c.state packet.program_counter (jalr c packet i source1 next)
    unfolding jalr
    jalr-IsPrecise source1 =
        pick c.state packet _ own_illegal
          (pick c.state packet _ (own_fail _ _) (write-IsPrecise c.state packet c _ _ _))

    pub write_result-IsPrecise :
        (o : Option ℕ) → IsPrecise D c.state packet.program_counter (write_result c packet i next o)
    unfolding write_result
    write_result-IsPrecise none = own_illegal
    write_result-IsPrecise (some v) = write-IsPrecise c.state packet c _ _ _

    pub finish_branch-IsPrecise :
        (o : Option Bool)
        → IsPrecise D c.state packet.program_counter (finish_branch c packet next o)
    unfolding finish_branch
    finish_branch-IsPrecise none = own_illegal
    finish_branch-IsPrecise (some taken) =
        pick c.state packet _ (retire-IsPrecise c.state packet c _)
          (pick c.state packet _ (own_fail _ _) (retire-IsPrecise c.state packet c _))

    pub fence-IsPrecise : IsPrecise D c.state packet.program_counter (fence c packet i next)
    unfolding fence
    fence-IsPrecise =
        pick c.state packet (i.function3 == 0) (retire-IsPrecise c.state packet c next) (
          pick c.state packet (i.function3 == 1) (retire-IsPrecise c.state packet c next)
            own_illegal)

  module _ (s : CpuState) (packet : InstructionPacket) (i : DecodedInstruction) (next : ℕ) where
    -- The state at a guest access's end is the one at its beginning.
    pub same_state : (c : Cpu D) → c.state ≡ s → Unmoved s c.state
    same_state c e = rw e (unmoved s)

    pub after_access :
        (c : Cpu D) (trap : Option Trap) (go : Outcome D) (stop : Trap → Outcome D)
        → TrapsAt packet.program_counter trap
        → IsPrecise D s packet.program_counter go
        → ((t : Trap)
            → t.program_counter ≡ packet.program_counter
            → IsPrecise D s packet.program_counter (stop t))
        → IsPrecise D s packet.program_counter (elim trap [ none ↦ go | some t ↦ stop t ])
    after_access c none go stop e h k = h
    after_access c (some t) go stop e h k = k t e

    pub finish_load-IsPrecise :
        (form : LoadForm) (o : Option (GuestAccessResult × Cpu D))
        → Accesses D s packet.program_counter o
        → IsPrecise D s packet.program_counter (finish_load packet i form next o)
    unfolding finish_load
    finish_load-IsPrecise form none h = record { ends = tt }
    finish_load-IsPrecise form (some (loaded, c)) h =
        after_access c loaded.trap _ _ h.1 (write-IsPrecise s packet c _ _ _)
          (λ t e. fail-IsPrecise s packet c t (same_state c h.0) e)

    pub finish_store-IsPrecise :
        (o : Option (GuestAccessResult × Cpu D))
        → Accesses D s packet.program_counter o
        → IsPrecise D s packet.program_counter (finish_store packet next o)
    unfolding finish_store
    finish_store-IsPrecise none h = record { ends = tt }
    finish_store-IsPrecise (some (stored, c)) h =
        after_access c stored.trap _ _ h.1 (retire-IsPrecise s packet c _)
          (λ t e. fail-IsPrecise s packet c t (same_state c h.0) e)
