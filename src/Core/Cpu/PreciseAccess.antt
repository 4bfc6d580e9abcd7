-- ===== src/Core/Cpu/PreciseAccess.antt =====
-- src/core/cpu.cpp: loads, stores and atomic instructions retire or trap precisely.
use homemade_risc_v_64_vecto.Base.{ℕ, zero, suc, ◌≡◌, refl, not, ◌&&◌, ◌==◌, Option, none, some}
use homemade_risc_v_64_vecto.Bus.Access.{AccessWidth, AccessType}
use homemade_risc_v_64_vecto.Bus.Region.{RegionOps}
use homemade_risc_v_64_vecto.Core.Decoder.{InstructionPacket, DecodedInstruction}
use homemade_risc_v_64_vecto.Core.IntegerA.{AtomicOperation, decode_atomic_operation}
use homemade_risc_v_64_vecto.Core.Cpu.State.{CpuState}
use homemade_risc_v_64_vecto.Core.Cpu.Guest.{
  Cpu, GuestAccessResult, guest_read, guest_write, guest_load_reserved, guest_store_conditional,
  guest_compare_exchange,
}
use homemade_risc_v_64_vecto.Core.Cpu.Execute.{
  Outcome, load_form, store_width, scalar_load, scalar_store,
}
use homemade_risc_v_64_vecto.Core.Cpu.Atomic.{
  AtomicForm, atomic_form, is_misaligned, with_reservation, finish_load_reserved,
  finish_store_conditional, after_exchange, exchange_loop, finish_observation, load_reserved,
  store_conditional, memory_operation, atomic_instruction,
}
use homemade_risc_v_64_vecto.Core.Cpu.Precise.{
  Unmoved, IsPrecise, Accesses, finish_access-Accesses, write-IsPrecise, fail-IsPrecise, pick,
  on_option, own_illegal, own_fail, same_state, after_access, finish_load-IsPrecise,
  finish_store-IsPrecise,
}
use homemade_risc_v_64_vecto.Memory.Sv39.{MmuAccessKind}

module _ {D : Type 0} (ops : RegionOps D) (fuel : ℕ) where
  module _ (c : Cpu D) (packet : InstructionPacket) (va : ℕ) (w : AccessWidth) where
    pub guest_read-Accesses :
        (kind : MmuAccessKind) (t : AccessType)
        → Accesses D c.state packet.program_counter (guest_read ops fuel c packet va w kind t)
    unfolding guest_read
    guest_read-Accesses kind t = finish_access-Accesses c packet va _ _ _

    pub guest_write-Accesses :
        (v : ℕ) (t : AccessType)
        → Accesses D c.state packet.program_counter (guest_write ops fuel c packet va w v t)
    unfolding guest_write
    guest_write-Accesses v t = finish_access-Accesses c packet va _ _ _

    guest_load_reserved-Accesses :
        Accesses D c.state packet.program_counter (guest_load_reserved ops fuel c packet va w)
    unfolding guest_load_reserved
    guest_load_reserved-Accesses = finish_access-Accesses c packet va _ _ _

    guest_store_conditional-Accesses :
        (token v : ℕ)
        → Accesses D c.state packet.program_counter
            (guest_store_conditional ops fuel c packet token va w v)
    unfolding guest_store_conditional
    guest_store_conditional-Accesses token v = finish_access-Accesses c packet va _ _ _

    guest_compare_exchange-Accesses :
        (expected desired : ℕ)
        → Accesses D c.state packet.program_counter
            (guest_compare_exchange ops fuel c packet va w expected desired)
    unfolding guest_compare_exchange
    guest_compare_exchange-Accesses expected desired = finish_access-Accesses c packet va _ _ _

  module _ (c : Cpu D) (packet : InstructionPacket) (i : DecodedInstruction) (next : ℕ) where
    pub scalar_load-IsPrecise :
        (source1 : ℕ)
        → IsPrecise D c.state packet.program_counter (scalar_load ops fuel c packet i source1 next)
    unfolding scalar_load
    scalar_load-IsPrecise source1 =
        on_option c.state packet (load_form i.function3) (own_illegal c packet i next) λ form.
          finish_load-IsPrecise c.state packet i next form _ (guest_read-Accesses c packet _ _ _ _)

    pub scalar_store-IsPrecise :
        (source1 source2 : ℕ)
        → IsPrecise D c.state packet.program_counter
            (scalar_store ops fuel c packet i source1 source2 next)
    unfolding scalar_store
    scalar_store-IsPrecise source1 source2 =
        on_option c.state packet (store_width i.function3) (own_illegal c packet i next) λ w.
          finish_store-IsPrecise c.state packet i next _ (guest_write-Accesses c packet _ _ _ _)

  module _ (s : CpuState) (packet : InstructionPacket) (i : DecodedInstruction) (form : AtomicForm)
      (next : ℕ) where
    -- What an access of a hart in a state like this one keeps.
    abbrev Follows : Option (GuestAccessResult × Cpu D) → Type 0
    Follows o = (t : CpuState) × Unmoved s t × Accesses D t packet.program_counter o

    finish_load_reserved-IsPrecise :
        (o : Option (GuestAccessResult × Cpu D))
        → Accesses D s packet.program_counter o
        → IsPrecise D s packet.program_counter (finish_load_reserved packet i form next o)
    unfolding finish_load_reserved
    finish_load_reserved-IsPrecise none h = record { ends = tt }
    finish_load_reserved-IsPrecise (some (loaded, c)) h =
        after_access s packet i next c loaded.trap _ _ h.1
          (write-IsPrecise s packet (with_reservation c loaded.token) _ _ _)
          (λ t e. fail-IsPrecise s packet c t (same_state s packet i next c h.0) e)

    finish_store_conditional-IsPrecise :
        (t : CpuState) (o : Option (GuestAccessResult × Cpu D))
        → Unmoved s t
        → Accesses D t packet.program_counter o
        → IsPrecise D s packet.program_counter (finish_store_conditional packet i next o)
    unfolding finish_store_conditional
    finish_store_conditional-IsPrecise t none u h = record { ends = tt }
    finish_store_conditional-IsPrecise t (some (stored, c)) u h =
        after_access s packet i next c stored.trap _ _ h.1 (write-IsPrecise s packet c _ _ _)
          (λ trap e. fail-IsPrecise s packet c trap (rw h.0 u) e)

    after_exchange-IsPrecise :
        (again : Cpu D → ℕ → Outcome D) (original : ℕ) (o : Option (GuestAccessResult × Cpu D))
        → ((c : Cpu D) (v : ℕ) → c.state ≡ s → IsPrecise D s packet.program_counter (again c v))
        → Accesses D s packet.program_counter o
        → IsPrecise D s packet.program_counter (after_exchange again packet i form next original o)
    unfolding after_exchange
    after_exchange-IsPrecise again original none k h = record { ends = tt }
    after_exchange-IsPrecise again original (some (exchanged, c)) k h =
        after_access s packet i next c exchanged.trap _ _ h.1
          (pick s packet exchanged.access.exchanged (write-IsPrecise s packet c _ _ _)
            (k c exchanged.access.value h.0))
          (λ t e. fail-IsPrecise s packet c t (same_state s packet i next c h.0) e)

    exchange_loop-IsPrecise :
        (rounds : ℕ) (c : Cpu D) (operation : AtomicOperation) (source2 original : ℕ)
        → c.state ≡ s
        → IsPrecise D s packet.program_counter
            (exchange_loop ops fuel rounds c packet i form operation source2 next original)
    unfolding exchange_loop
    exchange_loop-IsPrecise zero c operation source2 original e = record { ends = tt }
    exchange_loop-IsPrecise (suc rounds) c operation source2 original e =
        after_exchange-IsPrecise _ original _
          (λ c' v e'. exchange_loop-IsPrecise rounds c' operation source2 v e')
          (rw (← e) (guest_compare_exchange-Accesses c packet form.address form.width _ _))

    finish_observation-IsPrecise :
        (operation : AtomicOperation) (source2 : ℕ) (o : Option (GuestAccessResult × Cpu D))
        → Accesses D s packet.program_counter o
        → IsPrecise D s packet.program_counter
            (finish_observation ops fuel packet i form operation source2 next o)
    unfolding finish_observation
    finish_observation-IsPrecise operation source2 none h = record { ends = tt }
    finish_observation-IsPrecise operation source2 (some (observed, c)) h =
        after_access s packet i next c observed.trap _ _ h.1
          (exchange_loop-IsPrecise fuel c operation source2 observed.access.value h.0)
          (λ t e. fail-IsPrecise s packet c t (same_state s packet i next c h.0) e)

  without_reservation : (s : CpuState) → Unmoved s (record s { reservation_token = 0 })
  without_reservation s = record {
    integers = refl;
    floats = refl;
    counter = refl;
    mode = refl;
    waiting = refl;
  }

  module _ (c : Cpu D) (packet : InstructionPacket) (i : DecodedInstruction) (form : AtomicForm)
      (next : ℕ) where
    load_reserved-IsPrecise :
        IsPrecise D c.state packet.program_counter (load_reserved ops fuel c packet i form next)
    unfolding load_reserved
    load_reserved-IsPrecise =
        pick c.state packet (not (i.source2 == 0)) (own_illegal c packet i next) (
          pick c.state packet (is_misaligned form) (own_fail c packet i next _ _) (
            finish_load_reserved-IsPrecise c.state packet i form next _
              (guest_load_reserved-Accesses c packet _ _)))

    store_conditional-IsPrecise :
        (source2 : ℕ)
        → IsPrecise D c.state packet.program_counter
            (store_conditional ops fuel c packet i form source2 next)
    unfolding store_conditional
    store_conditional-IsPrecise source2 =
        pick c.state packet (is_misaligned form)
          (fail-IsPrecise c.state packet (with_reservation c 0) _ (without_reservation c.state)
            refl)
          (finish_store_conditional-IsPrecise c.state packet i form next _ _
            (without_reservation c.state)
            (guest_store_conditional-Accesses (with_reservation c 0) packet _ _ _ _))

    memory_operation-IsPrecise :
        (source2 : ℕ)
        → IsPrecise D c.state packet.program_counter
            (memory_operation ops fuel c packet i form source2 next)
    unfolding memory_operation
    memory_operation-IsPrecise source2 =
        on_option c.state packet (decode_atomic_operation form.function5)
          (own_illegal c packet i next)
          λ operation. pick c.state packet (is_misaligned form) (own_fail c packet i next _ _) (
            finish_observation-IsPrecise c.state packet i form next operation source2 _
              (guest_read-Accesses c packet _ _ _ _))

  pub atomic_instruction-IsPrecise :
      (c : Cpu D) (packet : InstructionPacket) (i : DecodedInstruction) (source1 source2 next : ℕ)
      → IsPrecise D c.state packet.program_counter
          (atomic_instruction ops fuel c packet i source1 source2 next)
  unfolding atomic_instruction
  atomic_instruction-IsPrecise c packet i source1 source2 next =
      let form = atomic_form packet i source1 in
      pick c.state packet (not form.word_operation && not (i.function3 == 3))
        (own_illegal c packet i next)
        (pick c.state packet (form.function5 == 2) (load_reserved-IsPrecise c packet i form next) (
          pick c.state packet (form.function5 == 3)
            (store_conditional-IsPrecise c packet i form next source2)
            (memory_operation-IsPrecise c packet i form next source2)))
