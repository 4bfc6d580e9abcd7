-- ===== src/Core/Cpu/Returns.antt =====
-- src/core/cpu.cpp: which instructions always come to an end.
use homemade_risc_v_64_vecto.Base.{
  ℕ, ◌≡◌, ◌≢◌, refl, ◌<◌, Bool, true, false, ◌==◌, arith, if◌then◌else◌, Option, none, some,
}
use homemade_risc_v_64_vecto.Bus.Routing.{Bus}
use homemade_risc_v_64_vecto.Memory.Sv39.{MmuAccessKind, MmuFault, TranslationResult}
use homemade_risc_v_64_vecto.Memory.Tlb.{Mmu}
use homemade_risc_v_64_vecto.Memory.WalkLaws.{Answers, Completes}
use homemade_risc_v_64_vecto.Core.Trap.{ExceptionCause, Trap}
use homemade_risc_v_64_vecto.Core.Decoder.{InstructionPacket, DecodedInstruction}
use homemade_risc_v_64_vecto.Core.Cpu.State.{CpuState, integer, set_integer}
use homemade_risc_v_64_vecto.Core.Cpu.Guest.{Cpu, GuestAccessResult, Transfer, finish_access}
use homemade_risc_v_64_vecto.Core.Cpu.Execute.{
  Outcome, LoadForm, fail, illegal, retire, finish_write, write_and_retire, write_result, jal, jalr,
  finish_branch, fence, finish_load, finish_store,
}
use homemade_risc_v_64_vecto.Core.Cpu.Atomic.{
  AtomicForm, finish_load_reserved, finish_store_conditional,
}

-- The run has a result: it neither runs out of fuel nor throws.
abbrev pub returns : {A : Type 0} → Option A → Bool
returns none = false
returns (some x) = true

pub record Returns {A : Type 0} (outcome : Option A) : Type 0 where
  pub returned : returns outcome ≡ true

pub ok : {A : Type 0} {o : Option A} → returns o ≡ true → Returns o
ok e = record { returned = e }

pub gives : {A : Type 0} (x : A) → Returns (some x)
gives x = ok refl

pub integer-Returns : (s : CpuState) (index : ℕ) → index < 32 → Returns (integer s index)
unfolding integer
integer-Returns s index h = ok (ground arith)

module _ {D : Type 0} where
  pub fail-Returns :
      (c : Cpu D) (packet : InstructionPacket) (trap : Trap) → Returns (fail c packet trap)
  unfolding fail
  fail-Returns c packet trap = ok refl

  pub illegal-Returns : (c : Cpu D) (packet : InstructionPacket) → Returns (illegal c packet)
  unfolding illegal
  illegal-Returns c packet = fail-Returns c packet _

  retire-Returns :
      (c : Cpu D) (packet : InstructionPacket) (next : ℕ) → Returns (retire c packet next)
  unfolding retire
  retire-Returns c packet next = ok refl

  after :
      (trap : Option Trap) {stop : Trap → Outcome D} {go : Outcome D}
      → ((t : Trap) → Returns (stop t))
      → Returns go
      → Returns (elim trap [ some t ↦ stop t | none ↦ go ])
  after none h k = k
  after (some t) h k = h t

  pub pick : (b : Bool) {x y : Outcome D} → Returns x → Returns y → Returns (if b then x else y)
  pick true h k = h
  pick false h k = k

  pub write-Returns :
      (c : Cpu D) (packet : InstructionPacket) (d v next : ℕ)
      → d < 32
      → Returns (write_and_retire c packet d v next)
  unfolding write_and_retire finish_write set_integer
  write-Returns c packet d v next h = ok (ground arith)

  pub write_result-Returns :
      (c : Cpu D) (packet : InstructionPacket) (i : DecodedInstruction) (next : ℕ) (o : Option ℕ)
      → i.destination < 32
      → Returns (write_result c packet i next o)
  unfolding write_result
  write_result-Returns c packet i next none h = illegal-Returns c packet
  write_result-Returns c packet i next (some v) h = write-Returns c packet i.destination v next h

  pub jal-Returns :
      (c : Cpu D) (packet : InstructionPacket) (i : DecodedInstruction) (next : ℕ)
      → i.destination < 32
      → Returns (jal c packet i next)
  unfolding jal
  jal-Returns c packet i next h = pick _ (fail-Returns c packet _) (write-Returns c packet _ _ _ h)

  pub jalr-Returns :
      (c : Cpu D) (packet : InstructionPacket) (i : DecodedInstruction) (source1 next : ℕ)
      → i.destination < 32
      → Returns (jalr c packet i source1 next)
  unfolding jalr
  jalr-Returns c packet i source1 next h =
      pick _ (illegal-Returns c packet)
        (pick _ (fail-Returns c packet _) (write-Returns c packet _ _ _ h))

  pub finish_branch-Returns :
      (c : Cpu D) (packet : InstructionPacket) (next : ℕ) (o : Option Bool)
      → Returns (finish_branch c packet next o)
  unfolding finish_branch
  finish_branch-Returns c packet next none = illegal-Returns c packet
  finish_branch-Returns c packet next (some taken) =
      pick _ (retire-Returns c packet _)
        (pick _ (fail-Returns c packet _) (retire-Returns c packet _))

  pub fence-Returns :
      (c : Cpu D) (packet : InstructionPacket) (i : DecodedInstruction) (next : ℕ)
      → Returns (fence c packet i next)
  unfolding fence
  fence-Returns c packet i next =
      pick (i.function3 == 0) (retire-Returns c packet _)
        (pick (i.function3 == 1) (retire-Returns c packet _) (illegal-Returns c packet))

  pub finish_load-Returns :
      (packet : InstructionPacket) (i : DecodedInstruction) (form : LoadForm) (next : ℕ)
      (o : Option (GuestAccessResult × Cpu D))
      → i.destination < 32
      → Returns o
      → Returns (finish_load packet i form next o)
  unfolding finish_load
  finish_load-Returns packet i form next none h k = ok k.returned
  finish_load-Returns packet i form next (some (loaded, c)) h k =
      after loaded.trap (λ t. fail-Returns c packet t)
        (write-Returns c packet i.destination _ next h)

  pub finish_store-Returns :
      (packet : InstructionPacket) (next : ℕ) (o : Option (GuestAccessResult × Cpu D))
      → Returns o
      → Returns (finish_store packet next o)
  unfolding finish_store
  finish_store-Returns packet next none k = ok k.returned
  finish_store-Returns packet next (some (stored, c)) k =
      after stored.trap (λ t. fail-Returns c packet t) (retire-Returns c packet next)

  pub finish_access-Returns :
      (c : Cpu D) (packet : InstructionPacket) (va : ℕ) (refused : ExceptionCause)
      (transfer : Transfer D) (kind : MmuAccessKind)
      (translated : Option (TranslationResult × Bus D × Mmu))
      → Completes D va kind translated
      → Returns (finish_access c packet va refused transfer translated)
  unfolding finish_access
  finish_access-Returns c packet va refused transfer kind translated k =
      rw k.ended (answered k.result.0.fault k.result.0.physical_address k.answer)
    where
      no_fault : {f : MmuFault} → none ≢ some f
      no_fault = cc

      answered :
          (fault : Option MmuFault) (physical : Option ℕ)
          → Answers va kind physical fault
          → Returns (
              finish_access c packet va refused transfer (
                some
                  (record { physical_address = physical; fault = fault }, k.result.1, k.result.2)))
      answered none none a = absurd (no_fault a)
      answered none (some pa) a = ok refl
      answered (some f) physical a = ok refl

  pub finish_load_reserved-Returns :
      (packet : InstructionPacket) (i : DecodedInstruction) (form : AtomicForm) (next : ℕ)
      (o : Option (GuestAccessResult × Cpu D))
      → i.destination < 32
      → Returns o
      → Returns (finish_load_reserved packet i form next o)
  unfolding finish_load_reserved
  finish_load_reserved-Returns packet i form next none h k = ok k.returned
  finish_load_reserved-Returns packet i form next (some (loaded, c)) h k =
      after loaded.trap (λ t. fail-Returns c packet t)
        (write-Returns _ packet i.destination _ next h)

  pub finish_store_conditional-Returns :
      (packet : InstructionPacket) (i : DecodedInstruction) (next : ℕ)
      (o : Option (GuestAccessResult × Cpu D))
      → i.destination < 32
      → Returns o
      → Returns (finish_store_conditional packet i next o)
  unfolding finish_store_conditional
  finish_store_conditional-Returns packet i next none h k = ok k.returned
  finish_store_conditional-Returns packet i next (some (stored, c)) h k =
      after stored.trap (λ t. fail-Returns c packet t)
        (write-Returns c packet i.destination _ next h)
