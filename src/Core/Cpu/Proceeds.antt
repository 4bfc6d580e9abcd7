-- ===== src/Core/Cpu/Proceeds.antt =====
-- src/core/cpu.cpp: the loop over the elements of a vector instruction moves nothing but vector
-- registers and control registers, or ends precisely.
use homemade_risc_v_64_vecto.Base.{
  ℕ, zero, suc, ◌≡◌, Bool, true, false, not, ltb, if◌then◌else◌, Option, none, some,
}
use homemade_risc_v_64_vecto.Core.Trap.{Trap}
use homemade_risc_v_64_vecto.Core.Csr.State.{CsrFile}
use homemade_risc_v_64_vecto.Core.Csr.Context.{mark_vector_state_dirty}
use homemade_risc_v_64_vecto.Core.Decoder.{InstructionPacket}
use homemade_risc_v_64_vecto.Core.Cpu.State.{CpuState, set_vector_element, vector_mask_bit}
use homemade_risc_v_64_vecto.Core.Cpu.Guest.{Cpu}
use homemade_risc_v_64_vecto.Core.Cpu.Execute.{Outcome, illegal}
use homemade_risc_v_64_vecto.Core.Cpu.Elements.{
  Progress, continuing, stopped, stop, then_continue, after_write, write_vector, for_elements,
  inactive_element, masked_element, element_body, finish_elements, elementwise, trap_at,
}
use homemade_risc_v_64_vecto.Core.Cpu.Precise.{
  Unmoved, TrapsAt, Ends, IsPrecise, retire-IsPrecise, fail-IsPrecise, illegal-IsPrecise,
}
use homemade_risc_v_64_vecto.Vector.State.{VectorState}
use homemade_risc_v_64_vecto.Vector.Group.{VectorRegisterGroup}

-- Within a loop: it goes on in a state that has not moved, or the instruction has ended.
abbrev pub Proceeds : (D : Type 0) → CpuState → ℕ → Option (Progress D) → Type 0
Proceeds D s pc none = Unit
Proceeds D s pc (some (continuing c)) = Unmoved s c.state
Proceeds D s pc (some (stopped result c)) = Ends s pc result c.state

pub record IsProceeding (D : Type 0) (s : CpuState) (pc : ℕ) (o : Option (Progress D))
    : Type 0 where
  pub proceeds : Proceeds D s pc o

-- A step of a loop from any state that has not moved.
abbrev pub Body : (D : Type 0) → CpuState → ℕ → (Cpu D → ℕ → Option (Progress D)) → Type 0
Body D s pc body =
    (c : Cpu D) (element : ℕ) → Unmoved s c.state → IsProceeding D s pc (body c element)

-- A write of a vector element moves nothing else.
abbrev pub Wrote : CpuState → Option (Bool × CpuState) → Type 0
Wrote s none = Unit
Wrote s (some (written, t)) = Unmoved s t

other_parts :
    (s t : CpuState) (v : VectorState) (csrs : CsrFile)
    → Unmoved s t
    → Unmoved s (record t { vector_state = v; csrs = csrs })
other_parts s t v csrs u = record {
  integers = u.integers;
  floats = u.floats;
  counter = u.counter;
  mode = u.mode;
  waiting = u.waiting;
}

abbrev marked : CpuState → Option (Bool × VectorState) → Option (Bool × CpuState)
marked t o = elim o [
  | none ↦ none
  | some written ↦
      if not written.0
      then some (false, t)
      else some (true, record t { vector_state = written.1; csrs = mark_vector_state_dirty t.csrs })
]

marked-Wrote :
    (s t : CpuState) (o : Option (Bool × VectorState)) → Unmoved s t → Wrote s (marked t o)
marked-Wrote s t none u = tt
marked-Wrote s t (some (true, v)) u = other_parts s t v _ u
marked-Wrote s t (some (false, v)) u = u

set_vector_element-Wrote :
    (s t : CpuState) (group : VectorRegisterGroup) (element value : ℕ)
    → Unmoved s t
    → Wrote s (set_vector_element t group element value)
unfolding set_vector_element
set_vector_element-Wrote s t group element value u = marked-Wrote s t _ u

module _ {D : Type 0} (s : CpuState) (packet : InstructionPacket) where
  pub stop-IsProceeding :
      (o : Outcome D)
      → IsPrecise D s packet.program_counter o
      → IsProceeding D s packet.program_counter (stop o)
  stop-IsProceeding none h = record { proceeds = tt }
  stop-IsProceeding (some (result, c)) h = record { proceeds = h.ends }

  pub then_continue-IsProceeding :
      (o : Option (Progress D)) (next : Cpu D → Option (Progress D))
      → IsProceeding D s packet.program_counter o
      → ((c : Cpu D) → Unmoved s c.state → IsProceeding D s packet.program_counter (next c))
      → IsProceeding D s packet.program_counter (then_continue o next)
  unfolding then_continue
  then_continue-IsProceeding none next h k = record { proceeds = tt }
  then_continue-IsProceeding (some (continuing c)) next h k = k c h.proceeds
  then_continue-IsProceeding (some (stopped result c)) next h k = record { proceeds = h.proceeds }

  pub choose :
      (b : Bool) {x y : Option (Progress D)}
      → IsProceeding D s packet.program_counter x
      → IsProceeding D s packet.program_counter y
      → IsProceeding D s packet.program_counter (if b then x else y)
  choose true h k = h
  choose false h k = k

  pub go_on :
      (c : Cpu D)
      → Unmoved s c.state
      → IsProceeding D s packet.program_counter (some (continuing c))
  go_on c u = record { proceeds = u }

  pub refuse :
      (c : Cpu D)
      → Unmoved s c.state
      → IsProceeding D s packet.program_counter (stop (illegal c packet))
  refuse c u = stop-IsProceeding (illegal c packet) (illegal-IsPrecise s packet c u)

  pub for_elements-IsProceeding :
      (body : Cpu D → ℕ → Option (Progress D)) (rounds element : ℕ) (c : Cpu D)
      → Body D s packet.program_counter body
      → Unmoved s c.state
      → IsProceeding D s packet.program_counter (for_elements body rounds element c)
  unfolding for_elements
  for_elements-IsProceeding body zero element c h u = record { proceeds = u }
  for_elements-IsProceeding body (suc rounds) element c h u =
      then_continue-IsProceeding (body c element) _ (h c element u)
        (λ c' u'. for_elements-IsProceeding body rounds (suc element) c' h u')

  pub masked_element-IsProceeding :
      (bit : Option (Option Bool)) (active inactive : Cpu D → ℕ → Option (Progress D))
      → Body D s packet.program_counter active
      → Body D s packet.program_counter inactive
      → Body D s packet.program_counter (masked_element bit active inactive)
  unfolding masked_element
  masked_element-IsProceeding none active inactive h k c element u = record { proceeds = tt }
  masked_element-IsProceeding (some none) active inactive h k c element u = k c element u
  masked_element-IsProceeding (some (some bit)) active inactive h k c element u =
      choose bit (h c element u) (k c element u)

  pub element_body-IsProceeding :
      (masked : Bool) (active inactive : Cpu D → ℕ → Option (Progress D))
      → Body D s packet.program_counter active
      → Body D s packet.program_counter inactive
      → Body D s packet.program_counter (element_body masked active inactive)
  unfolding element_body
  element_body-IsProceeding masked active inactive h k c element u =
      choose masked
        (masked_element-IsProceeding (vector_mask_bit c.state element) active inactive h k c element
          u)
        (h c element u)

  pub elementwise-IsProceeding :
      (body fill : Cpu D → ℕ → Option (Progress D)) (tail : Bool) (start length vlmax : ℕ)
      (c : Cpu D)
      → Body D s packet.program_counter body
      → Body D s packet.program_counter fill
      → Unmoved s c.state
      → IsProceeding D s packet.program_counter (elementwise body fill tail start length vlmax c)
  unfolding elementwise
  elementwise-IsProceeding body fill tail start length vlmax c h k u =
      choose (ltb start length)
        (then_continue-IsProceeding _ _ (for_elements-IsProceeding body _ start c h u)
          (λ c' u'. choose tail (for_elements-IsProceeding fill _ length c' k u') (go_on c' u')))
        (go_on c u)

  pub finish_elements-IsPrecise :
      (next : ℕ) (o : Option (Progress D))
      → IsProceeding D s packet.program_counter o
      → IsPrecise D s packet.program_counter (finish_elements packet next o)
  unfolding finish_elements
  finish_elements-IsPrecise next none h = record { ends = tt }
  finish_elements-IsPrecise next (some (continuing c)) h = retire-IsPrecise s packet _ next
  finish_elements-IsPrecise next (some (stopped result c)) h = record { ends = h.proceeds }

  pub after_write-IsProceeding :
      (c : Cpu D) (o : Option (Bool × CpuState))
      → Unmoved s c.state
      → Wrote s o
      → IsProceeding D s packet.program_counter (after_write c packet o)
  unfolding after_write
  after_write-IsProceeding c none u h = record { proceeds = tt }
  after_write-IsProceeding c (some (written, t)) u h =
      choose written (record { proceeds = h }) (refuse c u)

  pub write_vector-IsProceeding :
      (group : VectorRegisterGroup) (value : ℕ)
      → Body D s packet.program_counter (write_vector packet group value)
  unfolding write_vector
  write_vector-IsProceeding group value c element u =
      after_write-IsProceeding c _ u (set_vector_element-Wrote s c.state group element value u)

  pub inactive_element-IsProceeding :
      (group : VectorRegisterGroup) (fill : Bool) (value : ℕ)
      → Body D s packet.program_counter (inactive_element packet group fill value)
  unfolding inactive_element
  inactive_element-IsProceeding group fill value c element u =
      choose fill (write_vector-IsProceeding group value c element u) (go_on c u)

  pub trap_at-IsProceeding :
      (trap : Trap) (c : Cpu D) (element : ℕ)
      → trap.program_counter ≡ packet.program_counter
      → Unmoved s c.state
      → IsProceeding D s packet.program_counter (trap_at packet trap c element)
  unfolding trap_at
  trap_at-IsProceeding trap c element e u =
      stop-IsProceeding _
        (fail-IsPrecise s packet _ trap (other_parts s c.state c.state.vector_state _ u) e)

  -- The end of a guest access of the loop: on, or the trap at this element.
  pub after_guest_access :
      (trap : Option Trap) (c : Cpu D) (element : ℕ) (next : Option (Progress D))
      → TrapsAt packet.program_counter trap
      → Unmoved s c.state
      → IsProceeding D s packet.program_counter next
      → IsProceeding D s packet.program_counter
          (elim trap [ some t ↦ trap_at packet t c element | none ↦ next ])
  after_guest_access none c element next e u h = h
  after_guest_access (some t) c element next e u h = trap_at-IsProceeding t c element e u
