-- ===== src/Devices/PlicClaims.antt =====
-- src/devices/plic.cpp: claiming a source and completing it.
use homemade_risc_v_64_vecto.Devices.PlicInvariant.{IsPlic}
use homemade_risc_v_64_vecto.Base.{
  ℕ, ◌+◌, ◌^◌, ◌<◌, ◌≤◌, ◌≡◌, refl, ◌≢◌, u8, u32, false, arith, get_or, set, length,
  get_or-set_self, length-set,
}
use homemade_risc_v_64_vecto.Bus.Access.{success_value}
use homemade_risc_v_64_vecto.Devices.Plic.{Plic, select, claim, complete}
use homemade_risc_v_64_vecto.Devices.PlicSelect.{select-IsBest}
use homemade_risc_v_64_vecto.Devices.PlicLaws.{holder}

-- The controller after `context` claims the source that it is offered.
abbrev claimed_state : Plic → ℕ → Plic
claimed_state p context = record p {
  pending = set p.pending (select p context) false;
  claimed_by = set p.claimed_by (select p context) (context + 1);
}

claim_lem :
    (p : Plic) (context : ℕ)
    → context < 2
    → 1 ≤ select p context
    → claim p context ≡ (success_value (select p context), claimed_state p context)
unfolding claim
claim_lem p context c l =
    let small : u8 (context + 1) ≡ context + 1 = omega arith in rw small (ground arith)

complete-foreign :
    (p : Plic) (context s : ℕ) → s < 2 ^ 32 → holder p s ≢ context + 1 → complete p context s ≡ p
unfolding complete
complete-foreign p context s b h = let small : u32 s ≡ s = omega arith in rw small (ground arith)

complete-own :
    (p : Plic) (context s : ℕ)
    → 1 ≤ s
    → s < 32
    → holder p s ≡ context + 1
    → complete p context s ≡ record p {
      claimed_by = set p.claimed_by s 0;
      pending = set p.pending s (get_or p.level s false);
    }
unfolding complete
complete-own p context s l b h = let small : u32 s ≡ s = omega arith in rw small (ground arith)

-- A claim hands out the source that the context is offered; if there is one it is then held by that
-- context and not pending, so that completing it on the same context frees it again, pending if its
-- line is still asserted. Completing it on another context changes nothing.
pub claim_then_complete :
    (p : Plic) (context other : ℕ)
    → IsPlic p
    → context < 2
    → other ≢ context
    → 1 ≤ select p context
    → ((claim p context).0 ≡ success_value (select p context))
      × (holder (claim p context).1 (select p context) ≡ context + 1)
      × (get_or (claim p context).1.pending (select p context) false ≡ false)
      × (complete (claim p context).1 other (select p context) ≡ (claim p context).1)
      × (holder (complete (claim p context).1 context (select p context)) (select p context) ≡ 0)
      × (get_or
            (complete (claim p context).1 context (select p context)).pending
            (select p context)
            false
          ≡ get_or p.level (select p context) false)
claim_then_complete p context other i c o l =
    let s = select p context in
    let below : s < 32 = (select-IsBest p context).below in
    let held = get_or-set_self p.claimed_by s (context + 1) 0 (rw i.claims below) in
    let idle = get_or-set_self p.pending s false false (rw i.pendings below) in
    let q = claimed_state p context in
    let own = complete-own q context s (omega arith) (omega arith) held in
    let room : s < length q.claimed_by =
      rw (length-set p.claimed_by s (context + 1), i.claims) below in
    let pending_room : s < length q.pending = rw (length-set p.pending s false, i.pendings) below in
    rw (claim_lem p context c l) (
      refl,
      held,
      idle,
      complete-foreign q other s (omega arith) (omega (arith, held)),
      rw own (get_or-set_self q.claimed_by s 0 0 room),
      rw own (get_or-set_self q.pending s (get_or p.level s false) false pending_room),
    )
