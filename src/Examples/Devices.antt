-- ===== src/Examples/Devices.antt =====
-- src/devices/clint.cpp and plic.cpp on concrete states.
use homemade_risc_v_64_vecto.Base.{
  ◌+◌, ◌*◌, ◌%◌, ◌^◌, ◌≡◌, refl, ◌≢◌, ◌==◌, leb, if◌then◌else◌, true, false, List, [], ◌∷◌, get_or,
  set, replicate, arith,
}
use homemade_risc_v_64_vecto.Base.Bits.{bit_at}
use homemade_risc_v_64_vecto.Bus.Access.{
  byte, word, AccessType, is_ok, success_value, width_in_bytes,
}
use homemade_risc_v_64_vecto.Core.Csr.State.{reset_csrs}
use homemade_risc_v_64_vecto.Devices.Clint.{
  new_clint, msip_offset, synchronize, validate_access, read, write, compare_exchange,
}
use homemade_risc_v_64_vecto.Devices.ClintLaws.{
  IsClint, refused_unchanged, written_register, synchronized_levels,
}
use homemade_risc_v_64_vecto.Devices.Plic.{
  Plic, new_plic, source_count, is_candidate, consider, select_loop, select, claim, complete,
}
use homemade_risc_v_64_vecto.Devices.PlicSelect.{IsBest, select-IsBest}
use homemade_risc_v_64_vecto.Devices.PlicLaws.{
  Event, drive, load, store, respond, respond_all, holder, claim_excludes,
}
use homemade_risc_v_64_vecto.Devices.PlicClaims.{claim_then_complete}
use homemade_risc_v_64_vecto.Devices.PlicInvariant.{IsPlic, respond-IsPlic}

new_clint-IsClint : IsClint new_clint
new_clint-IsClint = record { time_word = omega arith; compare_word = omega arith }

refused_unchanged_example :
    (is_ok (write new_clint 0 byte 1 AccessType.store).0 ≡ false
      → (write new_clint 0 byte 1 AccessType.store).1 ≡ new_clint)
    × ((read new_clint 0 byte AccessType.store).1 ≡ new_clint)
    × (is_ok (compare_exchange new_clint 0 byte 1 2 AccessType.store).0 ≡ false)
    × ((compare_exchange new_clint 0 byte 1 2 AccessType.store).1 ≡ new_clint)
refused_unchanged_example = refused_unchanged new_clint 0 byte 1 2 AccessType.store

written_register_example :
    (read (write new_clint 0x4004 word 0x5 AccessType.store).1 0x4004 word AccessType.load).0
    ≡ success_value (if 0x4004 == msip_offset then 0x5 % 2 else 0x5 % 2 ^ (width_in_bytes word * 8))
unfolding write validate_access
written_register_example =
    written_register new_clint 0x4004 word 0x5 AccessType.store AccessType.load new_clint-IsClint
      (omega arith) refl

synchronized_levels_example :
    ((synchronize new_clint reset_csrs).time ≡ new_clint.mtime)
    × (bit_at (synchronize new_clint reset_csrs).mip 7 ≡ (
        if 7 == 3
        then (if new_clint.msip then 1 else 0)
        else if 7 == 7
        then (if leb new_clint.mtimecmp new_clint.mtime then 1 else 0)
        else bit_at reset_csrs.mip 7))
synchronized_levels_example = synchronized_levels new_clint reset_csrs 7 (omega arith)

-- Source 10, of priority 1, is pending and enabled for both contexts.
abbrev ready : Plic
ready = record new_plic {
  priority = set (replicate 32 0) 10 1;
  level = set (replicate 32 false) 10 true;
  pending = set (replicate 32 false) 10 true;
  enable = 1024 ∷ 1024 ∷ [];
}

abbrev owned : Plic
owned = record ready { claimed_by = set (replicate 32 0) 10 1 }

ready-IsPlic : IsPlic ready
ready-IsPlic = record {
  priorities = refl;
  levels = refl;
  pendings = refl;
  claims = refl;
  enables = refl;
  thresholds = refl;
  small_priorities = ground arith;
  small_thresholds = ground arith;
  owners = ground arith;
}

select-IsBest_example : IsBest ready 0 (source_count + 1) (select ready 0)
select-IsBest_example = select-IsBest ready 0

-- The device asserts its line again, and the other context tries to complete the claim.
abbrev interference : List Event
interference =
    drive 10 true
    ∷ store 0x201004 word 10 AccessType.store
    ∷ load 0x201004 word AccessType.load
    ∷ []

claim_excludes_example :
    (holder (respond_all owned interference) 10 ≡ 0 + 1)
    × (select (respond_all owned interference) 1 ≢ 10)
claim_excludes_example = claim_excludes interference owned 10 0 1 (omega arith) refl refl

claim_then_complete_example :
    ((claim ready 0).0 ≡ success_value (select ready 0))
    × (holder (claim ready 0).1 (select ready 0) ≡ 0 + 1)
    × (get_or (claim ready 0).1.pending (select ready 0) false ≡ false)
    × (complete (claim ready 0).1 1 (select ready 0) ≡ (claim ready 0).1)
    × (holder (complete (claim ready 0).1 0 (select ready 0)) (select ready 0) ≡ 0)
    × (get_or (complete (claim ready 0).1 0 (select ready 0)).pending (select ready 0) false
        ≡ get_or ready.level (select ready 0) false)
unfolding select select_loop consider is_candidate
claim_then_complete_example =
    claim_then_complete ready 0 1 ready-IsPlic (omega arith) (omega arith) (omega arith)

respond-IsPlic_example : IsPlic (respond ready (drive 10 false))
respond-IsPlic_example = respond-IsPlic ready (drive 10 false) ready-IsPlic
