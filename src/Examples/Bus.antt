-- ===== src/Examples/Bus.antt =====
-- src/bus/bus.cpp on a bus with sixteen bytes of RAM at 0x80000000.
use mathlib.Core.List.{Perm}
use homemade_risc_v_64_vecto.Base.{
  ◌+◌, ◌<◌, ◌≡◌, refl, ◌↔◌, ◌⊎◌, true, false, none, some, List, [], ◌∷◌, replicate, get_elem?, All,
  set, arith, if◌then◌else◌,
}
use homemade_risc_v_64_vecto.Bus.Access.{
  word, AccessType, BusError, BusErrorCode, is_ok, width_in_bytes, success_with,
}
use homemade_risc_v_64_vecto.Bus.Range.{AddressRange, IsRange, max_u64}
use homemade_risc_v_64_vecto.Bus.Region.{Region}
use homemade_risc_v_64_vecto.Bus.Routing.{
  Bus, ReservationRecord, found, failed, locate, locate_in, load_reserved, store_conditional,
  register_region, any_overlap, next_token, put_device, reservation_base, insert_by_base,
  sort_by_base, make_error, invalidate_reservation,
}
use homemade_risc_v_64_vecto.Bus.Routing
use homemade_risc_v_64_vecto.Bus.Layout.{IsWellFormed, Apart, register_region_sound}
use homemade_risc_v_64_vecto.Bus.Locate.{locate-found_iff, locate-failed, Holds, Nowhere, Straddles}
use homemade_risc_v_64_vecto.Bus.Reservation.{load_then_store}
use homemade_risc_v_64_vecto.Bus.Monitor.{
  Transaction, writes, run, some_breaks, run-reservation, exchange_is_atomic,
}
use homemade_risc_v_64_vecto.Memory.Ram.{PhysicalMemory, validate}
use homemade_risc_v_64_vecto.Memory.Ram
use homemade_risc_v_64_vecto.Memory.Bytes.{read_bytes, write_bytes}
use homemade_risc_v_64_vecto.Memory.RamSteady.{memory_ops}

abbrev pub small_range : AddressRange
small_range = record { base = 0x80000000; size = 16; end_exclusive = 0x80000010 }

pub small_range-IsRange : IsRange small_range
small_range-IsRange = record { nonempty = omega arith; ends = refl; fits = omega arith }

abbrev pub small_memory : PhysicalMemory
small_memory = record { name = "ram"; range = small_range; bytes = replicate 16 0 }

abbrev pub small_region : Region PhysicalMemory
small_region = record { name = "ram"; range = small_range; device = small_memory }

abbrev pub empty_bus : Bus PhysicalMemory
empty_bus = record { regions = []; reservation = none; next_reservation_token = 1 }

abbrev pub small_bus : Bus PhysicalMemory
small_bus = record empty_bus { regions = small_region ∷ [] }

pub small_bus-IsWellFormed : IsWellFormed small_bus
small_bus-IsWellFormed = (small_range-IsRange, omega arith, tt)

abbrev other_range : AddressRange
other_range = record { base = 0x1000; size = 16; end_exclusive = 0x1010 }

abbrev other_region : Region PhysicalMemory
other_region = record {
  name = "low";
  range = other_range;
  device = record { name = "low"; range = other_range; bytes = replicate 16 0 };
}

register_region_sound_example :
    IsWellFormed (register_region small_bus (some other_region)).1
    × ((is_ok (register_region small_bus (some other_region)).0 ≡ true)
        ↔ All (Apart other_region) small_bus.regions)
    × Perm (register_region small_bus (some other_region)).1.regions (
        if is_ok (register_region small_bus (some other_region)).0
        then other_region ∷ small_bus.regions
        else small_bus.regions)
register_region_sound_example =
    register_region_sound small_bus other_region
      (record { nonempty = omega arith; ends = refl; fits = omega arith }) small_bus-IsWellFormed

abbrev straddling : BusError
straddling = make_error BusErrorCode.out_of_bounds 0x8000000E 4 "ram"

locate-failed_example :
    (straddling.address ≡ 0x8000000E)
    × (((straddling.code ≡ BusErrorCode.invalid_width) × (width_in_bytes word ≡ 0))
        ⊎ ((straddling.code ≡ BusErrorCode.address_overflow)
            × (max_u64 + 1 < 0x8000000E + width_in_bytes word))
        ⊎ ((straddling.code ≡ BusErrorCode.unmapped) × Nowhere small_bus.regions 0x8000000E)
        ⊎ ((straddling.code ≡ BusErrorCode.out_of_bounds)
            × Straddles small_bus.regions 0x8000000E (width_in_bytes word)))
unfolding locate locate_in
locate-failed_example = locate-failed small_bus 0x8000000E word straddling (omega arith) refl

locate-found_iff_example : (locate small_bus 0x80000008 word ≡ found 0 small_region 8) ↔ (
    (0 < 4)
    × (get_elem? small_bus.regions 0 ≡ some small_region)
    × Holds small_region 0x80000008 4 8)
locate-found_iff_example =
    locate-found_iff small_bus 0x80000008 word 0 8 small_region small_bus-IsWellFormed (omega arith)

abbrev held : ReservationRecord
held = record { token = 1; load_address = 0x80000000; reserved_base = 0x80000000; size = 8 }

abbrev quiet : List Transaction
quiet = writes 0x80000008 word 5 AccessType.store ∷ []

exchange_is_atomic_example :
    some_breaks memory_ops held (load_reserved memory_ops small_bus 0x80000000 word).1 quiet ≡ false
unfolding locate locate_in load_reserved store_conditional next_token run Ram.read Ram.write
    Routing.write validate read_bytes write_bytes reservation_base invalidate_reservation
exchange_is_atomic_example =
    exchange_is_atomic memory_ops small_bus 0x80000000 word quiet 7 (omega arith) refl refl
      (omega arith, tt) refl

run-reservation_example :
    (run memory_ops (record small_bus { reservation = some held }) quiet).reservation ≡ (
      if some_breaks memory_ops held (record small_bus { reservation = some held }) quiet
      then none
      else some held)
run-reservation_example =
    run-reservation memory_ops (record small_bus { reservation = some held }) quiet refl
      (omega arith) (omega arith, tt)

load_then_store_example :
    let l = load_reserved memory_ops small_bus 0x80000000 word in
    let s = store_conditional memory_ops l.1 l.0.token 0x80000000 word 7 in
    let stored = Ram.write small_memory 0 word 7 AccessType.atomic in
    (s.0 ≡ (if is_ok stored.0 then success_with 0 true else stored.0))
    × (s.1.regions ≡ set l.1.regions 0 (record small_region { device = stored.1 }))
unfolding locate locate_in Ram.read validate read_bytes
load_then_store_example =
    load_then_store memory_ops small_bus 0x80000000 word 7 small_bus-IsWellFormed (omega arith)
      (omega arith) refl refl
