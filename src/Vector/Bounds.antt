-- ===== src/Vector/Bounds.antt =====
-- src/vector/vector_configuration.cpp and vector_register_group.cpp: the capacities of valid
-- configurations, and where elements lie.
use homemade_risc_v_64_vecto.Base.{
  ℕ, refl, ◌||◌, ◌&&◌, ◌+◌, ◌-◌, ◌*◌, ◌/◌, ◌%◌, ◌^◌, ◌≤◌, ◌<◌, ◌≡◌, ◌≢◌, ◌⊎◌, bit_and, arith, Bool,
  true, false, not, ltb, leb, ◌==◌, if◌then◌else◌, some, none, Option,
}
use homemade_risc_v_64_vecto.Base.Bits.{bit_and_mask}
use homemade_risc_v_64_vecto.Base.Finite.{all_below, all_below_sound}
use homemade_risc_v_64_vecto.Vector.Configuration.{
  VectorConfiguration, decode_lmul, configuration_of, decode_vector_configuration,
  illegal_configuration, derive_memory_configuration, cancel_twos, lmul_supported,
}
use homemade_risc_v_64_vecto.Vector.Group.{
  VectorRegisterGroup, VectorElementLocation, create, locate, physical_register_count,
}

-- A configuration that an instruction may run under.
pub record IsCapacity (c : VectorConfiguration) : Type 0 where
  pub width : (c.sew_bits ≡ 8) ⊎ (c.sew_bits ≡ 16) ⊎ (c.sew_bits ≡ 32) ⊎ (c.sew_bits ≡ 64)
  pub capacity : c.vlmax * c.sew_bits * c.lmul_denominator ≡ 256 * c.lmul_numerator
  pub some_element : 0 < c.vlmax
  pub at_most : c.vlmax ≤ 256
  pub lmul :
      ((c.lmul_denominator ≡ 1)
        × ((c.lmul_numerator ≡ 1)
            ⊎ (c.lmul_numerator ≡ 2)
            ⊎ (c.lmul_numerator ≡ 4)
            ⊎ (c.lmul_numerator ≡ 8)))
      ⊎ ((c.lmul_numerator ≡ 1)
          × ((c.lmul_denominator ≡ 2) ⊎ (c.lmul_denominator ≡ 4) ⊎ (c.lmul_denominator ≡ 8)))

abbrev configured : ℕ → ℕ → ℕ → VectorConfiguration
configured vtype vsew encoding = configuration_of vtype (8 * 2 ^ vsew) (decode_lmul encoding)

-- The same as a test, which is run on every encoding.
abbrev is_capacity : VectorConfiguration → Bool
is_capacity c =
    (c.sew_bits == 8 || c.sew_bits == 16 || c.sew_bits == 32 || c.sew_bits == 64)
    && c.vlmax * c.sew_bits * c.lmul_denominator == 256 * c.lmul_numerator
    && ltb 0 c.vlmax
    && leb c.vlmax 256
    && (c.lmul_denominator == 1
          && (c.lmul_numerator == 1
              || c.lmul_numerator == 2
              || c.lmul_numerator == 4
              || c.lmul_numerator == 8)
        || c.lmul_numerator == 1
          && (c.lmul_denominator == 2 || c.lmul_denominator == 4 || c.lmul_denominator == 8))

abbrev passes : ℕ → ℕ → ℕ → Bool
passes vtype vsew encoding =
    not (configured vtype vsew encoding).valid || is_capacity (configured vtype vsew encoding)

every_encoding :
    (vtype : ℕ) → all_below 4 (λ vsew. all_below 8 (λ encoding. passes vtype vsew encoding)) ≡ true
unfolding configuration_of decode_lmul
every_encoding vtype = refl

to_capacity : (c : VectorConfiguration) → is_capacity c ≡ true → IsCapacity c
to_capacity c h = record {
  width = ground arith;
  capacity = ground arith;
  some_element = ground arith;
  at_most = ground arith;
  lmul = ground arith;
}

configured-IsCapacity :
    (vtype vsew encoding : ℕ)
    → vsew < 4
    → encoding < 8
    → (configured vtype vsew encoding).valid ≡ true
    → IsCapacity (configured vtype vsew encoding)
configured-IsCapacity vtype vsew encoding h k e =
    let row =
      all_below_sound 4 (λ i. all_below 8 (λ j. passes vtype i j)) vsew (every_encoding vtype) h in
    let here = all_below_sound 8 (λ j. passes vtype vsew j) encoding row k in
    to_capacity _ (ground (arith, here, e))

-- What passes two guards is valid only behind them.
guarded :
    (a b : Bool) (c : VectorConfiguration)
    → (if a then illegal_configuration else if b then illegal_configuration else c).valid ≡ true
    → (b ≡ false)
      × (c.valid ≡ true)
      × ((if a then illegal_configuration else if b then illegal_configuration else c) ≡ c)
guarded true b c h = absurd (no_truth h)
  where
    no_truth : false ≢ true
    no_truth = cc
guarded false true c h = absurd (no_truth h)
  where
    no_truth : false ≢ true
    no_truth = cc
guarded false false c h = (refl, h, refl)

-- A configuration that `decode_vector_configuration` calls valid has elements of 8, 16, 32 or 64 bits,
-- at least one and at most 256 of them, and they fill exactly the register group: VLMAX times SEW is
-- VLEN times LMUL, which is 1, 2, 4 or 8, or a half, a quarter or an eighth.
pub valid_configuration :
    (vtype : ℕ)
    → (decode_vector_configuration vtype).valid ≡ true
    → IsCapacity (decode_vector_configuration vtype)
unfolding decode_vector_configuration
valid_configuration vtype h =
    let vsew : ℕ = bit_and (vtype / 8) 7 in
    let encoding : ℕ = bit_and vtype 7 in
    let (low, valid, e) =
      guarded (not (bit_and vtype (2 ^ 63) == 0) || not (bit_and vtype (2 ^ 64 - 1 - 0xFF) == 0))
        (ltb 3 vsew) (configured vtype vsew encoding) h in
    rw e (
      configured-IsCapacity vtype vsew encoding (ground arith) (omega (arith, bit_and_mask 3 vtype))
        valid)

abbrev passes_derived : ℕ → ℕ → ℕ → ℕ → Bool
passes_derived vtype vsew encoding width =
    elim (derive_memory_configuration (configured vtype vsew encoding) width) [
      | none ↦ true
      | some d ↦
          is_capacity d && d.sew_bits == width && d.vlmax == (configured vtype vsew encoding).vlmax
    ]

every_derivation :
    (vtype : ℕ)
    → all_below 4 (λ vsew.
      all_below 8 (λ encoding. all_below 65 (λ width. passes_derived vtype vsew encoding width)))
      ≡ true
unfolding configuration_of decode_lmul derive_memory_configuration cancel_twos lmul_supported
every_derivation vtype = refl

derived_from_valid :
    (c d : VectorConfiguration) (width : ℕ)
    → derive_memory_configuration c width ≡ some d
    → (c.valid ≡ true) × (width < 65)
unfolding derive_memory_configuration
derived_from_valid c d width h = ground arith

abbrev is_derived : ℕ → ℕ → Option VectorConfiguration → Bool
is_derived width vlmax o = elim o [
  | none ↦ true
  | some d ↦ is_capacity d && d.sew_bits == width && d.vlmax == vlmax
]

to_derived :
    (width vlmax : ℕ) (o : Option VectorConfiguration) (d : VectorConfiguration)
    → is_derived width vlmax o ≡ true
    → o ≡ some d
    → IsCapacity d × (d.sew_bits ≡ width) × (d.vlmax ≡ vlmax)
to_derived width vlmax none d h e = cc
to_derived width vlmax (some x) d h e =
    let same : x ≡ d = ground arith in
    rw (← same) (to_capacity x (ground arith), ground arith, ground arith)

-- The configuration that a vector load or store derives from vtype for its own element width fills its
-- register group exactly too: with elements of that width, as many as the configuration of vtype
-- has, its LMUL is again one of the seven.
pub derive_memory_configuration-IsCapacity :
    (vtype width : ℕ) (d : VectorConfiguration)
    → derive_memory_configuration (decode_vector_configuration vtype) width ≡ some d
    → IsCapacity d × (d.sew_bits ≡ width) × (d.vlmax ≡ (decode_vector_configuration vtype).vlmax)
unfolding decode_vector_configuration
derive_memory_configuration-IsCapacity vtype width d h =
    let vsew : ℕ = bit_and (vtype / 8) 7 in
    let encoding : ℕ = bit_and vtype 7 in
    let (valid, narrow) = derived_from_valid _ d width h in
    let (low, _, e) =
      guarded (not (bit_and vtype (2 ^ 63) == 0) || not (bit_and vtype (2 ^ 64 - 1 - 0xFF) == 0))
        (ltb 3 vsew) (configured vtype vsew encoding) valid in
    let rows =
      all_below_sound 4 (λ i. all_below 8 (λ j. all_below 65 (λ k. passes_derived vtype i j k)))
        vsew (every_derivation vtype) (ground arith) in
    let row =
      all_below_sound 8 (λ j. all_below 65 (λ k. passes_derived vtype vsew j k)) encoding rows
        (omega (arith, bit_and_mask 3 vtype)) in
    let here = all_below_sound 65 (λ k. passes_derived vtype vsew encoding k) width row narrow in
    let made : derive_memory_configuration (configured vtype vsew encoding) width ≡ some d =
      rw (← e) h in
    rw e (to_derived width (configured vtype vsew encoding).vlmax _ d here made)

-- Where an element of a group lies: on the bytes at its place counted from the first byte of the
-- group's first register, and inside one of the group's registers.
pub record IsPlaced (c : VectorConfiguration) (base element : ℕ) (o : Option VectorElementLocation)
    : Type 0 where
  pub location : VectorElementLocation
  pub found : o ≡ some location
  pub place :
      location.register_index * 32 + location.byte_offset ≡ base * 32 + element * (c.sew_bits / 8)
  pub width : location.width_bytes * 8 ≡ c.sew_bits
  pub within : location.byte_offset + location.width_bytes ≤ 32
  pub register : location.register_index < base + physical_register_count c
  pub exists : base + physical_register_count c ≤ 32

-- The arithmetic of a place: the element's last byte lies in the group.
group_room :
    (c : VectorConfiguration) (element : ℕ)
    → IsCapacity c
    → element < c.vlmax
    → (element * (c.sew_bits / 8) % 32 + c.sew_bits / 8 ≤ 32)
      × (element * (c.sew_bits / 8) / 32 < physical_register_count c)
      × (element * (c.sew_bits / 8) < 256)
      × (c.sew_bits / 8 < 256)
unfolding physical_register_count
group_room c element capacity inside =
    ground (arith, capacity.width, capacity.lmul, capacity.capacity)

created :
    (c : VectorConfiguration) (base : ℕ) (group : VectorRegisterGroup)
    → create c base ≡ some group
    → (group ≡ record { configuration = c; base_register = base })
      × (base + physical_register_count c ≤ 32)
unfolding create
created c base group made = ground arith

-- Every element below VLMAX of a group that a configuration makes at a base register lies on the
-- bytes at its place counted from the first byte of that register, inside one of the group's
-- registers, which are all among the 32: no access to an element is refused, leaves the register
-- file or meets another element. The configuration is one that fills its group exactly, as the
-- valid ones of vtype and those derived from them for loads and stores do.
pub locate-IsPlaced :
    (c : VectorConfiguration) (base element : ℕ) (group : VectorRegisterGroup)
    → IsCapacity c
    → create c base ≡ some group
    → element < c.vlmax
    → IsPlaced c base element (locate group element)
unfolding create locate
locate-IsPlaced c base element group capacity made inside =
    let room = group_room c element capacity inside in
    let (same, top) = created c base group made in
    let b : ℕ = element * (c.sew_bits / 8) in
    rw same (record {
      location = record {
        register_index = base + b / 32;
        byte_offset = b % 32;
        width_bytes = c.sew_bits / 8;
      };
      found = ground (arith, room, top);
      place = omega arith;
      width = ground (arith, capacity.width);
      within = room.0;
      register = ground (arith, room);
      exists = top;
    })
