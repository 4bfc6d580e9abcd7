-- ===== src/Memory/ByteLaws.antt =====
-- The byte loops against an independent description: a little-endian sum, and bytes by index.
use native.Mathlib.Nat.{pow-le-pow_right, mod-eq_of_lt, div-div-eq-div-mul, div-add-mod}
use native.Mathlib.Decide.{ℕ_discrete}
use native.Mathlib.Numerals.{towards_suc}
use homemade_risc_v_64_vecto.Base.{
  ℕ, zero, suc, ◌+◌, ◌*◌, ◌/◌, ◌%◌, ◌^◌, ◌≤◌, ◌<◌, ◌≡◌, refl, sym, ap, ◌∙◌, ◌≢◌, ◌⊎◌, inl, List,
  get_or, set, length, length-set, get_or-set_self, get_or-set_ne, All, All-set, All-get_or,
  bit_and, bit_or, shl64, shr, u8, arith,
}
use homemade_risc_v_64_vecto.Base.Bits.{
  bit_and_mask, bit_or_fields, bit_or_comm, bits_ext, bit_at-mod, bit_at-shr,
}
use homemade_risc_v_64_vecto.Memory.Bytes.{read_bytes, write_bytes}

abbrev pub IsByte : ℕ → Type 0
IsByte x = x < 256

-- The number that the `n` bytes from `offset` on spell, lowest byte first.
unfoldable pub little_endian : ℕ → ℕ → List ℕ → ℕ
little_endian zero offset bytes = 0
little_endian (suc n) offset bytes =
    get_or bytes offset 0 + 256 * little_endian n (offset + 1) bytes

pub pow_byte : (k : ℕ) → 2 ^ ((k + 1) * 8) ≡ 2 ^ (k * 8) * 256
pow_byte k = let e : (k + 1) * 8 ≡ k * 8 + 8 = omega arith in rw e (simp towards_suc (omega arith))

byte_written : (v k : ℕ) → u8 (bit_and (shr v k) 0xFF) ≡ v / 2 ^ k % 256
byte_written v k = omega (arith, bit_and_mask 8 (v / 2 ^ k))

pub length-write : (n o i v : ℕ) (bs : List ℕ) → length (write_bytes n o i v bs) ≡ length bs
unfolding write_bytes
length-write zero o i v bs = refl
length-write (suc n) o i v bs = length-write n o (i + 1) v _ ∙ length-set bs (o + i) _

pub write_bytes-IsByte :
    (n o i v : ℕ) (bs : List ℕ) → All IsByte bs → All IsByte (write_bytes n o i v bs)
unfolding write_bytes
write_bytes-IsByte zero o i v bs h = h
write_bytes-IsByte (suc n) o i v bs h =
    write_bytes-IsByte n o (i + 1) v _ (All-set IsByte bs (o + i) _ (omega arith) h)

-- Outside the span that is written every byte stays.
pub write_bytes_outside :
    (n o i v j : ℕ) (bs : List ℕ)
    → (j < o + i) ⊎ (o + i + n ≤ j)
    → get_or (write_bytes n o i v bs) j 0 ≡ get_or bs j 0
unfolding write_bytes
write_bytes_outside zero o i v j bs h = refl
write_bytes_outside (suc n) o i v j bs h =
    let ne : o + i ≢ j = ground arith in
    write_bytes_outside n o (i + 1) v j _ (ground arith) ∙ get_or-set_ne bs (o + i) j _ 0 ne

-- Inside it byte `k` is byte `k` of the value.
pub write_bytes_inside :
    (n o i v k : ℕ) (bs : List ℕ)
    → i ≤ k
    → k < i + n
    → o + i + n ≤ length bs
    → get_or (write_bytes n o i v bs) (o + k) 0 ≡ v / 2 ^ (k * 8) % 256
unfolding write_bytes
write_bytes_inside zero o i v k bs p q h = absurd (omega arith)
write_bytes_inside (suc n) o i v k bs p q h = elim (ℕ_discrete i k) [
  | yes e ↦
      let there : o + i < length bs = omega arith in
      rw (← e) (
        write_bytes_outside n o (i + 1) v (o + i) _ (inl (omega arith))
        ∙ get_or-set_self bs (o + i) _ 0 there
        ∙ byte_written v (i * 8))
  | no ne ↦
      let fits : o + (i + 1) + n ≤ length (set bs (o + i) (u8 (bit_and (shr v (i * 8)) 0xFF))) =
        rw length-set (omega arith) in
      write_bytes_inside n o (i + 1) v k _ (omega arith) (omega arith) fits
]

digit_lt : (x p y : ℕ) → x < 256 → y < p → x * p + y < p * 256
digit_lt x p y h k = grind arith

read_bytes_loop :
    (n o i acc : ℕ) (bs : List ℕ)
    → i + n ≤ 8
    → acc < 2 ^ (i * 8)
    → All IsByte bs
    → read_bytes n o i acc bs ≡ acc + 2 ^ (i * 8) * little_endian n (o + i) bs
unfolding read_bytes little_endian
read_bytes_loop zero o i acc bs h p b = omega arith
read_bytes_loop (suc n) o i acc bs h p b =
    let x : ℕ = get_or bs (o + i) 0 in
    let x_byte : x < 256 = All-get_or IsByte bs (o + i) 0 (omega arith) b in
    let within : 2 ^ ((i + 1) * 8) ≤ 2 ^ 64 =
      pow-le-pow_right (omega arith) {j = 64} (omega arith) in
    let small : x * 2 ^ (i * 8) + acc < 2 ^ ((i + 1) * 8) =
      omega (arith, digit_lt x (2 ^ (i * 8)) acc x_byte p, pow_byte i) in
    let shifted : shl64 x (i * 8) ≡ x * 2 ^ (i * 8) = mod-eq_of_lt (omega arith) in
    let joined : bit_or acc (shl64 x (i * 8)) ≡ x * 2 ^ (i * 8) + acc =
      rw (shifted, bit_or_comm) (bit_or_fields (i * 8) x acc p) in
    let next : o + (i + 1) ≡ o + i + 1 = omega arith in
    let rest : read_bytes n o (i + 1) (x * 2 ^ (i * 8) + acc) bs
        ≡ x * 2 ^ (i * 8) + acc + 2 ^ ((i + 1) * 8) * little_endian n (o + i + 1) bs =
      rw (← next) (read_bytes_loop n o (i + 1) (x * 2 ^ (i * 8) + acc) bs (omega arith) small b) in
    rw joined (omega (arith, rest, ap (λ (t : ℕ). t * little_endian n (o + i + 1) bs) (pow_byte i)))

-- What is read is the number that the bytes spell.
pub read_bytes-little_endian :
    (n o : ℕ) (bs : List ℕ) → n ≤ 8 → All IsByte bs → read_bytes n o 0 0 bs ≡ little_endian n o bs
read_bytes-little_endian n o bs h b =
    let e : o + 0 ≡ o = omega arith in
    omega (
      arith,
      read_bytes_loop n o 0 0 bs (omega arith) (omega arith) b,
      ap (λ (t : ℕ). little_endian n t bs) e,
    )

-- Equal bytes spell equal numbers.
pub little_endian_ext :
    (n o : ℕ) (bs cs : List ℕ)
    → ((k : ℕ) → k < n → get_or bs (o + k) 0 ≡ get_or cs (o + k) 0)
    → little_endian n o bs ≡ little_endian n o cs
unfolding little_endian
little_endian_ext zero o bs cs h = refl
little_endian_ext (suc n) o bs cs h =
    let e : o + 0 ≡ o = omega arith in
    let first : get_or bs o 0 ≡ get_or cs o 0 = rw e at (h 0 (omega arith)) in
    let rest =
      little_endian_ext n (o + 1) bs cs
        λ k p. let q : o + 1 + k ≡ o + suc k = omega arith in rw q (h (suc k) (omega arith)) in
    omega (arith, first, rest)

div-byte : (v k : ℕ) → v / 2 ^ (k * 8) / 256 ≡ v / 2 ^ ((k + 1) * 8)
div-byte v k = rw (pow_byte k) (div-div-eq-div-mul v (2 ^ (k * 8)) 256)

mod-byte : (v q : ℕ) → v % (256 * q) ≡ v % 256 + 256 * (v / 256 % q)
mod-byte v q =
    let inner : q * (v / (256 * q)) + v / 256 % q ≡ v / 256 =
      rw (← div-div-eq-div-mul v 256 q) (div-add-mod (v / 256) q) in
    omega (arith, div-add-mod v (256 * q), inner)

-- Bytes that are those of a value spell the value, cut to their number.
little_endian_of :
    (n o i v : ℕ) (bs : List ℕ)
    → ((k : ℕ) → k < n → get_or bs (o + k) 0 ≡ v / 2 ^ ((i + k) * 8) % 256)
    → little_endian n o bs ≡ v / 2 ^ (i * 8) % 2 ^ (n * 8)
unfolding little_endian
little_endian_of zero o i v bs h = omega arith
little_endian_of (suc n) o i v bs h =
    let e : o + 0 ≡ o = omega arith in
    let z : i + 0 ≡ i = omega arith in
    let first : get_or bs o 0 ≡ v / 2 ^ (i * 8) % 256 = rw (e, z) at (h 0 (omega arith)) in
    let rest = little_endian_of n (o + 1) (i + 1) v bs λ k p.
      let q : o + 1 + k ≡ o + suc k = omega arith in
      let r : i + 1 + k ≡ i + suc k = omega arith in rw (q, r) (h (suc k) (omega arith)) in
    let width : 2 ^ (suc n * 8) ≡ 256 * 2 ^ (n * 8) =
      let s : suc n * 8 ≡ (n + 1) * 8 = omega arith in rw (s, pow_byte n) (omega arith) in
    rw width (
      omega (
        arith,
        first,
        rest,
        div-byte v i,
        mod-byte (v / 2 ^ (i * 8)) (2 ^ (n * 8)),
        ap (λ (t : ℕ). t % 2 ^ (n * 8)) (div-byte v i),
      ))

-- Reading back a span that was written gives the value, cut to the width.
pub read_written :
    (n o v : ℕ) (bs : List ℕ)
    → n ≤ 8
    → o + n ≤ length bs
    → All IsByte bs
    → read_bytes n o 0 0 (write_bytes n o 0 v bs) ≡ v % 2 ^ (n * 8)
read_written n o v bs h fits b =
    read_bytes-little_endian n o (write_bytes n o 0 v bs) h (write_bytes-IsByte n o 0 v bs b)
    ∙ little_endian_of n o 0 v (write_bytes n o 0 v bs) (λ k p.
      let z : 0 + k ≡ k = omega arith in
      rw z (write_bytes_inside n o 0 v k bs (omega arith) (omega arith) (omega arith)))
    ∙ (let whole : v / 2 ^ (0 * 8) ≡ v = omega arith in ap (λ (t : ℕ). t % 2 ^ (n * 8)) whole)

-- Reading a span that does not meet the one written gives what it gave before.
pub read_elsewhere :
    (n o m p v : ℕ) (bs : List ℕ)
    → n ≤ 8
    → (p + n ≤ o) ⊎ (o + m ≤ p)
    → All IsByte bs
    → read_bytes n p 0 0 (write_bytes m o 0 v bs) ≡ read_bytes n p 0 0 bs
read_elsewhere n o m p v bs h apart b =
    read_bytes-little_endian n p (write_bytes m o 0 v bs) h (write_bytes-IsByte m o 0 v bs b)
    ∙ little_endian_ext n p (write_bytes m o 0 v bs) bs
        (λ k q. write_bytes_outside m o 0 v (p + k) bs (ground arith))
    ∙ sym (read_bytes-little_endian n p bs h b)

byte_of_masked : (v i r : ℕ) → v % 2 ^ ((i + 1 + r) * 8) / 2 ^ (i * 8) % 256 ≡ v / 2 ^ (i * 8) % 256
byte_of_masked v i r =
    let n : ℕ = (i + 1 + r) * 8 in
    let s : ℕ = i * 8 in
    bits_ext (v % 2 ^ n / 2 ^ s % 256) (v / 2 ^ s % 256) λ k. ground (
      arith,
      bit_at-mod 8 (v % 2 ^ n / 2 ^ s) k,
      bit_at-shr (v % 2 ^ n) s k,
      bit_at-mod n v (s + k),
      bit_at-mod 8 (v / 2 ^ s) k,
      bit_at-shr v s k,
    )

-- Masking a value to the width that is written changes nothing.
pub write_bytes-mod :
    (n o i v : ℕ) (bs : List ℕ)
    → write_bytes n o i (v % 2 ^ ((i + n) * 8)) bs ≡ write_bytes n o i v bs
unfolding write_bytes
write_bytes-mod zero o i v bs = refl
write_bytes-mod (suc n) o i v bs =
    let e : i + suc n ≡ i + 1 + n = omega arith in
    let same : u8 (bit_and (shr (v % 2 ^ ((i + suc n) * 8)) (i * 8)) 0xFF)
        ≡ u8 (bit_and (shr v (i * 8)) 0xFF) =
      rw (byte_written (v % 2 ^ ((i + suc n) * 8)) (i * 8), byte_written v (i * 8), e)
        (byte_of_masked v i n) in
    rw same (rw e (write_bytes-mod n o (i + 1) v _))
