-- ===== src/Memory/RomLaws.antt =====
-- src/memory/boot_rom.cpp: what is loaded is read, and nothing changes once the ROM is sealed.
use homemade_risc_v_64_vecto.Base.{
  ℕ, zero, suc, ◌+◌, ◌≤◌, ◌<◌, ◌≡◌, refl, ◌∙◌, ◌⊎◌, inl, true, List, [], ◌∷◌, length, get_or, set,
  length-set, get_or-set_self, get_or-set_ne, arith, not, ◌||◌, ltb, if◌then◌else◌,
}
use homemade_risc_v_64_vecto.Bus.Access.{AccessWidth, AccessType, BusErrorCode, is_ok}
use homemade_risc_v_64_vecto.Memory.Bytes.{copy_bytes}
use homemade_risc_v_64_vecto.Memory.Rom.{
  BootRom, load, seal, read, write, compare_exchange, read_only_failure,
}

-- Everything that can be done to a ROM, from inside the emulator and from the bus.
pub data RomCall : Type 0 where
  loads : ℕ → List ℕ → RomCall
  seals : RomCall
  reads : ℕ → AccessWidth → AccessType → RomCall
  writes : ℕ → AccessWidth → ℕ → AccessType → RomCall
  exchanges : ℕ → AccessWidth → ℕ → ℕ → AccessType → RomCall

abbrev pub after : BootRom → RomCall → BootRom
after m (loads o xs) = (load m o xs).1
after m seals = seal m
after m (reads o w t) = (read m o w t).1
after m (writes o w x t) = (write m o w x t).1
after m (exchanges o w x y t) = (compare_exchange m o w x y t).1

unfoldable pub run : BootRom → List RomCall → BootRom
run m [] = m
run m (c ∷ cs) = run (after m c) cs

after-sealed : (m : BootRom) (c : RomCall) → m.is_sealed ≡ true → after m c ≡ m
unfolding load seal read write compare_exchange
after-sealed m (loads o xs) h = ground arith
after-sealed m seals h = ground arith
after-sealed m (reads o w t) h = ground arith
after-sealed m (writes o w x t) h = ground arith
after-sealed m (exchanges o w x y t) h = ground arith

run_sealed : (m : BootRom) (cs : List RomCall) → m.is_sealed ≡ true → run m cs ≡ m
unfolding run
run_sealed m [] h = refl
run_sealed m (c ∷ cs) h = let e = after-sealed m c h in rw e (run_sealed m cs h)

-- Once sealed, no sequence of loads, seals and bus accesses changes the ROM; a write or an exchange
-- from the bus is refused as read-only.
pub sealed_forever :
    (m : BootRom) (cs : List RomCall) (o : ℕ) (w : AccessWidth) (x y : ℕ) (t : AccessType)
    → let final = run (seal m) cs in
      (final ≡ seal m)
      × ((write final o w x t).0.error.code ≡ BusErrorCode.read_only)
      × ((compare_exchange final o w x y t).0.error.code ≡ BusErrorCode.read_only)
unfolding seal write compare_exchange read_only_failure
sealed_forever m cs o w x y t = (run_sealed (seal m) cs refl, refl, refl)

copy_outside :
    (xs : List ℕ) (o j : ℕ) (bs : List ℕ)
    → (j < o) ⊎ (o + length xs ≤ j)
    → get_or (copy_bytes xs o bs) j 0 ≡ get_or bs j 0
unfolding copy_bytes
copy_outside [] o j bs h = refl
copy_outside (x ∷ xs) o j bs h =
    copy_outside xs (o + 1) j (set bs o x) (ground arith) ∙ get_or-set_ne bs o j x 0 (ground arith)

copy_inside :
    (xs : List ℕ) (o k : ℕ) (bs : List ℕ)
    → k < length xs
    → o + length xs ≤ length bs
    → get_or (copy_bytes xs o bs) (o + k) 0 ≡ get_or xs k 0
unfolding copy_bytes
copy_inside [] o k bs p h = absurd (omega arith)
copy_inside (x ∷ xs) o zero bs p h =
    let e : o + zero ≡ o = omega arith in
    rw e (
      copy_outside xs (o + 1) o (set bs o x) (inl (omega arith))
      ∙ get_or-set_self bs o x 0 (omega arith))
copy_inside (x ∷ xs) o (suc k) bs p h =
    let e : o + suc k ≡ o + 1 + k = omega arith in
    rw e (copy_inside xs (o + 1) k (set bs o x) (omega arith) (rw length-set (omega arith)))

-- A load is accepted exactly when the ROM is not sealed and the image fits. It then puts every byte
-- of the image at its place; a refused one leaves that place, and both leave all other places.
pub load_places :
    (m : BootRom) (o : ℕ) (image : List ℕ) (k j : ℕ)
    → k < length image
    → (j < o) ⊎ (o + length image ≤ j)
    → let (result, after) = load m o image in
      (is_ok result ≡ not (m.is_sealed || ltb (length m.bytes) (o + length image)))
      × (get_or after.bytes (o + k) 0
          ≡ (if is_ok result then get_or image k 0 else get_or m.bytes (o + k) 0))
      × (get_or after.bytes j 0 ≡ get_or m.bytes j 0)
unfolding load read_only_failure
load_places m o image k j h apart =
    ground (arith, copy_inside image o k m.bytes h, copy_outside image o j m.bytes apart)
