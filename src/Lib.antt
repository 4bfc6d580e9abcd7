-- ===== src/Lib.antt =====
-- A model of the core of the RISC-V machine emulator (C++, namespace rvemu), with proofs.
--
-- The program interprets RV64 instructions. Its processor reaches everything through one physical
-- bus (src/bus), behind which RAM, boot ROM and the memory-mapped devices are regions. The MMU
-- (src/memory/mmu.cpp) turns virtual addresses into physical ones by walks over the same bus. The
-- register file of control and status registers (src/core/csr.cpp) holds the privilege state; the
-- CLINT and the PLIC (src/devices) project their interrupt levels into its mip.
--
-- What models what:
--   Bus/Access       include/rvemu/bus/access.hpp, physical_address.hpp: widths, errors, results
--   Bus/Range        src/bus/address_range.cpp: AddressRange
--   Bus/Region       include/rvemu/bus/address_region.hpp: the interface of a region, as a record of
--                    operations on the state of the device behind it
--   Bus/Routing      src/bus/bus.cpp: Bus with its regions, reservation and token counter
--   Bus/Layout, Bus/Locate, Bus/Reservation, Bus/Upkeep, Bus/Monitor    proofs about it
--   Memory/Bytes, Memory/Ram, Memory/Rom    src/memory/physical_memory.cpp, boot_rom.cpp
--   Memory/ByteLaws, RamLaws, RomLaws, RamSteady    proofs about them
--   Memory/Sv39, Memory/Tlb, Memory/Walk    src/memory/mmu.cpp: format and permissions, the cache of
--                    translations, the walk and Mmu::translate
--   Memory/Sv39Laws, TlbLaws, WalkLaws, WalkUpkeep    proofs about them
--   Core/Trap        include/rvemu/core/trap.hpp
--   Core/Csr         src/core/csr.cpp: Names (CsrAddress), State (fields and reset), Context (floating
--                    and vector context, pending bits), Permission, ReadValue, WriteValue, Access,
--                    Traps (interrupt selection, trap entry and return)
--   Core/Csr/StatusBits, TrapLaws, InterruptLaws, AccessLaws, Isolation    proofs about it
--   Core/Decoder     src/core/decoder.cpp: fields and immediates of an encoding
--   Core/Compressed  src/core/compressed_decoder.cpp: Encode (fields, immediates, base encodings),
--                    Expand (decompress_rv64c)
--   Core/IntegerM, Core/IntegerA    src/core/integer_m.cpp, integer_a.cpp
--   Core/DecoderLaws, Compressed/RoundTrip, MultiplyLaws, DivideLaws, IntegerALaws    proofs about them
--   Core/Cpu         src/core/cpu.cpp: State (cpu_state.cpp), Alu (the operations of OP and OP-IMM),
--                    Guest (guest accesses), Fetch, Execute (jumps, branches, loads, stores),
--                    Atomic, System, VectorConfig, Elements and VectorMemory and VectorInteger (the
--                    vector handlers), Dispatch (execute and execute_standard), Step (step,
--                    take_trap, take_pending_interrupt)
--   Core/Cpu/AluLaws, Precise, PreciseAccess, PreciseSystem, Proceeds, PreciseVector, PreciseStep,
--   StepLaws, TrapFlow, Returns, ReturnsSystem, UnitFree, Termination,
--   StepReturns, Endings    proofs about it
--   Vector           src/vector: State, Configuration, Group (vector_register_group.cpp), Integer and
--                    Memory (their decoders); Bounds    proofs about them
--   Devices/Map      include/rvemu/bus/address_map.hpp
--   Devices/Clint, Devices/Plic    src/devices/clint.cpp, plic.cpp
--   Devices/ClintLaws, PlicSelect, PlicLaws, PlicClaims, PlicInvariant    proofs about them
--   Examples         the theorems applied to small machines
--   Base             shared names, lists indexed by native numbers, machine words and bits
--
-- A stateful object is a record; a method is a function from the record and its arguments to the
-- result and the record after. A w-bit integer is a natural number, reduced modulo 2 ^ w where the
-- code's arithmetic wraps. Every public method of the devices holds the device's
-- lock from beginning to end, and every one of the bus the bus's, but for Bus::read, which only hands
-- the access on to the region. So a call is one step, and an interleaving of callers is a list of
-- steps. An exception of a constructor is `none`. The text of an error, which only people read, is
-- left out.
--
-- Loops over sizes fixed by the code recurse on the rounds that are left. The loop of
-- Mmu::translate that retries a walk takes fuel: one walk is enough when an exchange that
-- directly follows a read of the same word takes place, as in RAM.
--
-- The loop of an atomic memory operation that retries its exchange takes the same fuel. A result of
-- the interpreter is `none` when the fuel runs out, and where the code throws because a register
-- index is out of range.
--
-- The floating-point instructions (src/core/cpu_floating.cpp, src/vector/vector_floating.cpp and the
-- soft float behind them) are a parameter of the interpreter, FloatingUnit. The theorems on whole
-- instructions and steps are about scalar integer instructions, which do not reach it. Vector
-- instructions and atomic memory operations other than LR and SC are executable here and not among
-- these; nothing is said on the fuel that they need.
--
-- Not modelled: floating point itself, UART and virtio, and the host side (terminal, disk, signals,
-- command line, boot images, device tree, ELF files).
mod Base
pub mod Bus
pub mod Memory
pub mod Core
pub mod Vector
pub mod Devices
mod Examples
