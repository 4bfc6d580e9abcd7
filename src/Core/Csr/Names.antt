-- ===== src/Core/Csr/Names.antt =====
-- include/rvemu/core/csr.hpp, `CsrAddress`: an address is its 12-bit code; `name_of` finds the
-- enumerator that has it, which is how a `switch` on an address chooses its case.
use homemade_risc_v_64_vecto.Base.{ℕ, List, [], ◌∷◌, Option, none, some, ◌==◌, if◌then◌else◌}

pub data CsrName : Type 0 where
  fflags frm fcsr vstart vxsat vxrm : CsrName
  vcsr sstatus sie stvec scounteren sscratch : CsrName
  sepc scause stval sip satp cycle : CsrName
  time instret vl vtype vlenb mstatus : CsrName
  misa medeleg mideleg mie mtvec mcounteren : CsrName
  mcountinhibit mscratch mepc mcause mtval mip : CsrName
  mtinst mtval2 pmpcfg0 pmpaddr0 mcycle minstret : CsrName
  mhpmcounter3 mhpmevent3 mvendorid marchid mimpid mhartid : CsrName

abbrev pub code_of : CsrName → ℕ
code_of fflags = 0x001
code_of frm = 0x002
code_of fcsr = 0x003
code_of vstart = 0x008
code_of vxsat = 0x009
code_of vxrm = 0x00A
code_of vcsr = 0x00F
code_of sstatus = 0x100
code_of sie = 0x104
code_of stvec = 0x105
code_of scounteren = 0x106
code_of sscratch = 0x140
code_of sepc = 0x141
code_of scause = 0x142
code_of stval = 0x143
code_of sip = 0x144
code_of satp = 0x180
code_of cycle = 0xC00
code_of time = 0xC01
code_of instret = 0xC02
code_of vl = 0xC20
code_of vtype = 0xC21
code_of vlenb = 0xC22
code_of mstatus = 0x300
code_of misa = 0x301
code_of medeleg = 0x302
code_of mideleg = 0x303
code_of mie = 0x304
code_of mtvec = 0x305
code_of mcounteren = 0x306
code_of mcountinhibit = 0x320
code_of mscratch = 0x340
code_of mepc = 0x341
code_of mcause = 0x342
code_of mtval = 0x343
code_of mip = 0x344
code_of mtinst = 0x34A
code_of mtval2 = 0x34B
code_of pmpcfg0 = 0x3A0
code_of pmpaddr0 = 0x3B0
code_of mcycle = 0xB00
code_of minstret = 0xB02
code_of mhpmcounter3 = 0xB03
code_of mhpmevent3 = 0x323
code_of mvendorid = 0xF11
code_of marchid = 0xF12
code_of mimpid = 0xF13
code_of mhartid = 0xF14

-- The enumerators, in the order of the enumeration.
abbrev pub csr_names : List CsrName
csr_names =
    fflags ∷ frm ∷ fcsr ∷ vstart ∷ vxsat ∷ vxrm ∷ vcsr ∷ sstatus ∷ sie ∷ stvec ∷ scounteren
    ∷ sscratch ∷ sepc ∷ scause ∷ stval ∷ sip ∷ satp ∷ cycle ∷ time ∷ instret ∷ vl ∷ vtype ∷ vlenb
    ∷ mstatus ∷ misa ∷ medeleg ∷ mideleg ∷ mie ∷ mtvec ∷ mcounteren ∷ mcountinhibit ∷ mscratch
    ∷ mepc ∷ mcause ∷ mtval ∷ mip ∷ mtinst ∷ mtval2 ∷ pmpcfg0 ∷ pmpaddr0 ∷ mcycle ∷ minstret
    ∷ mhpmcounter3 ∷ mhpmevent3 ∷ mvendorid ∷ marchid ∷ mimpid ∷ mhartid ∷ []

unfoldable pub find_name : List CsrName → ℕ → Option CsrName
find_name [] a = none
find_name (n ∷ ns) a = let rest = find_name ns a in if a == code_of n then some n else rest

-- The enumerator that `static_cast<CsrAddress>` makes of a raw address, if it is one.
unfoldable pub name_of : ℕ → Option CsrName
name_of a = find_name csr_names a
