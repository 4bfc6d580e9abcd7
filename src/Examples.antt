-- ===== src/Examples.antt =====
-- Concrete runs of the theorems on small machines.
mod Bus
mod Memory
mod Translation
mod Csr
mod Devices
mod Core
