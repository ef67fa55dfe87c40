-- ===== src/Mem/Flags.antt =====
-- `MemRegionFlags` of axplat/src/mem.rs: the bits, and the defaults of the three kinds of region.
use Prim.Native.Nat.{ℕ, ◌^◌, bit_or}

abbrev pub read : ℕ
read = 2 ^ 0

abbrev pub write : ℕ
write = 2 ^ 1

abbrev pub execute : ℕ
execute = 2 ^ 2

abbrev pub device : ℕ
device = 2 ^ 4

abbrev pub uncached : ℕ
uncached = 2 ^ 5

abbrev pub reserved : ℕ
reserved = 2 ^ 6

abbrev pub free : ℕ
free = 2 ^ 7

abbrev pub default_ram_flags : ℕ
default_ram_flags = bit_or (bit_or read write) free

abbrev pub default_reserved_flags : ℕ
default_reserved_flags = bit_or (bit_or read write) reserved

abbrev pub default_mmio_flags : ℕ
default_mmio_flags = bit_or (bit_or (bit_or read write) device) reserved
