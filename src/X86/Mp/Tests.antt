-- ===== src/X86/Mp/Tests.antt =====
-- The theorem on the start of a CPU of platforms/axplat-x86-pc with a page of code.
use axplat_crates.Prelude.{
  ℕ, List, ◌≡◌, ◌∷◌, [], refl, some, take, length, get_elem?, replicate, true, arith,
}
use axplat_crates.X86.Irq.{raw_apic_id}
use axplat_crates.X86.Mp.{start_secondary_cpu, send_init_ipi, busy_wait, send_sipi}
use axplat_crates.X86.Mp.Laws.{start_secondary_cpu_lem}

-- `ap_start` and `ap_end` of ap_start.S are a page apart.
abbrev code : List ℕ
code = 11 ∷ 22 ∷ replicate 510 0

start_secondary_cpu_lem_example :
    let (page', calls) = start_secondary_cpu code 0x6100 true 1 0x20_0000 (replicate 512 5) in
    (length page' ≡ 512)
    × (take 510 page' ≡ take 510 code)
    × (get_elem? page' 510 ≡ some 0x20_0000)
    × (get_elem? page' 511 ≡ some 0x6100)
    × (calls
        ≡ send_init_ipi 1
          ∷ busy_wait 10_000_000
          ∷ send_sipi 6 1
          ∷ busy_wait 200_000
          ∷ send_sipi 6 1
          ∷ [])
unfolding raw_apic_id
start_secondary_cpu_lem_example =
    start_secondary_cpu_lem code 0x6100 true 1 0x20_0000 510 (replicate 512 5) refl (omega arith)
      (omega arith) (omega arith) (omega arith)
