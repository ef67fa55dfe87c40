-- ===== src/X86/Mp/Laws.antt =====
-- What a started CPU finds, in platforms/axplat-x86-pc/src/mp.rs.
use axplat_crates.Prelude.{
  ℕ, ◌+◌, ◌-◌, ◌≤◌, ◌<◌, ◌≡◌, ◌∙◌, Bool, some, List, [], ◌∷◌, ◌++◌, length, set, take, drop,
  get_elem?, arith, length-append, length-drop, length-set, get_elem?-set, get_elem?-set_other,
  take-set, take-append_le, as_u8,
}
use axplat_crates.X86.Irq.{raw_apic_id}
use axplat_crates.X86.Mp.{
  u64_per_page, start_page_idx, setup_startup_page, start_secondary_cpu, send_init_ipi, busy_wait,
  send_sipi,
}

-- Where the code is a page or less, the startup page keeps its size, and holds the code from its
-- start up to the last two words, over which it holds the stack and the entry. The CPU with the
-- APIC's number, below 256, gets INIT, and SIPI twice, 10 ms and 200 µs later.
pub start_secondary_cpu_lem :
    (code : List ℕ) (ap_entry32 : ℕ) (is_x2apic : Bool) (apic_id stack_top k : ℕ) (page : List ℕ)
    → length page ≡ u64_per_page
    → length code ≤ u64_per_page
    → k ≤ length code
    → k + 2 ≤ u64_per_page
    → apic_id < 256
    → let (page', calls) = start_secondary_cpu code ap_entry32 is_x2apic apic_id stack_top page in
      (length page' ≡ u64_per_page)
      × (take k page' ≡ take k code)
      × (get_elem? page' (u64_per_page - 2) ≡ some stack_top)
      × (get_elem? page' (u64_per_page - 1) ≡ some ap_entry32)
      × (calls ≡ (
          let id = raw_apic_id is_x2apic apic_id in
          send_init_ipi id
          ∷ busy_wait 10_000_000
          ∷ send_sipi start_page_idx id
          ∷ busy_wait 200_000
          ∷ send_sipi start_page_idx id
          ∷ []))
unfolding start_secondary_cpu setup_startup_page
start_secondary_cpu_lem code ap_entry32 is_x2apic apic_id stack_top k page full fits among free
      small =
    let copied : List ℕ = code ++ drop (length code) page in
    let stacked : List ℕ = set copied (u64_per_page - 2) stack_top in
    let size : length copied ≡ u64_per_page =
      omega (arith, length-append code (drop (length code) page), length-drop (length code) page) in
    let size' : length stacked ≡ u64_per_page =
      length-set copied (u64_per_page - 2) stack_top ∙ size in
    let number : as_u8 apic_id ≡ apic_id = omega arith in
    (
      length-set stacked (u64_per_page - 1) ap_entry32 ∙ size',
      take-set k stacked (u64_per_page - 1) ap_entry32 (omega arith)
          ∙ take-set k copied (u64_per_page - 2) stack_top (omega arith)
          ∙ take-append_le k code (drop (length code) page) among,
      get_elem?-set_other stacked (u64_per_page - 2) (u64_per_page - 1) ap_entry32 (omega arith)
          ∙ get_elem?-set copied (u64_per_page - 2) stack_top (omega arith),
      get_elem?-set stacked (u64_per_page - 1) ap_entry32 (omega arith),
      rw number,
    )
