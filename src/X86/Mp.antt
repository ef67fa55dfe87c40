-- ===== src/X86/Mp.antt =====
-- The start of another CPU in platforms/axplat-x86-pc/src/mp.rs: the startup page, as a list of 512
-- words of 64 bits, and the sequence of interrupts, which the local APIC, taken to be set up, sends.
pub mod Laws
mod Tests
use axplat_crates.Prelude.{ℕ, ◌-◌, ◌*◌, ◌/◌, Bool, List, [], ◌∷◌, ◌++◌, length, set, drop, as_u8}
use axplat_crates.X86.Irq.{raw_apic_id}

abbrev pub page_size_4k : ℕ
page_size_4k = 0x1000

abbrev pub start_page_idx : ℕ
start_page_idx = 6

abbrev pub start_page_paddr : ℕ
start_page_paddr = start_page_idx * page_size_4k

abbrev pub u64_per_page : ℕ
u64_per_page = page_size_4k / 8

-- `code` is the text from `ap_start` to `ap_end`, in words, which is a page of ap_start.S; `ap_entry32` an address.
pub setup_startup_page : (code : List ℕ) (ap_entry32 stack_top : ℕ) → List ℕ → List ℕ
setup_startup_page code ap_entry32 stack_top page =
    let copied = code ++ drop (length code) page in
    set (set copied (u64_per_page - 2) stack_top) (u64_per_page - 1) ap_entry32

pub data Event : Type 0 where
  send_init_ipi : (apic_id : ℕ) → Event
  busy_wait : (nanos : ℕ) → Event
  send_sipi : (vector apic_id : ℕ) → Event

-- The page that the other CPU finds, and the calls.
pub start_secondary_cpu :
    (code : List ℕ) (ap_entry32 : ℕ) (is_x2apic : Bool) (apic_id stack_top : ℕ)
    → List ℕ
    → List ℕ × List Event
unfolding setup_startup_page
start_secondary_cpu code ap_entry32 is_x2apic apic_id stack_top page =
    let page' = setup_startup_page code ap_entry32 stack_top page in
    let id = raw_apic_id is_x2apic (as_u8 apic_id) in
    (
      page',
      send_init_ipi id
          ∷ busy_wait (10 * 1_000_000)
          ∷ send_sipi start_page_idx id
          ∷ busy_wait (200 * 1_000)
          ∷ send_sipi start_page_idx id
          ∷ [],
    )
