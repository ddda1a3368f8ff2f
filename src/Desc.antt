-- ===== src/Desc.antt =====
-- kernel/head.c, include/head.h and kernel/proc.c: segment descriptors. The words are 32-bit numbers; where
-- C masks and joins fields of bits that do not overlap, remainders, quotients and sums stand here.
pub mod Fields
mod Tests
use rxd_os.Prelude.{ℕ, ◌+◌, ◌*◌, ◌/◌, ◌%◌, ◌^◌, List, Outcome, ok, ◌>>=◌, store}

-- `struct desc_struct`
pub record DescStruct : Type 0 where
  pub low : ℕ
  pub high : ℕ

-- The first mask is 0x00ff, so that the low 8 bits of `low` stay.
pub set_desc_base : DescStruct → (base : ℕ) → DescStruct
set_desc_base d base = record {
  low = d.low % 2 ^ 8 + base % 2 ^ 16 * 2 ^ 16;
  high = d.high / 2 ^ 8 % 2 ^ 16 * 2 ^ 8 + (base / 2 ^ 16 % 2 ^ 8 + base / 2 ^ 24 * 2 ^ 24);
}

pub set_desc_limit : DescStruct → (limit : ℕ) → DescStruct
set_desc_limit d limit0 =
    let limit = limit0 % 2 ^ 20 in
    record {
      low = d.low / 2 ^ 16 * 2 ^ 16 + limit % 2 ^ 16;
      high = d.high / 2 ^ 20 * 2 ^ 20 + d.high % 2 ^ 16 + limit / 2 ^ 16 * 2 ^ 16;
    }

abbrev pub gdt_idx_first_ldt : ℕ
gdt_idx_first_ldt = 5

-- `INIT_IDT_DESC`
abbrev pub init_idt_desc : DescStruct
init_idt_desc = record { low = 0; high = 0x00408200 }

-- The size of the two descriptors of a task.
abbrev pub ldt_limit : ℕ
ldt_limit = 16

-- `ldt` is the address of the task's own table.
pub set_ldt_desc : (pid ldt : ℕ) → (gdt : List DescStruct) → Outcome (List DescStruct)
unfolding set_desc_base set_desc_limit
set_ldt_desc pid ldt gdt =
    store gdt (gdt_idx_first_ldt + pid) (set_desc_limit (set_desc_base init_idt_desc ldt) ldt_limit)
