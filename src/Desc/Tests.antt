-- ===== src/Desc/Tests.antt =====
-- kernel/head.c: the theorems at the code segment of INIT_TASK, as do_fork changes it, and at an empty table.
use rxd_os.Prelude.{◌+◌, ◌*◌, ◌/◌, ◌%◌, ◌^◌, ◌≡◌, refl, List, arith, replicate}
use rxd_os.Desc.{DescStruct, set_desc_base, init_idt_desc}
use rxd_os.Desc.Fields.{base_of, limit_of, access_of, set_desc_base-base_of}

abbrev code_desc : DescStruct
code_desc = record { low = 0xfff; high = 0xc0fa00 }

set_desc_base-base_of_example :
    (base_of (set_desc_base code_desc 0x4000000) ≡ 0x4000000)
    × (limit_of (set_desc_base code_desc 0x4000000)
        ≡ limit_of code_desc % 2 ^ 8 + limit_of code_desc / 2 ^ 16 * 2 ^ 16)
    × (access_of (set_desc_base code_desc 0x4000000) ≡ access_of code_desc)
set_desc_base-base_of_example = set_desc_base-base_of code_desc 0x4000000 (omega arith)

-- The limit of 0xfff pages becomes one of 0xff.
limit_lost : (limit_of code_desc ≡ 0xfff) × (limit_of (set_desc_base code_desc 0x4000000) ≡ 0xff)
unfolding limit_of set_desc_base
limit_lost = (refl, refl)

abbrev table : List DescStruct
table = replicate 8 init_idt_desc
