-- ===== src/Desc/Fields.antt =====
-- kernel/head.c: the fields that the processor reads from a descriptor, and what the two setters do to them.
use rxd_os.Prelude.{
  ℕ, ◌+◌, ◌*◌, ◌/◌, ◌%◌, ◌^◌, ◌<◌, ◌≡◌, ◌≢◌, refl, sym, ◌∙◌, ap, List, ok, arith, store-ok, set,
  get_or, length, get_or-set_self, get_or-set_ne,
}
use rxd_os.Desc.{DescStruct, set_desc_base, set_desc_limit, set_ldt_desc, init_idt_desc}

-- The base has its low 16 bits in the upper half of the first word, then 8 bits at each end of the second.
pub base_of : DescStruct → ℕ
base_of d = d.low / 2 ^ 16 + d.high % 2 ^ 8 * 2 ^ 16 + d.high / 2 ^ 24 * 2 ^ 24

-- The limit has its low 16 bits in the first word, and 4 bits in the second.
unfoldable pub limit_of : DescStruct → ℕ
limit_of d = d.low % 2 ^ 16 + d.high / 2 ^ 16 % 2 ^ 4 * 2 ^ 16

-- The type and the flags.
pub access_of : DescStruct → ℕ × ℕ
access_of d = (d.high / 2 ^ 8 % 2 ^ 8, d.high / 2 ^ 20 % 2 ^ 4)

-- set_desc_base with a 32-bit base makes it the base of the descriptor and keeps the access bits. Of the
-- limit it keeps the bits 0 to 7 and 16 to 19; the bits 8 to 15 are then 0.
pub set_desc_base-base_of :
    (d : DescStruct) (base : ℕ)
    → base < 2 ^ 32
    → (base_of (set_desc_base d base) ≡ base)
      × (limit_of (set_desc_base d base) ≡ limit_of d % 2 ^ 8 + limit_of d / 2 ^ 16 * 2 ^ 16)
      × (access_of (set_desc_base d base) ≡ access_of d)
unfolding set_desc_base base_of limit_of access_of
set_desc_base-base_of d base h = (omega (arith, h), omega (arith, h), ground (arith, h))

-- set_desc_limit makes the low 20 bits of its argument the limit of the descriptor and keeps the base and
-- the access bits.
pub set_desc_limit-limit_of :
    (d : DescStruct) (limit : ℕ)
    → (limit_of (set_desc_limit d limit) ≡ limit % 2 ^ 20)
      × (base_of (set_desc_limit d limit) ≡ base_of d)
      × (access_of (set_desc_limit d limit) ≡ access_of d)
unfolding set_desc_limit base_of limit_of access_of
set_desc_limit-limit_of d limit = (omega arith, omega arith, ground arith)

-- set_ldt_desc of a task whose number has an entry in the table, and of a 32-bit address, returns a table
-- in which this entry has the address as its base, the limit 16 and the access bits of INIT_IDT_DESC, and
-- every other entry is as before.
pub set_ldt_desc-base_of :
    (pid ldt : ℕ) (gdt : List DescStruct) (unset : DescStruct)
    → 5 + pid < length gdt
    → ldt < 2 ^ 32
    → (gdt' : List DescStruct) × (set_ldt_desc pid ldt gdt ≡ ok gdt')
      × (base_of (get_or gdt' (5 + pid) unset) ≡ ldt)
      × (limit_of (get_or gdt' (5 + pid) unset) ≡ 16)
      × (access_of (get_or gdt' (5 + pid) unset) ≡ (0x82, 4))
      × ((i : ℕ) → i ≢ 5 + pid → get_or gdt' i unset ≡ get_or gdt i unset)
unfolding set_ldt_desc access_of
set_ldt_desc-base_of pid ldt gdt unset inside h =
    let d : DescStruct = set_desc_limit (set_desc_base init_idt_desc ldt) 16 in
    let here : get_or (set gdt (5 + pid) d) (5 + pid) unset ≡ d =
      get_or-set_self gdt (5 + pid) d unset inside in
    let (base, _, access) = set_desc_base-base_of init_idt_desc ldt h in
    let (limit, base', access') = set_desc_limit-limit_of (set_desc_base init_idt_desc ldt) 16 in
    (
      set gdt (5 + pid) d,
      store-ok gdt (5 + pid) d inside,
      ap base_of here ∙ base' ∙ base,
      ap limit_of here ∙ limit,
      ap access_of here ∙ access' ∙ access ∙ initial_access,
      λ i ne. get_or-set_ne gdt (5 + pid) i d unset (λ e. ne (sym e)),
    )
  where
    initial_access : access_of init_idt_desc ≡ (0x82, 4)
    initial_access = refl
