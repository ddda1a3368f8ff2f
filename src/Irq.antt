-- ===== src/Irq.antt =====
-- kernel/head.c: the masks of the two interrupt controllers. `inb` and `outb` go to the ports, and the
-- mask register of a controller, port 0x21 or 0xa1, reads back what was written to it.
pub mod Masks
use rxd_os.Prelude.{
  ℕ, ◌-◌, ◌%◌, ◌^◌, not, ◌&&◌, bit_and, bit_or, List, Outcome, ok, ◌>>=◌, ◌>>◌, assert, store, ltb,
  leb, ◌==◌, if◌then◌else◌,
}

-- The byte that each port reads as.
abbrev pub Ports : Type 0
Ports = ℕ → ℕ

abbrev pub inb : ℕ → Ports → ℕ
inb port ports = ports port

abbrev pub outb : (port value : ℕ) → Ports → Ports
outb port value ports p = if port == p then value else ports p

pub enable_irq : (irq_nr : ℕ) → Ports → Outcome Ports
enable_irq irq_nr ports = do
  assert (leb 0 irq_nr && ltb irq_nr 16)
  let bit = 2 ^ (irq_nr % 8)
  if ltb irq_nr 8 && not (bit_and (inb 0x21 ports) bit == 0)
      then ok (outb 0x21 (bit_and (inb 0x21 ports) (255 - bit)) ports)
      else if leb 8 irq_nr && not (bit_and (inb 0xa1 ports) bit == 0)
      then ok (outb 0xa1 (bit_and (inb 0xa1 ports) (255 - bit)) ports)
      else ok ports

pub disable_irq : (irq_nr : ℕ) → Ports → Outcome Ports
disable_irq irq_nr ports = do
  assert (leb 0 irq_nr && ltb irq_nr 16)
  let bit = 2 ^ (irq_nr % 8)
  if ltb irq_nr 8 && bit_and (inb 0x21 ports) bit == 0
      then ok (outb 0x21 (bit_or (inb 0x21 ports) bit) ports)
      else if leb 8 irq_nr && bit_and (inb 0xa1 ports) bit == 0
      then ok (outb 0xa1 (bit_or (inb 0xa1 ports) bit) ports)
      else ok ports

-- A handler is known by its address.
pub set_irq_handler : (irq_nr hdl : ℕ) → List ℕ → Outcome (List ℕ)
set_irq_handler irq_nr hdl irqhdl_table = store irqhdl_table irq_nr hdl
