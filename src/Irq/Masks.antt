-- ===== src/Irq/Masks.antt =====
-- kernel/head.c: `enable_irq` and `disable_irq` change the mask of one interrupt.
use native.Mathlib.Decide.{ℕ_discrete}
use rxd_os.Prelude.{
  ℕ, ◌-◌, ◌%◌, ◌^◌, ◌<◌, ◌≡◌, ◌≢◌, inl, inr, refl, ok, bit_and, bit_or, arith, ltb, ◌==◌,
  if◌then◌else◌, true, false, Bool-cases, ==→eq, ap, ◌∙◌,
}
use rxd_os.Bitmap.Bits.{byte_bit, byte_bit-or, byte_bit-and}
use rxd_os.Irq.{Ports, outb, enable_irq, disable_irq}

-- The port that has the mask of an interrupt.
abbrev pub mask_port : ℕ → ℕ
mask_port irq = if ltb irq 8 then 0x21 else 0xa1

-- 1 if the interrupt is masked.
unfoldable pub masked : Ports → ℕ → ℕ
masked ports irq = byte_bit (ports (mask_port irq)) (irq % 8)

-- The masks are those of `ports`, but that of `irq` is `v`, and no other port has changed.
pub record Changed (irq v : ℕ) (ports ports' : Ports) : Type 0 where
  pub masks : (j : ℕ) → j < 16 → masked ports' j ≡ (if j == irq then v else masked ports j)
  pub others : (p : ℕ) → p ≢ 0x21 → p ≢ 0xa1 → ports' p ≡ ports p

-- Nothing is written if the mask is as wanted.
Changed-same : (irq v : ℕ) (ports : Ports) → masked ports irq ≡ v → Changed irq v ports ports
Changed-same irq v ports e = record {
  masks = λ j h. elim (ℕ_discrete j irq) [
    | yes here ↦ ap (masked ports) here ∙ ground (arith, e)
    | no ne ↦ ground arith
  ];
  others = λ p _ _. refl;
}

Changed-port :
    (irq v new : ℕ) (ports : Ports)
    → irq < 16
    → ((q : ℕ)
        → q < 8
        → byte_bit new q ≡ (if q == irq % 8 then v else byte_bit (ports (mask_port irq)) q))
    → Changed irq v ports (outb (mask_port irq) new ports)
unfolding masked
Changed-port irq v new ports h at = record {
  masks = λ j lt. ground (arith, at (j % 8) (omega arith));
  others = λ p a b. ground arith;
}

enable_irq-clear :
    (irq : ℕ) (ports : Ports) → irq < 16 → masked ports irq ≡ 0 → enable_irq irq ports ≡ ok ports
unfolding enable_irq masked byte_bit
enable_irq-clear irq ports h clear = ground (arith, clear)

enable_irq-set :
    (irq : ℕ) (ports : Ports)
    → irq < 16
    → (masked ports irq == 0) ≡ false
    → enable_irq irq ports
      ≡ ok (outb (mask_port irq) (bit_and (ports (mask_port irq)) (255 - 2 ^ (irq % 8))) ports)
unfolding enable_irq masked byte_bit
enable_irq-set irq ports h set = ground (arith, set)

-- `enable_irq` of one of the 16 interrupts, with ports that read as bytes, returns with its mask
-- clear and all other masks and ports as before.
pub enable_irq-Changed :
    (irq : ℕ) (ports : Ports)
    → irq < 16
    → ((p : ℕ) → ports p < 256)
    → (ports' : Ports) × (enable_irq irq ports ≡ ok ports') × Changed irq 0 ports ports'
enable_irq-Changed irq ports h bytes = elim (Bool-cases (masked ports irq == 0)) [
  | inl clear ↦ (
    ports,
    enable_irq-clear irq ports h (==→eq clear),
    Changed-same irq 0 ports (ground (arith, clear)),
  )
  | inr set ↦ (
    outb (mask_port irq) (bit_and (ports (mask_port irq)) (255 - 2 ^ (irq % 8))) ports,
    enable_irq-set irq ports h set,
    Changed-port irq 0 (bit_and (ports (mask_port irq)) (255 - 2 ^ (irq % 8))) ports h (λ q lt.
        byte_bit-and (ports (mask_port irq)) (irq % 8) q (bytes (mask_port irq)) (omega arith) lt),
  )
]

masked-one : (irq : ℕ) (ports : Ports) → (masked ports irq == 0) ≡ false → masked ports irq ≡ 1
unfolding masked byte_bit
masked-one irq ports h = ground (arith, h)

disable_irq-set :
    (irq : ℕ) (ports : Ports) → irq < 16 → masked ports irq ≡ 1 → disable_irq irq ports ≡ ok ports
unfolding disable_irq masked byte_bit
disable_irq-set irq ports h clear = ground (arith, clear)

disable_irq-clear :
    (irq : ℕ) (ports : Ports)
    → irq < 16
    → (masked ports irq == 0) ≡ true
    → disable_irq irq ports
      ≡ ok (outb (mask_port irq) (bit_or (ports (mask_port irq)) (2 ^ (irq % 8))) ports)
unfolding disable_irq masked byte_bit
disable_irq-clear irq ports h set = ground (arith, set)

-- `disable_irq` of one of the 16 interrupts, with ports that read as bytes, returns with its mask
-- set and all other masks and ports as before.
pub disable_irq-Changed :
    (irq : ℕ) (ports : Ports)
    → irq < 16
    → ((p : ℕ) → ports p < 256)
    → (ports' : Ports) × (disable_irq irq ports ≡ ok ports') × Changed irq 1 ports ports'
disable_irq-Changed irq ports h bytes = elim (Bool-cases (masked ports irq == 0)) [
  | inl clear ↦ (
    outb (mask_port irq) (bit_or (ports (mask_port irq)) (2 ^ (irq % 8))) ports,
    disable_irq-clear irq ports h clear,
    Changed-port irq 1 (bit_or (ports (mask_port irq)) (2 ^ (irq % 8))) ports h (λ q lt.
        byte_bit-or (ports (mask_port irq)) (irq % 8) q (bytes (mask_port irq)) (omega arith) lt),
  )
  | inr set ↦
      let one : masked ports irq ≡ 1 = masked-one irq ports set in
      (ports, disable_irq-set irq ports h one, Changed-same irq 1 ports one)
]
