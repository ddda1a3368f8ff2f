-- ===== src/Number.antt =====
-- lib/printf.c: `__itoa` and `atoi`, on the memory of Memory.
pub mod Digits
pub mod Reverse
pub mod Itoa
pub mod Atoi
mod Tests
use rxd_os.Prelude.{
  ℕ, zero, suc, ◌+◌, ◌-◌, ◌*◌, ◌/◌, ◌%◌, ◌^◌, true, false, not, ◌&&◌, ◌||◌, Outcome, ok,
  out_of_fuel, ◌>>=◌, ltb, leb, ◌==◌, if◌then◌else◌,
}
use rxd_os.Memory.{Memory, write}
use rxd_os.Str.{null, address_space, strcpy}
use rxd_os.Printf.{isspace, isdigit}

abbrev pub int_min : ℕ
int_min = 0x80000000

-- `(*p < 10) ? (*p + '0') : (*p - 10 + 'a')`
abbrev pub digit_char : ℕ → ℕ
digit_char d = if ltb d 10 then d + b'0' else d - 10 + b'a'

-- `while (uvalue)` of `__itoa`: the digits from the lowest one, upwards from `p`.
pub convert : (fuel uvalue base p : ℕ) → Memory → Outcome (ℕ × Memory)
convert zero uvalue base p m = out_of_fuel
convert (suc fuel) uvalue base p m = elim (uvalue == 0) [
  | true ↦ ok (p, m)
  | false ↦ convert fuel (uvalue / base) base (p + 1) (write m p (digit_char (uvalue % base)))
]

-- `while (p > tmp)` of `__itoa`.
pub swap_loop : (fuel p tmp : ℕ) → Memory → Outcome Memory
swap_loop zero p tmp m = out_of_fuel
swap_loop (suc fuel) p tmp m = elim (ltb tmp p) [
  | true ↦ swap_loop fuel (p - 1) (tmp + 1) (write (write m p (m tmp)) tmp (m p))
  | false ↦ ok m
]

-- `__itoa` from the conversion on. An unsigned int has at most 32 digits.
pub itoa_digits : (uvalue str p base : ℕ) → Memory → Outcome Memory
itoa_digits uvalue str p base m = do
  (p, m) ← if uvalue == 0 then ok (p + 1, write m p b'0') else convert 33 uvalue base p m
  let m = write m p 0
  let tmp = (if m str == b'-' then str + 1 else str)
  swap_loop p (p - 1) tmp m

-- `__itoa`. `value` is the bit pattern of an int, and `str_int_min` the address of STR_INT_MIN.
pub itoa : (str_int_min value str base : ℕ) → Memory → Outcome Memory
itoa str_int_min value str base m =
    if leb int_min value && base == 10
    then (if value == int_min
        then strcpy str str_int_min m
        else itoa_digits (2 ^ 32 - value) str (str + 1) base (write m str b'-'))
    else itoa_digits value str str base m

-- `while (isspace(*p)) ++p;`
pub skip_space : (fuel p : ℕ) → Memory → Outcome ℕ
skip_space zero p m = out_of_fuel
skip_space (suc fuel) p m = elim (isspace (m p)) [ true ↦ skip_space fuel (p + 1) m | false ↦ ok p ]

-- The last loop of `atoi`, which is entered at a digit. An overflow of the int wraps round.
pub read_digits : (fuel p value : ℕ) → Memory → Outcome ℕ
read_digits zero p value m = out_of_fuel
read_digits (suc fuel) p value m = elim (isdigit (m p)) [
  | true ↦ read_digits fuel (p + 1) ((value * 10 + (m p - b'0')) % 2 ^ 32) m
  | false ↦ ok value
]

-- `atoi`. The result is the bit pattern of an int.
pub atoi : (str : ℕ) → Memory → Outcome ℕ
atoi str m = if str == null then ok 0 else (do
  p ← skip_space address_space str m
  let negative = m p == b'-'
  let p = (if m p == b'+' || m p == b'-' then p + 1 else p)
  if not (isdigit (m p)) then ok 0 else (do
    value ← read_digits address_space p 0 m
    ok (if negative && not (value == int_min) then (2 ^ 32 - value) % 2 ^ 32 else value)))
