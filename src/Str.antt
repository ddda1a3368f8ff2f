-- ===== src/Str.antt =====
-- lib/string.c. Pointers are addresses, NULL is 0, and a `size_t` is a number below 2 ^ 32. A loop
-- over a string is given 2 ^ 32 rounds, more than the address space has bytes before a terminator.
pub mod Copy
pub mod Scan
pub mod CopyString
pub mod Compare
mod Tests
use rxd_os.Prelude.{
  ℕ, zero, suc, ◌+◌, ◌-◌, ◌%◌, ◌^◌, ◌<◌, Bool, true, false, not, ◌&&◌, ◌||◌, Outcome, ok,
  out_of_fuel, ◌>>=◌, ◌>>◌, assert, ltb, leb, ◌==◌, if◌then◌else◌,
}
use rxd_os.Memory.{Memory, write}

abbrev pub null : ℕ
null = 0

-- More rounds than any loop over a string in a 32-bit address space can make.
pub address_space : ℕ
address_space = 2 ^ 32

pub fits_address_space : {n : ℕ} → n < 2 ^ 32 → n < address_space
unfolding address_space
fits_address_space h = h

abbrev check_not_null : ℕ → Outcome (Unit {0})
check_not_null p = assert (not (p == null))

-- `--num` on a size_t.
abbrev pub decrement : ℕ → ℕ
decrement num = (num + 2 ^ 32 - 1) % 2 ^ 32

-- A `char` in a comparison with an int: sign-extended to 32 bits.
abbrev pub to_int : ℕ → ℕ
to_int c = if ltb c 128 then c else c + 0xffffff00

-- `*a < *b` on signed chars.
abbrev pub char_lt : ℕ → ℕ → Bool
char_lt a b = ltb ((a + 128) % 256) ((b + 128) % 256)

-- `do { *(dst++) = *(src++); } while (--num)` for `num` rounds.
copy_up : ℕ → (dst src : ℕ) → Memory → Memory
copy_up zero dst src m = m
copy_up (suc num) dst src m = copy_up num (dst + 1) (src + 1) (write m dst (m src))

pub memcpy : (dst src num : ℕ) → Memory → Outcome Memory
unfolding copy_up
memcpy dst src num m = do
  check_not_null dst
  check_not_null src
  assert (leb (dst + num) src || leb (src + num) dst)
  ok (if not (num == 0) && not (dst == src) then copy_up num dst src m else m)

-- `do { *(--dst) = *(--src); } while (--num)` from the ends of both blocks.
copy_down : ℕ → (dst src : ℕ) → Memory → Memory
copy_down zero dst src m = m
copy_down (suc num) dst src m = copy_down num dst src (write m (dst + num) (m (src + num)))

pub memmove : (dst src num : ℕ) → Memory → Outcome Memory
unfolding copy_down
memmove dst src num m = do
  check_not_null dst
  check_not_null src
  if num == 0 || dst == src
      then ok m
      else if ltb src dst
      then ok (copy_down num dst src m)
      else memcpy dst src num m

pub fill : ℕ → (ptr value : ℕ) → Memory → Memory
fill zero ptr value m = m
fill (suc num) ptr value m = fill num (ptr + 1) value (write m ptr value)

-- The value is cut to a byte, `_value & 0xff`.
pub memset : (ptr value num : ℕ) → Memory → Outcome Memory
unfolding fill
memset ptr value num m = do
  check_not_null ptr
  ok (if num == 0 then m else fill num ptr (value % 256) m)

strcpy_loop : ℕ → (p src : ℕ) → Memory → Outcome Memory
strcpy_loop zero p src m = out_of_fuel
strcpy_loop (suc fuel) p src m = elim (m src == 0) [
  | true ↦ ok (write m p 0)
  | false ↦ strcpy_loop fuel (p + 1) (src + 1) (write m p (m src))
]

pub strcpy : (dst src : ℕ) → Memory → Outcome Memory
strcpy dst src m = do check_not_null dst; check_not_null src; strcpy_loop address_space dst src m

strchr_loop : ℕ → (str character : ℕ) → Memory → Outcome ℕ
strchr_loop zero str character m = out_of_fuel
strchr_loop (suc fuel) str character m =
    elim (not (m str == 0) && not (to_int (m str) == character)) [
      | true ↦ strchr_loop fuel (str + 1) character m
      | false ↦ ok (if to_int (m str) == character then str else null)
    ]

pub strchr : (cstr character : ℕ) → Memory → Outcome ℕ
strchr cstr character m = do check_not_null cstr; strchr_loop address_space cstr character m

-- `p` is the last match so far, and the start of the string before there is one.
strrchr_loop : ℕ → (str p character : ℕ) → Memory → Outcome ℕ
strrchr_loop zero str p character m = out_of_fuel
strrchr_loop (suc fuel) str p character m =
    let p' = (if to_int (m str) == character then str else p) in
    elim (m str == 0) [
      | false ↦ strrchr_loop fuel (str + 1) p' character m
      | true ↦ ok (if to_int (m p') == character then p' else null)
    ]

pub strrchr : (cstr character : ℕ) → Memory → Outcome ℕ
strrchr cstr character m = do check_not_null cstr; strrchr_loop address_space cstr cstr character m

-- `T[*match] = 1` up to and with the terminator; the index is an unsigned char, and `T` has 256
-- places.
mark_loop : ℕ → (scan : ℕ) → Memory → (ℕ → ℕ) → Outcome (ℕ → ℕ)
mark_loop zero scan m table = out_of_fuel
mark_loop (suc fuel) scan m table =
    let table' = write table (m scan) 1 in
    elim (m scan == 0) [ true ↦ ok table' | false ↦ mark_loop fuel (scan + 1) m table' ]

scan_loop : ℕ → (scan : ℕ) → Memory → (ℕ → ℕ) → Outcome ℕ
scan_loop zero scan m table = out_of_fuel
scan_loop (suc fuel) scan m table = elim (table (m scan) == 0) [
  | false ↦ ok scan
  | true ↦ elim (m scan == 0) [ true ↦ ok (scan + 1) | false ↦ scan_loop fuel (scan + 1) m table ]
]

pub strcspn : (str1 str2 : ℕ) → Memory → Outcome ℕ
strcspn str1 str2 m = do
  check_not_null str1
  check_not_null str2
  table ← mark_loop address_space str2 m (λ _. 0)
  scan ← scan_loop address_space str1 m table
  ok (scan - str1)

strlen_loop : ℕ → (p : ℕ) → Memory → Outcome ℕ
strlen_loop zero p m = out_of_fuel
strlen_loop (suc fuel) p m = elim (m p == 0) [ true ↦ ok p | false ↦ strlen_loop fuel (p + 1) m ]

pub strlen : (str : ℕ) → Memory → Outcome ℕ
strlen str m = do check_not_null str; p ← strlen_loop address_space str m; ok (p - str)

-- The first loop of `strncpy`: where it stops, and what is then left of `num`. The decrement in the
-- test is made when the test fails on `num`, too.
strncpy_loop : ℕ → (p src num : ℕ) → Memory → Outcome (ℕ × ℕ × Memory)
strncpy_loop zero p src num m = out_of_fuel
strncpy_loop (suc fuel) p src num m = elim (m src == 0) [
  | true ↦ ok (p, num, m)
  | false ↦ elim (num == 0) [
    | true ↦ ok (p, decrement num, m)
    | false ↦ strncpy_loop fuel (p + 1) (src + 1) (num - 1) (write m p (m src))
  ]
]

-- The second loop of `strncpy`. What is left of `num` can be the whole address space, round the end of
-- which the pointer goes on at 0.
pub pad : (num p : ℕ) → Memory → Memory
pad zero p m = m
pad (suc num) p m = pad num ((p + 1) % 2 ^ 32) (write m p 0)

pub strncpy : (dst src num : ℕ) → Memory → Outcome Memory
strncpy dst src num m = do
  check_not_null dst
  check_not_null src
  (p, left, m) ← strncpy_loop address_space dst src num m
  ok (pad left p m)

-- The result is -1, 0 or 1, as a 32-bit pattern.
abbrev pub compare_chars : ℕ → ℕ → ℕ
compare_chars a b = if a == b then 0 else if char_lt a b then 0xffffffff else 1

-- `while (num-- && *str1 == *str2 && *str1 != '\0')`, and the comparison of the characters at which
-- it stops.
strncmp_loop : ℕ → (str1 str2 : ℕ) → Memory → ℕ
strncmp_loop zero str1 str2 m = compare_chars (m str1) (m str2)
strncmp_loop (suc num) str1 str2 m = elim (m str1 == m str2 && not (m str1 == 0)) [
  | true ↦ strncmp_loop num (str1 + 1) (str2 + 1) m
  | false ↦ compare_chars (m str1) (m str2)
]

pub strncmp : (str1 str2 num : ℕ) → Memory → Outcome ℕ
unfolding strncmp_loop
strncmp str1 str2 num m = do
  check_not_null str1
  check_not_null str2
  ok (if num == 0 then 0 else strncmp_loop num str1 str2 m)
