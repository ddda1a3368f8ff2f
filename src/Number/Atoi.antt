-- ===== src/Number/Atoi.antt =====
-- lib/printf.c: `atoi` reads back what `__itoa` wrote in base 10.
use native.Mathlib.Decide.{dec_lt}
use native.Mathlib.Nat.{div-one, div-div-eq-div-mul, div-eq_of_lt, div-le_self, pow-zero, pow-suc}
use rxd_os.Prelude.{
  ℕ, zero, suc, ◌+◌, ◌-◌, ◌*◌, ◌/◌, ◌%◌, ◌^◌, ◌≤◌, ◌<◌, ◌≡◌, ◌≢◌, inl, sym, ◌∙◌, ap, true, false,
  ok, arith, ◌==◌, leb, ◌&&◌, ◌||◌,
}
use rxd_os.Memory.{Memory}
use rxd_os.Str.{null, address_space, fits_address_space}
use rxd_os.Printf.{isspace, isdigit}
use rxd_os.Printf.Ctype.{digit_class, space_class, mask, in_class, is_class-in_class}
use rxd_os.Number.{skip_space, read_digits, atoi, itoa, int_min}
use rxd_os.Number.Digits.{digit_at}
use rxd_os.Number.Itoa.{Printed, itoa-Printed, itoa-negative}

isdigit-digit : (c : ℕ) → c < 256 → isdigit c ≡ (leb b'0' c && leb c b'9')
unfolding mask in_class
isdigit-digit c h = is_class-in_class digit_class c h

isspace-space : (c : ℕ) → c < 256 → isspace c ≡ (leb 9 c && leb c 13 || c == 32)
unfolding mask in_class
isspace-space c h = is_class-in_class space_class c h

skip_space-none :
    (fuel p : ℕ) (m : Memory) → 0 < fuel → isspace (m p) ≡ false → skip_space fuel p m ≡ ok p
unfolding skip_space
skip_space-none zero p m pos h = absurd (omega arith)
skip_space-none (suc fuel) p m pos h = ground (arith, h)

read_digits-stop :
    (fuel p value : ℕ) (m : Memory)
    → isdigit (m p) ≡ false
    → read_digits (suc fuel) p value m ≡ ok value
unfolding read_digits
read_digits-stop fuel p value m h = ground (arith, h)

read_digits-digit :
    (fuel p value : ℕ) (m : Memory)
    → isdigit (m p) ≡ true
    → read_digits (suc fuel) p value m
      ≡ read_digits fuel (p + 1) ((value * 10 + (m p - b'0')) % 2 ^ 32) m
unfolding read_digits
read_digits-digit fuel p value m h = ground (arith, h)

read_digits-step :
    (fuel p q value next : ℕ) (m : Memory)
    → isdigit (m p) ≡ true
    → p + 1 ≡ q
    → (value * 10 + (m p - b'0')) % 2 ^ 32 ≡ next
    → read_digits (suc fuel) p value m ≡ read_digits fuel q next m
read_digits-step fuel p q value next m h e f =
    read_digits-digit fuel p value m h
    ∙ ap (λ z. read_digits fuel z ((value * 10 + (m p - b'0')) % 2 ^ 32) m) e
    ∙ ap (λ z. read_digits fuel q z m) f

lt-pow : (k : ℕ) → k < 10 ^ k
lt-pow zero = omega (arith, pow-zero 10)
lt-pow (suc k) = omega (arith, lt-pow k, pow-suc 10 k)

module _ {u p n : ℕ} {m m' : Memory} (printed : Printed u 10 p n m m') (small : u < 2 ^ 32) where
  -- With `k` digits to come, the value so far is `u / 10 ^ k`.
  read_digits-Printed :
      (k fuel : ℕ) → k ≤ n → k < fuel → read_digits fuel (p + (n - k)) (u / 10 ^ k) m' ≡ ok u
  read_digits-Printed k zero h f = absurd (omega arith)
  read_digits-Printed zero (suc fuel) h f =
      let whole : u / 10 ^ 0 ≡ u = ap (λ z. u / z) (pow-zero 10) ∙ div-one u in
      let last : p + (n - 0) ≡ p + n = omega arith in
      let stop : isdigit (m' (p + (n - 0))) ≡ false =
        ap isdigit (ap m' last ∙ printed.terminator) ∙ isdigit-digit 0 (omega arith) in
      read_digits-stop fuel (p + (n - 0)) (u / 10 ^ 0) m' stop ∙ ap ok whole
  read_digits-Printed (suc k) (suc fuel) h f =
      let q : ℕ = u / 10 ^ k in
      let above : u / 10 ^ suc k ≡ q / 10 =
        ap (λ z. u / z) (pow-suc 10 k) ∙ sym (div-div-eq-div-mul u (10 ^ k) 10) in
      let place : n - 1 - (n - suc k) ≡ k = omega arith in
      let char : m' (p + (n - suc k)) ≡ q % 10 + b'0' =
        printed.chars (n - suc k) (omega (arith, printed.some_digit))
        ∙ ap (digit_at u 10) place
        ∙ ground arith in
      let digit : isdigit (m' (p + (n - suc k))) ≡ true =
        ap isdigit char ∙ isdigit-digit (q % 10 + b'0') (omega arith) ∙ ground arith in
      let bound : q ≤ u = div-le_self u (10 ^ k) in
      let next : (u / 10 ^ suc k * 10 + (m' (p + (n - suc k)) - b'0')) % 2 ^ 32 ≡ q =
        omega (arith, above, char, bound, small) in
      let on : p + (n - suc k) + 1 ≡ p + (n - k) = omega arith in
      read_digits-step fuel (p + (n - suc k)) (p + (n - k)) (u / 10 ^ suc k) q m' digit on next
      ∙ read_digits-Printed k fuel (omega arith) (omega arith)

  read_all : read_digits address_space p 0 m' ≡ ok u
  read_all =
      let long : n - 1 < 2 ^ 32 - 1 = elim (dec_lt 0 (n - 1)) [
        | yes more ↦ omega (arith, lt-pow (n - 1), printed.lead (n - 1) more (omega arith))
        | no one ↦ omega arith
      ] in
      let none : u / 10 ^ n ≡ 0 = div-eq_of_lt printed.enough in
      let first : p + (n - n) ≡ p = omega arith in
      ap (λ z. read_digits address_space z 0 m') (sym first)
      ∙ ap (λ z. read_digits address_space (p + (n - n)) z m') (sym none)
      ∙ read_digits-Printed n address_space (omega arith)
          (fits_address_space (omega (arith, long, printed.some_digit)))

  first_char : (d : ℕ) × (d < 10) × (m' p ≡ d + b'0')
  first_char = (
    u / 10 ^ (n - 1 - 0) % 10,
    omega arith,
    ap m' (omega arith) ∙ printed.chars 0 printed.some_digit ∙ ground arith,
  )

-- The digits as `atoi` meets them, at the start of the string or behind a minus sign.
atoi-plain :
    {u n : ℕ} {m m' : Memory} (str : ℕ)
    → str ≢ null
    → Printed u 10 str n m m'
    → u < 2 ^ 32
    → atoi str m' ≡ ok u
unfolding atoi
atoi-plain {u} {n} {m} {m'} str ne printed small =
    let (d, low, char) = first_char printed small in
    let digit : isdigit (m' str) ≡ true =
      ap isdigit char ∙ isdigit-digit (d + b'0') (omega arith) ∙ ground arith in
    let dark : isspace (m' str) ≡ false =
      ap isspace char ∙ isspace-space (d + b'0') (omega arith) ∙ ground arith in
    let start = skip_space-none address_space str m' (fits_address_space (omega arith)) dark in
    ground (arith, start, char, digit, read_all printed small)

atoi-signed :
    {u n : ℕ} {m m' : Memory} (str : ℕ)
    → str ≢ null
    → m' str ≡ b'-'
    → Printed u 10 (str + 1) n m m'
    → u < int_min
    → atoi str m' ≡ ok ((2 ^ 32 - u) % 2 ^ 32)
unfolding atoi
atoi-signed {u} {n} {m} {m'} str ne minus printed small =
    let (d, low, char) = first_char printed (omega arith) in
    let digit : isdigit (m' (str + 1)) ≡ true =
      ap isdigit char ∙ isdigit-digit (d + b'0') (omega arith) ∙ ground arith in
    let dark : isspace (m' str) ≡ false = ap isspace minus ∙ isspace-space b'-' (omega arith) in
    let start = skip_space-none address_space str m' (fits_address_space (omega arith)) dark in
    ground (arith, start, minus, digit, read_all printed (omega arith))

-- In a buffer that is not NULL, `atoi` gives back every int but the least one from what `__itoa`
-- writes of it in base 10. Both return.
pub atoi-itoa :
    (str_int_min value str : ℕ) (m : Memory)
    → str ≢ null
    → value < 2 ^ 32
    → value ≢ int_min
    → (m' : Memory) × (itoa str_int_min value str 10 m ≡ ok m') × (atoi str m' ≡ ok value)
atoi-itoa str_int_min value str m ne small other = elim (dec_lt value int_min) [
  | yes plain ↦
      let (n, m', run, printed) =
        itoa-Printed str_int_min value str 10 m (omega arith) small (inl plain) in
      (m', run, atoi-plain str ne printed small)
  | no negative ↦
      let (n, m', run, minus, printed) =
        itoa-negative str_int_min value str m (omega arith) small in
      let back : (2 ^ 32 - (2 ^ 32 - value)) % 2 ^ 32 ≡ value = omega arith in
      (m', run, atoi-signed str ne minus printed (omega arith) ∙ ap ok back)
]
