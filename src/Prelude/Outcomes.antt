-- ===== src/Prelude/Outcomes.antt =====
-- What a run of kernel code comes to: a result, or the endless loop of a failed `assert` or a
-- `panic` (include/assert.h), or an access outside the object that is accessed.
use Prim.Native.Nat.{ℕ, ◌<◌}
use mathlib.Core.Path.{◌≡◌}
use mathlib.Core.Bool.{Bool, true, false}
use mathlib.Core.Option.{none, some}
use mathlib.Core.List.{List}
use rxd_os.Prelude.Tests.{ltb, if◌then◌else◌, lt→ltb}
use rxd_os.Prelude.Lists.{length, get_elem?, get_or, set, get_elem?-eq-get_or}

-- `panic`: the kernel stopped in `assert` or `panic`. `fault`: C leaves the access undefined.
-- `out_of_fuel`: the bound given to a loop was too small.
pub data Outcome {ℓ} (A : Type ℓ) : Type ℓ where
  ok : A → Outcome A
  panic : Outcome A
  fault : Outcome A
  out_of_fuel : Outcome A

infixl 5 ◌>>=◌ ◌>>◌
abbrev pub ◌>>=◌ {ℓ κ} : {A : Type ℓ} {B : Type κ} → Outcome A → (A → Outcome B) → Outcome B
ok a >>= f = f a
panic >>= f = panic
fault >>= f = fault
out_of_fuel >>= f = out_of_fuel

abbrev pub ◌>>◌ {ℓ} : {B : Type ℓ} → Outcome (Unit {0}) → Outcome B → Outcome B
m >> k = m >>= λ _. k

-- The macro `assert` of include/assert.h.
abbrev pub assert : Bool → Outcome (Unit {0})
assert true = ok tt
assert false = panic

-- `xs[i]` and `xs[i] = v`.
abbrev pub load {ℓ} : {A : Type ℓ} → List A → ℕ → Outcome A
load xs i = elim (get_elem? xs i) [ none ↦ fault | some a ↦ ok a ]

abbrev pub store {ℓ} : {A : Type ℓ} → List A → ℕ → A → Outcome (List A)
store xs i v = if ltb i (length xs) then ok (set xs i v) else fault

pub load-ok {ℓ} :
    {A : Type ℓ} (xs : List A) (i : ℕ) (d : A) → i < length xs → load xs i ≡ ok (get_or xs i d)
load-ok xs i d h = rw (get_elem?-eq-get_or xs i d h, load)

pub store-ok {ℓ} :
    {A : Type ℓ} (xs : List A) (i : ℕ) (v : A) → i < length xs → store xs i v ≡ ok (set xs i v)
store-ok xs i v h = rw (lt→ltb h, store)
