-- ===== src/Path.antt =====
-- fs/fs.c: the macros `path_for_each` and `path_for_each_dir`, which go through the names of a path. The
-- path is a string in memory, and so is the "/" that the macros give to strcspn.
pub mod Split
pub mod Walk
mod Tests
use rxd_os.Prelude.{
  ℕ, zero, suc, ◌+◌, Bool, true, false, List, [], ◌∷◌, Outcome, ok, out_of_fuel, ◌>>=◌, ◌==◌,
  if◌then◌else◌,
}
use rxd_os.Memory.{Memory}
use rxd_os.Str.{strcspn, address_space}

-- `dname`: where a name begins, and its length.
pub record Qstr : Type 0 where
  pub name : ℕ
  pub len : ℕ

-- The condition of the loop: of `path_for_each`, or of `path_for_each_dir`.
abbrev pub goes_on : (dir : Bool) → Qstr → Memory → Bool
goes_on true dname m = if m (dname.name + dname.len) == 0 then false else true
goes_on false dname m = if m dname.name == 0 then false else true

-- `name += len, name += (*name == '/') ? 1 : 0`
abbrev pub next_name : Qstr → Memory → ℕ
next_name dname m =
    if m (dname.name + dname.len) == b'/'
    then dname.name + dname.len + 1
    else dname.name + dname.len

-- The names that the body of the loop sees.
unfoldable pub names_from :
    (fuel : ℕ) → (dir : Bool) (slash : ℕ) → Qstr → Memory → Outcome (List Qstr)
names_from zero dir slash dname m = out_of_fuel
names_from (suc fuel) dir slash dname m =
    if goes_on dir dname m
    then (do
      len ← strcspn (next_name dname m) slash m
      rest ← names_from fuel dir slash (record { name = next_name dname m; len = len }) m
      ok (dname ∷ rest))
    else ok []

-- A name takes a character at least, so that the bound is more than there can be.
unfoldable pub path_for_each : (dir : Bool) (slash path : ℕ) → Memory → Outcome (List Qstr)
path_for_each dir slash path m = do
  len ← strcspn path slash m
  names_from address_space dir slash (record { name = path; len = if len == 0 then 1 else len }) m
