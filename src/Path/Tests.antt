-- ===== src/Path/Tests.antt =====
-- fs/fs.c: the names of a path in memory.
use rxd_os.Prelude.{ℕ, ◌<◌, ◌≡◌, refl, true, false, List, [], ◌∷◌, ok, arith, get_or}
use rxd_os.Memory.{Memory, IsString}
use rxd_os.Str.Scan.{span_without}
use rxd_os.Path.{path_for_each}
use rxd_os.Path.Split.{split, piece, span}
use rxd_os.Path.Walk.{path_for_each-split}

-- "a//bc" at 1 and "/" at 8
abbrev text : Memory
text a = get_or (0 ∷ 97 ∷ 47 ∷ 47 ∷ 98 ∷ 99 ∷ 0 ∷ 0 ∷ 47 ∷ 0 ∷ []) a 0

abbrev path : List ℕ
path = 97 ∷ 47 ∷ 47 ∷ 98 ∷ 99 ∷ []

path-IsString : IsString text 1 path
path-IsString = (
  refl,
  omega arith,
  (refl, omega arith, (refl, omega arith, (refl, omega arith, (refl, omega arith, refl)))),
)

slash-IsString : IsString text 8 (47 ∷ [])
slash-IsString = (refl, omega arith, refl)

long : 0 < span path
unfolding span_without
long = omega arith

path_for_each-split_example : path_for_each false 8 1 text ≡ ok (split false 1 0 path)
path_for_each-split_example =
    path_for_each-split 8 text (omega arith) slash-IsString false 1 path (omega arith) path-IsString
      (omega arith) long

split_names : split false 1 0 path ≡ piece 1 1 ∷ piece 3 0 ∷ piece 4 2 ∷ []
unfolding split
split_names = refl

split_dirs : split true 1 0 path ≡ piece 1 1 ∷ piece 3 0 ∷ []
unfolding split
split_dirs = refl
