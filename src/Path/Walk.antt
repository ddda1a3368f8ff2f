-- ===== src/Path/Walk.antt =====
-- fs/fs.c: the loops over the names of a path see its pieces.
use mathlib.Core.Path.{subst}
use rxd_os.Prelude.{
  ℕ, zero, suc, ◌+◌, ◌^◌, ◌<◌, ◌≡◌, ◌≢◌, refl, sym, ◌∙◌, ap, Bool, true, false, List, [], ◌∷◌, ok,
  arith, ◌==◌, if◌then◌else◌, length, drop,
}
use rxd_os.Memory.{Memory, IsString}
use rxd_os.Str.{null, address_space, fits_address_space, strcspn}
use rxd_os.Str.Scan.{strcspn-span_without, span_without}
use rxd_os.Path.{Qstr, goes_on, next_name, names_from, path_for_each}
use rxd_os.Path.Split.{
  piece, last_piece, split, after, span, split-after, IsString-drop, drop-slash, span-all,
}

names_from-stop :
    (fuel : ℕ) (dir : Bool) (slash : ℕ) (dname : Qstr) (m : Memory)
    → goes_on dir dname m ≡ false
    → names_from (suc fuel) dir slash dname m ≡ ok []
unfolding names_from
names_from-stop fuel dir slash dname m e = ground (arith, e)

names_from-step :
    (fuel : ℕ) (dir : Bool) (slash len : ℕ) (dname : Qstr) (m : Memory) (rest : List Qstr)
    → goes_on dir dname m ≡ true
    → strcspn (next_name dname m) slash m ≡ ok len
    → names_from fuel dir slash (piece (next_name dname m) len) m ≡ ok rest
    → names_from (suc fuel) dir slash dname m ≡ ok (dname ∷ rest)
unfolding names_from
names_from-step fuel dir slash len dname m rest more run later = ground (arith, more, run, later)

-- At the end of the string.
stop_at_end :
    (dir : Bool) (name : ℕ) (m : Memory) → m name ≡ 0 → goes_on dir (piece name 0) m ≡ false
stop_at_end true name m e = let same : name + 0 ≡ name = omega arith in ground (arith, ap m same, e)
stop_at_end false name m e = ground (arith, e)

on_at_slash :
    (dir : Bool) (name len : ℕ) (m : Memory)
    → m name ≢ 0
    → m (name + len) ≡ b'/'
    → goes_on dir (piece name len) m ≡ true
on_at_slash true name len m ne e = ground (arith, e)
on_at_slash false name len m ne e = ground (arith, ne)

first_char : (m : Memory) (p x : ℕ) (xs : List ℕ) → IsString m p (x ∷ xs) → m p ≢ 0
first_char m p x xs s z = s.1 (sym s.0 ∙ z)

module _ (slash : ℕ) (m : Memory) (not_null : slash ≢ null)
    (is_slash : IsString m slash (b'/' ∷ [])) where
  next_len :
      (p : ℕ) (xs : List ℕ)
      → p ≢ null
      → IsString m p xs
      → length xs < 2 ^ 32
      → strcspn p slash m ≡ ok (span xs)
  next_len p xs there s fits =
      strcspn-span_without p slash xs (b'/' ∷ []) m there not_null s is_slash fits (omega arith)

  -- The last name of the path.
  walk_last :
      (fuel : ℕ) (dir : Bool) (name k : ℕ)
      → name ≢ null
      → 0 < k
      → 0 < fuel
      → m name ≢ 0
      → m (name + k) ≡ 0
      → names_from (suc fuel) dir slash (piece name k) m ≡ ok (last_piece dir name k)
  unfolding span_without
  walk_last fuel true name k there long some_fuel more end =
      names_from-stop fuel true slash (piece name k) m (ground (arith, end))
  walk_last zero false name k there long some_fuel more end = absurd (omega (arith, some_fuel))
  walk_last (suc fuel) false name k there long some_fuel more end =
      let next : next_name (piece name k) m ≡ name + k = ground (arith, end) in
      let run : strcspn (next_name (piece name k) m) slash m ≡ ok 0 =
        ap (λ p. strcspn p slash m) next
        ∙ next_len (name + k) [] (λ e. there (omega (arith, e))) end (omega arith) in
      let later : names_from (suc fuel) false slash (piece (next_name (piece name k) m) 0) m
          ≡ ok [] =
        names_from-stop fuel false slash (piece (next_name (piece name k) m) 0) m
          (stop_at_end false (next_name (piece name k) m) m (ap m next ∙ end)) in
      names_from-step (suc fuel) false slash 0 (piece name k) m [] (ground (arith, more)) run later
      ∙ ground (arith, long)

  -- The first name, by what follows it.
  walk_first :
      (fuel : ℕ) (dir : Bool) (name x : ℕ) (xs : List ℕ)
      → name ≢ null
      → IsString m name (x ∷ xs)
      → 0 < fuel
      → length (x ∷ xs) < 2 ^ 32
      → ((ys : List ℕ)
          → length ys < length (x ∷ xs)
          → IsString m (name + span (x ∷ xs) + 1) ys
          → names_from fuel dir slash (piece (name + span (x ∷ xs) + 1) (span ys)) m
            ≡ ok (split dir (name + span (x ∷ xs) + 1) 0 ys))
      → (d : List ℕ) → drop (span (x ∷ xs)) (x ∷ xs) ≡ d
      → names_from (suc fuel) dir slash (piece name (span (x ∷ xs))) m
        ≡ ok (after dir name (span (x ∷ xs)) d)
  unfolding after
  walk_first fuel dir name x xs there s some_fuel fits later [] e =
      let k : ℕ = span (x ∷ xs) in
      let end : m (name + k) ≡ 0 =
        subst (IsString m (name + k)) e (IsString-drop m name (x ∷ xs) s) in
      let whole : k ≡ length (x ∷ xs) = span-all (x ∷ xs) e in
      walk_last fuel dir name k there (omega (arith, whole)) some_fuel (first_char m name x xs s)
        end
  walk_first fuel dir name x xs there s some_fuel fits later (y ∷ ys) e =
      let k : ℕ = span (x ∷ xs) in
      let (is_y, y_char, rest) =
        subst (IsString m (name + k)) e (IsString-drop m name (x ∷ xs) s) in
      let (y_slash, shorter) = drop-slash (x ∷ xs) ys y e in
      let here : m (name + k) ≡ b'/' = is_y ∙ y_slash in
      let next : next_name (piece name k) m ≡ name + k + 1 = ground (arith, here) in
      let run : strcspn (next_name (piece name k) m) slash m ≡ ok (span ys) =
        ap (λ p. strcspn p slash m) next
        ∙ next_len (name + k + 1) ys (λ z. omega (arith, z)) rest (omega (arith, shorter, fits)) in
      let run2 : names_from fuel dir slash (piece (next_name (piece name k) m) (span ys)) m
          ≡ ok (split dir (name + k + 1) 0 ys) =
        ap (λ p. names_from fuel dir slash (piece p (span ys)) m) next ∙ later ys shorter rest in
      names_from-step fuel dir slash (span ys) (piece name k) m (split dir (name + k + 1) 0 ys)
        (on_at_slash dir name k m (first_char m name x xs s) here) run run2

  -- All names.
  walk :
      (fuel : ℕ) (dir : Bool) (name : ℕ) (xs : List ℕ)
      → name ≢ null
      → IsString m name xs
      → length xs < fuel
      → length xs < 2 ^ 32
      → names_from fuel dir slash (piece name (span xs)) m ≡ ok (split dir name 0 xs)
  unfolding split span_without
  walk zero dir name xs there s short fits = absurd (omega (arith, short))
  walk (suc fuel) true name [] there s short fits =
      names_from-stop fuel true slash (piece name 0) m (stop_at_end true name m s)
  walk (suc fuel) false name [] there s short fits =
      names_from-stop fuel false slash (piece name 0) m (stop_at_end false name m s)
  walk (suc fuel) dir name (x ∷ xs) there s short fits =
      let k : ℕ = span (x ∷ xs) in
      let none_before : 0 + k ≡ k = omega arith in
      walk_first fuel dir name x xs there s (omega (arith, short)) fits
        (λ ys shorter s'.
          walk fuel dir (name + k + 1) ys (λ z. omega (arith, z)) s' (omega (arith, shorter, short))
            (omega (arith, shorter, fits)))
        (drop k (x ∷ xs)) refl
      ∙ ap (λ l. ok (after dir name l (drop k (x ∷ xs)))) (sym none_before)
      ∙ ap ok (sym (split-after dir name 0 (x ∷ xs)))

  -- Let the path be a string that is not NULL, fits the address space and does not begin with a slash.
  -- path_for_each runs its body for each piece between the slashes in order, with the piece's address
  -- and length, empty pieces between two slashes included, and the last one only if it is not empty;
  -- path_for_each_dir (dir is true) does so for each piece that a slash ends. Both come to an end.
  pub path_for_each-split :
      (dir : Bool) (path : ℕ) (xs : List ℕ)
      → path ≢ null
      → IsString m path xs
      → length xs < 2 ^ 32
      → 0 < span xs
      → path_for_each dir slash path m ≡ ok (split dir path 0 xs)
  unfolding path_for_each
  path_for_each-split dir path xs there s fits long =
      let first = next_len path xs there s fits in
      let kept : (if span xs == 0 then 1 else span xs) ≡ span xs = ground (arith, long) in
      let rest = walk address_space dir path xs there s (fits_address_space fits) fits in
      ground
        (arith, first, ap (λ l. names_from address_space dir slash (piece path l) m) kept ∙ rest)
