-- ===== src/Path/Split.antt =====
-- fs/fs.c: the names of a path, read off its characters.
use rxd_os.Prelude.{
  ℕ, suc, ◌+◌, ◌<◌, ◌≡◌, ◌≢◌, sym, ◌∙◌, ap, Bool, true, false, List, [], ◌∷◌, arith, ◌==◌,
  if◌then◌else◌, length, drop,
}
use native.Mathlib.Decide.{ℕ_discrete}
use mathlib.Core.Path.{subst}
use rxd_os.Memory.{Memory, IsString}
use rxd_os.Str.Scan.{span_without}
use rxd_os.Path.{Qstr}

abbrev pub piece : (name len : ℕ) → Qstr
piece name len = record { name = name; len = len }

-- The piece behind the last slash, which a path for directories leaves out.
abbrev pub last_piece : (dir : Bool) (start len : ℕ) → List Qstr
last_piece true start len = []
last_piece false start len = if len == 0 then [] else piece start len ∷ []

-- The pieces between the slashes, for a piece that began `len` characters before.
unfoldable pub split : (dir : Bool) (start len : ℕ) → List ℕ → List Qstr
split dir start len [] = last_piece dir start len
split dir start len (x ∷ xs) =
    let next = split dir (start + len + 1) 0 xs in
    let rest = split dir start (len + 1) xs in if x == b'/' then piece start len ∷ next else rest

-- What follows when the piece has ended.
unfoldable pub after : (dir : Bool) (start len : ℕ) → List ℕ → List Qstr
unfolding split
after dir start len [] = last_piece dir start len
after dir start len (x ∷ xs) = piece start len ∷ split dir (start + len + 1) 0 xs

-- The number of characters in front of the first slash.
abbrev pub span : List ℕ → ℕ
span xs = span_without (b'/' ∷ []) xs

pub span_step : (x : ℕ) (xs : List ℕ) → span (x ∷ xs) ≡ (if x == b'/' then 0 else suc (span xs))
unfolding span_without
span_step x xs = ground arith

span-slash : (x : ℕ) (xs : List ℕ) → x ≡ b'/' → span (x ∷ xs) ≡ 0
span-slash x xs e = ground (arith, span_step x xs, e)

span-other : (x : ℕ) (xs : List ℕ) → x ≢ b'/' → span (x ∷ xs) ≡ suc (span xs)
span-other x xs ne = ground (arith, span_step x xs, ne)

pub split-after :
    (dir : Bool) (start len : ℕ) (xs : List ℕ)
    → split dir start len xs ≡ after dir start (len + span xs) (drop (span xs) xs)
unfolding split after span_without
split-after dir start len [] =
    let same : len ≡ len + 0 = omega arith in ap (last_piece dir start) same
split-after dir start len (x ∷ xs) = elim (ℕ_discrete x b'/') [
  | yes e ↦
      let same : len ≡ len + 0 = omega arith in
      let here : split dir start len (x ∷ xs) ≡ after dir start len (x ∷ xs) = ground (arith, e) in
      rw (span-slash x xs e) (here ∙ ap (λ l. after dir start l (x ∷ xs)) same)
  | no ne ↦
      let same : len + 1 + span xs ≡ len + suc (span xs) = omega arith in
      let here : split dir start len (x ∷ xs) ≡ split dir start (len + 1) xs = ground (arith, ne) in
      rw (span-other x xs ne) (
        here
        ∙ split-after dir start (len + 1) xs
        ∙ ap (λ l. after dir start l (drop (span xs) xs)) same)
]

-- The characters behind the span are a string, which is empty or begins with a slash.
pub IsString-drop :
    (m : Memory) (p : ℕ) (xs : List ℕ)
    → IsString m p xs
    → IsString m (p + span xs) (drop (span xs) xs)
unfolding span_without
IsString-drop m p [] s = let same : p ≡ p + 0 = omega arith in ap m (sym same) ∙ s
IsString-drop m p (x ∷ xs) s = elim (ℕ_discrete x b'/') [
  | yes e ↦
      let same : p ≡ p + 0 = omega arith in
      rw (span-slash x xs e) (subst (λ q. IsString m q (x ∷ xs)) same s)
  | no ne ↦
      let next : p + 1 + span xs ≡ p + suc (span xs) = omega arith in
      rw (span-other x xs ne)
        (subst (λ q. IsString m q (drop (span xs) xs)) next (IsString-drop m (p + 1) xs s.2))
]

pub drop-slash :
    (xs ys : List ℕ) (y : ℕ) → drop (span xs) xs ≡ y ∷ ys → (y ≡ b'/') × (length ys < length xs)
unfolding span_without
drop-slash [] ys y e = absurd (omega (arith, ap length e))
drop-slash (x ∷ xs) ys y e = elim (ℕ_discrete x b'/') [
  | yes slash ↦
      let whole : x ∷ xs ≡ y ∷ ys =
        subst (λ k. drop k (x ∷ xs) ≡ y ∷ ys) (span-slash x xs slash) e in
      (ground (arith, whole, slash), omega (arith, ap length whole))
  | no ne ↦
      let rest : drop (span xs) xs ≡ y ∷ ys =
        subst (λ k. drop k (x ∷ xs) ≡ y ∷ ys) (span-other x xs ne) e in
      let (first, shorter) = drop-slash xs ys y rest in (first, omega (arith, shorter))
]

pub span-all : (xs : List ℕ) → drop (span xs) xs ≡ [] → span xs ≡ length xs
unfolding span_without
span-all [] e = omega arith
span-all (x ∷ xs) e = elim (ℕ_discrete x b'/') [
  | yes slash ↦
      let whole : x ∷ xs ≡ [] = subst (λ k. drop k (x ∷ xs) ≡ []) (span-slash x xs slash) e in
      absurd (omega (arith, ap length whole))
  | no ne ↦
      let rest : drop (span xs) xs ≡ [] =
        subst (λ k. drop k (x ∷ xs) ≡ []) (span-other x xs ne) e in
      omega (arith, span-other x xs ne, span-all xs rest)
]
