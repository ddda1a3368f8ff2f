-- ===== src/Dir/Names.antt =====
-- fs/fs.c: the names of two entries under strncmp.
use rxd_os.Prelude.{
  ℕ, suc, ◌+◌, ◌≤◌, ◌<◌, ◌≡◌, ◌≢◌, sym, ◌∙◌, ap, List, [], ◌∷◌, ok, arith, length, get_or,
}
use rxd_os.Memory.{Memory, IsString}
use rxd_os.Str.{strncmp}
use rxd_os.Str.Compare.{compare_prefix, strncmp-compare_prefix, strncmp-exact}
use rxd_os.Image.Bytes.{length-part}
use rxd_os.Dir.{entry_of, names_at}

-- The bytes of a name, without the terminator that follows them.
abbrev pub IsName : List ℕ → List ℕ → Type 0
IsName [] xs = ⊥
IsName (c ∷ l) [] = c ≡ 0
IsName (c ∷ l) (x ∷ xs) = (c ≡ x) × (x ≢ 0) × IsName l xs

IsName-IsString :
    (m : Memory) (p : ℕ) (l xs : List ℕ)
    → ((k : ℕ) → k < length l → m (p + k) ≡ get_or l k 0)
    → IsName l xs
    → IsString m p xs
IsName-IsString m p [] xs at name = absurd name
IsName-IsString m p (c ∷ l) [] at name =
    let same : p ≡ p + 0 = omega arith in ap m same ∙ at 0 (omega arith) ∙ name
IsName-IsString m p (c ∷ l) (x ∷ xs) at name =
    let same : p ≡ p + 0 = omega arith in
    (
      ap m same ∙ at 0 (omega arith) ∙ name.0,
      name.1,
      IsName-IsString m (p + 1) l xs
          (λ k h.
            let place : p + 1 + k ≡ p + suc k = omega arith in
            ap m place ∙ at (suc k) (omega (arith, h)))
          name.2,
    )

ok_value : {v w : ℕ} → ok v ≡ ok w → v ≡ w
ok_value e = ground (arith, e)

-- strncmp of two names of at most 24 bytes.
pub names-equal :
    (a b xs ys : List ℕ) (num : ℕ)
    → length a ≤ 32
    → length b ≤ 32
    → IsName a xs
    → IsName b ys
    → num ≢ 0
    → length xs ≤ num
    → (v : ℕ) × (strncmp 32 64 num (names_at a b) ≡ ok v) × ((v ≡ 0) → xs ≡ ys) × (xs ≡ ys → v ≡ 0)
unfolding names_at
names-equal a b xs ys num short short' name name' some_count long =
    let m : Memory = names_at a b in
    let first = IsName-IsString m 32 a xs (λ k h. ground (arith, h, short)) name in
    let second = IsName-IsString m 64 b ys (λ k h. ground (arith, h, short')) name' in
    let run =
      strncmp-compare_prefix 32 64 num xs ys m (omega arith) (omega arith) some_count first
        second in
    let (there, back) =
      strncmp-exact 32 64 num xs ys m (omega arith) (omega arith) some_count long first second in
    (
      compare_prefix (num + 1) xs ys,
      run,
      λ z. there (run ∙ ap ok z),
      λ e. ok_value (sym run ∙ back e),
    )

pub entry-short : (bytes : List ℕ) → length (entry_of bytes).name ≤ 32
unfolding entry_of
entry-short bytes = omega (arith, length-part bytes 8 24)
