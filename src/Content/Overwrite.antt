-- ===== src/Content/Overwrite.antt =====
-- fs/fs.c: bytes that are written over others, piece after piece.
use native.Mathlib.Decide.{ℕ_discrete}
use rxd_os.Prelude.{
  ℕ, zero, suc, ◌+◌, ◌-◌, ◌≤◌, ◌≡◌, inl, refl, sym, ◌∙◌, ap, List, [], ◌∷◌, ◌++◌, arith, length,
  get_or, set, take, drop, length-set, get_or-set_self, get_or-set_ne,
}
use rxd_os.Buffer.Disk.{overwritten, overwritten-outside}
use rxd_os.Image.{patch}
use rxd_os.Image.Bytes.{get_or-patch_out}

-- A block after a part was written, as bytes of a file whose block begins at `base`.
pub patch-overwritten :
    (bytes : List ℕ) (off : ℕ) (xs : List ℕ) (f : ℕ → ℕ) (base q : ℕ)
    → off + length xs ≤ length bytes
    → get_or bytes q 0 ≡ f (base + q)
    → get_or (patch bytes off xs) q 0 ≡ overwritten f (base + off) xs (base + q)
unfolding patch overwritten
patch-overwritten bytes off [] f base q fits same = same
patch-overwritten bytes off (x ∷ xs) f base q fits same = elim (ℕ_discrete q off) [
  | yes e ↦
      let here : get_or (patch (set bytes off x) (off + 1) xs) off 0 ≡ x =
        get_or-patch_out (set bytes off x) (off + 1) xs off (inl (omega arith))
        ∙ get_or-set_self bytes off x 0 (omega (arith, fits)) in
      ap (λ p. get_or (patch (set bytes off x) (off + 1) xs) p 0) e ∙ ground (arith, here, e)
  | no ne ↦
      let next : base + (off + 1) ≡ base + off + 1 = omega arith in
      let rest =
        patch-overwritten (set bytes off x) (off + 1) xs f base q
          (omega (arith, fits, length-set bytes off x))
          (get_or-set_ne bytes off q x 0 (λ e. ne (sym e)) ∙ same) in
      rest ∙ ap (λ a. overwritten f a xs (base + q)) next ∙ ground (arith, ne)
]

pub overwritten-cong :
    (f g : ℕ → ℕ) (a : ℕ) (xs : List ℕ) (p : ℕ)
    → f p ≡ g p
    → overwritten f a xs p ≡ overwritten g a xs p
unfolding overwritten
overwritten-cong f g a [] p e = e
overwritten-cong f g a (x ∷ xs) p e = ground (arith, overwritten-cong f g (a + 1) xs p e)

pub overwritten-append :
    (f : ℕ → ℕ) (a : ℕ) (xs ys : List ℕ) (p : ℕ)
    → overwritten (overwritten f a xs) (a + length xs) ys p ≡ overwritten f a (xs ++ ys) p
unfolding overwritten
overwritten-append f a [] ys p =
    let start : a + 0 ≡ a = omega arith in ap (λ b. overwritten f b ys p) start
overwritten-append f a (x ∷ xs) ys p = elim (ℕ_discrete p a) [
  | yes e ↦
      overwritten-outside (overwritten f a (x ∷ xs)) (a + suc (length xs)) p ys
        (inl (omega (arith, e)))
      ∙ ground (arith, e)
  | no ne ↦
      let start : a + suc (length xs) ≡ a + 1 + length xs = omega arith in
      let skip : overwritten f a (x ∷ xs) p ≡ overwritten f (a + 1) xs p = ground (arith, ne) in
      ap (λ b. overwritten (overwritten f a (x ∷ xs)) b ys p) start
      ∙ overwritten-cong (overwritten f a (x ∷ xs)) (overwritten f (a + 1) xs) (a + 1 + length xs)
          ys p skip
      ∙ overwritten-append f (a + 1) xs ys p
      ∙ ground (arith, ne)
]

pub take-append-drop : (n : ℕ) (xs : List ℕ) → take n xs ++ drop n xs ≡ xs
take-append-drop zero xs = refl
take-append-drop (suc n) [] = refl
take-append-drop (suc n) (x ∷ xs) = ap (λ l. x ∷ l) (take-append-drop n xs)

pub length-take : (n : ℕ) (xs : List ℕ) → n ≤ length xs → length (take n xs) ≡ n
length-take zero xs h = refl
length-take (suc n) [] h = absurd (omega (arith, h))
length-take (suc n) (x ∷ xs) h = ap suc (length-take n xs (omega (arith, h)))

pub length-drop : (n : ℕ) (xs : List ℕ) → length (drop n xs) ≡ length xs - n
length-drop zero xs = omega arith
length-drop (suc n) [] = omega arith
length-drop (suc n) (x ∷ xs) = omega (arith, length-drop n xs)
