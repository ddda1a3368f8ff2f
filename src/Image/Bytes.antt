-- ===== src/Image/Bytes.antt =====
-- fs/fs.c: a part of a block after another part was written.
use rxd_os.Prelude.{
  ℕ, zero, suc, ◌+◌, ◌≤◌, ◌<◌, ◌≡◌, ◌≢◌, ◌⊎◌, inl, inr, refl, sym, ◌∙◌, ap, List, [], ◌∷◌, arith,
  length, get_or, set, length-set, get_or-set_self, get_or-set_ne,
}
use rxd_os.Image.{part, patch}

plus_zero : (n : ℕ) → n + 0 ≡ n
plus_zero n = omega arith

abbrev get_or_at : List ℕ → ℕ → ℕ
get_or_at bytes i = get_or bytes i 0

pub length-part : (bytes : List ℕ) (off n : ℕ) → length (part bytes off n) ≡ n
unfolding part
length-part bytes off zero = refl
length-part bytes off (suc n) = ap suc (length-part bytes (off + 1) n)

pub length-patch :
    (bytes : List ℕ) (off : ℕ) (xs : List ℕ) → length (patch bytes off xs) ≡ length bytes
unfolding patch
length-patch bytes off [] = refl
length-patch bytes off (x ∷ xs) =
    length-patch (set bytes off x) (off + 1) xs ∙ length-set bytes off x

pub get_or-patch_out :
    (bytes : List ℕ) (off : ℕ) (xs : List ℕ) (i : ℕ)
    → i < off ⊎ off + length xs ≤ i
    → get_or (patch bytes off xs) i 0 ≡ get_or bytes i 0
unfolding patch
get_or-patch_out bytes off [] i out = refl
get_or-patch_out bytes off (x ∷ xs) i out =
    let out' : i < off + 1 ⊎ off + 1 + length xs ≤ i = elim out [
      | inl h ↦ inl (omega (arith, h))
      | inr h ↦ inr (omega (arith, h))
    ] in
    let other : off ≢ i =
      λ e. elim out [ inl h ↦ omega (arith, h, e) | inr h ↦ omega (arith, h, e) ] in
    get_or-patch_out (set bytes off x) (off + 1) xs i out' ∙ get_or-set_ne bytes off i x 0 other

pub get_or-patch_in :
    (bytes : List ℕ) (off : ℕ) (xs : List ℕ) (k : ℕ)
    → off + length xs ≤ length bytes
    → k < length xs
    → get_or (patch bytes off xs) (off + k) 0 ≡ get_or xs k 0
unfolding patch
get_or-patch_in bytes off [] k h small = absurd (omega (arith, small))
get_or-patch_in bytes off (x ∷ xs) zero h small =
    ap (get_or_at (patch (set bytes off x) (off + 1) xs)) (plus_zero off)
    ∙ get_or-patch_out (set bytes off x) (off + 1) xs off (inl (omega arith))
    ∙ get_or-set_self bytes off x 0 (omega (arith, h))
get_or-patch_in bytes off (x ∷ xs) (suc k) h small =
    let place : off + suc k ≡ off + 1 + k = omega arith in
    ap (λ i. get_or (patch (set bytes off x) (off + 1) xs) i 0) place
    ∙ get_or-patch_in (set bytes off x) (off + 1) xs k (omega (arith, h, length-set bytes off x))
        (omega (arith, small))

pub get_or-part :
    (bytes : List ℕ) (off n k : ℕ)
    → k < n
    → get_or (part bytes off n) k 0 ≡ get_or bytes (off + k) 0
unfolding part
get_or-part bytes off zero k small = absurd (omega (arith, small))
get_or-part bytes off (suc n) zero small = ap (get_or_at bytes) (sym (plus_zero off))
get_or-part bytes off (suc n) (suc k) small =
    let place : off + 1 + k ≡ off + suc k = omega arith in
    get_or-part bytes (off + 1) n k (omega (arith, small)) ∙ ap (λ i. get_or bytes i 0) place

-- A part that holds what `xs` holds.
pub part-same :
    (bytes : List ℕ) (off : ℕ) (xs : List ℕ)
    → ((k : ℕ) → k < length xs → get_or bytes (off + k) 0 ≡ get_or xs k 0)
    → part bytes off (length xs) ≡ xs
unfolding part
part-same bytes off [] same = refl
part-same bytes off (x ∷ xs) same =
    let first : get_or bytes off 0 ≡ x =
      ap (get_or_at bytes) (sym (plus_zero off)) ∙ same 0 (omega arith) in
    let rest : part bytes (off + 1) (length xs) ≡ xs = part-same bytes (off + 1) xs (λ k h.
      let place : off + 1 + k ≡ off + suc k = omega arith in
      ap (λ i. get_or bytes i 0) place ∙ same (suc k) (omega (arith, h))) in
    ap (λ y. y ∷ part bytes (off + 1) (length xs)) first ∙ ap (λ ys. x ∷ ys) rest

pub part-agree :
    (xs ys : List ℕ) (off n : ℕ)
    → ((i : ℕ) → off ≤ i → i < off + n → get_or xs i 0 ≡ get_or ys i 0)
    → part xs off n ≡ part ys off n
unfolding part
part-agree xs ys off zero same = refl
part-agree xs ys off (suc n) same =
    let first = same off (omega arith) (omega arith) in
    let rest =
      part-agree xs ys (off + 1) n (λ i p q. same i (omega (arith, p)) (omega (arith, q))) in
    ap (λ y. y ∷ part xs (off + 1) n) first ∙ ap (λ l. get_or ys off 0 ∷ l) rest

-- What was written is read back, and what is elsewhere is as before.
pub part-patch :
    (bytes : List ℕ) (off : ℕ) (xs : List ℕ)
    → off + length xs ≤ length bytes
    → part (patch bytes off xs) off (length xs) ≡ xs
part-patch bytes off xs h =
    part-same (patch bytes off xs) off xs (λ k small. get_or-patch_in bytes off xs k h small)

pub part-patch_apart :
    (bytes : List ℕ) (off : ℕ) (xs : List ℕ) (at n : ℕ)
    → at + n ≤ off ⊎ off + length xs ≤ at
    → part (patch bytes off xs) at n ≡ part bytes at n
part-patch_apart bytes off xs at n apart = part-agree (patch bytes off xs) bytes at n (λ i p q.
    get_or-patch_out bytes off xs i
      (elim apart [ inl h ↦ inl (omega (arith, h, p, q)) | inr h ↦ inr (omega (arith, h, p, q)) ]))
