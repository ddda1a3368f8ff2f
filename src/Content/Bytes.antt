-- ===== src/Content/Bytes.antt =====
-- fs/fs.c: the bytes of an inode's content, as its zones hold them.
use rxd_os.Prelude.{
  ℕ, zero, suc, ◌+◌, ◌*◌, ◌/◌, ◌%◌, ◌≤◌, ◌≡◌, refl, sym, ◌∙◌, ap, ◌∷◌, ◌++◌, arith, length, get_or,
}
use rxd_os.Blk.{Drive}
use rxd_os.Buffer.{Cache}
use rxd_os.Buffer.Disk.{DiskLaws, InDisk, slice}
use rxd_os.Buffer.Coherence.{view}
use rxd_os.Image.{part}
use rxd_os.Inode.{Inode}

module _ {D : Type 0} {drive : Drive D} (laws : DiskLaws drive) where
  -- Byte `p` of the content of inode `i`.
  unfoldable pub file_byte : Cache D → Inode → (p : ℕ) → ℕ
  file_byte s i p = get_or (view laws s (get_or i.i_zone (p / 1024) 0)) (p % 1024) 0

  -- The content fits the direct zones, which are blocks of the disk.
  pub record IsFile (i : Inode) : Type 0 where
    pub size : i.i_size ≤ 7168
    pub zones : length i.i_zone ≡ 9
    pub inside : (k : ℕ) → k ≤ 6 → InDisk laws (get_or i.i_zone k 0)

  -- A part of one zone is a part of the content.
  pub part-file_byte :
      (s : Cache D) (i : Inode) (z off n : ℕ)
      → off + n ≤ 1024
      → part (view laws s (get_or i.i_zone z 0)) off n ≡ slice (file_byte s i) (z * 1024 + off) n
  unfolding part slice file_byte
  part-file_byte s i z off zero h = refl
  part-file_byte s i z off (suc n) h =
      let zone : (z * 1024 + off) / 1024 ≡ z = omega (arith, h) in
      let place : (z * 1024 + off) % 1024 ≡ off = omega (arith, h) in
      let next : z * 1024 + (off + 1) ≡ z * 1024 + off + 1 = omega arith in
      let first : get_or (view laws s (get_or i.i_zone z 0)) off 0
          ≡ file_byte s i (z * 1024 + off) =
        λ t. get_or (view laws s (get_or i.i_zone (sym zone t) 0)) (sym place t) 0 in
      let rest = part-file_byte s i z (off + 1) n (omega (arith, h)) in
      ap (λ x. x ∷ part (view laws s (get_or i.i_zone z 0)) (off + 1) n) first
      ∙ ap (λ l. file_byte s i (z * 1024 + off) ∷ l)
          (rest ∙ ap (λ a. slice (file_byte s i) a n) next)

  pub file_byte-same :
      (s s' : Cache D) (i : Inode)
      → ((b : ℕ) → view laws s' b ≡ view laws s b)
      → (p : ℕ) → file_byte s' i p ≡ file_byte s i p
  unfolding file_byte
  file_byte-same s s' i same p =
      ap (λ l. get_or l (p % 1024) 0) (same (get_or i.i_zone (p / 1024) 0))

pub slice-append : (f : ℕ → ℕ) (a m n : ℕ) → slice f a m ++ slice f (a + m) n ≡ slice f a (m + n)
unfolding slice
slice-append f a zero n = λ t. slice f (plus_zero t) (zero_plus t)
  where
    plus_zero : a + 0 ≡ a
    plus_zero = omega arith

    zero_plus : n ≡ 0 + n
    zero_plus = omega arith
slice-append f a (suc m) n =
    let start : a + suc m ≡ a + 1 + m = omega arith in
    let total : suc m + n ≡ suc (m + n) = omega arith in
    ap (λ b. f a ∷ (slice f (a + 1) m ++ slice f b n)) start
    ∙ ap (λ l. f a ∷ l) (slice-append f (a + 1) m n)
    ∙ ap (slice f a) (sym total)
