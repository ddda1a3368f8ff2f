-- ===== src/Content/Change.antt =====
-- fs/fs.c: a zone of a file after bytes were written into it.
use native.Mathlib.Decide.{ℕ_discrete, dec_lt}
use rxd_os.Prelude.{
  ℕ, suc, ◌+◌, ◌*◌, ◌/◌, ◌%◌, ◌≤◌, ◌<◌, ◌≡◌, ◌≢◌, ◌⊎◌, inl, inr, sym, ◌∙◌, ap, List, ◌++◌, ok,
  arith, length, get_or,
}
use rxd_os.Blk.{Drive, blk_dev_hd}
use rxd_os.Buffer.{Cache}
use rxd_os.Buffer.Disk.{DiskLaws, overwritten, overwritten-outside}
use rxd_os.Buffer.Coherence.{view}
use rxd_os.Buffer.Session.{Idle}
use rxd_os.Blockmap.Keeps.{map_bit-same}
use rxd_os.Image.{patch, copy_in, change_block}
use rxd_os.Image.Bytes.{length-patch}
use rxd_os.Image.Access.{change_block-Shown, view-length}
use rxd_os.Super.{SuperBlock}
use rxd_os.Inode.{Inode}
use rxd_os.Zone.Reserve.{zone, HasZones}
use rxd_os.Content.Bytes.{file_byte}
use rxd_os.Content.Overwrite.{patch-overwritten, overwritten-cong, overwritten-append}

module _ {D : Type 0} {drive : Drive D} (laws : DiskLaws drive) where
  -- The content of the `m` zones has `buf` at `pos` and is otherwise as before, and so is every block
  -- that is none of them.
  pub record Written (n : ℕ) (s : Cache D) (i : Inode) (m pos : ℕ) (buf : List ℕ) (s' : Cache D)
      : Type 0 where
    pub idle : Idle laws n s'
    pub bytes :
        (p : ℕ) → p < m * 1024 → file_byte laws s' i p ≡ overwritten (file_byte laws s i) pos buf p
    pub others : (b : ℕ) → ((k : ℕ) → k < m → b ≢ zone i k) → view laws s' b ≡ view laws s b

  pub Written-append :
      (n n' : ℕ) (s s1 s2 : Cache D) (i : Inode) (m pos : ℕ) (xs ys : List ℕ)
      → Written n' s i m pos xs s1
      → Written n s1 i m (pos + length xs) ys s2
      → Written n s i m pos (xs ++ ys) s2
  Written-append n n' s s1 s2 i m pos xs ys first second = record {
    idle = second.idle;
    bytes = λ p h.
        second.bytes p h
        ∙ overwritten-cong (file_byte laws s1 i) (overwritten (file_byte laws s i) pos xs)
            (pos + length xs) ys p (first.bytes p h)
        ∙ overwritten-append (file_byte laws s i) pos xs ys p;
    others = λ b ne. second.others b ne ∙ first.others b ne;
  }

  -- Blocks of the map of blocks are none of the zones.
  pub HasZones-same :
      (s s' : Cache D) (sb : SuperBlock) (i : Inode) (m : ℕ)
      → ((b : ℕ)
          → sb.s_zmap_start ≤ b
          → b < sb.s_zmap_start + sb.s_zmap_count
          → view laws s' b ≡ view laws s b)
      → HasZones laws s sb i m
      → HasZones laws s' sb i m
  HasZones-same s s' sb i m same zones = record {
    few = zones.few;
    size = zones.size;
    inside = zones.inside;
    in_map = zones.in_map;
    taken = λ k h.
        map_bit-same laws s s' sb.s_zmap_start (sb.s_zmap_start + sb.s_zmap_count) same (zone i k)
          (omega (arith, zones.in_map k h))
        ∙ zones.taken k h;
    behind = zones.behind;
    apart = zones.apart;
  }

  pub zone-Written :
      (n : ℕ) (s : Cache D) (sb : SuperBlock) (i : Inode) (m z off : ℕ) (xs : List ℕ)
      → HasZones laws s sb i m
      → Idle laws (suc (suc n)) s
      → z < m
      → off + length xs ≤ 1024
      → (s' : Cache D) × (change_block drive blk_dev_hd (zone i z) (copy_in off xs) s ≡ ok s')
        × Written n s i m (z * 1024 + off) xs s'
  unfolding copy_in file_byte
  zone-Written n s sb i m z off xs zones idle small fits =
      let b : ℕ = zone i z in
      let inside = zones.inside z (omega (arith, small, zones.few)) in
      let size = view-length laws n s b idle inside in
      let (s', run, shown) =
        change_block-Shown laws n s b (copy_in off xs) (patch (view laws s b) off xs) idle inside
          (ground (arith, size, fits)) (length-patch (view laws s b) off xs ∙ size) in
      (
        s',
        run,
        record {
          idle = shown.idle;
          bytes = λ p h. elim (ℕ_discrete (p / 1024) z) [
            | yes e ↦
                let place : z * 1024 + p % 1024 ≡ p = omega (arith, e) in
                let before : get_or (view laws s b) (p % 1024) 0
                    ≡ file_byte laws s i (z * 1024 + p % 1024) =
                  ap (λ k. get_or (view laws s (zone i k)) (p % 1024) 0) (sym e)
                  ∙ ap (file_byte laws s i) (sym place) in
                ap (λ k. get_or (view laws s' (zone i k)) (p % 1024) 0) e
                ∙ ap (λ l. get_or l (p % 1024) 0) shown.here
                ∙ patch-overwritten (view laws s b) off xs (file_byte laws s i) (z * 1024)
                    (p % 1024) (omega (arith, size, fits)) before
                ∙ ap (overwritten (file_byte laws s i) (z * 1024 + off) xs) place
            | no ne ↦
                let other : zone i (p / 1024) ≢ b =
                  λ same. ne (zones.apart (p / 1024) z (omega (arith, h)) small same) in
                ap (λ l. get_or l (p % 1024) 0) (shown.others (zone i (p / 1024)) other)
                ∙ sym (
                    overwritten-outside (file_byte laws s i) (z * 1024 + off) p xs
                      (beside z off p (length xs) fits ne))
          ];
          others = λ a ne. shown.others a (ne z small);
        },
      )
    where
      beside :
          (z off p l : ℕ)
          → off + l ≤ 1024
          → p / 1024 ≢ z
          → p < z * 1024 + off ⊎ z * 1024 + off + l ≤ p
      beside z off p l h ne = elim (dec_lt (p / 1024) z) [
        | yes low ↦ inl (omega (arith, low))
        | no high ↦ inr (omega (arith, high, h, ne))
      ]
