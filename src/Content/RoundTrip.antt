-- ===== src/Content/RoundTrip.antt =====
-- fs/fs.c: `_read` of what `_write` has written.
use rxd_os.Prelude.{
  ℕ, suc, ◌+◌, ◌*◌, ◌%◌, ◌≤◌, ◌<◌, ◌≡◌, ◌⊎◌, inl, inr, ◌∙◌, ap, List, ok, some, panic, arith,
  length,
}
use rxd_os.Blk.{Drive, blk_dev_hd}
use rxd_os.Buffer.{Cache}
use rxd_os.Buffer.Disk.{DiskLaws, slice, slice-same, overwritten, slice-overwritten_here}
use rxd_os.Buffer.Session.{Idle}
use rxd_os.Blockmap.Next.{Idle-less, IsFull}
use rxd_os.Super.{SuperBlock}
use rxd_os.Inode.{Inode}
use rxd_os.Zone.{zones_of}
use rxd_os.Content.{read, write}
use rxd_os.Content.Bytes.{file_byte, IsFile}
use rxd_os.Content.Read.{read-file_byte}
use rxd_os.Content.Effect.{HasFile, old_byte}
use rxd_os.Content.Write.{size_after, write-WriteOk}

module _ {D : Type 0} {drive : Drive D} (laws : DiskLaws drive) where
  pub HasFile-IsFile :
      (s : Cache D) (sb : SuperBlock) (i : Inode) → HasFile laws s sb i → IsFile laws i
  HasFile-IsFile s sb i file = record {
    size = omega (arith, file.zones.few);
    zones = file.zones.size;
    inside = file.zones.inside;
  }

  -- A file system, an inode and a write as for the theorem on _write, with slots for four transfers more. If
  -- _write does not panic for want of a free block, then _read of as many bytes at the same place of the
  -- inode that _write leaves returns the bytes that were written.
  pub read-write :
      (n : ℕ) (sb : SuperBlock) (s : Cache D) (i : Inode) (pos : ℕ) (buf : List ℕ)
      → HasFile laws s sb i
      → Idle laws (n + 14 + 2 * sb.s_zmap_count) s
      → 0 < length buf
      → pos % 1024 + length buf ≤ 2048
      → pos + length buf ≤ (zones_of i.i_size + 1) * 1024
      → pos + length buf ≤ 7168
      → ((i' : Inode) × (s' : Cache D) × (s'' : Cache D) × (write drive sb i pos buf s
            ≡ ok (length buf, i', s'))
          × (read drive blk_dev_hd i' pos (length buf) s' ≡ ok (some buf, s'')))
        ⊎ ((write drive sb i pos buf s ≡ panic) × IsFull laws s sb.s_zmap_start sb.s_zmap_count)
  read-write n sb s i pos buf file idle some_bytes short near few =
      let n4 : ℕ = suc (suc (suc (suc n))) in
      elim (write-WriteOk laws n4 sb s i pos buf file
        (Idle-less laws (n4 + 10 + 2 * sb.s_zmap_count) (n + 14 + 2 * sb.s_zmap_count) s
          (omega arith) idle)
        some_bytes short near few) [
          | inl (zs, s', run, _, done) ↦
              let i' : Inode = record i { i_size = size_after i (pos + length buf); i_zone = zs } in
              let ends : pos + length buf ≤ i'.i_size = ground arith in
              let (s'', run', same) =
                read-file_byte laws n s' i' pos (length buf) done.idle
                  (HasFile-IsFile s' sb i' done.file) some_bytes ends short in
              let written : slice (file_byte laws s' i') pos (length buf) ≡ buf =
                slice-same (file_byte laws s' i') (overwritten (old_byte laws s i) pos buf) pos
                  (length buf) (λ p a b. done.bytes p (omega (arith, ends, b)))
                ∙ slice-overwritten_here (old_byte laws s i) pos buf in
              inl (i', s', s'', run, run' ∙ ap (λ l. ok (some l, s'')) written)
          | inr (run, more, full) ↦ inr (run, full)
        ]
