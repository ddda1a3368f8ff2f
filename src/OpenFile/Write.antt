-- ===== src/OpenFile/Write.antt =====
-- fs/fs.c: `sys_write` to an open file, and `sys_read` of what it wrote after `sys_lseek`.
use rxd_os.Prelude.{
  ℕ, zero, suc, ◌+◌, ◌*◌, ◌%◌, ◌≤◌, ◌<◌, ◌≡◌, ◌⊎◌, inl, inr, refl, ◌∙◌, ap, List, [], ◌∷◌, ok,
  panic, arith, length, take, drop,
}
use rxd_os.Blk.{Drive}
use rxd_os.Buffer.{Cache}
use rxd_os.Buffer.Disk.{DiskLaws, slice, slice-same, overwritten, slice-overwritten_here}
use rxd_os.Buffer.Session.{Idle}
use rxd_os.Blockmap.Next.{Idle-less, IsFull}
use rxd_os.Super.{SuperBlock}
use rxd_os.Inode.{Inode}
use rxd_os.Zone.{zones_of}
use rxd_os.Content.{write}
use rxd_os.Content.Bytes.{file_byte}
use rxd_os.Content.Overwrite.{length-drop}
use rxd_os.Content.Effect.{HasFile, old_byte}
use rxd_os.Content.Write.{size_after, write-WriteOk}
use rxd_os.Content.RoundTrip.{HasFile-IsFile}
use rxd_os.Pages.Borrow.{CanBorrow}
use rxd_os.OpenFile.{
  Opened, chunk, advanced, at_pos, seek_set, sys_lseek, write_chunks, sys_read, sys_write,
}
use rxd_os.OpenFile.Read.{available, sys_read-available}

take_all : (l : List ℕ) → take (length l) l ≡ l
take_all [] = refl
take_all (y ∷ ys) = ap (λ l. y ∷ l) (take_all ys)

module _ {D : Type 0} (drive : Drive D) (sb : SuperBlock) where
  writes_done :
      (fuel : ℕ) (usrbuf : List ℕ) (o : Opened D)
      → 0 < fuel
      → length usrbuf ≡ 0
      → write_chunks drive sb fuel usrbuf o ≡ ok o
  unfolding write_chunks
  writes_done zero usrbuf o some_fuel e = absurd (omega (arith, some_fuel))
  writes_done (suc fuel) usrbuf o some_fuel e = ground (arith, e)

  -- One piece is all.
  write_once :
      (fuel : ℕ) (usrbuf : List ℕ) (o : Opened D) (i' : Inode) (s' : Cache D)
      → 0 < fuel
      → 0 < length usrbuf
      → length usrbuf ≤ 4096
      → write drive sb o.inode o.filp.f_pos usrbuf o.cache ≡ ok (length usrbuf, i', s')
      → write_chunks drive sb (suc fuel) usrbuf o ≡ ok (advanced o (length usrbuf) i' s')
  unfolding write_chunks
  write_once fuel usrbuf o i' s' some_fuel more few run =
      let whole : take (chunk (length usrbuf)) usrbuf ≡ usrbuf =
        ap (λ n. take n usrbuf) (ground (arith, few)) ∙ take_all usrbuf in
      let none_left : length (drop (length usrbuf) usrbuf) ≡ 0 =
        omega (arith, length-drop (length usrbuf) usrbuf) in
      let run' = ap (λ l. write drive sb o.inode o.filp.f_pos l o.cache) whole ∙ run in
      ground (
        arith,
        more,
        run',
        writes_done fuel (drop (length usrbuf) usrbuf) (advanced o (length usrbuf) i' s') some_fuel
            none_left,
      )

  write_stopped :
      (fuel : ℕ) (usrbuf : List ℕ) (o : Opened D)
      → 0 < length usrbuf
      → length usrbuf ≤ 4096
      → write drive sb o.inode o.filp.f_pos usrbuf o.cache ≡ panic
      → write_chunks drive sb (suc fuel) usrbuf o ≡ panic
  unfolding write_chunks
  write_stopped fuel usrbuf o more few run =
      let whole : take (chunk (length usrbuf)) usrbuf ≡ usrbuf =
        ap (λ n. take n usrbuf) (ground (arith, few)) ∙ take_all usrbuf in
      let run' = ap (λ l. write drive sb o.inode o.filp.f_pos l o.cache) whole ∙ run in
      ground (arith, more, run')

module _ {D : Type 0} {drive : Drive D} (laws : DiskLaws drive) where
  -- Let the open file and the write be as for the theorem on _write, with four more slots for transfers,
  -- and a page there to borrow. If sys_write does not panic for want of a free block, it returns the
  -- count with the position behind the bytes; sys_lseek back to where it began and sys_read of as many
  -- bytes then return the count and the bytes that were written.
  pub sys_read-sys_write :
      (n : ℕ) (sb : SuperBlock) (usrbuf : List ℕ) (o : Opened D)
      → HasFile laws o.cache sb o.inode
      → CanBorrow o.pages
      → Idle laws (n + 14 + 2 * sb.s_zmap_count) o.cache
      → 0 < length usrbuf
      → o.filp.f_pos % 1024 + length usrbuf ≤ 2048
      → o.filp.f_pos + length usrbuf ≤ (zones_of o.inode.i_size + 1) * 1024
      → o.filp.f_pos + length usrbuf ≤ 7168
      → ((o1 : Opened D) × (o2 : Opened D) × (sys_write drive sb usrbuf o ≡ ok (length usrbuf, o1))
          × (o1.filp.f_pos ≡ o.filp.f_pos + length usrbuf)
          × (sys_read drive sb (length usrbuf) (sys_lseek o.filp.f_pos seek_set o1).1
              ≡ ok (length usrbuf, usrbuf, o2)))
        ⊎ ((sys_write drive sb usrbuf o ≡ panic)
            × IsFull laws o.cache sb.s_zmap_start sb.s_zmap_count)
  unfolding sys_write sys_lseek
  sys_read-sys_write n sb usrbuf o file page idle more short near few =
      let pos : ℕ = o.filp.f_pos in
      let count : ℕ = length usrbuf in
      let n4 : ℕ = suc (suc (suc (suc n))) in
      let held : Opened D = record o { pages = page.rest } in
      elim (write-WriteOk laws n4 sb o.cache o.inode pos usrbuf file
        (Idle-less laws (n4 + 10 + 2 * sb.s_zmap_count) (n + 14 + 2 * sb.s_zmap_count) o.cache
          (omega arith) idle)
        more short near few) [
          | inl (zs, s', run, _, done) ↦
              let i' : Inode = record o.inode {
                i_size = size_after o.inode (pos + count);
                i_zone = zs;
              } in
              let o1 : Opened D = advanced o count i' s' in
              let ends : pos + count ≤ i'.i_size = ground arith in
              let all : available i'.i_size pos count ≡ count = ground (arith, ends) in
              let chunks =
                write_once drive sb count usrbuf held i' s' more more (omega (arith, short)) run in
              let back : Opened D = (at_pos pos o1).1 in
              let (s'', run', same) =
                sys_read-available laws n sb count back file.layout.device done.idle
                  (HasFile-IsFile laws s' sb i' done.file) page (omega (arith, ends))
                  (omega (arith, short)) (omega (arith, all, short)) in
              let written : slice (file_byte laws s' i') pos count ≡ usrbuf =
                slice-same (file_byte laws s' i')
                  (overwritten (old_byte laws o.cache o.inode) pos usrbuf) pos count
                  (λ p a b. done.bytes p (omega (arith, ends, b)))
                ∙ slice-overwritten_here (old_byte laws o.cache o.inode) pos usrbuf in
              let got : sys_read drive sb count back
                  ≡ ok (count, usrbuf, advanced back (available i'.i_size pos count) i' s'') =
                run'
                ∙ ap
                    (λ m. ok (
                      m,
                      slice (file_byte laws s' i') pos m,
                      advanced back (available i'.i_size pos count) i' s'',
                    ))
                    all
                ∙ ap (λ l. ok (count, l, advanced back (available i'.i_size pos count) i' s''))
                    written in
              inl (
                o1,
                advanced back (available i'.i_size pos count) i' s'',
                ground (arith, page.alloc, chunks, page.free),
                refl,
                got,
              )
          | inr (run, full_needed, full) ↦ inr (
            ground (
              arith,
              page.alloc,
              write_stopped drive sb count usrbuf held more (omega (arith, short)) run,
            ),
            full,
          )
        ]
