-- ===== src/OpenFile/Read.antt =====
-- fs/fs.c: `sys_read` of an open file.
use rxd_os.Prelude.{
  ℕ, zero, suc, ◌+◌, ◌-◌, ◌%◌, ◌^◌, ◌≤◌, ◌<◌, ◌≡◌, refl, sym, ◌∙◌, ap, List, [], ◌++◌, some, ok,
  arith, length, ltb, if◌then◌else◌,
}
use native.Mathlib.Decide.{dec_lt}
use rxd_os.Blk.{Drive, blk_dev_hd}
use rxd_os.Buffer.{Cache}
use rxd_os.Buffer.Disk.{DiskLaws, slice, length-slice}
use rxd_os.Buffer.Session.{Idle}
use rxd_os.Blockmap.Next.{Idle-less}
use rxd_os.Image.Access.{Same}
use rxd_os.Pages.Borrow.{CanBorrow}
use rxd_os.Super.{SuperBlock}
use rxd_os.Content.{read}
use rxd_os.Content.Range.{read-behind}
use rxd_os.Content.Bytes.{file_byte, IsFile}
use rxd_os.Content.Read.{read-file_byte}
use rxd_os.OpenFile.{Opened, chunk, bytes_behind, less_count, advanced, read_chunks, sys_read}

-- How many of `count` bytes from `pos` on a file of `size` bytes has.
abbrev pub available : (size pos count : ℕ) → ℕ
available size pos count = if ltb (size - pos) count then size - pos else count

module _ {D : Type 0} (drive : Drive D) (sb : SuperBlock) where
  chunks_done :
      (fuel count left : ℕ) (usrbuf : List ℕ) (o : Opened D)
      → left ≡ 0
      → read_chunks drive sb (suc fuel) count left usrbuf o ≡ ok (count, usrbuf, o)
  unfolding read_chunks
  chunks_done fuel count left usrbuf o e = ground (arith, e)

  pub chunks_behind :
      (fuel count left : ℕ) (usrbuf : List ℕ) (o : Opened D)
      → 0 < left
      → o.inode.i_size < o.filp.f_pos + chunk left
      → o.filp.f_pos + chunk left < 2 ^ 31
      → read_chunks drive sb (suc fuel) count left usrbuf o
        ≡ read_chunks drive sb fuel
            (less_count count left (bytes_behind o))
            (bytes_behind o)
            usrbuf
            o
  unfolding read_chunks
  chunks_behind fuel count left usrbuf o more behind small =
      let nothing =
        read-behind drive sb.s_dev o.inode o.filp.f_pos (chunk left) o.cache behind small in
      ground (arith, more, nothing)

  chunks_step :
      (fuel count left : ℕ) (usrbuf bytes : List ℕ) (o : Opened D) (s : Cache D)
      → 0 < left
      → read drive sb.s_dev o.inode o.filp.f_pos (chunk left) o.cache ≡ ok (some bytes, s)
      → length bytes ≡ left
      → read_chunks drive sb (suc (suc fuel)) count left usrbuf o
        ≡ ok (count, usrbuf ++ bytes, advanced o left o.inode s)
  unfolding read_chunks
  chunks_step fuel count left usrbuf bytes o s more run size = ground (arith, more, run, size)

module _ {D : Type 0} {drive : Drive D} (laws : DiskLaws drive) (n : ℕ) (sb : SuperBlock) where
  -- What is left is in the file.
  last_chunk :
      (fuel count left : ℕ) (o : Opened D)
      → sb.s_dev ≡ blk_dev_hd
      → Idle laws (suc (suc (suc (suc n)))) o.cache
      → IsFile laws o.inode
      → o.filp.f_pos + left ≤ o.inode.i_size
      → o.filp.f_pos % 1024 + left ≤ 2048
      → (s' : Cache D) × (read_chunks drive sb (suc (suc fuel)) count left [] o
          ≡ ok (
            count,
            slice (file_byte laws o.cache o.inode) o.filp.f_pos left,
            advanced o left o.inode s',
          ))
        × Same laws n o.cache s'
  unfolding slice
  last_chunk fuel count zero o device idle file inside short =
      let stays : o.filp.f_pos + 0 ≡ o.filp.f_pos = omega arith in
      (
        o.cache,
        chunks_done drive sb (suc fuel) count 0 [] o refl
            ∙ ap (λ p. ok (count, [], record o { filp = record o.filp { f_pos = p } })) (sym stays),
        record {
          idle = Idle-less laws n (suc (suc (suc (suc n)))) o.cache (omega arith) idle;
          views = λ b. refl;
        },
      )
  last_chunk fuel count (suc left) o device idle file inside short =
      let pos : ℕ = o.filp.f_pos in
      let l : ℕ = suc left in
      let f : ℕ → ℕ = file_byte laws o.cache o.inode in
      let (s', run, same) =
        read-file_byte laws n o.cache o.inode pos l idle file (omega arith) inside short in
      let whole : chunk l ≡ l = ground (arith, short) in
      let run' : read drive sb.s_dev o.inode pos (chunk l) o.cache ≡ ok (some (slice f pos l), s') =
        ap (λ m. read drive sb.s_dev o.inode pos m o.cache) whole
        ∙ ap (λ d. read drive d o.inode pos l o.cache) device
        ∙ run in
      (
        s',
        chunks_step drive sb fuel count l [] (slice f pos l) o s' (omega arith) run'
            (length-slice f pos l),
        same,
      )

  all_chunks :
      (count : ℕ) (o : Opened D)
      → sb.s_dev ≡ blk_dev_hd
      → Idle laws (suc (suc (suc (suc n)))) o.cache
      → IsFile laws o.inode
      → o.filp.f_pos ≤ o.inode.i_size
      → count < 2 ^ 31
      → o.filp.f_pos % 1024 + available o.inode.i_size o.filp.f_pos count ≤ 2048
      → (s' : Cache D) × (read_chunks drive sb (suc (suc count)) count count [] o
          ≡ ok (
            available o.inode.i_size o.filp.f_pos count,
            slice
                (file_byte laws o.cache o.inode)
                o.filp.f_pos
                (available o.inode.i_size o.filp.f_pos count),
            advanced o (available o.inode.i_size o.filp.f_pos count) o.inode s',
          ))
        × Same laws n o.cache s'
  all_chunks zero o device idle file inside small short =
      let nothing : available o.inode.i_size o.filp.f_pos 0 ≡ 0 = ground arith in
      rw nothing (last_chunk 0 0 0 o device idle file (omega (arith, inside)) (omega arith))
  all_chunks (suc count) o device idle file inside small short =
      let size : ℕ = o.inode.i_size in
      let pos : ℕ = o.filp.f_pos in
      let c : ℕ = suc count in
      elim (dec_lt (size - pos) c) [
        | no enough ↦
            let all : available size pos c ≡ c = ground (arith, enough) in
            rw all (
              last_chunk c c c o device idle file (omega (arith, enough, inside))
                (omega (arith, all, short)))
        | yes more ↦
            let k : ℕ = size - pos in
            let part : available size pos c ≡ k = ground (arith, more) in
            let far : size < pos + chunk c = ground (arith, more, part, short, inside) in
            let near : pos + chunk c < 2 ^ 31 = ground (arith, inside, file.size) in
            let behind : bytes_behind o ≡ k = omega (arith, inside, file.size) in
            let less : less_count c c (bytes_behind o) ≡ k =
              omega (arith, behind, more, small, inside) in
            let first : read_chunks drive sb (suc (suc c)) c c [] o
                ≡ read_chunks drive sb (suc c) k k [] o =
              chunks_behind drive sb (suc c) c c [] o (omega arith) far near
              ∙ ap (λ b. read_chunks drive sb (suc c) (less_count c c (bytes_behind o)) b [] o)
                  behind
              ∙ ap (λ b. read_chunks drive sb (suc c) b k [] o) less in
            let (s', run, same) =
              last_chunk count k k o device idle file (omega (arith, inside))
                (omega (arith, part, short)) in
            rw part (s', first ∙ run, same)
      ]

  -- Let the file have direct zones on a disk that obeys the laws, nobody use a buffer, slots for four
  -- transfers be free, a page be there to borrow, and the position not lie behind the end of the file. If
  -- the bytes that the file has of the count (below 2 ^ 31) end in the zone behind the first at most,
  -- sys_read returns their number and the bytes, puts the position behind them, gives the page back, and
  -- leaves the inode and every block as they were.
  pub sys_read-available :
      (count : ℕ) (o : Opened D)
      → sb.s_dev ≡ blk_dev_hd
      → Idle laws (suc (suc (suc (suc n)))) o.cache
      → IsFile laws o.inode
      → CanBorrow o.pages
      → o.filp.f_pos ≤ o.inode.i_size
      → count < 2 ^ 31
      → o.filp.f_pos % 1024 + available o.inode.i_size o.filp.f_pos count ≤ 2048
      → (s' : Cache D) × (sys_read drive sb count o
          ≡ ok (
            available o.inode.i_size o.filp.f_pos count,
            slice
                (file_byte laws o.cache o.inode)
                o.filp.f_pos
                (available o.inode.i_size o.filp.f_pos count),
            advanced o (available o.inode.i_size o.filp.f_pos count) o.inode s',
          ))
        × Same laws n o.cache s'
  unfolding sys_read
  sys_read-available count o device idle file page inside small short =
      let (s', run, same) =
        all_chunks count (record o { pages = page.rest }) device idle file inside small short in
      (s', ground (arith, page.alloc, run, page.free), same)
