-- ===== src/OpenFile.antt =====
-- fs/fs.c and include/fs.h: reads and writes of an open file, `sys_read`, `sys_write`, `sys_lseek` and the
-- inode's part of `sys_truncate`. What a descriptor leads to, a `struct file` and the inode behind it, is one
-- record with the cache and the pages. A buffer of the user is a list of bytes; the page between it and
-- the file is taken and given back, and holds a piece of it in between.
pub mod Read
pub mod Write
pub mod Endless
mod Tests
use rxd_os.Prelude.{
  ℕ, zero, suc, ◌+◌, ◌-◌, ◌%◌, ◌^◌, Option, none, some, List, [], ◌++◌, Outcome, ok, panic,
  out_of_fuel, ◌>>=◌, ltb, ◌==◌, if◌then◌else◌, length, take, drop,
}
use rxd_os.Blk.{Drive}
use rxd_os.Buffer.{Cache}
use rxd_os.Pages.{Pages, alloc_page, free_page}
use rxd_os.Super.{SuperBlock}
use rxd_os.Inode.{Inode}
use rxd_os.Zone.{zones_of, reserve_zone}
use rxd_os.Content.{read, write}

pub record File : Type 0 where
  pub f_flags : ℕ
  pub f_mode : ℕ
  pub f_pos : ℕ
  pub f_refcnt : ℕ

pub record Opened (D : Type 0) : Type 0 where
  pub filp : File
  pub inode : Inode
  pub cache : Cache D
  pub pages : Pages

-- `(left > PAGE_SIZE) ? PAGE_SIZE : (int)left`
abbrev pub chunk : ℕ → ℕ
chunk left = if ltb 4096 left then 4096 else left

-- `inode->i_size - filp->f_pos` in a `size_t`
abbrev pub bytes_behind : {D : Type 0} → Opened D → ℕ
bytes_behind o = (o.inode.i_size + 2 ^ 32 - o.filp.f_pos) % 2 ^ 32

-- `count -= left - behind`
abbrev pub less_count : (count left behind : ℕ) → ℕ
less_count count left behind = (count + 2 ^ 32 - (left + 2 ^ 32 - behind) % 2 ^ 32) % 2 ^ 32

-- The state after `n` bytes with the inode and the cache as they have become.
abbrev pub advanced : {D : Type 0} → Opened D → (n : ℕ) → Inode → Cache D → Opened D
advanced o n inode s = record o {
  filp = record o.filp { f_pos = o.filp.f_pos + n };
  inode = inode;
  cache = s;
}

abbrev pub seek_set : ℕ
seek_set = 1

abbrev pub seek_cur : ℕ
seek_cur = 2

abbrev pub seek_end : ℕ
seek_end = 3

abbrev pub at_pos : {D : Type 0} → ℕ → Opened D → ℕ × Opened D
at_pos pos o = (pos, record o { filp = record o.filp { f_pos = pos } })

-- `sys_lseek`; `off_t` is a word of 32 bits, and -1 is 2 ^ 32 - 1.
unfoldable pub sys_lseek : {D : Type 0} → (offset whence : ℕ) → Opened D → ℕ × Opened D
sys_lseek offset whence o =
    if whence == seek_set
    then at_pos offset o
    else if whence == seek_cur
    then at_pos ((o.filp.f_pos + offset) % 2 ^ 32) o
    else if whence == seek_end
    then at_pos ((o.inode.i_size + offset) % 2 ^ 32) o
    else (2 ^ 32 - 1, o)

module _ {D : Type 0} (drive : Drive D) (sb : SuperBlock) where
  -- The loop of `sys_read`: what `count` has become, the bytes for the user, and the state. A read of at
  -- least one byte returns it or -1.
  unfoldable pub read_chunks :
      (fuel count left : ℕ) → List ℕ → Opened D → Outcome (ℕ × List ℕ × Opened D)
  read_chunks zero count left usrbuf o = out_of_fuel
  read_chunks (suc fuel) count left usrbuf o = if left == 0 then ok (count, usrbuf, o) else (do
    (r, s) ← read drive sb.s_dev o.inode o.filp.f_pos (chunk left) o.cache
    elim r [
      | some bytes ↦
          read_chunks fuel count (left - length bytes) (usrbuf ++ bytes)
            (advanced o (length bytes) o.inode s)
      | none ↦
          read_chunks fuel (less_count count left (bytes_behind o)) (bytes_behind o) usrbuf
            (record o { cache = s })
    ])

  -- `sys_read`. Each round but one takes a byte at least.
  unfoldable pub sys_read : (count : ℕ) → Opened D → Outcome (ℕ × List ℕ × Opened D)
  sys_read count o = do
    (buffer, pages) ← alloc_page o.pages
    (count, usrbuf, o) ← read_chunks (suc (suc count)) count count [] (record o { pages = pages })
    pages ← free_page buffer o.pages
    ok (count, usrbuf, record o { pages = pages })

  -- The loop of `sys_write`: the state at its end. `_write` does not return -1.
  unfoldable pub write_chunks : (fuel : ℕ) → List ℕ → Opened D → Outcome (Opened D)
  write_chunks zero usrbuf o = out_of_fuel
  write_chunks (suc fuel) usrbuf o = if length usrbuf == 0 then ok o else (do
    (bytes, inode, s) ←
        write drive sb o.inode o.filp.f_pos (take (chunk (length usrbuf)) usrbuf) o.cache
    write_chunks fuel (drop bytes usrbuf) (advanced o bytes inode s))

  unfoldable pub sys_write : List ℕ → Opened D → Outcome (ℕ × Opened D)
  sys_write usrbuf o = do
    (buffer, pages) ← alloc_page o.pages
    o ← write_chunks (suc (length usrbuf)) usrbuf (record o { pages = pages })
    pages ← free_page buffer o.pages
    ok (length usrbuf, record o { pages = pages })

  -- `sys_truncate`, behind the lookup of the path.
  unfoldable pub truncate_inode : (size : ℕ) → Inode → Cache D → Outcome (Inode × Cache D)
  truncate_inode size inode s =
      if ltb size inode.i_size
      then (do
        (inode, s) ← reserve_zone drive sb inode (zones_of size) 1 s
        ok (record inode { i_size = size }, s))
      else ok (inode, s)
