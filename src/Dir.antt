-- ===== src/Dir.antt =====
-- fs/fs.c and include/fs.h: the entries of a directory, 32 bytes each of its content. For strncmp the two
-- names, local variables in the source, stand at two places of a memory; its result does not depend on them.
pub mod Names
pub mod Find
mod Tests
use rxd_os.Prelude.{
  ℕ, zero, suc, ◌+◌, ◌-◌, ◌/◌, Option, none, some, List, [], ◌∷◌, ◌++◌, Outcome, ok, out_of_fuel,
  ◌>>=◌, ltb, ◌==◌, if◌then◌else◌, get_or,
}
use rxd_os.Memory.{Memory}
use rxd_os.Str.{strncmp}
use rxd_os.Blk.{Drive}
use rxd_os.Buffer.{Cache}
use rxd_os.Image.{part}
use rxd_os.Super.{word32, word16, half_at, word_at, SuperBlock}
use rxd_os.Inode.{Inode, write_inode}
use rxd_os.Content.{read, write}

pub record DirEntry : Type 0 where
  pub inode : ℕ
  pub rec_len : ℕ
  pub name_len : ℕ
  pub file_type : ℕ
  pub name : List ℕ

abbrev pub dir_rec_len : ℕ
dir_rec_len = 32

-- The 32 bytes of a `struct dir_entry`, and the entry that bytes make.
unfoldable pub entry_bytes : DirEntry → List ℕ
entry_bytes de = word32 de.inode ++ (word16 de.rec_len ++ (de.name_len ∷ de.file_type ∷ de.name))

unfoldable pub entry_of : List ℕ → DirEntry
entry_of bytes = record {
  inode = word_at bytes 0;
  rec_len = half_at bytes 4;
  name_len = get_or bytes 6 0;
  file_type = get_or bytes 7 0;
  name = part bytes 8 24;
}

-- The names of two entries, at 32 and at 64.
unfoldable pub names_at : List ℕ → List ℕ → Memory
names_at a b p = if ltb p 64 then get_or a (p - 32) 0 else get_or b (p - 64) 0

-- The fields that a hit copies.
abbrev pub filled_in : (target de : DirEntry) → DirEntry
filled_in target de = record target {
  inode = de.inode;
  rec_len = de.rec_len;
  file_type = de.file_type;
}

module _ {D : Type 0} (drive : Drive D) where
  unfoldable pub find_loop :
      (fuel dev : ℕ) → Inode → DirEntry → (pos : ℕ) → Cache D → Outcome (ℕ × DirEntry × Cache D)
  find_loop zero dev dir target pos s = out_of_fuel
  find_loop (suc fuel) dev dir target pos s = do
    (r, s) ← read drive dev dir pos dir_rec_len s
    elim r [
      | none ↦ ok (pos, target, s)
      | some bytes ↦ do
        cmp ← strncmp 32 64 target.name_len (names_at target.name (entry_of bytes).name)
        if cmp == 0
            then ok (pos, filled_in target (entry_of bytes), s)
            else find_loop fuel dev dir target (pos + dir_rec_len) s
    ]

  -- `_find_dir_entry`; `none` is -1. A directory has one entry for each 32 bytes of its size.
  unfoldable pub find_dir_entry :
      (dev : ℕ) → Inode → DirEntry → Cache D → Outcome (Option ℕ × DirEntry × Cache D)
  find_dir_entry dev dir target s = do
    (pos, target, s) ← find_loop (suc (dir.i_size / 32)) dev dir target 0 s
    ok (if ltb pos dir.i_size then some pos else none, target, s)

  -- The second loop of `_add_dir_entry`: the first entry without an inode, or the end.
  unfoldable pub free_loop : (fuel dev : ℕ) → Inode → (pos : ℕ) → Cache D → Outcome (ℕ × Cache D)
  free_loop zero dev dir pos s = out_of_fuel
  free_loop (suc fuel) dev dir pos s = do
    (r, s) ← read drive dev dir pos dir_rec_len s
    elim r [
      | none ↦ ok (pos, s)
      | some bytes ↦
          if (entry_of bytes).inode == 0
          then ok (pos, s)
          else free_loop fuel dev dir (pos + dir_rec_len) s
    ]

  -- `_add_dir_entry`; `none` is -1.
  unfoldable pub add_dir_entry :
      SuperBlock → Inode → DirEntry → Cache D → Outcome (Option ℕ × Inode × Cache D)
  add_dir_entry sb dir target s = do
    (there, de, s) ← find_dir_entry sb.s_dev dir target s
    elim there [
      | some pos ↦ ok (none, dir, s)
      | none ↦ do
        (pos, s) ← free_loop (suc (dir.i_size / 32)) sb.s_dev dir 0 s
        (count, dir, s) ← write drive sb dir pos (entry_bytes target) s
        let dir = record dir { i_nlink = dir.i_nlink + 1 }
        s ← write_inode drive sb dir s
        ok (some 0, dir, s)
    ]
