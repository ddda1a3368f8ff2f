-- ===== src/Super.antt =====
-- fs/fs.c and include/fs.h: the super block, on the disk and in memory. There is one in the kernel, `super`,
-- and every pointer to one points to it: the assertions that say so always hold and are not repeated.
use rxd_os.Prelude.{
  ℕ, zero, suc, ◌+◌, ◌*◌, ◌/◌, ◌%◌, List, [], ◌∷◌, ◌++◌, Outcome, ok, ◌>>=◌, ◌==◌, if◌then◌else◌,
  get_or, replicate, drop,
}
use rxd_os.Blk.{Drive}
use rxd_os.Buffer.{Cache}
use rxd_os.Bitmap.{set_n_bit}
use rxd_os.Image.{copy_in, read_part, change_block}
pub mod Words
pub mod Layout
mod Tests

-- The bytes of words of 32 bits and of 16, the low byte first.
unfoldable pub word32 : ℕ → List ℕ
word32 v = v % 256 ∷ v / 256 % 256 ∷ v / 65536 % 256 ∷ v / 16777216 % 256 ∷ []

unfoldable pub word16 : ℕ → List ℕ
word16 v = v % 256 ∷ v / 256 % 256 ∷ []

unfoldable pub word32s : List ℕ → List ℕ
word32s [] = []
word32s (v ∷ vs) = word32 v ++ word32s vs

-- The words that bytes make.
unfoldable pub half_at : List ℕ → ℕ → ℕ
half_at bytes off = get_or bytes off 0 + 256 * get_or bytes (off + 1) 0

unfoldable pub word_at : List ℕ → ℕ → ℕ
word_at bytes off = half_at bytes off + 65536 * half_at bytes (off + 2)

unfoldable pub words_from : ℕ → List ℕ → List ℕ
words_from zero bytes = []
words_from (suc n) bytes = word_at bytes 0 ∷ words_from n (drop 4 bytes)

pub record SuperBlock : Type 0 where
  pub s_magic : ℕ
  pub s_imap_start : ℕ
  pub s_imap_count : ℕ
  pub s_zmap_start : ℕ
  pub s_zmap_count : ℕ
  pub s_itable_start : ℕ
  pub s_itable_count : ℕ
  pub s_data_start : ℕ
  pub s_dev : ℕ

-- The nine words of a `struct super_block`.
unfoldable pub super_words : SuperBlock → List ℕ
super_words sb =
    sb.s_magic ∷ sb.s_imap_start ∷ sb.s_imap_count ∷ sb.s_zmap_start ∷ sb.s_zmap_count
    ∷ sb.s_itable_start ∷ sb.s_itable_count ∷ sb.s_data_start ∷ sb.s_dev ∷ []

unfoldable pub super_of : List ℕ → SuperBlock
super_of ws = record {
  s_magic = get_or ws 0 0;
  s_imap_start = get_or ws 1 0;
  s_imap_count = get_or ws 2 0;
  s_zmap_start = get_or ws 3 0;
  s_zmap_count = get_or ws 4 0;
  s_itable_start = get_or ws 5 0;
  s_itable_count = get_or ws 6 0;
  s_data_start = get_or ws 7 0;
  s_dev = get_or ws 8 0;
}

abbrev pub super_magic : ℕ
super_magic = 0x12345678

module _ {D : Type 0} (drive : Drive D) where
  -- `read_super`; the 36 bytes of the structure begin block 1 of the disk.
  unfoldable pub read_super : (dev : ℕ) → Cache D → Outcome (SuperBlock × Cache D)
  read_super dev s = do
    (bytes, s) ← read_part drive dev 1 0 36 s
    ok (record (super_of (words_from 9 bytes)) { s_dev = dev }, s)

  unfoldable pub write_super : SuperBlock → Cache D → Outcome (Cache D)
  write_super sb s = change_block drive sb.s_dev 1 (copy_in 0 (word32s (super_words sb))) s

-- The super block that `mkfs` makes.
abbrev pub made_super : SuperBlock
made_super = record {
  s_magic = super_magic;
  s_imap_start = 2;
  s_imap_count = 1;
  s_zmap_start = 3;
  s_zmap_count = 1;
  s_itable_start = 4;
  s_itable_count = 6;
  s_data_start = 10;
  s_dev = 3;
}

-- `memset(bh->b_data, 0, BLOCK_SIZE)` and `_set_n_bit(bh->b_data, n)`
unfoldable pub make_map : (n : ℕ) → List ℕ → Outcome (List ℕ)
make_map n bytes = set_n_bit (replicate 1024 0) n
