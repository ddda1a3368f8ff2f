-- ===== src/Inode/Codec.antt =====
-- include/fs.h: the bytes of an inode and the fields that they hold.
use rxd_os.Prelude.{ℕ, ◌<◌, ◌≡◌, List, ◌++◌, arith, length, length-append}
use mathlib.Core.Path.{subst}
use rxd_os.Super.{word32, word16, word32s, half_at, word_at, words_from}
use rxd_os.Super.Words.{AreWords, word_at-word32, length-word32s, words_from-word32s}
use rxd_os.Inode.{Inode, inode_bytes, take_inode}

-- The fields fit their types. The link count and the size are not negative.
pub record IsInode (i : Inode) : Type 0 where
  pub inum : i.i_inum < 4294967296
  pub size : i.i_size < 4294967296
  pub mode : i.i_mode < 65536
  pub nlink : i.i_nlink < 65536
  pub zones : length i.i_zone ≡ 9
  pub zone : AreWords i.i_zone
  pub links : length i.i_links ≡ 5

pub length-inode_bytes : (i : Inode) → IsInode i → length (inode_bytes i) ≡ 72
unfolding inode_bytes word32 word16
length-inode_bytes i is = omega (
  arith,
  length-append {A = ℕ} (word32s i.i_zone) (word32s i.i_links ++ word32 i.i_refcnt),
  length-append {A = ℕ} (word32s i.i_links) (word32 i.i_refcnt),
  length-word32s i.i_zone,
  length-word32s i.i_links,
  is.zones,
  is.links,
)

pub word_at-inode_bytes : (i : Inode) → IsInode i → word_at (inode_bytes i) 0 ≡ i.i_inum
unfolding inode_bytes
word_at-inode_bytes i is = word_at-word32 i.i_inum _ is.inum

-- What is read from the bytes of `i` into an inode `j`.
pub take_inode-inode_bytes :
    (j i : Inode)
    → IsInode i
    → take_inode j i.i_inum (inode_bytes i) ≡ record j {
      i_inum = i.i_inum;
      i_size = i.i_size;
      i_mode = i.i_mode;
      i_nlink = i.i_nlink;
      i_zone = i.i_zone;
    }
unfolding inode_bytes take_inode word32 word16 word_at half_at
take_inode-inode_bytes j i is =
    let tail : List ℕ = word32s i.i_links ++ word32 i.i_refcnt in
    let zones : words_from 9 (word32s i.i_zone ++ tail) ≡ i.i_zone =
      subst (λ n. words_from n (word32s i.i_zone ++ tail) ≡ i.i_zone) is.zones
        (words_from-word32s i.i_zone tail is.zone) in
    let size : word_at (inode_bytes i) 4 ≡ i.i_size = omega (arith, is.size) in
    let mode : half_at (inode_bytes i) 8 ≡ i.i_mode = omega (arith, is.mode) in
    let nlink : half_at (inode_bytes i) 10 ≡ i.i_nlink = omega (arith, is.nlink) in
    λ t. record j {
      i_inum = i.i_inum;
      i_size = size t;
      i_mode = mode t;
      i_nlink = nlink t;
      i_zone = zones t;
    }
