-- ===== src/Content/Range.antt =====
-- fs/fs.c: the range of bytes that `_read` is asked for, against the end of the file.
use rxd_os.Prelude.{ℕ, ◌+◌, ◌^◌, ◌≤◌, ◌<◌, ◌≡◌, true, false, none, ok, arith}
use rxd_os.Blk.{Drive}
use rxd_os.Buffer.{Cache}
use rxd_os.Inode.{Inode}
use rxd_os.Content.{past_end, read}

pub past_end-inside :
    (pos count size : ℕ) → pos + count ≤ size → size < 2 ^ 31 → past_end pos count size ≡ false
unfolding past_end
past_end-inside pos count size inside small = ground (arith, inside, small)

past_end-behind :
    (pos count size : ℕ)
    → size < pos + count
    → pos + count < 2 ^ 31
    → past_end pos count size ≡ true
unfolding past_end
past_end-behind pos count size behind small = ground (arith, behind, small)

pub read-behind :
    {D : Type 0} (drive : Drive D) (dev : ℕ) (i : Inode) (pos count : ℕ) (s : Cache D)
    → i.i_size < pos + count
    → pos + count < 2 ^ 31
    → read drive dev i pos count s ≡ ok (none, s)
unfolding read
read-behind drive dev i pos count s behind small =
    let past = past_end-behind pos count i.i_size behind small in ground (arith, small, past)
