-- ===== src/OpenFile/Endless.antt =====
-- fs/fs.c: `sys_read` behind the end of a file. What is left there wraps round to a large number, and
-- each round finds the same.
use rxd_os.Prelude.{ℕ, zero, suc, ◌+◌, ◌^◌, ◌<◌, ◌≡◌, refl, ◌∙◌, List, out_of_fuel, arith}
use rxd_os.Blk.{Drive}
use rxd_os.Super.{SuperBlock}
use rxd_os.OpenFile.{Opened, bytes_behind, less_count, read_chunks}
use rxd_os.OpenFile.Read.{chunks_behind}

-- When the position lies behind the end of the file, more than 4096 below 2 ^ 31, and a byte is left to
-- read, the loop of sys_read does not come to an end: no number of rounds is enough.
pub read_chunks-endless :
    {D : Type 0} (drive : Drive D) (sb : SuperBlock) (fuel count left : ℕ) (usrbuf : List ℕ)
    (o : Opened D)
    → o.inode.i_size < o.filp.f_pos
    → o.filp.f_pos + 4096 < 2 ^ 31
    → 0 < left
    → read_chunks drive sb fuel count left usrbuf o ≡ out_of_fuel
unfolding read_chunks
read_chunks-endless drive sb zero count left usrbuf o behind fits more = refl
read_chunks-endless drive sb (suc fuel) count left usrbuf o behind fits more =
    let again : 0 < bytes_behind o = omega (arith, behind, fits) in
    chunks_behind drive sb fuel count left usrbuf o more (ground (arith, behind, more))
      (ground (arith, fits))
    ∙ read_chunks-endless drive sb fuel (less_count count left (bytes_behind o)) (bytes_behind o)
        usrbuf o behind fits again
