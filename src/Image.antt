-- ===== src/Image.antt =====
-- fs/fs.c: how the file system uses a block of the cache. `memcpy` between a block and an object copies
-- bytes, which a list holds; an access behind the block is undefined in C.
pub mod Bytes
pub mod Access
mod Tests
use rxd_os.Prelude.{
  ℕ, zero, suc, ◌+◌, List, [], ◌∷◌, Outcome, ok, fault, ◌>>=◌, leb, if◌then◌else◌, length, get_or,
  set,
}
use rxd_os.Blk.{Drive}
use rxd_os.Buffer.{BufferHead, Cache, bread, brelease, bwrite, set_data}

-- The `n` bytes from `off` on, and the bytes after `xs` was written at `off`.
unfoldable pub part : List ℕ → (off n : ℕ) → List ℕ
part bytes off zero = []
part bytes off (suc n) = get_or bytes off 0 ∷ part bytes (off + 1) n

unfoldable pub patch : List ℕ → (off : ℕ) → List ℕ → List ℕ
patch bytes off [] = bytes
patch bytes off (x ∷ xs) = patch (set bytes off x) (off + 1) xs

-- `memcpy(buf, bh->b_data + off, n)` and `memcpy(bh->b_data + off, buf, n)`
unfoldable pub copy_out : (off n : ℕ) → List ℕ → Outcome (List ℕ)
copy_out off n bytes = if leb (off + n) (length bytes) then ok (part bytes off n) else fault

unfoldable pub copy_in : (off : ℕ) → List ℕ → List ℕ → Outcome (List ℕ)
copy_in off xs bytes =
    if leb (off + length xs) (length bytes) then ok (patch bytes off xs) else fault

module _ {D : Type 0} (drive : Drive D) where
  -- `bread`, `memcpy` of `n` bytes from `off` on and `brelease`
  unfoldable pub read_part : (dev b off n : ℕ) → Cache D → Outcome (List ℕ × Cache D)
  read_part dev b off n s = do
    (bh, s) ← bread drive dev b s
    buf ← copy_out off n (s.heads bh).b_data
    s ← brelease drive bh s
    ok (buf, s)

  -- `bread`, a change of the data, `bwrite` and `brelease`
  unfoldable pub change_block :
      (dev b : ℕ) → (List ℕ → Outcome (List ℕ)) → Cache D → Outcome (Cache D)
  change_block dev b change s = do
    (bh, s) ← bread drive dev b s
    bytes ← change (s.heads bh).b_data
    brelease drive bh (bwrite bh (set_data bh bytes s))
