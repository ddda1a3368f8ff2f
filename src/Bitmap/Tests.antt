-- ===== src/Bitmap/Tests.antt =====
-- fs/bitmap.h: the theorems at a block of four bytes.
use rxd_os.Prelude.{ℕ, zero, suc, List, [], ◌∷◌, arith}
use rxd_os.Bitmap.Bits.{AreBytes}

abbrev block : List ℕ
block = 255 ∷ 0x17 ∷ 0 ∷ 255 ∷ []

block-AreBytes : AreBytes block
block-AreBytes zero = omega arith
block-AreBytes (suc zero) = omega arith
block-AreBytes (suc (suc zero)) = omega arith
block-AreBytes (suc (suc (suc zero))) = omega arith
block-AreBytes (suc (suc (suc (suc i)))) = omega arith
