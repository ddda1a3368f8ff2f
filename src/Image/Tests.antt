-- ===== src/Image/Tests.antt =====
-- fs/fs.c: bytes written into a block and read back.
use rxd_os.Prelude.{◌≡◌, refl, [], ◌∷◌}
use rxd_os.Image.{part, patch}

patch_twice : part (patch (1 ∷ 2 ∷ 3 ∷ 4 ∷ []) 1 (7 ∷ 8 ∷ [])) 0 4 ≡ 1 ∷ 7 ∷ 8 ∷ 4 ∷ []
unfolding part patch
patch_twice = refl
