-- ===== src/Memory.antt =====
-- Byte-addressed memory, as the C code of the kernel sees it through `char *`: one byte at each
-- address. The kernel runs without protection between its objects, so every address can be read and
-- written. Addresses are plain numbers; no object reaches round the end of the address space.
-- Only the padding of strncpy can get there, and it goes on at 0.
use rxd_os.Prelude.{ℕ, ◌+◌, ◌≡◌, ◌≢◌, List, [], ◌∷◌, ◌==◌, if◌then◌else◌}

abbrev pub Memory : Type 0
Memory = ℕ → ℕ

abbrev pub write : Memory → ℕ → ℕ → Memory
write m p v a = if p == a then v else m a

-- The bytes of a string without its terminator: none of them is 0, and a 0 follows.
abbrev pub IsString : Memory → ℕ → List ℕ → Type 0
IsString m p [] = m p ≡ 0
IsString m p (x ∷ xs) = (m p ≡ x) × (x ≢ 0) × IsString m (p + 1) xs
