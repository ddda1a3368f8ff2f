-- ===== src/Buffer/Disk.antt =====
-- kernel/blk_drv/buffer.c: what the cache needs of the disk behind the request table, as a record of
-- laws on its bytes, and the blocks of 1024 bytes that the cache makes of them.
use native.Mathlib.Decide.{dec_lt}
use rxd_os.Prelude.{
  ℕ, zero, suc, ◌+◌, ◌*◌, ◌%◌, ◌^◌, ◌≤◌, ◌<◌, ◌≡◌, ◌≢◌, ◌⊎◌, inl, inr, refl, sym, ◌∙◌, ap, List, [],
  ◌∷◌, ok, arith, ◌==◌, if◌then◌else◌, length,
}
use rxd_os.Blk.{Drive, Blk, bio_read, bio_write, blk_dev_hd, ll_rw_block}
use rxd_os.Blk.Slots.{Ready}
use rxd_os.Blk.Transfer.{cmd_of, ll_rw_block-Ready}
use rxd_os.Buffer.{BufferHead, transfer, sectors_per_blk}

-- The `n` bytes of a disk from `a` on.
unfoldable pub slice : (ℕ → ℕ) → (a n : ℕ) → List ℕ
slice byte a zero = []
slice byte a (suc n) = byte a ∷ slice byte (a + 1) n

-- The bytes of a disk after `xs` was written at `a`.
unfoldable pub overwritten : (ℕ → ℕ) → (a : ℕ) → List ℕ → ℕ → ℕ
overwritten byte a [] b = byte b
overwritten byte a (x ∷ xs) b = if b == a then x else overwritten byte (a + 1) xs b

-- A drive whose requests of 1 to 256 sectors inside its capacity succeed: a read returns the sectors, a
-- write changes them. Nothing is asked of a request of no sectors or of more, on which a driver may panic,
-- as that of the hard disk does; Hd/Ram has that driver with these laws.
pub record DiskLaws {D : Type 0} (drive : Drive D) : Type 0 where
  pub byte : D → ℕ → ℕ
  pub capacity : ℕ
  pub capacity_bound : capacity ≤ 2 ^ 28
  pub read_lem :
      (sector count : ℕ) (buffer : List ℕ) (d : D)
      → 0 < count
      → count ≤ 256
      → sector + count ≤ capacity
      → length buffer ≡ 512 * count
      → (d' : D) × (drive.handle (cmd_of bio_read sector count) buffer d
          ≡ ok (slice (byte d) (512 * sector) (512 * count), d'))
        × ((a : ℕ) → byte d' a ≡ byte d a)
  pub write_lem :
      (sector count : ℕ) (buffer : List ℕ) (d : D)
      → 0 < count
      → count ≤ 256
      → sector + count ≤ capacity
      → length buffer ≡ 512 * count
      → (d' : D) × (drive.handle (cmd_of bio_write sector count) buffer d ≡ ok (buffer, d'))
        × ((a : ℕ) → byte d' a ≡ overwritten (byte d) (512 * sector) buffer a)

pub length-slice : (byte : ℕ → ℕ) (a n : ℕ) → length (slice byte a n) ≡ n
unfolding slice
length-slice byte a zero = refl
length-slice byte a (suc n) = ground (arith, length-slice byte (a + 1) n)

pub slice-same :
    (f g : ℕ → ℕ) (a n : ℕ) → ((b : ℕ) → a ≤ b → b < a + n → f b ≡ g b) → slice f a n ≡ slice g a n
unfolding slice
slice-same f g a zero h = refl
slice-same f g a (suc n) h =
    let first = h a (omega arith) (omega arith) in
    let rest = slice-same f g (a + 1) n (λ b p q. h b (omega (arith, p)) (omega (arith, q))) in
    rw (first, rest) refl

pub overwritten-outside :
    (byte : ℕ → ℕ) (a b : ℕ) (xs : List ℕ)
    → b < a ⊎ a + length xs ≤ b
    → overwritten byte a xs b ≡ byte b
unfolding overwritten
overwritten-outside byte a b [] h = refl
overwritten-outside byte a b (x ∷ xs) h = ground (arith, h, overwritten-outside byte (a + 1) b xs)

pub slice-overwritten_here :
    (byte : ℕ → ℕ) (a : ℕ) (xs : List ℕ) → slice (overwritten byte a xs) a (length xs) ≡ xs
unfolding slice overwritten
slice-overwritten_here byte a [] = refl
slice-overwritten_here byte a (x ∷ xs) =
    let first : overwritten byte a (x ∷ xs) a ≡ x = ground arith in
    let rest : slice (overwritten byte a (x ∷ xs)) (a + 1) (length xs)
        ≡ slice (overwritten byte (a + 1) xs) (a + 1) (length xs) =
      slice-same (overwritten byte a (x ∷ xs)) (overwritten byte (a + 1) xs) (a + 1) (length xs)
        (λ b p q. ground (arith, p)) in
    ap (λ y. y ∷ slice (overwritten byte a (x ∷ xs)) (a + 1) (length xs)) first
    ∙ ap (λ ys. x ∷ ys) (rest ∙ slice-overwritten_here byte (a + 1) xs)

module _ {D : Type 0} {drive : Drive D} (laws : DiskLaws drive) where
  abbrev pub disk_block : D → ℕ → List ℕ
  disk_block d b = slice (laws.byte d) (1024 * b) 1024

  -- The block is on the disk.
  abbrev pub InDisk : ℕ → Type 0
  InDisk b = (b + 1) * sectors_per_blk ≤ laws.capacity

  wrap : (b : ℕ) → InDisk b → (b * sectors_per_blk) % 2 ^ 32 ≡ 2 * b
  wrap b h = omega (arith, laws.capacity_bound)

  -- A block is read, for one slot of the request table.
  pub transfer-read :
      (n : ℕ) (h : BufferHead) (blk : Blk D)
      → Ready (suc n) blk
      → h.b_dev ≡ blk_dev_hd
      → InDisk h.b_blocknr
      → length h.b_data ≡ 1024
      → (blk' : Blk D) × (transfer drive bio_read h blk
          ≡ ok (disk_block blk.disk h.b_blocknr, blk'))
        × ((b : ℕ) → disk_block blk'.disk b ≡ disk_block blk.disk b)
        × Ready n blk'
  unfolding transfer
  transfer-read n h blk ready dev inside size =
      let (d, done, keep) =
        laws.read_lem (2 * h.b_blocknr) 2 h.b_data blk.disk (omega arith) (omega arith)
          (omega (arith, inside)) (omega (arith, size)) in
      let (blk', run, disk, ready') =
        ll_rw_block-Ready drive n bio_read (2 * h.b_blocknr) 2 h.b_data _ d blk ready (inl refl)
          done in
      let place : 512 * (2 * h.b_blocknr) ≡ 1024 * h.b_blocknr = omega arith in
      (
        blk',
        ap (λ v. ll_rw_block drive v bio_read ((h.b_blocknr * 2) % 2 ^ 32) 2 h.b_data blk) dev
            ∙ ap (λ k. ll_rw_block drive blk_dev_hd bio_read k 2 h.b_data blk)
                (wrap h.b_blocknr inside)
            ∙ run
            ∙ ap (λ a. ok (slice (laws.byte blk.disk) a 1024, blk')) place,
        λ b.
            ap (λ e. disk_block e b) disk
            ∙ slice-same (laws.byte d) (laws.byte blk.disk) (1024 * b) 1024 (λ a p q. keep a),
        ready',
      )

  -- A block is written, for one slot of the request table.
  pub transfer-write :
      (n : ℕ) (h : BufferHead) (blk : Blk D)
      → Ready (suc n) blk
      → h.b_dev ≡ blk_dev_hd
      → InDisk h.b_blocknr
      → length h.b_data ≡ 1024
      → (blk' : Blk D) × (transfer drive bio_write h blk ≡ ok (h.b_data, blk'))
        × (disk_block blk'.disk h.b_blocknr ≡ h.b_data)
        × ((b : ℕ) → b ≢ h.b_blocknr → disk_block blk'.disk b ≡ disk_block blk.disk b)
        × Ready n blk'
  unfolding transfer
  transfer-write n h blk ready dev inside size =
      let (d, done, made) =
        laws.write_lem (2 * h.b_blocknr) 2 h.b_data blk.disk (omega arith) (omega arith)
          (omega (arith, inside)) (omega (arith, size)) in
      let (blk', run, disk, ready') =
        ll_rw_block-Ready drive n bio_write (2 * h.b_blocknr) 2 h.b_data h.b_data d blk ready
          (inr refl) done in
      let place : 512 * (2 * h.b_blocknr) ≡ 1024 * h.b_blocknr = omega arith in
      let made' : (a : ℕ)
          → laws.byte d a ≡ overwritten (laws.byte blk.disk) (1024 * h.b_blocknr) h.b_data a =
        λ a. made a ∙ ap (λ p. overwritten (laws.byte blk.disk) p h.b_data a) place in
      (
        blk',
        ap (λ v. ll_rw_block drive v bio_write ((h.b_blocknr * 2) % 2 ^ 32) 2 h.b_data blk) dev
            ∙ ap (λ k. ll_rw_block drive blk_dev_hd bio_write k 2 h.b_data blk)
                (wrap h.b_blocknr inside)
            ∙ run,
        ap (λ e. disk_block e h.b_blocknr) disk
            ∙ slice-same (laws.byte d) _ (1024 * h.b_blocknr) 1024 (λ a p q. made' a)
            ∙ ap
                (λ k.
                  slice (overwritten (laws.byte blk.disk) (1024 * h.b_blocknr) h.b_data)
                    (1024 * h.b_blocknr) k)
                (sym size)
            ∙ slice-overwritten_here (laws.byte blk.disk) (1024 * h.b_blocknr) h.b_data,
        λ b ne.
            ap (λ e. disk_block e b) disk
            ∙ slice-same (laws.byte d) (laws.byte blk.disk) (1024 * b) 1024 (λ a p q.
              made' a
              ∙ overwritten-outside (laws.byte blk.disk) (1024 * h.b_blocknr) a h.b_data
                  (beside b h.b_blocknr a h.b_data size ne p q)),
        ready',
      )
    where
      beside :
          (b c a : ℕ) (xs : List ℕ)
          → length xs ≡ 1024
          → b ≢ c
          → 1024 * b ≤ a
          → a < 1024 * b + 1024
          → a < 1024 * c ⊎ 1024 * c + length xs ≤ a
      beside b c a xs size ne p q = elim (dec_lt a (1024 * c)) [
        | yes before ↦ inl before
        | no behind ↦ inr (omega (arith, size, ne))
      ]
