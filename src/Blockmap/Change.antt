-- ===== src/Blockmap/Change.antt =====
-- fs/bitmap.h: `_bitmap_free` and `_bitmap_test`, and the bits of a map as the cache shows them.
use native.Mathlib.Decide.{ℕ_discrete}
use rxd_os.Prelude.{
  ℕ, suc, ◌-◌, ◌*◌, ◌/◌, ◌≤◌, ◌<◌, ◌≡◌, ◌≢◌, sym, ◌∙◌, ap, List, ok, arith, ◌==◌, if◌then◌else◌,
  get_or,
}
use rxd_os.Blk.{Drive, blk_dev_hd}
use rxd_os.Buffer.{Cache}
use rxd_os.Buffer.Disk.{DiskLaws, InDisk}
use rxd_os.Buffer.Coherence.{view}
use rxd_os.Buffer.Session.{Idle, Shown, Held, Held-length, bread-Held, brelease-Shown, bwrite-Shown}
use rxd_os.Bitmap.Bits.{AreBytes, bit, test_bit-bit, unset_bit-bit}
use rxd_os.Blockmap.{bitmap_free, bitmap_test, blk_nr, bit_nr}

module _ {D : Type 0} {drive : Drive D} (laws : DiskLaws drive) where
  -- Bit `k` of the map that begins at block `start`.
  abbrev pub map_bit : Cache D → (start k : ℕ) → ℕ
  map_bit s start k = bit (view laws s (blk_nr start k)) (bit_nr k)

  -- The map consists of blocks of the disk, which hold bytes.
  pub record OnDisk (s : Cache D) (start end : ℕ) : Type 0 where
    pub inside : (b : ℕ) → start ≤ b → b < end → InDisk laws b
    pub bytes : (b : ℕ) → start ≤ b → b < end → AreBytes (view laws s b)

  -- The state after bit `k` of the map at `start` was given the value `v`, and nothing else changed.
  pub record Marked (n : ℕ) (s : Cache D) (start k v : ℕ) (s' : Cache D) : Type 0 where
    pub idle : Idle laws n s'
    pub bits : (j : ℕ) → map_bit s' start j ≡ (if j == k then v else map_bit s start j)
    pub others : (b : ℕ) → b ≢ blk_nr start k → view laws s' b ≡ view laws s b
    pub are_bytes : AreBytes (view laws s' (blk_nr start k))

  -- A block in which one bit was changed makes a map in which one bit was changed.
  pub Shown-Marked :
      (n : ℕ) (s s' : Cache D) (start k v : ℕ) (bytes : List ℕ)
      → Shown laws n s (blk_nr start k) bytes s'
      → AreBytes bytes
      → ((j : ℕ)
          → bit bytes j ≡ (if j == bit_nr k then v else bit (view laws s (blk_nr start k)) j))
      → Marked n s start k v s'
  Shown-Marked n s s' start k v bytes shown are changed = record {
    idle = shown.idle;
    bits = λ j. elim (ℕ_discrete (j / 4096) (k / 4096)) [
      | yes e ↦
          let place : blk_nr start j ≡ blk_nr start k = omega (arith, e) in
          let before : bit (view laws s (blk_nr start k)) (bit_nr j) ≡ map_bit s start j =
            ap (λ b. bit (view laws s b) (bit_nr j)) (sym place) in
          let now : map_bit s' start j ≡ bit bytes (bit_nr j) =
            ap (λ b. bit (view laws s' b) (bit_nr j)) place
            ∙ ap (λ l. bit l (bit_nr j)) shown.here in
          now ∙ changed (bit_nr j) ∙ same_bit j e (map_bit s start j) _ before
      | no ne ↦
          let other : blk_nr start j ≢ blk_nr start k = λ e. ne (omega (arith, e)) in
          ap (λ l. bit l (bit_nr j)) (shown.others (blk_nr start j) other) ∙ ground (arith, ne)
    ];
    others = shown.others;
    are_bytes = λ i. omega (arith, ap (λ l. get_or l i 0) shown.here, are i);
  }
    where
      same_bit :
          (j : ℕ)
          → j / 4096 ≡ k / 4096
          → (x y : ℕ) → y ≡ x
          → (if bit_nr j == bit_nr k then v else y) ≡ (if j == k then v else x)
      same_bit j e x y f = ground (arith, e, f)

  module _ (n : ℕ) (s : Cache D) (start end k : ℕ) (idle : Idle laws (suc (suc n)) s)
      (on_disk : OnDisk s start end) (h : k < (end - start) * 4096) where
    here : start ≤ blk_nr start k
    here = omega arith

    before_end : blk_nr start k < end
    before_end = omega arith

    data_bytes :
        (c : ℕ) (s1 : Cache D) → Held laws n s (blk_nr start k) c s1 → AreBytes (s1.heads c).b_data
    data_bytes c s1 held = λ i. omega (
      arith,
      ap (λ l. get_or l i 0) held.of.bytes_of,
      on_disk.bytes (blk_nr start k) here before_end i,
    )

    -- Let nobody use a buffer of a valid cache, with slots for two transfers and a drive that obeys the
    -- laws, and let the map's blocks be on the disk and hold bytes. _bitmap_free of a bit of the map
    -- returns with this bit clear, every other bit and block as before, and the cache valid and unused.
    pub bitmap_free-Marked :
        (s' : Cache D) × (bitmap_free drive blk_dev_hd start end k s ≡ ok s')
        × Marked n s start k 0 s'
    unfolding bitmap_free
    bitmap_free-Marked =
        let (c, s1, held) =
          bread-Held laws n s (blk_nr start k) idle
            (on_disk.inside (blk_nr start k) here before_end) in
        let size = Held-length laws n s (blk_nr start k) c s1 held in
        let (bytes, run, size', are, changed) =
          unset_bit-bit (s1.heads c).b_data (bit_nr k) (data_bytes c s1 held)
            (omega (arith, size)) in
        let (s', run', shown) =
          bwrite-Shown laws n s (blk_nr start k) c s1 bytes held (size' ∙ size) in
        (
          s',
          ground (arith, h, held.run, run, run'),
          Shown-Marked n s s' start k 0 bytes shown are
              (λ j. changed j ∙ ap (λ l. if j == bit_nr k then 0 else bit l j) held.of.bytes_of),
        )

    -- Under the same conditions _bitmap_test of a bit of the map returns the bit, every block is shown as
    -- before, and the cache is valid and unused.
    pub bitmap_test-map_bit :
        (s' : Cache D) × (bitmap_test drive blk_dev_hd start end k s ≡ ok (map_bit s start k, s'))
        × Idle laws n s'
        × ((b : ℕ) → view laws s' b ≡ view laws s b)
    unfolding bitmap_test
    bitmap_test-map_bit =
        let (c, s1, held) =
          bread-Held laws n s (blk_nr start k) idle
            (on_disk.inside (blk_nr start k) here before_end) in
        let size = Held-length laws n s (blk_nr start k) c s1 held in
        let test = test_bit-bit (s1.heads c).b_data (bit_nr k) (omega (arith, size)) in
        let value = ap (λ l. bit l (bit_nr k)) held.of.bytes_of in
        let (s', run', shown) = brelease-Shown laws n s (blk_nr start k) c s1 held in
        (
          s',
          ground (arith, h, held.run, test, run', value),
          shown.idle,
          λ b. elim (ℕ_discrete b (blk_nr start k)) [
            | yes e ↦ ap (view laws s') e ∙ shown.here ∙ ap (view laws s) (sym e)
            | no ne ↦ shown.others b ne
          ],
        )
