-- ===== src/Blockmap/Keeps.antt =====
-- fs/bitmap.h: a map whose blocks are shown as before is the map that it was.
use rxd_os.Prelude.{ℕ, ◌-◌, ◌*◌, ◌≤◌, ◌<◌, ◌≡◌, ap, arith, get_or}
use rxd_os.Blk.{Drive}
use rxd_os.Buffer.{Cache}
use rxd_os.Buffer.Disk.{DiskLaws}
use rxd_os.Buffer.Coherence.{view}
use rxd_os.Bitmap.Bits.{bit}
use rxd_os.Blockmap.{blk_nr, bit_nr}
use rxd_os.Blockmap.Change.{map_bit, OnDisk}

module _ {D : Type 0} {drive : Drive D} (laws : DiskLaws drive) (s s' : Cache D) (start end : ℕ)
    (same : (b : ℕ) → start ≤ b → b < end → view laws s' b ≡ view laws s b) where
  pub OnDisk-same : OnDisk laws s start end → OnDisk laws s' start end
  OnDisk-same on_disk = record {
    inside = on_disk.inside;
    bytes = λ b p q i. omega (arith, ap (λ l. get_or l i 0) (same b p q), on_disk.bytes b p q i);
  }

  pub map_bit-same :
      (k : ℕ) → k < (end - start) * 4096 → map_bit laws s' start k ≡ map_bit laws s start k
  map_bit-same k h =
      ap (λ l. bit l (bit_nr k)) (same (blk_nr start k) (omega arith) (omega (arith, h)))
