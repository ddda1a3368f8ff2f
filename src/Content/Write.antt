-- ===== src/Content/Write.antt =====
-- fs/fs.c: `_write` puts the bytes into the content of an inode.
use rxd_os.Prelude.{
  ℕ, suc, ◌+◌, ◌*◌, ◌%◌, ◌≤◌, ◌<◌, ◌≡◌, ◌⊎◌, inl, inr, refl, List, ok, panic, arith, length, ltb,
  if◌then◌else◌,
}
use rxd_os.Blk.{Drive}
use rxd_os.Buffer.{Cache}
use rxd_os.Buffer.Disk.{DiskLaws}
use rxd_os.Buffer.Session.{Idle}
use rxd_os.Blockmap.Next.{Idle-less, IsFull}
use rxd_os.Super.{SuperBlock}
use rxd_os.Inode.{Inode}
use rxd_os.Zone.{zones_of}
use rxd_os.Zone.Reserve.{with_zones, Reserved-room, reserve_zone-Reserved}
use rxd_os.Content.{grown, write}
use rxd_os.Content.Store.{accesses-Written}
use rxd_os.Content.Effect.{HasFile, WriteOk, ends}

-- The size that `_write` gives to the inode.
abbrev pub size_after : Inode → (end : ℕ) → ℕ
size_after i end = if ltb i.i_size end then end else i.i_size

grown-size :
    (i : Inode) (zs : List ℕ) (end : ℕ)
    → grown (with_zones i zs) end ≡ record i { i_size = size_after i end; i_zone = zs }
unfolding grown
grown-size i zs end = ground arith

module _ {D : Type 0} {drive : Drive D} (laws : DiskLaws drive) where
  -- Let the maps of a file system on a disk that obeys the laws be in order, the inode in its place
  -- and its zones blocks of the data that are taken in the map, each once; let nobody use a buffer and
  -- slots for ten transfers and two for each block of the map of blocks be free. Take a write of at least
  -- one byte that ends in the zone behind the first at most, at most one zone behind the last zone of
  -- the file, and within the seven direct zones. _write panics exactly if it needs a zone and the map has
  -- none. Otherwise it returns the count; the content is then what it was, with zeros in a new zone, with the
  -- bytes at pos; the size is the larger of the old one and the end of the bytes; the table holds the
  -- inode; every other inode of the table, and every block of the data that was taken and is no zone of
  -- the file, is as before; and the file system is in order again.
  pub write-WriteOk :
      (n : ℕ) (sb : SuperBlock) (s : Cache D) (i : Inode) (pos : ℕ) (buf : List ℕ)
      → HasFile laws s sb i
      → Idle laws (n + 10 + 2 * sb.s_zmap_count) s
      → 0 < length buf
      → pos % 1024 + length buf ≤ 2048
      → pos + length buf ≤ (zones_of i.i_size + 1) * 1024
      → pos + length buf ≤ 7168
      → ((zs : List ℕ) × (s' : Cache D) × (write drive sb i pos buf s
            ≡ ok (
              length buf,
              record i { i_size = size_after i (pos + length buf); i_zone = zs },
              s',
            ))
          × (zones_of i.i_size < zones_of (pos + length buf)
              → ¬ IsFull laws s sb.s_zmap_start sb.s_zmap_count)
          × WriteOk laws n sb s i pos buf
              (record i { i_size = size_after i (pos + length buf); i_zone = zs })
              s')
        ⊎ ((write drive sb i pos buf s ≡ panic)
            × (zones_of i.i_size < zones_of (pos + length buf))
            × IsFull laws s sb.s_zmap_start sb.s_zmap_count)
  unfolding write
  write-WriteOk n sb s i pos buf file idle some_bytes short near few =
      let count : ℕ = length buf in
      let end : ℕ = pos + count in
      let n8 : ℕ = suc (suc (suc (suc (suc (suc (suc (suc n))))))) in
      elim (reserve_zone-Reserved laws n8 sb s i file.layout file.zmap (zones_of i.i_size)
        file.zones (zones_of end) file.place.positive refl (omega (arith, near))
        (omega (arith, few))
        (Idle-less laws (suc (suc n8) + 2 * sb.s_zmap_count) (n + 10 + 2 * sb.s_zmap_count) s
          (omega arith) idle)) [
            | inl (m, zs, s1, need, more, least, run1, reserved) ↦
                let i1 : Inode = with_zones i zs in
                let (s2, s3, known, run2, run3, written) =
                  accesses-Written laws (suc (suc (suc (suc n)))) sb i1 m s1 pos buf reserved.zones
                    reserved.idle (omega (arith, file.layout.zmap, file.layout.itable)) some_bytes
                    (omega (arith, need)) near short in
                let size : ℕ = size_after i end in
                let size_few : size ≤ 7168 = ground (arith, few, file.zones.few) in
                let size_count : zones_of size ≡ m = ground (arith, need, more, least) in
                let (s', run4, done) =
                  ends laws n sb s s1 s3 i m pos zs buf file reserved written size size_few
                    size_count in
                inl (
                  zs,
                  s',
                  ground (
                    arith,
                    some_bytes,
                    few,
                    run1,
                    known,
                    file.layout.device,
                    run2,
                    run3,
                    grown-size i zs end,
                    run4,
                  ),
                  λ needs.
                      Reserved-room laws n8 sb s i (zones_of i.i_size) m zs s1 reserved
                        (omega (arith, needs, need)),
                  done,
                )
            | inr (run, more, full) ↦ inr (ground (arith, some_bytes, few, run), more, full)
          ]
