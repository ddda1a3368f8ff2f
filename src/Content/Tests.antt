-- ===== src/Content/Tests.antt =====
-- fs/fs.c: the theorems on contents at a small disk.
use rxd_os.Prelude.{ℕ, ◌<◌, ◌≡◌, ◌⊎◌, List, ok, some, panic, arith, replicate}
use rxd_os.Buffer.{Cache}
use rxd_os.Buffer.Disk.{slice}
use rxd_os.Buffer.Sample.{ram, ram_laws, cache_of-Idle}
use rxd_os.Blockmap.Next.{IsFull}
use rxd_os.Image.Access.{Same}
use rxd_os.Super.{made_super}
use rxd_os.Zone.{zones_of}
use rxd_os.Content.{read, write}
use rxd_os.Content.Bytes.{file_byte}
use rxd_os.Content.Read.{read-file_byte}
use rxd_os.Content.Long.{read-panic}
use rxd_os.Content.Effect.{WriteOk}
use rxd_os.Content.Write.{size_after, write-WriteOk}
use rxd_os.Content.Sample.{
  formatted, formatted_byte, small_file, long_file, small_file-HasFile, small_file-IsFile,
  long_file-IsFile,
}

abbrev letters : List ℕ
letters = replicate 100 97

read-file_byte_example :
    (s' : Cache (ℕ → ℕ)) × (read ram 3 small_file 100 300 formatted
      ≡ ok (some (slice (file_byte ram_laws formatted small_file) 100 300), s'))
    × Same ram_laws 0 formatted s'
read-file_byte_example =
    read-file_byte ram_laws 0 formatted small_file 100 300
      (cache_of-Idle formatted_byte 4 (omega arith)) small_file-IsFile (omega arith) (omega arith)
      (omega arith)

read-panic_example : read ram 3 long_file 0 4096 formatted ≡ panic
read-panic_example =
    read-panic ram_laws 0 formatted long_file 0 4096 (cache_of-Idle formatted_byte 16 (omega arith))
      long_file-IsFile (omega arith) (omega arith)

write-WriteOk_example :
    ((zs : List ℕ) × (s' : Cache (ℕ → ℕ)) × (write ram made_super small_file 1000 letters formatted
        ≡ ok (100, record small_file { i_size = size_after small_file 1100; i_zone = zs }, s'))
      × (zones_of 1000 < zones_of 1100 → ¬ IsFull ram_laws formatted 3 1)
      × WriteOk ram_laws 0 made_super formatted small_file 1000 letters
          (record small_file { i_size = size_after small_file 1100; i_zone = zs })
          s')
    ⊎ ((write ram made_super small_file 1000 letters formatted ≡ panic)
        × (zones_of 1000 < zones_of 1100)
        × IsFull ram_laws formatted 3 1)
write-WriteOk_example =
    write-WriteOk ram_laws 0 made_super formatted small_file 1000 letters small_file-HasFile
      (cache_of-Idle formatted_byte 12 (omega arith)) (omega arith) (omega arith) (omega arith)
      (omega arith)
