-- ===== src/OpenFile/Tests.antt =====
-- fs/fs.c: the theorems on open files at a small disk.
use rxd_os.Prelude.{ℕ, ◌≡◌, ◌⊎◌, refl, [], List, ok, panic, out_of_fuel, arith, replicate}
use rxd_os.Buffer.{Cache}
use rxd_os.Buffer.Disk.{slice}
use rxd_os.Buffer.Sample.{ram, ram_laws, cache_of-Idle}
use rxd_os.Blockmap.Next.{IsFull}
use rxd_os.Pages.Borrow.{all_free, all_free-CanBorrow}
use rxd_os.Image.Access.{Same}
use rxd_os.Super.{made_super}
use rxd_os.Content.Bytes.{file_byte}
use rxd_os.Content.Sample.{
  formatted, formatted_byte, small_file, small_file-HasFile, small_file-IsFile,
}
use rxd_os.OpenFile.{Opened, advanced, seek_set, sys_lseek, sys_read, sys_write, read_chunks}
use rxd_os.OpenFile.Read.{sys_read-available}
use rxd_os.OpenFile.Write.{sys_read-sys_write}
use rxd_os.OpenFile.Endless.{read_chunks-endless}

-- The small file, open at a position.
abbrev opened_at : ℕ → Opened (ℕ → ℕ)
opened_at pos = record {
  filp = record { f_flags = 0; f_mode = 0; f_pos = pos; f_refcnt = 1 };
  inode = small_file;
  cache = formatted;
  pages = all_free;
}

abbrev letters : List ℕ
letters = replicate 100 97

-- Of 5000 bytes from position 900 on the file has 100.
sys_read-available_example :
    (s' : Cache (ℕ → ℕ)) × (sys_read ram made_super 5000 (opened_at 900)
      ≡ ok (
        100,
        slice (file_byte ram_laws formatted small_file) 900 100,
        advanced (opened_at 900) 100 small_file s',
      ))
    × Same ram_laws 0 formatted s'
sys_read-available_example =
    sys_read-available ram_laws 0 made_super 5000 (opened_at 900) refl
      (cache_of-Idle formatted_byte 4 (omega arith)) small_file-IsFile all_free-CanBorrow
      (omega arith) (omega arith) (omega arith)

sys_read-sys_write_example :
    ((o1 : Opened (ℕ → ℕ)) × (o2 : Opened (ℕ → ℕ)) × (sys_write ram made_super letters
          (opened_at 1000)
        ≡ ok (100, o1))
      × (o1.filp.f_pos ≡ 1100)
      × (sys_read ram made_super 100 (sys_lseek 1000 seek_set o1).1 ≡ ok (100, letters, o2)))
    ⊎ ((sys_write ram made_super letters (opened_at 1000) ≡ panic) × IsFull ram_laws formatted 3 1)
sys_read-sys_write_example =
    sys_read-sys_write ram_laws 0 made_super letters (opened_at 1000) small_file-HasFile
      all_free-CanBorrow (cache_of-Idle formatted_byte 16 (omega arith)) (omega arith) (omega arith)
      (omega arith) (omega arith)

read_chunks-endless_example :
    read_chunks ram made_super 1000 10 10 [] (opened_at 2000) ≡ out_of_fuel
read_chunks-endless_example =
    read_chunks-endless ram made_super 1000 10 10 [] (opened_at 2000) (omega arith) (omega arith)
      (omega arith)
