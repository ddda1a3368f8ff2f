-- ===== src/Inode/Tests.antt =====
-- fs/fs.c: the theorems on inodes at a small disk.
use rxd_os.Prelude.{ℕ, ◌≡◌, ok, arith}
use rxd_os.Buffer.{Cache}
use rxd_os.Buffer.Sample.{ram, ram_laws, cache_of-Idle}
use rxd_os.Image.Access.{Same}
use rxd_os.Super.{made_super}
use rxd_os.Inode.{read_inode, write_inode}
use rxd_os.Inode.Stored.{Stored, write_inode-Stored}
use rxd_os.Inode.RoundTrip.{read_inode-write_inode}
use rxd_os.Content.Sample.{
  formatted, formatted_byte, formatted-OnDisk, small_file, long_file, made_super-Layout,
  small_file-IsInode, root-HasPlace, root-taken,
}

write_inode-Stored_example :
    (s' : Cache (ℕ → ℕ)) × (write_inode ram made_super small_file formatted ≡ ok s')
    × Stored ram_laws 0 made_super formatted small_file s'
write_inode-Stored_example =
    write_inode-Stored ram_laws 0 formatted made_super made_super-Layout
      (formatted-OnDisk 2 3 (omega arith)) (cache_of-Idle formatted_byte 4 (omega arith)) small_file
      small_file-IsInode root-HasPlace root-taken

read_inode-write_inode_example :
    (s1 : Cache (ℕ → ℕ)) × (s2 : Cache (ℕ → ℕ)) × (write_inode ram made_super small_file formatted
      ≡ ok s1)
    × (read_inode ram long_file 1 made_super s1
        ≡ ok (record long_file { i_size = 1000; i_zone = small_file.i_zone }, s2))
    × Same ram_laws 0 s1 s2
read_inode-write_inode_example =
    read_inode-write_inode ram_laws 0 formatted made_super small_file long_file made_super-Layout
      (formatted-OnDisk 2 3 (omega arith)) (cache_of-Idle formatted_byte 8 (omega arith))
      small_file-IsInode root-HasPlace root-taken
