-- ===== src/Dir/Tests.antt =====
-- fs/fs.c: a name looked for in a small directory.
use rxd_os.Prelude.{
  ℕ, zero, suc, ◌<◌, ◌*◌, ◌≡◌, ◌≢◌, ◌⊎◌, refl, List, [], ◌∷◌, ok, some, none, arith, replicate,
}
use rxd_os.Buffer.{Cache}
use rxd_os.Buffer.Disk.{slice}
use rxd_os.Buffer.Sample.{ram, ram_laws, cache_of-Idle}
use rxd_os.Image.{part}
use rxd_os.Image.Access.{Same}
use rxd_os.Content.Sample.{formatted, formatted_byte, small_dir, small_dir-IsFile, small_dir-empty}
use rxd_os.Dir.{DirEntry, entry_of, filled_in, find_dir_entry}
use rxd_os.Dir.Names.{IsName}
use rxd_os.Dir.Find.{find_dir_entry-first}

abbrev target : DirEntry
target = record { inode = 0; rec_len = 0; name_len = 1; file_type = 0; name = 97 ∷ replicate 23 0 }

empty_name : IsName (entry_of (slice (λ p. 0) 0 32)).name []
unfolding entry_of part slice
empty_name = refl

all_names : (k : ℕ) → k < 1 → IsName (entry_of (slice (λ p. 0) (32 * k) 32)).name []
all_names zero h = empty_name
all_names (suc k) h = absurd (omega (arith, h))

find_dir_entry-first_example :
    ((j : ℕ) × (s' : Cache (ℕ → ℕ)) × (j < 1)
      × (◌≡◌ {A = List ℕ} [] (97 ∷ []))
      × ((i : ℕ) → i < j → ◌≢◌ {A = List ℕ} [] (97 ∷ []))
      × (find_dir_entry ram 3 small_dir target formatted
          ≡ ok (some (32 * j), filled_in target (entry_of (slice (λ p. 0) (32 * j) 32)), s'))
      × Same ram_laws 0 formatted s')
    ⊎ ((s' : Cache (ℕ → ℕ)) × ((i : ℕ) → i < 1 → ◌≢◌ {A = List ℕ} [] (97 ∷ []))
        × (find_dir_entry ram 3 small_dir target formatted ≡ ok (none, target, s'))
        × Same ram_laws 0 formatted s')
find_dir_entry-first_example =
    find_dir_entry-first ram_laws small_dir small_dir-IsFile 1 refl (λ p. 0) target (97 ∷ [])
      (omega arith) (refl, omega arith, refl) (omega arith) (omega arith) (λ k. []) all_names 0
      formatted (cache_of-Idle formatted_byte 2 (omega arith)) small_dir-empty
