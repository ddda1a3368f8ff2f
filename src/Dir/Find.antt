-- ===== src/Dir/Find.antt =====
-- fs/fs.c: `_find_dir_entry` finds the first entry with exactly the name that it looks for.
use native.Mathlib.Decide.{ℕ_discrete}
use rxd_os.Prelude.{
  ℕ, zero, suc, ◌+◌, ◌*◌, ◌/◌, ◌%◌, ◌≤◌, ◌<◌, ◌≡◌, ◌≢◌, ◌⊎◌, inl, inr, refl, sym, ◌∙◌, ap, List,
  none, some, ok, arith, length,
}
use rxd_os.Str.{strncmp}
use rxd_os.Blk.{Drive, blk_dev_hd}
use rxd_os.Buffer.{Cache}
use rxd_os.Buffer.Disk.{DiskLaws, slice, slice-same}
use rxd_os.Buffer.Session.{Idle}
use rxd_os.Blockmap.Next.{Idle-less}
use rxd_os.Image.Access.{Same}
use rxd_os.Inode.{Inode}
use rxd_os.Content.{read}
use rxd_os.Content.Range.{read-behind}
use rxd_os.Content.Bytes.{file_byte, IsFile, file_byte-same}
use rxd_os.Content.Read.{Same-trans, read-one_zone}
use rxd_os.Dir.Names.{IsName, names-equal, entry-short}
use rxd_os.Dir.{DirEntry, entry_of, names_at, filled_in, find_loop, find_dir_entry}

module _ {D : Type 0} {drive : Drive D} (laws : DiskLaws drive) (dir : Inode)
    (file : IsFile laws dir) (count : ℕ) (whole : dir.i_size ≡ 32 * count) (f : ℕ → ℕ)
    (target : DirEntry) (xs : List ℕ) (few : length target.name ≤ 32) (name : IsName target.name xs)
    (long : length xs ≤ target.name_len) (some_name : target.name_len ≢ 0) (names : ℕ → List ℕ)
    (are_names : (k : ℕ) → k < count → IsName (entry_of (slice f (32 * k) 32)).name (names k)) where
  -- The first entry from `k` on that has the name, or that there is none.
  abbrev pub FindResult : (n k fuel : ℕ) → Cache D → Type 0
  FindResult n k fuel s =
      ((j : ℕ) × (s' : Cache D) × (k ≤ j)
        × (j < count)
        × (names j ≡ xs)
        × ((i : ℕ) → k ≤ i → i < j → names i ≢ xs)
        × (find_loop drive fuel blk_dev_hd dir target (32 * k) s
            ≡ ok (32 * j, filled_in target (entry_of (slice f (32 * j) 32)), s'))
        × Same laws n s s')
      ⊎ ((s' : Cache D) × ((i : ℕ) → k ≤ i → i < count → names i ≢ xs)
          × (find_loop drive fuel blk_dev_hd dir target (32 * k) s ≡ ok (32 * count, target, s'))
          × Same laws n s s')

  find_end : (n fuel k : ℕ) (s : Cache D) → Idle laws n s → k ≡ count → FindResult n k (suc fuel) s
  unfolding find_loop
  find_end n fuel k s idle e =
      let end : dir.i_size < 32 * k + 32 = omega (arith, whole, e) in
      let nothing =
        read-behind drive blk_dev_hd dir (32 * k) 32 s end (omega (arith, whole, e, file.size)) in
      let place : 32 * k ≡ 32 * count = omega (arith, e) in
      inr (
        s,
        λ i p q. absurd (omega (arith, p, q, e)),
        ground (arith, nothing, place),
        record { idle = idle; views = λ b. refl },
      )

  find_hit :
      (fuel k v : ℕ) (s s' : Cache D)
      → read drive blk_dev_hd dir (32 * k) 32 s ≡ ok (some (slice f (32 * k) 32), s')
      → strncmp 32 64 target.name_len (names_at target.name (entry_of (slice f (32 * k) 32)).name)
        ≡ ok v
      → v ≡ 0
      → find_loop drive (suc fuel) blk_dev_hd dir target (32 * k) s
        ≡ ok (32 * k, filled_in target (entry_of (slice f (32 * k) 32)), s')
  unfolding find_loop
  find_hit fuel k v s s' run cmp zero_v = ground (arith, run, cmp, zero_v)

  find_next :
      (fuel k v : ℕ) (s s' : Cache D)
      → read drive blk_dev_hd dir (32 * k) 32 s ≡ ok (some (slice f (32 * k) 32), s')
      → strncmp 32 64 target.name_len (names_at target.name (entry_of (slice f (32 * k) 32)).name)
        ≡ ok v
      → v ≢ 0
      → find_loop drive (suc fuel) blk_dev_hd dir target (32 * k) s
        ≡ find_loop drive fuel blk_dev_hd dir target (32 * (k + 1)) s'
  unfolding find_loop
  find_next fuel k v s s' run cmp other =
      let next : 32 * k + 32 ≡ 32 * (k + 1) = omega arith in ground (arith, run, cmp, other, next)

  -- Entry `k` does not have the name.
  find_further :
      (n r k m v : ℕ) (s s1 : Cache D)
      → Same laws m s s1
      → find_loop drive (suc (suc r)) blk_dev_hd dir target (32 * k) s
        ≡ find_loop drive (suc r) blk_dev_hd dir target (32 * (k + 1)) s1
      → names k ≢ xs
      → FindResult n (k + 1) (suc r) s1
      → FindResult n k (suc (suc r)) s
  find_further n r k m v s s1 same1 step ne rest = elim rest [
    | inl (j, s', low, small, hit, before, run, kept) ↦ inl (
      j,
      s',
      omega (arith, low),
      small,
      hit,
      λ i p q. elim (ℕ_discrete i k) [
        | yes e ↦ λ h. ne (ap names (sym e) ∙ h)
        | no other ↦ before i (omega (arith, p, other)) q
      ],
      step ∙ run,
      Same-trans laws n m s s1 s' same1 kept,
    )
    | inr (s', none_has, run, kept) ↦ inr (
      s',
      λ i p q. elim (ℕ_discrete i k) [
        | yes e ↦ λ h. ne (ap names (sym e) ∙ h)
        | no other ↦ none_has i (omega (arith, p, other)) q
      ],
      step ∙ run,
      Same-trans laws n m s s1 s' same1 kept,
    )
  ]

  find_loop-first :
      (n r k : ℕ) (s : Cache D)
      → Idle laws (n + 2 * r) s
      → ((p : ℕ) → file_byte laws s dir p ≡ f p)
      → k + r ≡ count
      → FindResult n k (suc r) s
  find_loop-first n zero k s idle same e =
      find_end n 0 k s (Idle-less laws n (n + 2 * 0) s (omega arith) idle) (omega (arith, e))
  find_loop-first n (suc r) k s idle same e =
      let m : ℕ = n + 2 * r in
      let aligned : (32 * k) % 1024 + 32 ≤ 1024 = omega arith in
      let (s1, run1, same1) =
        read-one_zone laws m s dir (32 * k) 32
          (Idle-less laws (suc (suc m)) (n + 2 * suc r) s (omega arith) idle) file (omega arith)
          (omega (arith, whole, e)) aligned in
      let bytes : List ℕ = slice f (32 * k) 32 in
      let value : slice (file_byte laws s dir) (32 * k) 32 ≡ bytes =
        slice-same (file_byte laws s dir) f (32 * k) 32 (λ p a b. same p) in
      let run : read drive blk_dev_hd dir (32 * k) 32 s ≡ ok (some bytes, s1) =
        run1 ∙ ap (λ l. ok (some l, s1)) value in
      let (v, cmp, hit, miss) =
        names-equal target.name (entry_of bytes).name xs (names k) target.name_len few
          (entry-short bytes) name (are_names k (omega (arith, e))) some_name long in
      elim (ℕ_discrete v 0) [
        | yes z ↦ inl (
          k,
          s1,
          omega arith,
          omega (arith, e),
          sym (hit z),
          λ i p q. absurd (omega (arith, p, q)),
          find_hit (suc r) k v s s1 run cmp z,
          record { idle = Idle-less laws n m s1 (omega arith) same1.idle; views = same1.views },
        )
        | no ne ↦
            find_further n r k m v s s1 same1 (find_next (suc r) k v s s1 run cmp ne)
              (λ e'. ne (miss (sym e')))
              (find_loop-first n r (k + 1) s1 same1.idle
                (λ p. file_byte-same laws s s1 dir same1.views p ∙ same p) (omega (arith, e)))
      ]

  -- Let a directory of direct zones have a size of whole entries, each with a name that is terminated, on a
  -- disk that obeys the laws; let nobody use a buffer and slots for two transfers for each entry be free.
  -- Let the name of the target be terminated, with a length in name_len that is not 0 and not below its own.
  -- If an entry has exactly this name, _find_dir_entry returns the place of the first such entry and its
  -- inode, length and type; if none has, it returns -1 and leaves the target. No block is changed.
  pub find_dir_entry-first :
      (n : ℕ) (s : Cache D)
      → Idle laws (n + 2 * count) s
      → ((p : ℕ) → file_byte laws s dir p ≡ f p)
      → ((j : ℕ) × (s' : Cache D) × (j < count)
          × (names j ≡ xs)
          × ((i : ℕ) → i < j → names i ≢ xs)
          × (find_dir_entry drive blk_dev_hd dir target s
              ≡ ok (some (32 * j), filled_in target (entry_of (slice f (32 * j) 32)), s'))
          × Same laws n s s')
        ⊎ ((s' : Cache D) × ((i : ℕ) → i < count → names i ≢ xs)
            × (find_dir_entry drive blk_dev_hd dir target s ≡ ok (none, target, s'))
            × Same laws n s s')
  unfolding find_dir_entry
  find_dir_entry-first n s idle same =
      let rounds : dir.i_size / 32 ≡ count = omega (arith, whole) in
      elim (find_loop-first n count 0 s idle same (omega arith)) [
        | inl (j, s', low, small, hit, before, run, kept) ↦
            let inside : 32 * j < dir.i_size = omega (arith, whole, small) in
            inl (
              j,
              s',
              small,
              hit,
              λ i h. before i (omega arith) h,
              ground (arith, rounds, run, inside),
              kept,
            )
        | inr (s', none_has, run, kept) ↦
            let behind : dir.i_size ≤ 32 * count = omega (arith, whole) in
            inr (s', λ i h. none_has i (omega arith) h, ground (arith, rounds, run, behind), kept)
      ]
