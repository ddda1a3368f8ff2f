-- ===== src/Blockmap/Alloc.antt =====
-- fs/bitmap.h: `_bitmap_alloc` takes the lowest clear bit of the map.
use native.Mathlib.Decide.{ℕ_discrete}
use mathlib.Core.Path.{subst}
use rxd_os.Prelude.{
  ℕ, zero, suc, ◌+◌, ◌-◌, ◌*◌, ◌%◌, ◌≤◌, ◌<◌, ◌≡◌, ◌⊎◌, inl, inr, refl, sym, ◌∙◌, ap, Option, none,
  some, List, ok, panic, arith, ◌==◌, if◌then◌else◌, get_or,
}
use rxd_os.Blk.{Drive, blk_dev_hd}
use rxd_os.Buffer.{Cache, brelease}
use rxd_os.Buffer.Disk.{DiskLaws, InDisk}
use rxd_os.Buffer.Coherence.{view}
use rxd_os.Buffer.Session.{Idle, Shown, Held, Held-length, bread-Held, brelease-Shown, bwrite-Shown}
use rxd_os.Bitmap.{set_bit, find_first_zero}
use rxd_os.Bitmap.Bits.{AreBytes, bit, set_bit-bit}
use rxd_os.Bitmap.Search.{FirstZero, find_first_zero-FirstZero}
use rxd_os.Blockmap.{alloc_loop, bitmap_alloc, blk_nr, bit_nr}
use rxd_os.Blockmap.Change.{map_bit, OnDisk, Shown-Marked}
use rxd_os.Blockmap.Next.{Idle-less, Taken, IsFull, map_bit-first, Taken-next, IsFull-next}

module _ {D : Type 0} {drive : Drive D} (laws : DiskLaws drive) where
  -- The first block has a clear bit.
  alloc_here :
      (n : ℕ) (s : Cache D) (start rounds base tmp c : ℕ) (s1 : Cache D)
      → Held laws n s start c s1
      → OnDisk laws s start (start + suc rounds)
      → base % 4096 ≡ 0
      → find_first_zero (s1.heads c).b_data 512 ≡ ok (some tmp)
      → FirstZero 0 512 (s1.heads c).b_data (some tmp)
      → (s' : Cache D) × (alloc_loop drive blk_dev_hd (suc rounds) start base s
          ≡ ok (base + tmp, s'))
        × Taken laws n s start (suc rounds) tmp s'
  unfolding alloc_loop FirstZero
  alloc_here n s start rounds base tmp c s1 held on_disk aligned found (_, small, zero_bit, ones) =
      let bytes0 : List ℕ = (s1.heads c).b_data in
      let size = Held-length laws n s start c s1 held in
      let are0 : AreBytes bytes0 = λ i. omega (
        arith,
        ap (λ l. get_or l i 0) held.of.bytes_of,
        on_disk.bytes start (omega arith) (omega arith) i,
      ) in
      let (bytes, run, size', are, changed) =
        set_bit-bit bytes0 tmp are0 (omega (arith, size, small)) in
      let (s', run', shown) = bwrite-Shown laws n s start c s1 bytes held (size' ∙ size) in
      let nr : bit_nr (base + tmp) ≡ tmp = omega (arith, aligned, small) in
      let run2 = ap (set_bit bytes0) nr ∙ run in
      let block : start ≡ blk_nr start tmp = omega (arith, small) in
      let nr' : tmp ≡ bit_nr tmp = omega (arith, small) in
      let shown' = subst (λ b. Shown laws n s b bytes s') block shown in
      (
        s',
        ground (arith, held.run, found, run2, run'),
        record {
          inside = omega (arith, small);
          clear =
              map_bit-first laws s start tmp bytes0 held.of.bytes_of (omega (arith, small))
              ∙ zero_bit;
          below = λ j h.
              map_bit-first laws s start j bytes0 held.of.bytes_of (omega (arith, small, h))
              ∙ ones j (omega arith) h;
          marked = Shown-Marked laws n s s' start tmp 1 bytes shown' are (λ j.
              changed j
              ∙ ap (λ k. if j == k then 1 else bit bytes0 j) nr'
              ∙ ap (λ l. if j == bit_nr tmp then 1 else bit l j)
                  (held.of.bytes_of ∙ ap (view laws s) block));
        },
      )

  -- What the loop comes to: the lowest clear bit, or a panic when there is none.
  abbrev AllocResult : (n : ℕ) → Cache D → (start rounds base : ℕ) → Type 0
  AllocResult n s start rounds base =
      ((t : ℕ) × (s' : Cache D) × (alloc_loop drive blk_dev_hd rounds start base s
          ≡ ok (base + t, s'))
        × Taken laws n s start rounds t s')
      ⊎ ((alloc_loop drive blk_dev_hd rounds start base s ≡ panic) × IsFull laws s start rounds)

  -- The first block has none, and the loop goes on with the next.
  alloc_there :
      (n : ℕ) (s : Cache D) (start rounds base c : ℕ) (s1 s' : Cache D)
      → Held laws (n + 2 * rounds) s start c s1
      → find_first_zero (s1.heads c).b_data 512 ≡ ok none
      → FirstZero 0 512 (s1.heads c).b_data none
      → brelease drive c s1 ≡ ok s'
      → ((b : ℕ) → view laws s' b ≡ view laws s b)
      → AllocResult n s' (start + 1) rounds (base + 4096)
      → AllocResult n s start (suc rounds) base
  unfolding alloc_loop FirstZero
  alloc_there n s start rounds base c s1 s' held found ones released same rest =
      let full : (j : ℕ) → j < 4096 → map_bit laws s start j ≡ 1 = λ j h.
        map_bit-first laws s start j (s1.heads c).b_data held.of.bytes_of h
        ∙ ones j (omega arith) h in
      elim rest [
        | inl (t, s'', run, taken) ↦
            let sum : base + 4096 + t ≡ base + (t + 4096) = omega arith in
            inl (
              t + 4096,
              s'',
              ground (arith, held.run, found, released, run, sum),
              Taken-next laws n s s' s'' start rounds t same full taken,
            )
        | inr (run, rest_full) ↦ inr (
          ground (arith, held.run, found, released, run),
          IsFull-next laws s s' start rounds same full rest_full,
        )
      ]

  -- One round, by what it finds in its block.
  alloc_step :
      (n : ℕ) (s : Cache D) (start rounds base c : ℕ) (s1 s' : Cache D)
      → Held laws (n + 2 * rounds) s start c s1
      → OnDisk laws s start (start + suc rounds)
      → base % 4096 ≡ 0
      → brelease drive c s1 ≡ ok s'
      → ((b : ℕ) → view laws s' b ≡ view laws s b)
      → AllocResult n s' (start + 1) rounds (base + 4096)
      → (o : Option ℕ) → find_first_zero (s1.heads c).b_data 512 ≡ ok o
      → FirstZero 0 512 (s1.heads c).b_data o
      → AllocResult n s start (suc rounds) base
  alloc_step n s start rounds base c s1 s' held on_disk aligned released same rest none found
        first =
      alloc_there n s start rounds base c s1 s' held found first released same rest
  alloc_step n s start rounds base c s1 s' held on_disk aligned released same rest (some tmp) found
        first =
      let m : ℕ = n + 2 * rounds in
      let (s'', run, taken) =
        alloc_here m s start rounds base tmp c s1 held on_disk aligned found first in
      inl (
        tmp,
        s'',
        run,
        record {
          inside = taken.inside;
          clear = taken.clear;
          below = taken.below;
          marked = record {
            idle = Idle-less laws n m s'' (omega arith) taken.marked.idle;
            bits = taken.marked.bits;
            others = taken.marked.others;
            are_bytes = taken.marked.are_bytes;
          };
        },
      )

  alloc_loop-Taken :
      (n rounds start base : ℕ) (s : Cache D)
      → Idle laws (n + 2 * rounds) s
      → OnDisk laws s start (start + rounds)
      → base % 4096 ≡ 0
      → AllocResult n s start rounds base
  unfolding alloc_loop
  alloc_loop-Taken n zero start base s idle on_disk aligned =
      inr (refl, λ j h. absurd (omega (arith, h)))
  alloc_loop-Taken n (suc rounds) start base s idle on_disk aligned =
      let m : ℕ = n + 2 * rounds in
      let inside : InDisk laws start = on_disk.inside start (omega arith) (omega arith) in
      let (c, s1, held) =
        bread-Held laws m s start
          (Idle-less laws (suc (suc m)) (n + 2 * suc rounds) s (omega arith) idle) inside in
      let bytes : List ℕ = (s1.heads c).b_data in
      let are : AreBytes bytes = λ i. omega (
        arith,
        ap (λ l. get_or l i 0) held.of.bytes_of,
        on_disk.bytes start (omega arith) (omega arith) i,
      ) in
      let (s', released, shown) = brelease-Shown laws m s start c s1 held in
      let same : (b : ℕ) → view laws s' b ≡ view laws s b = λ b. elim (ℕ_discrete b start) [
        | yes e ↦ ap (view laws s') e ∙ shown.here ∙ ap (view laws s) (sym e)
        | no ne ↦ shown.others b ne
      ] in
      let on_disk' : OnDisk laws s' (start + 1) (start + 1 + rounds) = record {
        inside = λ b p q. on_disk.inside b (omega (arith, p)) (omega (arith, q));
        bytes = λ b p q i. omega (
          arith,
          ap (λ l. get_or l i 0) (same b),
          on_disk.bytes b (omega (arith, p)) (omega (arith, q)) i,
        );
      } in
      let rest =
        alloc_loop-Taken n rounds (start + 1) (base + 4096) s' shown.idle on_disk'
          (omega (arith, aligned)) in
      let (o, found, first) =
        find_first_zero-FirstZero bytes 512 are
          (omega (arith, Held-length laws m s start c s1 held)) in
      alloc_step n s start rounds base c s1 s' held on_disk aligned released same rest o found first

  -- Let nobody use a buffer of a valid cache, with a drive that obeys the laws and slots for two
  -- transfers for each block of the map, and let the map's blocks be on the disk and hold bytes. If the
  -- map has a clear bit, _bitmap_alloc returns the lowest one, which is then set, with every other bit
  -- and block as before and the cache valid and unused; if it has none, _bitmap_alloc panics.
  pub bitmap_alloc-Taken :
      (n start end : ℕ) (s : Cache D)
      → start ≤ end
      → Idle laws (n + 2 * (end - start)) s
      → OnDisk laws s start end
      → ((t : ℕ) × (s' : Cache D) × (bitmap_alloc drive blk_dev_hd start end s ≡ ok (t, s'))
          × Taken laws n s start (end - start) t s')
        ⊎ ((bitmap_alloc drive blk_dev_hd start end s ≡ panic) × IsFull laws s start (end - start))
  unfolding bitmap_alloc
  bitmap_alloc-Taken n start end s h idle on_disk =
      let whole : end ≡ start + (end - start) = omega (arith, h) in
      elim (alloc_loop-Taken n (end - start) start 0 s idle
        (subst (OnDisk laws s start) whole on_disk) refl) [
          | inl (t, s', run, taken) ↦ inl (t, s', ground (arith, h, run), taken)
          | inr (run, full) ↦ inr (ground (arith, h, run), full)
        ]
