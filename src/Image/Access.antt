-- ===== src/Image/Access.antt =====
-- fs/fs.c: what the cache shows after a part of a block was read, or a block was changed.
use native.Mathlib.Decide.{ℕ_discrete}
use rxd_os.Prelude.{ℕ, suc, ◌+◌, ◌≤◌, ◌≡◌, sym, ◌∙◌, ap, List, Outcome, ok, arith, length}
use rxd_os.Blk.{Drive, blk_dev_hd}
use rxd_os.Buffer.{Cache}
use rxd_os.Buffer.Disk.{DiskLaws, InDisk}
use rxd_os.Buffer.Coherence.{view}
use rxd_os.Buffer.Session.{Idle, Shown, Held-length, bread-Held, brelease-Shown, bwrite-Shown}
use rxd_os.Image.{part, copy_out, read_part, change_block}

module _ {D : Type 0} {drive : Drive D} (laws : DiskLaws drive) where
  -- The cache is idle and shows every block as before.
  pub record Same (n : ℕ) (s s' : Cache D) : Type 0 where
    pub idle : Idle laws n s'
    pub views : (b : ℕ) → view laws s' b ≡ view laws s b

  pub Shown-Same :
      (n : ℕ) (s s' : Cache D) (b : ℕ) → Shown laws n s b (view laws s b) s' → Same n s s'
  Shown-Same n s s' b shown = record {
    idle = shown.idle;
    views = λ a. elim (ℕ_discrete a b) [
      | yes e ↦ ap (view laws s') e ∙ shown.here ∙ ap (view laws s) (sym e)
      | no ne ↦ shown.others a ne
    ];
  }

  pub read_part-Same :
      (n : ℕ) (s : Cache D) (b off m : ℕ)
      → Idle laws (suc (suc n)) s
      → InDisk laws b
      → off + m ≤ 1024
      → (s' : Cache D) × (read_part drive blk_dev_hd b off m s
          ≡ ok (part (view laws s b) off m, s'))
        × Same n s s'
  unfolding read_part copy_out
  read_part-Same n s b off m idle inside h =
      let (c, s1, held) = bread-Held laws n s b idle inside in
      let size = Held-length laws n s b c s1 held in
      let (s', released, shown) = brelease-Shown laws n s b c s1 held in
      let value = ap (λ l. part l off m) held.of.bytes_of in
      (s', ground (arith, held.run, size, h, released, value), Shown-Same n s s' b shown)

  pub view-length :
      (n : ℕ) (s : Cache D) (b : ℕ)
      → Idle laws (suc (suc n)) s
      → InDisk laws b
      → length (view laws s b) ≡ 1024
  view-length n s b idle inside =
      let (c, s1, held) = bread-Held laws n s b idle inside in
      ap length (sym held.of.bytes_of) ∙ Held-length laws n s b c s1 held

  pub change_block-Shown :
      (n : ℕ) (s : Cache D) (b : ℕ) (change : List ℕ → Outcome (List ℕ)) (bytes : List ℕ)
      → Idle laws (suc (suc n)) s
      → InDisk laws b
      → change (view laws s b) ≡ ok bytes
      → length bytes ≡ 1024
      → (s' : Cache D) × (change_block drive blk_dev_hd b change s ≡ ok s')
        × Shown laws n s b bytes s'
  unfolding change_block
  change_block-Shown n s b change bytes idle inside changed size =
      let (c, s1, held) = bread-Held laws n s b idle inside in
      let changed' : change (s1.heads c).b_data ≡ ok bytes = ap change held.of.bytes_of ∙ changed in
      let (s', released, shown) = bwrite-Shown laws n s b c s1 bytes held size in
      (s', ground (arith, held.run, changed', released), shown)
