-- ===== src/Blockmap/Next.antt =====
-- fs/bitmap.h: the bits of a map, from its first block to the next.
use native.Mathlib.Decide.{dec_lt}
use rxd_os.Prelude.{
  ℕ, suc, ◌+◌, ◌-◌, ◌*◌, ◌/◌, ◌%◌, ◌≤◌, ◌<◌, ◌≡◌, ◌≢◌, refl, sym, ◌∙◌, ap, List, arith, ◌==◌,
  if◌then◌else◌, get_or,
}
use rxd_os.Blk.{Drive}
use rxd_os.Buffer.{Cache}
use rxd_os.Buffer.Disk.{DiskLaws}
use rxd_os.Buffer.Coherence.{view}
use rxd_os.Buffer.Session.{Idle}
use rxd_os.Bitmap.Bits.{bit}
use rxd_os.Blockmap.{blk_nr, bit_nr}
use rxd_os.Blockmap.Change.{map_bit, Marked}

module _ {D : Type 0} {drive : Drive D} (laws : DiskLaws drive) where
  pub Idle-less : (n m : ℕ) (s : Cache D) → n ≤ m → Idle laws m s → Idle laws n s
  Idle-less n m s h idle = record {
    valid = idle.valid;
    ready = record {
      size = idle.ready.size;
      devices = idle.ready.devices;
      idle = idle.ready.idle;
      room = omega (arith, idle.ready.room, h);
    };
    no_users = idle.no_users;
    some_buffer = idle.some_buffer;
  }

  -- Bit `t` was the lowest clear bit of the map of `rounds` blocks, and is taken in `s'`.
  pub record Taken (n : ℕ) (s : Cache D) (start rounds t : ℕ) (s' : Cache D) : Type 0 where
    pub inside : t < rounds * 4096
    pub clear : map_bit laws s start t ≡ 0
    pub below : (j : ℕ) → j < t → map_bit laws s start j ≡ 1
    pub marked : Marked laws n s start t 1 s'

  -- Every bit of the map is set.
  abbrev pub IsFull : Cache D → (start rounds : ℕ) → Type 0
  IsFull s start rounds = (j : ℕ) → j < rounds * 4096 → map_bit laws s start j ≡ 1

  pub map_bit-next :
      (s s' : Cache D) (start j : ℕ)
      → ((b : ℕ) → view laws s' b ≡ view laws s b)
      → map_bit laws s' (start + 1) j ≡ map_bit laws s start (j + 4096)
  map_bit-next s s' start j same =
      let block : start + 1 + j / 4096 ≡ start + (j + 4096) / 4096 = omega arith in
      let place : j % 4096 ≡ (j + 4096) % 4096 = omega arith in
      ap (λ l. bit l (j % 4096)) (same (start + 1 + j / 4096))
      ∙ ap (λ b. bit (view laws s b) (j % 4096)) block
      ∙ ap (bit (view laws s (start + (j + 4096) / 4096))) place

  -- What the bits of the first block are.
  pub map_bit-first :
      (s : Cache D) (start j : ℕ) (bytes : List ℕ)
      → bytes ≡ view laws s start
      → j < 4096
      → map_bit laws s start j ≡ bit bytes j
  map_bit-first s start j bytes e h =
      let block : start + j / 4096 ≡ start = omega arith in
      let place : j % 4096 ≡ j = omega arith in
      ap (λ b. bit (view laws s b) (j % 4096)) block
      ∙ ap (bit (view laws s start)) place
      ∙ ap (λ l. bit l j) (sym e)

  pub Marked-next :
      (n : ℕ) (s s' s'' : Cache D) (start t : ℕ)
      → ((b : ℕ) → view laws s' b ≡ view laws s b)
      → Marked laws n s' (start + 1) t 1 s''
      → Marked laws n s start (t + 4096) 1 s''
  Marked-next n s s' s'' start t same m =
      let block : blk_nr (start + 1) t ≡ blk_nr start (t + 4096) = omega arith in
      record {
        idle = m.idle;
        bits = λ j. elim (dec_lt j 4096) [
          | yes low ↦
              let out : blk_nr start j ≢ blk_nr (start + 1) t =
                λ e. absurd (omega (arith, low, e)) in
              let kept =
                ap (λ l. bit l (bit_nr j))
                  (m.others (blk_nr start j) out ∙ same (blk_nr start j)) in
              kept ∙ ground (arith, low)
          | no high ↦
              let back : j - 4096 + 4096 ≡ j = omega (arith, high) in
              let there = map_bit-next s'' s'' start (j - 4096) (λ b. refl) in
              let before = map_bit-next s s' start (j - 4096) same in
              ap (map_bit laws s'' start) (sym back)
              ∙ sym there
              ∙ m.bits (j - 4096)
              ∙ one_of (j - 4096) j t back _ _ (before ∙ ap (map_bit laws s start) back)
        ];
        others = λ b ne. m.others b (λ e. ne (e ∙ block)) ∙ same b;
        are_bytes = λ i. omega (arith, ap (λ b. get_or (view laws s'' b) i 0) block, m.are_bytes i);
      }
    where
      one_of :
          (i j t : ℕ)
          → i + 4096 ≡ j
          → (x y : ℕ) → x ≡ y
          → (if i == t then 1 else x) ≡ (if j == t + 4096 then 1 else y)
      one_of i j t e x y f = ground (arith, e, f)

  pub Taken-next :
      (n : ℕ) (s s' s'' : Cache D) (start rounds t : ℕ)
      → ((b : ℕ) → view laws s' b ≡ view laws s b)
      → ((j : ℕ) → j < 4096 → map_bit laws s start j ≡ 1)
      → Taken n s' (start + 1) rounds t s''
      → Taken n s start (suc rounds) (t + 4096) s''
  Taken-next n s s' s'' start rounds t same full taken = record {
    inside = omega (arith, taken.inside);
    clear = sym (map_bit-next s s' start t same) ∙ taken.clear;
    below = λ j h. elim (dec_lt j 4096) [
      | yes low ↦ full j low
      | no high ↦
          let back : j - 4096 + 4096 ≡ j = omega (arith, high) in
          ap (map_bit laws s start) (sym back)
          ∙ sym (map_bit-next s s' start (j - 4096) same)
          ∙ taken.below (j - 4096) (omega (arith, high, h))
    ];
    marked = Marked-next n s s' s'' start t same taken.marked;
  }

  pub IsFull-next :
      (s s' : Cache D) (start rounds : ℕ)
      → ((b : ℕ) → view laws s' b ≡ view laws s b)
      → ((j : ℕ) → j < 4096 → map_bit laws s start j ≡ 1)
      → IsFull s' (start + 1) rounds
      → IsFull s start (suc rounds)
  IsFull-next s s' start rounds same full rest = λ j h. elim (dec_lt j 4096) [
    | yes low ↦ full j low
    | no high ↦
        let back : j - 4096 + 4096 ≡ j = omega (arith, high) in
        ap (map_bit laws s start) (sym back)
        ∙ sym (map_bit-next s s' start (j - 4096) same)
        ∙ rest (j - 4096) (omega (arith, high, h))
  ]
