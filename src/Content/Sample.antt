-- ===== src/Content/Sample.antt =====
-- fs/fs.c: a small disk with a file system, which shows that the conditions of the theorems can hold. Its
-- maps take inodes 0 and 1, the blocks up to block 10, and those that the disk does not have.
use native.Mathlib.Decide.{dec_lt}
use rxd_os.Chains.{occurrences}
use rxd_os.Prelude.{
  ℕ, zero, suc, ◌+◌, ◌-◌, ◌*◌, ◌/◌, ◌%◌, ◌≤◌, ◌<◌, ◌≡◌, ◌⊎◌, inl, inr, refl, sym, ◌∙◌, ap, true,
  ◌∷◌, arith, ◌==◌, ltb, ◌&&◌, leb, if◌then◌else◌, get_or, get_or-replicate, replicate, every_below,
  every_below-at, ==→eq,
}
use rxd_os.Buffer.{Cache}
use rxd_os.Buffer.Disk.{slice}
use rxd_os.Buffer.Coherence.{view, view-other}
use rxd_os.Buffer.Sample.{ram_laws, cache_of, cache_of-Valid}
use rxd_os.Bitmap.Bits.{bit, byte_bit}
use rxd_os.Blockmap.Change.{map_bit, OnDisk}
use rxd_os.Super.{made_super}
use rxd_os.Super.Layout.{Layout, HasPlace}
use rxd_os.Inode.{Inode}
use rxd_os.Inode.Codec.{IsInode}
use rxd_os.Zone.Fresh.{HasZmap}
use rxd_os.Zone.Reserve.{HasZones}
use rxd_os.Content.Bytes.{file_byte, IsFile}
use rxd_os.Content.Effect.{HasFile}

-- The byte `k` of the map of blocks.
abbrev pub zmap_byte : ℕ → ℕ
zmap_byte k =
    if k == 0 then 255 else if k == 1 then 7 else if leb 180 k && ltb k 512 then 255 else 0

abbrev pub formatted_byte : ℕ → ℕ
formatted_byte a =
    if a == 2048 then 3 else if leb 3072 a && ltb a 4096 then zmap_byte (a - 3072) else 0

abbrev pub formatted : Cache (ℕ → ℕ)
formatted = cache_of formatted_byte

-- An inode of number 1 with a block.
abbrev pub small_file : Inode
small_file = record {
  i_inum = 1;
  i_size = 1000;
  i_mode = 0;
  i_nlink = 2;
  i_zone = 10 ∷ replicate 8 0;
  i_links = replicate 5 0;
  i_refcnt = 1;
}

-- One with four, which the map need not know.
abbrev pub long_file : Inode
long_file = record small_file { i_size = 4096; i_zone = 10 ∷ 11 ∷ 12 ∷ 13 ∷ replicate 5 0 }

get_or-slice : (f : ℕ → ℕ) (a n k : ℕ) → k < n → get_or (slice f a n) k 0 ≡ f (a + k)
unfolding slice
get_or-slice f a zero k h = absurd (omega (arith, h))
get_or-slice f a (suc n) zero h = let start : a ≡ a + 0 = omega arith in ap f start
get_or-slice f a (suc n) (suc k) h =
    let place : a + 1 + k ≡ a + suc k = omega arith in
    get_or-slice f (a + 1) n k (omega (arith, h)) ∙ ap f place

slice-bytes : (f : ℕ → ℕ) → ((b : ℕ) → f b < 256) → (a n i : ℕ) → get_or (slice f a n) i 0 < 256
unfolding slice
slice-bytes f small a zero i = omega arith
slice-bytes f small a (suc n) zero = small a
slice-bytes f small a (suc n) (suc i) = slice-bytes f small (a + 1) n i

formatted-view : (b : ℕ) → view ram_laws formatted b ≡ slice formatted_byte (1024 * b) 1024
unfolding occurrences
formatted-view b =
    view-other ram_laws b formatted (cache_of-Valid formatted_byte)
      (λ c h. absurd (omega (arith, h)))

formatted_byte-bound : (a : ℕ) → formatted_byte a < 256
formatted_byte-bound a = ground arith

pub formatted-OnDisk : (start end : ℕ) → end ≤ 1440 → OnDisk ram_laws formatted start end
formatted-OnDisk start end h = record {
  inside = λ b p q. omega (arith, h, q);
  bytes = λ b p q i. omega (
    arith,
    ap (λ l. get_or l i 0) (formatted-view b),
    slice-bytes formatted_byte formatted_byte-bound (1024 * b) 1024 i,
  );
}

-- A bit of a map of one block.
formatted-bit :
    (start t : ℕ)
    → t < 4096
    → map_bit ram_laws formatted start t ≡ byte_bit (formatted_byte (1024 * start + t / 8)) (t % 8)
unfolding bit
formatted-bit start t h =
    let block : start + t / 4096 ≡ start = omega (arith, h) in
    let place : t % 4096 ≡ t = omega (arith, h) in
    ap (λ b. bit (view ram_laws formatted b) (t % 4096)) block
    ∙ ap (bit (view ram_laws formatted start)) place
    ∙ ap (λ l. bit l t) (formatted-view start)
    ∙ ap (λ v. byte_bit v (t % 8))
        (get_or-slice formatted_byte (1024 * start) 1024 (t / 8) (omega (arith, h)))

full_table : every_below 8 (λ q. byte_bit 255 q == 1) ≡ true
unfolding every_below byte_bit
full_table = refl

low_table : every_below 2 (λ q. byte_bit 7 q == 1) ≡ true
unfolding every_below byte_bit
low_table = refl

full_byte : (q : ℕ) → q < 8 → byte_bit 255 q ≡ 1
full_byte q h = ==→eq (every_below-at 8 (λ k. byte_bit 255 k == 1) q full_table h)

low_byte : (q : ℕ) → q < 2 → byte_bit 7 q ≡ 1
low_byte q h = ==→eq (every_below-at 2 (λ k. byte_bit 7 k == 1) q low_table h)

zmap-taken : (t : ℕ) → t < 4096 → t < 10 → map_bit ram_laws formatted 3 t ≡ 1
zmap-taken t h low = elim (dec_lt t 8) [
  | yes first ↦
      let value : formatted_byte (1024 * 3 + t / 8) ≡ 255 = ground (arith, first) in
      formatted-bit 3 t h ∙ ap (λ v. byte_bit v (t % 8)) value ∙ full_byte (t % 8) (omega arith)
  | no more ↦
      let value : formatted_byte (1024 * 3 + t / 8) ≡ 7 = ground (arith, more, low) in
      formatted-bit 3 t h
      ∙ ap (λ v. byte_bit v (t % 8)) value
      ∙ low_byte (t % 8) (omega (arith, more, low))
]

zmap-behind : (t : ℕ) → t < 4096 → 1440 ≤ t → map_bit ram_laws formatted 3 t ≡ 1
zmap-behind t h high =
    let value : formatted_byte (1024 * 3 + t / 8) ≡ 255 = ground (arith, high, h) in
    formatted-bit 3 t h ∙ ap (λ v. byte_bit v (t % 8)) value ∙ full_byte (t % 8) (omega arith)

pub formatted-HasZmap : HasZmap ram_laws formatted made_super
formatted-HasZmap = record {
  on_disk = formatted-OnDisk 3 4 (omega arith);
  free = λ t h clear. elim (dec_lt t 10) [
    | yes low ↦ absurd (omega (arith, zmap-taken t h low, clear))
    | no high ↦ elim (dec_lt t 1440) [
      | yes inside ↦ (omega (arith, high), omega (arith, inside))
      | no behind ↦ absurd (omega (arith, zmap-behind t h (omega (arith, behind)), clear))
    ]
  ];
}

pub made_super-Layout : Layout ram_laws made_super
made_super-Layout = record {
  device = refl;
  behind_super = omega arith;
  imap = omega arith;
  zmap = omega arith;
  itable = omega arith;
  inside = λ b h. omega (arith, h);
}

pub root-HasPlace : HasPlace made_super 1
root-HasPlace = record { positive = omega arith; in_map = omega arith; in_table = omega arith }

small_zone : (k : ℕ) → get_or (10 ∷ replicate 8 0) k 0 ≤ 10
small_zone zero = omega arith
small_zone (suc k) = omega (arith, get_or-replicate {A = ℕ} 8 k 0)

pub small_file-IsInode : IsInode small_file
small_file-IsInode = record {
  inum = omega arith;
  size = omega arith;
  mode = omega arith;
  nlink = omega arith;
  zones = refl;
  zone = λ k. omega (arith, small_zone k);
  links = refl;
}

pub root-taken : map_bit ram_laws formatted 2 1 ≡ 1
unfolding byte_bit
root-taken = formatted-bit 2 1 (omega arith) ∙ refl

ten-taken : map_bit ram_laws formatted 3 10 ≡ 1
unfolding byte_bit
ten-taken = formatted-bit 3 10 (omega arith) ∙ refl

first_only : (k : ℕ) → k < 1 → 0 ≡ k
first_only k h = omega (arith, h)

small_file-HasZones : HasZones ram_laws formatted made_super small_file 1
small_file-HasZones = record {
  few = omega arith;
  size = refl;
  inside = λ k h. omega (arith, small_zone k);
  in_map = λ k h. omega (arith, small_zone k);
  taken = λ k h.
      ap (λ j. map_bit ram_laws formatted 3 (get_or small_file.i_zone j 0)) (sym (first_only k h))
      ∙ ten-taken;
  behind = λ k h. omega (arith, ap (λ j. get_or small_file.i_zone j 0) (first_only k h));
  apart = λ k l h h' e. omega (arith, h, h');
}

pub small_file-HasFile : HasFile ram_laws formatted made_super small_file
small_file-HasFile = record {
  layout = made_super-Layout;
  imap = formatted-OnDisk 2 3 (omega arith);
  zmap = formatted-HasZmap;
  is_inode = small_file-IsInode;
  place = root-HasPlace;
  number = root-taken;
  zones = small_file-HasZones;
}

pub small_file-IsFile : IsFile ram_laws small_file
small_file-IsFile = record {
  size = omega arith;
  zones = refl;
  inside = λ k h. omega (arith, small_zone k);
}

long_zone : (k : ℕ) → get_or long_file.i_zone k 0 ≤ 13
long_zone zero = omega arith
long_zone (suc zero) = omega arith
long_zone (suc (suc zero)) = omega arith
long_zone (suc (suc (suc zero))) = omega arith
long_zone (suc (suc (suc (suc k)))) = omega (arith, get_or-replicate {A = ℕ} 5 k 0)

pub long_file-IsFile : IsFile ram_laws long_file
long_file-IsFile = record {
  size = omega arith;
  zones = refl;
  inside = λ k h. omega (arith, long_zone k);
}

-- A directory of one entry, which is empty.
abbrev pub small_dir : Inode
small_dir = record small_file { i_size = 32 }

pub small_dir-IsFile : IsFile ram_laws small_dir
small_dir-IsFile = record {
  size = omega arith;
  zones = refl;
  inside = λ k h. omega (arith, small_zone k);
}

zone-cases : (k : ℕ) → get_or small_dir.i_zone k 0 ≡ 10 ⊎ get_or small_dir.i_zone k 0 ≡ 0
zone-cases zero = inl refl
zone-cases (suc k) = inr (get_or-replicate {A = ℕ} 8 k 0)

-- Its content is empty, as is all behind it.
pub small_dir-empty : (p : ℕ) → file_byte ram_laws formatted small_dir p ≡ 0
unfolding file_byte
small_dir-empty p =
    let z : ℕ = get_or small_dir.i_zone (p / 1024) 0 in
    let byte : get_or (view ram_laws formatted z) (p % 1024) 0
        ≡ formatted_byte (1024 * z + p % 1024) =
      ap (λ l. get_or l (p % 1024) 0) (formatted-view z)
      ∙ get_or-slice formatted_byte (1024 * z) 1024 (p % 1024) (omega arith) in
    elim (zone-cases (p / 1024)) [
      | inl e ↦ byte ∙ ground (arith, e)
      | inr e ↦ byte ∙ ground (arith, e)
    ]
