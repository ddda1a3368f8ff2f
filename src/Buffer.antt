-- ===== src/Buffer.antt =====
-- kernel/blk_drv/buffer.c and blk.h: the cache of disk blocks. A buffer is known by its address, the two
-- lists hold addresses, and a transfer goes through the request table of Blk. A buffer's own block of
-- memory is part of its record.
pub mod Lists
pub mod Disk
pub mod Coherence
pub mod Update
pub mod Miss
pub mod Take
pub mod Read
pub mod Release
pub mod Session
pub mod Rounds
pub mod Init
pub mod Sample
mod Tests
use rxd_os.Chains.{list_del}
use rxd_os.Prelude.{
  ℕ, zero, suc, ◌+◌, ◌-◌, ◌*◌, ◌/◌, ◌%◌, ◌^◌, ◌<◌, ◌≤◌, ◌≡◌, Bool, true, false, not, ◌&&◌, ◌||◌,
  List, [], ◌∷◌, Option, none, some, Outcome, ok, panic, fault, out_of_fuel, ◌>>=◌, ◌>>◌, assert,
  ltb, leb, ◌==◌, if◌then◌else◌,
}
use rxd_os.Blk.{Drive, Blk, bio_read, bio_write, ll_rw_block}

abbrev pub block_size : ℕ
block_size = 1024

abbrev pub sectors_per_blk : ℕ
sectors_per_blk = 2

-- The size of `struct buffer_head`: ten words, a `hlist_node` and a `list_head`.
abbrev pub buffer_head_size : ℕ
buffer_head_size = 56

-- `struct buffer_head` without the links of its lists and the members that nothing uses. `b_count` is
-- the bit pattern of an int, and `b_data` the bytes it points to.
pub record BufferHead : Type 0 where
  pub b_dev : ℕ
  pub b_blocknr : ℕ
  pub b_uptodate : ℕ
  pub b_dirty : ℕ
  pub b_count : ℕ
  pub b_data : List ℕ

abbrev pub Heads : Type 0
Heads = ℕ → BufferHead

-- `*b = h`.
abbrev pub put : Heads → ℕ → BufferHead → Heads
put heads b h = λ x. if x == b then h else heads x

pub record Cache (D : Type 0) : Type 0 where
  pub heads : Heads
  pub cached_list : List ℕ
  pub free_list : List ℕ
  pub blk : Blk D

-- The test of the first loop of `bread`.
abbrev pub is_hit : (dev blk_nr : ℕ) → BufferHead → Bool
is_hit dev blk_nr h = not (h.b_uptodate == 0) && h.b_dev == dev && h.b_blocknr == blk_nr

pub find_hit : (dev blk_nr : ℕ) → Heads → List ℕ → Option ℕ
find_hit dev blk_nr heads [] = none
find_hit dev blk_nr heads (cur ∷ cached) =
    if is_hit dev blk_nr (heads cur) then some cur else find_hit dev blk_nr heads cached

-- The loop that moves every buffer that is not in use to the front of the free list. Besides the two
-- lists it leaves `cur`, the last buffer it has looked at.
pub record Collected : Type 0 where
  pub cached : List ℕ
  pub free : List ℕ
  pub cur : Option ℕ

pub collect : Heads → (cached free : List ℕ) → Option ℕ → Collected
collect heads [] free cur = record { cached = []; free = free; cur = cur }
collect heads (b ∷ cached) free cur =
    let unused = (heads b).b_count == 0 in
    let rest = collect heads cached (if unused then b ∷ free else free) (some b) in
    if unused then rest else record rest { cached = b ∷ rest.cached }

-- From `get first entry in free_list` to the assertion.
pub get_free : {D : Type 0} → Cache D → Outcome (ℕ × Cache D)
get_free s = elim s.free_list [
  | [] ↦
      let r = collect s.heads s.cached_list [] none in
      elim r.free [
        | [] ↦ panic
        | _ ∷ _ ↦ elim r.cur [
          | none ↦ panic
          | some cur ↦ ok (cur, record s { cached_list = r.cached; free_list = r.free })
        ]
      ]
  | cur ∷ _ ↦ ok (cur, s)
]

module _ {D : Type 0} (drive : Drive D) where
  -- A block of the disk is read into, or written from, a buffer.
  pub transfer : (rw : ℕ) → BufferHead → Blk D → Outcome (List ℕ × Blk D)
  transfer rw h blk =
      ll_rw_block drive h.b_dev rw ((h.b_blocknr * sectors_per_blk) % 2 ^ 32) sectors_per_blk
        h.b_data blk

  -- The part of `bread` behind the search.
  pub bread_miss : (dev blk_nr : ℕ) → Cache D → Outcome (ℕ × Cache D)
  unfolding transfer get_free
  bread_miss dev blk_nr s = do
    (cur, s) ← get_free s
    assert ((s.heads cur).b_count == 0)
    let free = list_del cur s.free_list
    let h = record (s.heads cur) { b_count = 1; b_dev = dev; b_blocknr = blk_nr }
    (bytes, blk) ← transfer bio_read h s.blk
    let heads = put s.heads cur (record h { b_data = bytes; b_uptodate = 1 })
    ok (
      cur,
      record { heads = heads; cached_list = cur ∷ s.cached_list; free_list = free; blk = blk },
    )

  pub bread : (dev blk_nr : ℕ) → Cache D → Outcome (ℕ × Cache D)
  unfolding find_hit
  bread dev blk_nr s = elim (find_hit dev blk_nr s.heads s.cached_list) [
    | some cur ↦
        let h = s.heads cur in
        ok (
          cur,
          record s { heads = put s.heads cur (record h { b_count = (h.b_count + 1) % 2 ^ 32 }) },
        )
    | none ↦ bread_miss dev blk_nr s
  ]

  pub brelease : ℕ → Cache D → Outcome (Cache D)
  unfolding transfer
  brelease bh s = do
    let h = s.heads bh
    let count = (h.b_count + (2 ^ 32 - 1)) % 2 ^ 32
    assert (ltb count (2 ^ 31))
    if count == 0 && h.b_dirty == 1
        then (do
          (bytes, blk) ← transfer bio_write h s.blk
          let h = record h { b_count = count; b_data = bytes; b_dirty = 0 }
          ok (record s { heads = put s.heads bh h; blk = blk }))
        else ok (record s { heads = put s.heads bh (record h { b_count = count }) })

-- `bwrite` behind the client's stores into the data of the buffer.
pub bwrite : {D : Type 0} → ℕ → Cache D → Cache D
bwrite bh s = record s { heads = put s.heads bh (record (s.heads bh) { b_dirty = 1 }) }

pub set_data : {D : Type 0} → ℕ → List ℕ → Cache D → Cache D
set_data bh bytes s = record s { heads = put s.heads bh (record (s.heads bh) { b_data = bytes }) }

-- The `n` bytes of memory from `a` on.
unfoldable pub bytes_at : (ℕ → ℕ) → (a n : ℕ) → List ℕ
bytes_at memory a zero = []
bytes_at memory a (suc n) = memory a ∷ bytes_at memory (a + 1) n

-- What `buffer_init` has made: the buffers, the addresses that their `b_data` points to, and the free list.
pub record Area : Type 0 where
  pub heads : Heads
  pub blocks : ℕ → ℕ
  pub free : List ℕ

-- One round of its loop. A buffer gets the bytes that are in its block.
abbrev pub add_buffer : (memory : ℕ → ℕ) → (buffer block : ℕ) → Area → Area
add_buffer memory buffer block s = record {
  heads =
      put s.heads buffer
        (record (s.heads buffer) { b_uptodate = 0; b_data = bytes_at memory block block_size });
  blocks = λ x. if x == buffer then block else s.blocks x;
  free = buffer ∷ s.free;
}

-- The loop of `buffer_init` over a memory: `buffer` and `block` are addresses, and beside the area it returns
-- the place where the buffers end. Where `block` would get negative, it is 0 here: the loop ends at both.
pub init_loop : (fuel : ℕ) → (memory : ℕ → ℕ) → (buffer block : ℕ) → Area → Outcome (Area × ℕ)
init_loop zero memory buffer block s = out_of_fuel
init_loop (suc fuel) memory buffer block s =
    let rest =
      init_loop fuel memory (buffer + buffer_head_size) (block - block_size)
        (add_buffer memory buffer block s) in
    if leb (buffer + buffer_head_size) block then rest else ok (s, buffer)

-- `buffer_init` of a memory in which `heads` is what the buffers hold before.
pub buffer_init : (memory : ℕ → ℕ) → (start end : ℕ) → Heads → Outcome (Area × ℕ)
buffer_init memory start end heads = do
  (s, buffer) ←
      init_loop (end + 1) memory start (end - block_size)
        (record { heads = heads; blocks = λ x. 0; free = [] })
  ok (s, (buffer - start) / buffer_head_size)
