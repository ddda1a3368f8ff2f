-- ===== src/Buffer/Rounds.antt =====
-- kernel/blk_drv/buffer.c: the loop of `buffer_init`, round by round.
use native.Mathlib.Decide.{ℕ_discrete, dec_le}
use rxd_os.Chains.{occurrences}
use rxd_os.Prelude.{
  ℕ, zero, suc, ◌+◌, ◌-◌, ◌*◌, ◌/◌, ◌≤◌, ◌<◌, ◌≡◌, ◌⊎◌, inl, inr, refl, sym, ◌∙◌, ap, [], ok, arith,
  length,
}
use rxd_os.Buffer.{Heads, Area, bytes_at, add_buffer, init_loop, buffer_init}

pub length-bytes_at : (memory : ℕ → ℕ) (a n : ℕ) → length (bytes_at memory a n) ≡ n
unfolding bytes_at
length-bytes_at memory a zero = refl
length-bytes_at memory a (suc n) = ground (arith, length-bytes_at memory (a + 1) n)

-- The buffers of an area of `k`: the i-th from `buffer` on has the i-th block down from `block`, and its bytes.
pub record Placed (memory : ℕ → ℕ) (buffer block k x : ℕ) (s : Area) : Type 0 where
  pub number : ℕ
  pub inside : number < k
  pub place : x ≡ buffer + 56 * number
  pub above : 1024 * number ≤ block
  pub here : s.blocks x + 1024 * number ≡ block
  pub bytes : (s.heads x).b_data ≡ bytes_at memory (s.blocks x) 1024

-- What the loop makes of an area in `k` rounds.
pub record Made (memory : ℕ → ℕ) (buffer block : ℕ) (s s' : Area) (k : ℕ) : Type 0 where
  pub many : length s'.free ≡ k + length s.free
  pub fits : k ≡ 0 ⊎ buffer + 1080 * k ≤ block + 1024
  pub full : block + 1024 < buffer + 1080 * (k + 1)
  pub once :
      (x : ℕ)
      → occurrences x s.free ≤ 1
      → (0 < occurrences x s.free → x < buffer)
      → occurrences x s'.free ≤ 1
  pub counts : (x : ℕ) → (s'.heads x).b_count ≡ (s.heads x).b_count
  pub kept_heads : (x : ℕ) → x < buffer → s'.heads x ≡ s.heads x
  pub kept_blocks : (x : ℕ) → x < buffer → s'.blocks x ≡ s.blocks x
  pub placed :
      (x : ℕ)
      → 0 < occurrences x s'.free
      → 0 < occurrences x s.free ⊎ Placed memory buffer block k x s'

-- No round is made.
init_loop-stop :
    (memory : ℕ → ℕ) (buffer block : ℕ) (s : Area)
    → block < buffer + 56
    → Made memory buffer block s s 0
init_loop-stop memory buffer block s stop = record {
  many = omega arith;
  fits = inl refl;
  full = omega (arith, stop);
  once = λ x e below. e;
  counts = λ x. refl;
  kept_heads = λ x h. refl;
  kept_blocks = λ x h. refl;
  placed = λ x h. inl h;
}

add_buffer-count :
    (memory : ℕ → ℕ) (buffer block : ℕ) (s : Area) (x : ℕ)
    → ((add_buffer memory buffer block s).heads x).b_count ≡ (s.heads x).b_count
add_buffer-count memory buffer block s x = elim (ℕ_discrete x buffer) [
  | yes same ↦ ground (arith, same)
  | no other ↦ ground (arith, other)
]

add_buffer-free :
    (memory : ℕ → ℕ) (buffer block : ℕ) (s : Area) (x : ℕ)
    → 0 < occurrences x (add_buffer memory buffer block s).free
    → (x ≡ buffer) ⊎ (0 < occurrences x s.free)
unfolding occurrences
add_buffer-free memory buffer block s x h = elim (ℕ_discrete buffer x) [
  | yes same ↦ inl (omega (arith, same))
  | no other ↦ inr (ground (arith, other, h))
]

-- One round is made before the others.
init_loop-round :
    (memory : ℕ → ℕ) (buffer block k : ℕ) (s s' : Area)
    → buffer + 56 ≤ block
    → Made memory (buffer + 56) (block - 1024) (add_buffer memory buffer block s) s' k
    → Made memory buffer block s s' (k + 1)
unfolding occurrences
init_loop-round memory buffer block k s s' more made =
    let added : Area = add_buffer memory buffer block s in
    let room : 1024 ≤ block ⊎ k ≡ 0 = elim made.fits [
      | inl still ↦ inr still
      | inr some ↦ elim (dec_le 1024 block) [
        | yes large ↦ inl large
        | no small ↦ inr (omega (arith, some, small))
      ]
    ] in
    record {
      many = made.many ∙ omega arith;
      fits = inr (elim made.fits [
        | inl still ↦ omega (arith, still, more)
        | inr some ↦ omega (arith, some, more, made.full)
      ]);
      full = omega (arith, made.full);
      once = λ x e below.
          made.once x
            (elim (ℕ_discrete buffer x) [
              | yes same ↦ ground (arith, same, below)
              | no other ↦ ground (arith, other, e)
            ])
            (λ p. elim (ℕ_discrete buffer x) [
              | yes same ↦ omega (arith, same)
              | no other ↦ omega (arith, below (ground (arith, other, p)))
            ]);
      counts = λ x. made.counts x ∙ add_buffer-count memory buffer block s x;
      kept_heads = λ x h. made.kept_heads x (omega (arith, h)) ∙ ground (arith, h);
      kept_blocks = λ x h. made.kept_blocks x (omega (arith, h)) ∙ ground (arith, h);
      placed = λ x h. elim (made.placed x h) [
        | inl old ↦ elim (add_buffer-free memory buffer block s x old) [
          | inl same ↦
              let low : x < buffer + 56 = omega (arith, same) in
              let heads = made.kept_heads x low in
              let at : s'.blocks x ≡ block = made.kept_blocks x low ∙ ground (arith, same) in
              inr (record {
                number = 0;
                inside = omega arith;
                place = omega (arith, same);
                above = omega arith;
                here = omega (arith, at);
                bytes =
                    ap (λ q. q.b_data) heads
                    ∙ ground (arith, same)
                    ∙ ap (λ a. bytes_at memory a 1024) (sym at);
              })
          | inr before ↦ inl before
        ]
        | inr later ↦ inr (record {
          number = later.number + 1;
          inside = omega (arith, later.inside);
          place = omega (arith, later.place);
          above = omega (arith, later.above, later.inside, room);
          here = omega (arith, later.here, later.inside, room);
          bytes = later.bytes;
        })
      ];
    }

init_loop-Made :
    (fuel : ℕ) (memory : ℕ → ℕ) (buffer block : ℕ) (s : Area)
    → block < fuel
    → (s' : Area) × (k : ℕ) × (init_loop fuel memory buffer block s ≡ ok (s', buffer + 56 * k))
      × Made memory buffer block s s' k
unfolding init_loop
init_loop-Made zero memory buffer block s h = absurd (omega arith)
init_loop-Made (suc fuel) memory buffer block s h = elim (dec_le (buffer + 56) block) [
  | no stop ↦ (s, 0, ground arith, init_loop-stop memory buffer block s (omega (arith, stop)))
  | yes more ↦
      let (s', k, run, made) =
        init_loop-Made fuel memory (buffer + 56) (block - 1024) (add_buffer memory buffer block s)
          (omega (arith, h, more)) in
      let place : buffer + 56 + 56 * k ≡ buffer + 56 * (k + 1) = omega arith in
      (
        s',
        k + 1,
        ground (arith, more, run, place),
        init_loop-round memory buffer block k s s' more made,
      )
]

abbrev pub blank_area : Heads → Area
blank_area heads = record { heads = heads; blocks = λ x. 0; free = [] }

pub buffer_init-Made :
    (memory : ℕ → ℕ) (start end : ℕ) (heads : Heads)
    → 1024 ≤ end
    → (s : Area) × (k : ℕ) × (buffer_init memory start end heads ≡ ok (s, k))
      × Made memory start (end - 1024) (blank_area heads) s k
unfolding buffer_init
buffer_init-Made memory start end heads h =
    let (s, k, run, made) =
      init_loop-Made (end + 1) memory start (end - 1024) (blank_area heads) (omega arith) in
    let many : (start + 56 * k - start) / 56 ≡ k = omega arith in
    (s, k, ground (arith, run, many), made)
