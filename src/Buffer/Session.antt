-- ===== src/Buffer/Session.antt =====
-- kernel/blk_drv/buffer.c: one client that reads a block, may change it and releases it.
use rxd_os.Chains.{occurrences}
use rxd_os.Prelude.{ℕ, suc, ◌<◌, ◌≡◌, ◌≢◌, refl, sym, ◌∙◌, ap, List, [], ◌∷◌, ok, arith, length}
use mathlib.Core.Path.{subst}
use native.Mathlib.Decide.{ℕ_discrete}
use rxd_os.Blk.{Drive, blk_dev_hd}
use rxd_os.Blk.Slots.{Ready}
use rxd_os.Buffer.{Cache, bread, brelease, bwrite, set_data}
use rxd_os.Buffer.Lists.{last_of, last_of-occurrences}
use rxd_os.Buffer.Disk.{DiskLaws, InDisk}
use rxd_os.Buffer.Coherence.{Cached, Pooled, CanShare, Valid, view}
use rxd_os.Buffer.Miss.{Room, one_free, oldest_unused}
use rxd_os.Buffer.Read.{users, ReadOf, bread-ReadOf}
use rxd_os.Buffer.Release.{brelease-Released, bwrite-view}

module _ {D : Type 0} {drive : Drive D} (laws : DiskLaws drive) where
  -- Nobody uses a buffer, there is one, and `n` transfers are possible.
  pub record Idle (n : ℕ) (s : Cache D) : Type 0 where
    pub valid : Valid laws s
    pub ready : Ready n s.blk
    pub no_users : (x : ℕ) → users s x ≡ 0
    pub some_buffer : (c : ℕ) × Pooled s c

  count-users : (s : Cache D) (c : ℕ) → Cached s c → (s.heads c).b_count ≡ users s c
  unfolding users
  count-users s c h = ground (arith, h)

  Idle-CanShare : (n : ℕ) (s : Cache D) → Idle n s → CanShare s
  Idle-CanShare n s idle = λ c h. omega (arith, count-users s c h, idle.no_users c)

  Idle-Room : (n : ℕ) (s : Cache D) → Idle n s → Room s
  unfolding occurrences
  Idle-Room n s idle = by_free s.free_list s.cached_list refl refl
    where
      by_free : (free cached : List ℕ) → s.free_list ≡ free → s.cached_list ≡ cached → Room s
      by_free (b ∷ rest) cached e f = one_free b rest e
      by_free [] (b ∷ rest) e f =
          let there : Cached s (last_of b rest) =
            omega (arith, ap (occurrences (last_of b rest)) f, last_of-occurrences b rest) in
          oldest_unused b rest f
            (count-users s (last_of b rest) there ∙ idle.no_users (last_of b rest))
      by_free [] [] e f =
          let (c, h) = idle.some_buffer in
          let no_free : occurrences c s.free_list ≡ 0 = ap (occurrences c) e in
          let no_cached : occurrences c s.cached_list ≡ 0 = ap (occurrences c) f in
          absurd (omega (arith, h, no_free, no_cached))

  -- The cache is idle again and shows `bytes` as block `b`, and otherwise what it showed before.
  pub record Shown (n : ℕ) (s : Cache D) (b : ℕ) (bytes : List ℕ) (s' : Cache D) : Type 0 where
    pub idle : Idle n s'
    pub here : view laws s' b ≡ bytes
    pub others : (a : ℕ) → a ≢ b → view laws s' a ≡ view laws s a

  -- What a client finds after `bread`.
  pub record Held (n : ℕ) (s : Cache D) (b c : ℕ) (s1 : Cache D) : Type 0 where
    pub run : bread drive blk_dev_hd b s ≡ ok (c, s1)
    pub of : ReadOf laws (suc n) s b c s1
    pub read_users : (x : ℕ) → users s x ≡ 0

  pub bread-Held :
      (n : ℕ) (s : Cache D) (b : ℕ)
      → Idle (suc (suc n)) s
      → InDisk laws b
      → (c : ℕ) × (s1 : Cache D) × Held n s b c s1
  bread-Held n s b idle inside =
      let (c, s1, run, of) =
        bread-ReadOf laws (suc n) s b idle.valid idle.ready (Idle-CanShare (suc (suc n)) s idle)
          (Idle-Room (suc (suc n)) s idle) inside in
      (c, s1, record { run = run; of = of; read_users = idle.no_users })

  -- brelease of what the client has left of the buffer.
  finish :
      (n : ℕ) (s : Cache D) (b c : ℕ) (s1 s2 : Cache D) (bytes : List ℕ)
      → Held n s b c s1
      → Valid laws s2
      → s2.blk ≡ s1.blk
      → s2.cached_list ≡ s1.cached_list
      → ((x : ℕ) → users s2 x ≡ users s1 x)
      → view laws s2 b ≡ bytes
      → ((a : ℕ) → a ≢ b → view laws s2 a ≡ view laws s1 a)
      → (s' : Cache D) × (brelease drive c s2 ≡ ok s') × Shown n s b bytes s'
  finish n s b c s1 s2 bytes held valid blk lists same_users here others =
      let ready : Ready (suc n) s2.blk = subst (Ready (suc n)) (sym blk) held.of.ready in
      let cached : Cached s2 c = subst (λ l. 0 < occurrences c l) (sym lists) held.of.cached in
      let one : users s2 c ≡ 1 = omega (arith, same_users c, held.of.count, held.read_users c) in
      let (s', run, of) = brelease-Released laws n s2 c valid ready cached (omega (arith, one)) in
      (
        s',
        run,
        record {
          idle = record {
            valid = of.valid;
            ready = of.ready;
            no_users = λ x. elim (ℕ_discrete x c) [
              | yes e ↦ ap (users s') e ∙ omega (arith, of.count, one)
              | no ne ↦ of.counts x ne ∙ same_users x ∙ held.of.counts x ne ∙ held.read_users x
            ];
            some_buffer = (c, omega (arith, ap (occurrences c) of.cached_same, cached));
          };
          here = of.same b ∙ here;
          others = λ a ne. of.same a ∙ others a ne ∙ held.of.same a;
        },
      )

  -- The client changes nothing.
  pub brelease-Shown :
      (n : ℕ) (s : Cache D) (b c : ℕ) (s1 : Cache D)
      → Held n s b c s1
      → (s' : Cache D) × (brelease drive c s1 ≡ ok s') × Shown n s b (view laws s b) s'
  brelease-Shown n s b c s1 held =
      finish n s b c s1 s1 (view laws s b) held held.of.valid refl refl (λ x. refl) (held.of.same b)
        (λ a ne. refl)

  bwrite-users :
      (s : Cache D) (c : ℕ) (bytes : List ℕ) (x : ℕ)
      → users (bwrite c (set_data c bytes s)) x ≡ users s x
  unfolding users bwrite set_data
  bwrite-users s c bytes x = elim (ℕ_discrete x c) [
    | yes e ↦ ground (arith, e)
    | no ne ↦ ground (arith, ne)
  ]

  bwrite-lists :
      (s : Cache D) (c : ℕ) (bytes : List ℕ)
      → ((bwrite c (set_data c bytes s)).cached_list ≡ s.cached_list)
        × ((bwrite c (set_data c bytes s)).blk ≡ s.blk)
  unfolding bwrite set_data
  bwrite-lists s c bytes = (refl, refl)

  -- The client writes `bytes` into the buffer.
  pub bwrite-Shown :
      (n : ℕ) (s : Cache D) (b c : ℕ) (s1 : Cache D) (bytes : List ℕ)
      → Held n s b c s1
      → length bytes ≡ 1024
      → (s' : Cache D) × (brelease drive c (bwrite c (set_data c bytes s1)) ≡ ok s')
        × Shown n s b bytes s'
  bwrite-Shown n s b c s1 bytes held size =
      let (lists, blk) = bwrite-lists s1 c bytes in
      let used : 0 < users s1 c = omega (arith, held.of.count) in
      let (valid, here, others) =
        bwrite-view laws s1 c bytes held.of.valid held.of.cached used size in
      let s2 : Cache D = bwrite c (set_data c bytes s1) in
      finish n s b c s1 s2 bytes held valid blk lists (bwrite-users s1 c bytes)
        (ap (view laws s2) (sym held.of.block) ∙ here)
        (λ a ne. others a (λ e. ne (e ∙ held.of.block)))

  -- The data of the buffer has the size of a block.
  pub Held-length :
      (n : ℕ) (s : Cache D) (b c : ℕ) (s1 : Cache D)
      → Held n s b c s1
      → length (s1.heads c).b_data ≡ 1024
  Held-length n s b c s1 held = held.of.valid.size c (omega (arith, held.of.cached))
