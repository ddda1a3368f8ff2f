-- ===== src/Zone/Reserve.antt =====
-- fs/fs.c: `_reserve_zone` when at most one zone is missing.
use native.Mathlib.Decide.{ℕ_discrete, dec_le}
use rxd_os.Prelude.{
  ℕ, zero, suc, ◌+◌, ◌-◌, ◌*◌, ◌≤◌, ◌<◌, ◌≡◌, ◌≢◌, ◌⊎◌, inl, inr, refl, sym, ◌∙◌, ap, List, ok,
  panic, arith, length, get_or, set, replicate, length-set, get_or-set_self, get_or-set_ne,
}
use mathlib.Core.Path.{subst}
use rxd_os.Blk.{Drive}
use rxd_os.Buffer.{Cache}
use rxd_os.Buffer.Disk.{DiskLaws, InDisk}
use rxd_os.Buffer.Coherence.{view}
use rxd_os.Buffer.Session.{Idle}
use rxd_os.Blockmap.Next.{Idle-less, IsFull}
use rxd_os.Super.{SuperBlock}
use rxd_os.Super.Layout.{Layout}
use rxd_os.Inode.{Inode}
use rxd_os.Zone.{zones_of, set_zone_blk, get_blk, grow, reserve_zone}
use rxd_os.Zone.Direct.{set_zone_blk-ok}
use rxd_os.Zone.Fresh.{block_bit, HasZmap, Got, get_blk-Got}

abbrev pub zone : Inode → ℕ → ℕ
zone i k = get_or i.i_zone k 0

-- Inode `i` after its zones became `zs`.
abbrev pub with_zones : Inode → List ℕ → Inode
with_zones i zs = record i { i_zone = zs }

module _ {D : Type 0} (drive : Drive D) where
  -- One round of the loop that takes zones.
  grow_one :
      (sb : SuperBlock) (rounds m t : ℕ) (i i' : Inode) (s s' : Cache D)
      → rounds ≡ 1
      → get_blk drive sb s ≡ ok (t, s')
      → set_zone_blk i m t ≡ ok i'
      → grow drive sb rounds m i s ≡ ok (i', s')
  unfolding grow
  grow_one sb zero m t i i' s s' one run put = absurd (omega (arith, one))
  grow_one sb (suc zero) m t i i' s s' one run put = ground (arith, run, put)
  grow_one sb (suc (suc rounds)) m t i i' s s' one run put = absurd (omega (arith, one))

  grow_none :
      (sb : SuperBlock) (rounds m : ℕ) (i : Inode) (s : Cache D)
      → 0 < rounds
      → get_blk drive sb s ≡ panic
      → grow drive sb rounds m i s ≡ panic
  unfolding grow
  grow_none sb zero m i s some_round run = absurd (omega (arith, some_round))
  grow_none sb (suc rounds) m i s some_round run = ground (arith, run)

module _ {D : Type 0} {drive : Drive D} (laws : DiskLaws drive) where
  -- The first `m` zones of `i` are blocks of the data, taken in the map, each of them once; all direct
  -- zones are blocks of the disk.
  pub record HasZones (s : Cache D) (sb : SuperBlock) (i : Inode) (m : ℕ) : Type 0 where
    pub few : m ≤ 7
    pub size : length i.i_zone ≡ 9
    pub inside : (k : ℕ) → k ≤ 6 → InDisk laws (zone i k)
    pub in_map : (k : ℕ) → k < m → zone i k < sb.s_zmap_count * 4096
    pub taken : (k : ℕ) → k < m → block_bit laws s sb (zone i k) ≡ 1
    pub behind : (k : ℕ) → k < m → sb.s_data_start ≤ zone i k
    pub apart : (k l : ℕ) → k < m → l < m → zone i k ≡ zone i l → k ≡ l

  -- The inode has `m` zones after it had `n_old`; a zone that is new holds zeros, and what was not free
  -- is as it was.
  pub record Reserved (n : ℕ) (sb : SuperBlock) (s : Cache D) (i : Inode) (n_old m : ℕ)
      (zs : List ℕ) (s' : Cache D) : Type 0 where
    pub idle : Idle laws n s'
    pub zones : HasZones s' sb (with_zones i zs) m
    pub old : (k : ℕ) → k < n_old → get_or zs k 0 ≡ zone i k
    pub rest : (k : ℕ) → m ≤ k → get_or zs k 0 ≡ zone i k
    pub fresh : (k : ℕ) → n_old ≤ k → k < m → view laws s' (get_or zs k 0) ≡ replicate 1024 0
    pub was_free : (k : ℕ) → n_old ≤ k → k < m → block_bit laws s sb (get_or zs k 0) ≡ 0
    pub others :
        (b : ℕ)
        → ((k : ℕ) → n_old ≤ k → k < m → b ≢ get_or zs k 0)
        → b < sb.s_zmap_start ⊎ sb.s_zmap_start + sb.s_zmap_count ≤ b
        → view laws s' b ≡ view laws s b
    pub zmap : HasZmap laws s' sb

  -- When a zone was taken, the map had a free block.
  pub Reserved-room :
      (n : ℕ) (sb : SuperBlock) (s : Cache D) (i : Inode) (n_old m : ℕ) (zs : List ℕ) (s' : Cache D)
      → Reserved n sb s i n_old m zs s'
      → n_old < m
      → ¬ IsFull laws s sb.s_zmap_start sb.s_zmap_count
  Reserved-room n sb s i n_old m zs s' r more full = omega (
    arith,
    full (get_or zs n_old 0) (r.zones.in_map n_old more),
    r.was_free n_old (omega arith) more,
  )

  module _ (n : ℕ) (sb : SuperBlock) (s : Cache D) (i : Inode) (layout : Layout laws sb)
      (zmap : HasZmap laws s sb) (m : ℕ) (zones : HasZones s sb i m) where
    -- The zone that is set.
    new_zone : (t k : ℕ) → m ≤ 6 → k ≡ m → get_or (set i.i_zone m t) k 0 ≡ t
    new_zone t k h e =
        ap (λ j. get_or (set i.i_zone m t) j 0) e
        ∙ get_or-set_self i.i_zone m t 0 (omega (arith, h, zones.size))

    old_zone : (t k : ℕ) → k ≢ m → get_or (set i.i_zone m t) k 0 ≡ zone i k
    old_zone t k ne = get_or-set_ne i.i_zone m k t 0 (λ e. ne (sym e))

    -- The block that is new is none of the zones.
    is_new : (t k : ℕ) → block_bit laws s sb t ≡ 0 → k < m → zone i k ≢ t
    is_new t k free h e = omega (arith, ap (block_bit laws s sb) e, free, zones.taken k h)

    Got-HasZones :
        (t : ℕ) (s' : Cache D)
        → m ≤ 6
        → Got laws n sb s t s'
        → HasZones s' sb (with_zones i (set i.i_zone m t)) (m + 1)
    Got-HasZones t s' h got = record {
      few = omega (arith, h);
      size = length-set i.i_zone m t ∙ zones.size;
      inside = λ k direct. elim (ℕ_discrete k m) [
        | yes e ↦ subst (InDisk laws) (sym (new_zone t k h e)) got.on_disk
        | no ne ↦ subst (InDisk laws) (sym (old_zone t k ne)) (zones.inside k direct)
      ];
      in_map = λ k small. elim (ℕ_discrete k m) [
        | yes e ↦ omega (arith, new_zone t k h e, got.in_map)
        | no ne ↦ omega (arith, old_zone t k ne, zones.in_map k (omega (arith, small, ne)))
      ];
      taken = λ k small. elim (ℕ_discrete k m) [
        | yes e ↦
            ap (block_bit laws s' sb) (new_zone t k h e) ∙ got.bits t got.in_map ∙ ground arith
        | no ne ↦
            let low : k < m = omega (arith, small, ne) in
            let bit = got.bits (zone i k) (zones.in_map k low) in
            let other = is_new t k got.was_free low in
            ap (block_bit laws s' sb) (old_zone t k ne)
            ∙ ground (arith, bit, other, zones.taken k low)
      ];
      behind = λ k small. elim (ℕ_discrete k m) [
        | yes e ↦ omega (arith, new_zone t k h e, got.behind)
        | no ne ↦ omega (arith, old_zone t k ne, zones.behind k (omega (arith, small, ne)))
      ];
      apart = λ k l small small' same. elim (ℕ_discrete k m) [
        | yes e ↦ elim (ℕ_discrete l m) [
          | yes e' ↦ e ∙ sym e'
          | no ne' ↦ absurd (
              is_new t l got.was_free (omega (arith, small', ne'))
                (sym (old_zone t l ne') ∙ sym same ∙ new_zone t k h e))
        ]
        | no ne ↦ elim (ℕ_discrete l m) [
          | yes e' ↦ absurd (
              is_new t k got.was_free (omega (arith, small, ne))
                (sym (old_zone t k ne) ∙ same ∙ new_zone t l h e'))
          | no ne' ↦
              zones.apart k l (omega (arith, small, ne)) (omega (arith, small', ne'))
                (sym (old_zone t k ne) ∙ same ∙ old_zone t l ne')
        ]
      ];
    }

    Got-Reserved :
        (t : ℕ) (s' : Cache D)
        → m ≤ 6
        → Got laws n sb s t s'
        → Reserved n sb s i m (m + 1) (set i.i_zone m t) s'
    Got-Reserved t s' h got = record {
      idle = got.idle;
      zones = Got-HasZones t s' h got;
      old = λ k small. old_zone t k (λ e. omega (arith, small, e));
      rest = λ k large. old_zone t k (λ e. omega (arith, large, e));
      fresh = λ k p q. ap (view laws s') (new_zone t k h (omega (arith, p, q))) ∙ got.zeros;
      was_free =
          λ k p q. ap (block_bit laws s sb) (new_zone t k h (omega (arith, p, q))) ∙ got.was_free;
      others = λ b ne out.
          got.others b (λ e. ne m (omega arith) (omega arith) (e ∙ sym (new_zone t m h refl))) out;
      zmap = got.zmap;
    }

    abbrev ReserveResult : (need : ℕ) → Type 0
    ReserveResult need =
        ((m' : ℕ) × (zs : List ℕ) × (s' : Cache D) × (need ≤ m')
          × (m ≤ m')
          × (m' ≤ m ⊎ m' ≤ need)
          × (reserve_zone drive sb i need 0 s ≡ ok (with_zones i zs, s'))
          × Reserved n sb s i m m' zs s')
        ⊎ ((reserve_zone drive sb i need 0 s ≡ panic)
            × (m < need)
            × IsFull laws s sb.s_zmap_start sb.s_zmap_count)

    -- A file with `m` zones that needs at most one more.
    pub reserve_zone-Reserved :
        (need : ℕ)
        → 0 < i.i_inum
        → zones_of i.i_size ≡ m
        → need ≤ m + 1
        → need ≤ 7
        → Idle laws (suc (suc n) + 2 * sb.s_zmap_count) s
        → ReserveResult need
    unfolding reserve_zone
    reserve_zone-Reserved need number size one_more few idle = elim (dec_le need m) [
      | yes enough ↦ inl (
        m,
        i.i_zone,
        s,
        enough,
        omega arith,
        inl (omega arith),
        ground (arith, number, size, enough),
        record {
          idle = Idle-less laws n (suc (suc n) + 2 * sb.s_zmap_count) s (omega arith) idle;
          zones = zones;
          old = λ k small. refl;
          rest = λ k large. refl;
          fresh = λ k p q. absurd (omega (arith, p, q));
          was_free = λ k p q. absurd (omega (arith, p, q));
          others = λ b ne out. refl;
          zmap = zmap;
        },
      )
      | no more ↦
          let rounds : need - zones_of i.i_size ≡ 1 = omega (arith, size, more, one_more) in
          let direct : m ≤ 6 = omega (arith, more, few) in
          elim (get_blk-Got laws n sb s layout zmap idle) [
            | inl (t, s', run, got) ↦
                let put = set_zone_blk-ok i m t zones.size direct in
                inl (
                  m + 1,
                  set i.i_zone m t,
                  s',
                  omega (arith, one_more),
                  omega arith,
                  inr (omega (arith, more)),
                  ground (
                    arith,
                    number,
                    size,
                    more,
                    grow_one drive sb (need - zones_of i.i_size) m t i
                        (with_zones i (set i.i_zone m t)) s s' rounds run put,
                  ),
                  Got-Reserved t s' direct got,
                )
            | inr (run, full) ↦ inr (
              ground (
                arith,
                number,
                size,
                more,
                grow_none drive sb (need - zones_of i.i_size) m i s (omega (arith, rounds)) run,
              ),
              omega (arith, more),
              full,
            )
          ]
    ]
