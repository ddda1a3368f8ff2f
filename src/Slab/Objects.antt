-- ===== src/Slab/Objects.antt =====
-- mm/slab.c: `_slab_alloc` takes the first free object and `_slab_free` gives one back.
use mathlib.Core.Path.{subst}
use native.Mathlib.Nat.{mul-div_cancel, mul-div-le}
use native.Mathlib.Decide.{ℕ_discrete}
use rxd_os.Chains.{occurrences, list_del, list_del-occurrences, list_del_self, length-list_del}
use rxd_os.Prelude.{
  ℕ, ◌+◌, ◌-◌, ◌*◌, ◌/◌, ◌%◌, ◌^◌, ◌≤◌, ◌<◌, ◌≡◌, inl, inr, refl, sym, ◌∙◌, ap, List, ◌∷◌, arith,
  get_or, set, length-set, get_or-set_self,
}
use rxd_os.Slab.{Slab, objects_of, addr_to_slab}
use rxd_os.Slab.FreeList.{Chain, Chain-set}
use rxd_os.Slab.Check.{SlabHolds}

-- The objects of a slab end below its array.
pub object_bound :
    (objsz objcnt x : ℕ) → objcnt ≡ objects_of objsz → x < objcnt → (x + 1) * (objsz + 4) ≤ 4072
object_bound objsz objcnt x fits h =
    let most : (objsz + 4) * (4072 / (objsz + 4)) ≤ 4072 = mul-div-le 4072 (objsz + 4) in
    let (d, sum) = le-sum x (4072 / (objsz + 4)) (omega (arith, fits, h)) in
    let spread : (objsz + 4) * (4072 / (objsz + 4)) ≡ (x + 1) * (objsz + 4) + d * (objsz + 4) =
      ap (λ q. (objsz + 4) * q) sum ∙ distribute (objsz + 4) x d in
    omega (arith, most, spread)
  where
    le-sum : (x q : ℕ) → x < q → (d : ℕ) × (q ≡ x + 1 + d)
    le-sum x q h = (q - (x + 1), omega (arith, h))

    distribute : (m x d : ℕ) → m * (x + 1 + d) ≡ (x + 1) * m + d * m
    distribute m x d = grind arith

pub object_place :
    (objsz x first : ℕ)
    → first % 4096 ≡ 0
    → 0 < first
    → (x + 1) * (objsz + 4) ≤ 4072
    → addr_to_slab (first + x * objsz) ≡ first + 4072
object_place objsz x first page mapped h =
    let small : x * objsz ≤ 4072 = within objsz x h in omega (arith, page, mapped, small)
  where
    within : (objsz x : ℕ) → (x + 1) * (objsz + 4) ≤ 4072 → x * objsz ≤ 4072
    within objsz x h =
        let e : (x + 1) * (objsz + 4) ≡ x * objsz + (4 * x + objsz + 4) = grind arith in
        omega (arith, h, e)

pub object_number : (objsz x first : ℕ) → 0 < objsz → (first + x * objsz - first) / objsz ≡ x
object_number objsz x first h =
    let e : first + x * objsz - first ≡ x * objsz = omega arith in
    ap (λ a. a / objsz) e ∙ mul-div_cancel x h

-- The lists of the slab, when an object is taken.
pub alloc-SlabHolds :
    (v : Slab) (slab objsz objcnt x : ℕ) (xs ys : List ℕ)
    → SlabHolds v slab objsz objcnt (x ∷ xs) ys
    → SlabHolds
        (record v { free = get_or v.bufctl x 0; inuse = v.inuse + 1 })
        slab
        objsz
        objcnt
        xs
        (x ∷ ys)
unfolding Chain occurrences
alloc-SlabHolds v slab objsz objcnt x xs ys h = record {
  place = h.place;
  page = h.page;
  mapped = h.mapped;
  some_size = h.some_size;
  fits = h.fits;
  array = h.array;
  chain = h.chain.2;
  once = λ z p. omega (arith, h.once z p);
  other = λ z p. omega (arith, h.other z p);
  free_count = omega (arith, h.free_count);
  used_count = omega (arith, h.used_count);
}

-- And when one is given back.
pub free-SlabHolds :
    (v : Slab) (slab objsz objcnt x : ℕ) (xs ys : List ℕ)
    → SlabHolds v slab objsz objcnt xs ys
    → 0 < occurrences x ys
    → x < objcnt
    → v.inuse < 2 ^ 32
    → SlabHolds
        (record v {
          free = x;
          inuse = (v.inuse + (2 ^ 32 - 1)) % 2 ^ 32;
          bufctl = set v.bufctl x v.free;
        })
        slab
        objsz
        objcnt
        (x ∷ xs)
        (list_del x ys)
unfolding Chain occurrences
free-SlabHolds v slab objsz objcnt x xs ys h used inside few =
    let one = h.once x inside in
    let fewer = length-list_del x ys used in
    let back : get_or (set v.bufctl x v.free) x 0 ≡ v.free =
      get_or-set_self v.bufctl x v.free 0 (omega (arith, inside, h.array)) in
    let moved : (z : ℕ)
        → occurrences z (x ∷ xs) + occurrences z (list_del x ys)
          ≡ occurrences z xs + occurrences z ys =
      λ z. elim (ℕ_discrete x z) [
        | yes e ↦
            let self : occurrences z (list_del x ys) + 1 ≡ occurrences z ys =
              ap (λ k. occurrences k (list_del x ys) + 1) (sym e)
              ∙ list_del_self x ys used
              ∙ ap (λ k. occurrences k ys) e in
            ground (arith, e, self)
        | no ne ↦ elim (list_del-occurrences x z ys) [
          | inl keep ↦ ground (arith, ne, keep)
          | inr (same, _) ↦ absurd (ne (sym same))
        ]
      ] in
    record {
      place = h.place;
      page = h.page;
      mapped = h.mapped;
      some_size = h.some_size;
      fits = h.fits;
      array = length-set v.bufctl x v.free ∙ h.array;
      chain = (
        refl,
        omega (arith, inside, h.array, length-set v.bufctl x v.free),
        subst (λ n. Chain (set v.bufctl x v.free) n xs) (sym back)
            (Chain-set v.free x v.free v.bufctl xs h.chain (omega (arith, one, used))),
      );
      once = λ z p. moved z ∙ h.once z p;
      other = λ z p. moved z ∙ h.other z p;
      free_count = omega (arith, h.free_count, h.used_count, fewer, few);
      used_count = omega (arith, h.used_count, fewer, few);
    }
