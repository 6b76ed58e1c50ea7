-- ===== src/Libmem/Access.antt =====
-- `__read` and `__write` of src/libmem.c: the byte of a region at an offset.
use simple_operating_system.Common.{
  ℕ, ◌+◌, ◌-◌, ◌%◌, ◌^◌, ◌≤◌, ◌<◌, ◌≡◌, ◌≢◌, refl, sym, ap, subst, ◌∙◌, inl, inr, ◌⊎◌, true, false,
  ◌||◌, Bool, Option, none, some, List, leb, Bool-cases, ℤ, success, get_or, arith, length, lt→leb,
}
use mathlib.Core.Option.{some-injective}
use simple_operating_system.Mm.{Krnl, Region, no_region, word, paging_max_symtbl_sz}
use simple_operating_system.Phy.{MemphyOps}
use simple_operating_system.Phy.Laws.{MemphyLaws}
use simple_operating_system.Paging.Tree.{Owner}
use simple_operating_system.Libmem.{
  region, unused, alloc_region, pg_setval, address_after, region_address, read_at, write_at,
  read_region, write_region,
}
use simple_operating_system.Libmem.Regions.{Layout}
use simple_operating_system.Libmem.Pages.{present, Pages}
use simple_operating_system.Libmem.Bytes.{
  page_of, pg_setval-pg_getval, pg_setval-others, pg_setval-succeeds,
}
use simple_operating_system.Libmem.Symbols.{symbols-pg_setval, alloc_region-Pages}

-- The test of the region and the offset that `__read` and `__write` make.
abbrev pub outside : Region → (offset : ℕ) → Bool
outside r offset = leb r.rg_end r.rg_start || leb (r.rg_end - r.rg_start) offset

-- An offset inside an allocated region, and its address.
pub record Located (k : Krnl) (rgid offset addr : ℕ) : Type 0 where
  pub in_table : leb paging_max_symtbl_sz rgid ≡ false
  pub within : outside (region k rgid) offset ≡ false
  pub at : addr ≡ ((region k rgid).rg_start + offset) % word

used :
    (k : Krnl) (rgid offset : ℕ)
    → outside (region k rgid) offset ≡ false
    → unused (region k rgid) ≡ false
used k rgid offset h = ground arith

pub inside-Located :
    (k : Krnl) (rgid offset : ℕ)
    → rgid < paging_max_symtbl_sz
    → (region k rgid).rg_start + offset < (region k rgid).rg_end
    → (region k rgid).rg_start + offset < word
    → Located k rgid offset ((region k rgid).rg_start + offset)
inside-Located k rgid offset b h w = record {
  in_table = lt→leb paging_max_symtbl_sz rgid b;
  within = ground arith;
  at = omega arith;
}

module _ {k : Krnl} (l : Layout k) where
  below_limit :
      (i a : ℕ)
      → l.area.sbrk ≤ 2 ^ 22
      → (region k i).rg_start + a < (region k i).rg_end
      → (region k i).rg_start + a < 2 ^ 22
  below_limit i a h p = elim (l.placed i) [ inl u ↦ ground arith | inr r ↦ omega (arith, r) ]

  -- Different offsets of a region, or any offsets of two regions, have different addresses.
  addresses_apart :
      (i j a b : ℕ)
      → (i ≢ j) ⊎ ((i ≡ j) × (a ≢ b))
      → (region k i).rg_start + a < (region k i).rg_end
      → (region k j).rg_start + b < (region k j).rg_end
      → (region k i).rg_start + a ≢ (region k j).rg_start + b
  addresses_apart i j a b (inr (e, n)) p q z =
      n (omega (arith, z, ap (λ (x : ℕ). (region k x).rg_start) e))
  addresses_apart i j a b (inl n) p q z = elim (l.apart i j n) [
    | inl u ↦ ground arith
    | inr (inl u) ↦ ground arith
    | inr (inr (inl g)) ↦ omega (arith, z, p, q, g)
    | inr (inr (inr g)) ↦ omega (arith, z, p, q, g)
  ]

module _ (phy : MemphyOps) where
  pub Located-region_address :
      (k : Krnl) (vmaid rgid offset addr : ℕ)
      → Located k rgid offset addr
      → region_address phy k vmaid rgid offset ≡ (k, some addr)
  unfolding region_address address_after
  Located-region_address k vmaid rgid offset addr l =
      rw (l.in_table, used k rgid offset l.within, l.within)
        (ap (λ (x : ℕ). (k, some x)) (sym l.at))

  after-Located :
      (k k' : Krnl) (rgid offset addr : ℕ) (r : Krnl × Option ℕ)
      → leb paging_max_symtbl_sz rgid ≡ false
      → address_after phy rgid offset r ≡ (k', some addr)
      → (r.0 ≡ k') × Located k' rgid offset addr
  unfolding address_after
  after-Located k k' rgid offset addr (k1, none) h e = cc (ap (λ (x : Krnl × Option ℕ). x.1) e)
  after-Located k k' rgid offset addr (k1, some a) h e =
      elim (Bool-cases (outside (region k1 rgid) offset)) [
        | inl b ↦ cc (ap (λ (x : Krnl × Option ℕ). x.1) (rw b at e))
        | inr b ↦
            let e' = rw b at e in
            let same : k1 ≡ k' = ap (λ (x : Krnl × Option ℕ). x.0) e' in
            let at_addr : ((region k1 rgid).rg_start + offset) % word ≡ addr =
              some-injective (((region k1 rgid).rg_start + offset) % word) addr
                (ap (λ (x : Krnl × Option ℕ). x.1) e') in
            (
              same,
              subst (λ (x : Krnl). Located x rgid offset addr) same
                  (record { in_table = h; within = b; at = sym at_addr }),
            )
      ]

  -- An address that the checks let through, and the pages, which a first allocation keeps.
  pub region_address-Located :
      (o : Owner) (k k' : Krnl) (vmaid rgid offset addr : ℕ)
      → Pages o k
      → region_address phy k vmaid rgid offset ≡ (k', some addr)
      → Pages o k' × Located k' rgid offset addr
  unfolding region_address
  region_address-Located o k k' vmaid rgid offset addr s e =
      elim (Bool-cases (leb paging_max_symtbl_sz rgid)) [
        | inl h ↦ cc (ap (λ (x : Krnl × Option ℕ). x.1) (rw h at e))
        | inr h ↦ elim (Bool-cases (unused (region k rgid))) [
          | inl u ↦
              let (a, b) =
                after-Located k k' rgid offset addr (alloc_region phy k vmaid rgid 100) h
                  (rw (h, u) at e) in
              (subst (Pages o) a (alloc_region-Pages phy o k vmaid rgid 100 s), b)
          | inr u ↦
              let (a, b) =
                after-Located k k' rgid offset addr (k, some (region k rgid).rg_start) h
                  (rw (h, u) at e) in
              (subst (Pages o) a s, b)
        ]
      ]

module _ (phy : MemphyOps) (laws : MemphyLaws phy) where
  -- A write keeps the place of every offset.
  Located-pg_setval :
      (k : Krnl) (a v rgid offset addr : ℕ)
      → Located k rgid offset addr
      → Located (pg_setval phy k a v).0 rgid offset addr
  Located-pg_setval k a v rgid offset addr l =
      let e : region (pg_setval phy k a v).0 rgid ≡ region k rgid =
        ap (λ (t : List Region). get_or t rgid no_region) (symbols-pg_setval phy laws k a v) in
      record { in_table = l.in_table; within = rw e l.within; at = rw e l.at }

  -- When the pages have frames of their own, a byte that `__write` has written at an offset of a
  -- region is the byte that `__read` gives there, whether the region was allocated before or not.
  pub write_region-read_region :
      (o : Owner) (k k' : Krnl) (vmaid rgid offset v : ℕ)
      → Pages o k
      → write_region phy k vmaid rgid offset v ≡ (k', success)
      → read_region phy k' vmaid rgid offset ≡ (k', some v)
  unfolding write_region read_region write_at read_at
  write_region-read_region o k k' vmaid rgid offset v s h =
      go (region_address phy k vmaid rgid offset) refl h
    where
      go :
          (r : Krnl × Option ℕ)
          → region_address phy k vmaid rgid offset ≡ r
          → write_at phy v r ≡ (k', success)
          → read_at phy (region_address phy k' vmaid rgid offset) ≡ (k', some v)
      go (k1, none) e h' = cc (ap (λ (x : Krnl × ℤ). x.1) h')
      go (k1, some addr) e h' =
          let (s1, l) = region_address-Located phy o k k1 vmaid rgid offset addr s e in
          let w : pg_setval phy k1 addr v ≡ (k', success) = h' in
          let moved : Located k' rgid offset addr =
            subst (λ (x : Krnl). Located x rgid offset addr) (ap (λ (x : Krnl × ℤ). x.0) w)
              (Located-pg_setval k1 addr v rgid offset addr l) in
          ap (read_at phy) (Located-region_address phy k' vmaid rgid offset addr moved)
          ∙ pg_setval-pg_getval phy laws o k1 k' addr v s1 w

  -- A write inside an allocated region succeeds when the pages have frames of their own and five
  -- frames are free.
  pub write_region-succeeds :
      (o : Owner) (k : Krnl) (vmaid rgid offset v : ℕ)
      → Pages o k
      → rgid < paging_max_symtbl_sz
      → (region k rgid).rg_start + offset < (region k rgid).rg_end
      → 5 ≤ length k.mram.free_fp_list
      → (write_region phy k vmaid rgid offset v).1 ≡ success
  unfolding write_region write_at
  write_region-succeeds o k vmaid rgid offset v s b h free =
      let addr = ((region k rgid).rg_start + offset) % word in
      let l : Located k rgid offset addr = record {
        in_table = lt→leb paging_max_symtbl_sz rgid b;
        within = ground arith;
        at = refl;
      } in
      ap (λ (r : Krnl × Option ℕ). (write_at phy v r).1)
        (Located-region_address phy k vmaid rgid offset addr l)
      ∙ pg_setval-succeeds phy laws o k addr v s free

  -- When the regions have a layout within the first 4 MB and the pages frames of their own, writing
  -- at an offset of one region leaves what `__read` gives at every offset of another region, and at
  -- every other offset of the same region, as long as the pages of both bytes are present.
  pub write_region-others :
      (o : Owner) (k k' : Krnl) (l : Layout k) (i j a b v : ℕ)
      → Pages o k
      → l.area.sbrk ≤ 2 ^ 22
      → (i ≢ j) ⊎ ((i ≡ j) × (a ≢ b))
      → i < paging_max_symtbl_sz
      → j < paging_max_symtbl_sz
      → (region k i).rg_start + a < (region k i).rg_end
      → (region k j).rg_start + b < (region k j).rg_end
      → present k (page_of ((region k i).rg_start + a)) ≡ true
      → present k (page_of ((region k j).rg_start + b)) ≡ true
      → write_region phy k 0 i a v ≡ (k', success)
      → (read_region phy k' 0 j b).1 ≡ (read_region phy k 0 j b).1
  unfolding write_region read_region write_at read_at
  write_region-others o k k' l i j a b v s h c hi hj p q m n w =
      let x = (region k i).rg_start + a in
      let y = (region k j).rg_start + b in
      let lx = below_limit l i a h p in
      let ly = below_limit l j b h q in
      let li : Located k i a x = inside-Located k i a hi p (omega arith) in
      let lj : Located k j b y = inside-Located k j b hj q (omega arith) in
      let w' : pg_setval phy k x v ≡ (k', success) =
        sym (ap (write_at phy v) (Located-region_address phy k 0 i a x li)) ∙ w in
      let moved : Located k' j b y =
        subst (λ (z : Krnl). Located z j b y) (ap (λ (r : Krnl × ℤ). r.0) w')
          (Located-pg_setval k x v j b y lj) in
      let differ : x % 2 ^ 22 ≢ y % 2 ^ 22 =
        λ e. addresses_apart l i j a b c p q (omega (arith, e)) in
      ap (λ (r : Krnl × Option ℕ). (read_at phy r).1) (Located-region_address phy k' 0 j b y moved)
      ∙ pg_setval-others phy laws o k k' x y v s m n differ w'
      ∙ sym (
          ap (λ (r : Krnl × Option ℕ). (read_at phy r).1) (Located-region_address phy k 0 j b y lj))
