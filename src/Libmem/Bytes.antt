-- ===== src/Libmem/Bytes.antt =====
-- The bytes that `pg_setval` and `pg_getval` of src/libmem.c write and read.
use simple_operating_system.Common.{
  ℕ, ◌+◌, ◌*◌, ◌%◌, ◌^◌, ◌≤◌, ◌<◌, ◌≡◌, ◌≢◌, inl, inr, refl, sym, ap, subst, ◌∙◌, true, Option,
  none, some, List, [], ◌∷◌, arith, length, Bool-cases, ℤ, success, lt→leb,
}
use native.Mathlib.Decide.{ℕ_discrete}
use simple_operating_system.Mm.{Krnl, paging_pagesz, paging_max_pgn}
use simple_operating_system.Phy.{MemphyOps, update}
use simple_operating_system.Phy.Laws.{MemphyLaws}
use simple_operating_system.Pte.{pte_fpn}
use simple_operating_system.Pte.Address.{paging_pgn, paging_pgn-lem, paging_offst-lem}
use simple_operating_system.Paging.Tree.{Owner}
use simple_operating_system.Paging.Progress.{pte_set_fpn-frames}
use simple_operating_system.Paging.Data.{poked, Tree-poked, get-poked}
use simple_operating_system.Libmem.{
  fault_page, pg_getpage, phyaddr, pg_getval, pg_setval, read_byte, write_byte,
}
use simple_operating_system.Libmem.Pages.{present, frame, Pages, pg_getpage-Resident}

-- The page of an address, and the address as an `int`.
abbrev pub as_int : ℕ → ℕ
as_int addr = addr % 2 ^ 32

abbrev pub page_of : ℕ → ℕ
page_of addr = paging_pgn (as_int addr)

pub page_of_bound : (addr : ℕ) → page_of addr < paging_max_pgn
page_of_bound addr = omega (arith, paging_pgn-lem (as_int addr))

module _ (phy : MemphyOps) (laws : MemphyLaws phy) where
  getpage_present :
      (k : Krnl) (pgn f : ℕ)
      → pgn < paging_max_pgn
      → present k pgn ≡ true
      → frame k pgn ≡ f
      → pg_getpage phy k pgn ≡ (k, some f)
  unfolding pg_getpage
  getpage_present k pgn f h p e = rw (lt→leb paging_max_pgn pgn h, p, e, pg_getpage) refl

  -- An access to a page that is present.
  module _ {o : Owner} {k : Krnl} (s : Pages o k) (addr f : ℕ) (p : present k (page_of addr) ≡ true)
      (e : frame k (page_of addr) ≡ f) where
    facts :
        (o f ≡ [])
        × (f * paging_pagesz ≤ phyaddr phy f (as_int addr))
        × (phyaddr phy f (as_int addr) < f * paging_pagesz + paging_pagesz)
        × (phyaddr phy f (as_int addr) < k.mram.maxsz)
    facts =
        let (a, b, d) = s.data_frame (page_of addr) (omega (arith, page_of_bound addr)) p in
        (
          sym (ap o e) ∙ a,
          omega arith,
          omega (arith, paging_offst-lem (as_int addr)),
          omega (arith, paging_offst-lem (as_int addr), e, d),
        )

    getval_present : pg_getval phy k addr ≡ (k, some (k.mram.storage (phyaddr phy f (as_int addr))))
    unfolding pg_getval read_byte
    getval_present =
        rw
          (
            getpage_present k (page_of addr) f (page_of_bound addr) p e,
            laws.reads k.mram (phyaddr phy f (as_int addr)) s.random facts.3,
          )
          refl

    setval_present :
        (v : ℕ)
        → pg_setval phy k addr v
          ≡ (poked o k f (phyaddr phy f (as_int addr)) v s.tree facts.0 facts.1 facts.2, success)
    unfolding pg_setval write_byte
    setval_present v =
        rw
          (
            getpage_present k (page_of addr) f (page_of_bound addr) p e,
            laws.writes k.mram (phyaddr phy f (as_int addr)) v s.random facts.3,
          )
          refl

  -- Writing a byte keeps the pages.
  poked-Pages :
      {o : Owner} {k : Krnl} (s : Pages o k) (f a v : ℕ) (d : o f ≡ [])
      (low : f * paging_pagesz ≤ a) (high : a < f * paging_pagesz + paging_pagesz)
      → Pages o (poked o k f a v s.tree d low high)
  poked-Pages {o} {k} s f a v d low high =
      let g = get-poked o k f a v s.tree d low high in
      record {
        tree = Tree-poked o k f a v s.tree d low high;
        random = s.random;
        data_frame = λ p h c. rw (g p) (s.data_frame p h (rw (g p) at c));
        apart =
            λ p q hp hq n b c. rw (g p, g q) (s.apart p q hp hq n (rw (g p) at b) (rw (g q) at c));
      }

  -- What a write leaves: the pages, and the byte, which reads back.
  abbrev Written : Krnl → (addr v : ℕ) → Type 0
  Written k addr v = (o : Owner) × Pages o k × (pg_getval phy k addr ≡ (k, some v))

  pub setval_present-Written :
      (o : Owner) (k : Krnl) (addr f v : ℕ)
      → Pages o k
      → present k (page_of addr) ≡ true
      → frame k (page_of addr) ≡ f
      → ((pg_setval phy k addr v).1 ≡ success) × Written (pg_setval phy k addr v).0 addr v
  setval_present-Written o k addr f v s p e =
      let (d, low, high, b) = facts s addr f p e in
      let a = phyaddr phy f (as_int addr) in
      let k' = poked o k f a v s.tree d low high in
      let s' = poked-Pages s f a v d low high in
      let g = get-poked o k f a v s.tree d low high (page_of addr) in
      let stored : update k.mram.storage a v a ≡ v = ground arith in
      rw (setval_present s addr f p e v) (
        refl,
        (o, s', getval_present s' addr f (rw g p) (rw g e) ∙ ap (λ (x : ℕ). (k', some x)) stored),
      )

  -- `pg_setval` after the lookup of the page.
  setval_after :
      (k k' : Krnl) (addr v f : ℕ)
      → pg_getpage phy k (page_of addr) ≡ (k', some f)
      → pg_getpage phy k' (page_of addr) ≡ (k', some f)
      → pg_setval phy k addr v ≡ pg_setval phy k' addr v
  unfolding pg_setval
  setval_after k k' addr v f e e' = rw (e, e') refl

  setval_lookup :
      (o : Owner) (k k' : Krnl) (addr v f : ℕ)
      → Pages o k
      → pg_getpage phy k (page_of addr) ≡ (k', some f)
      → ((pg_setval phy k addr v).1 ≡ success) × Written (pg_setval phy k addr v).0 addr v
  setval_lookup o k k' addr v f s r =
      let (o', s', p, e) = pg_getpage-Resident phy laws o k k' (page_of addr) f s r in
      let again = getpage_present k' (page_of addr) f (page_of_bound addr) p e in
      rw (setval_after k k' addr v f r again) (setval_present-Written o' k' addr f v s' p e)

  lookup_cases :
      (o : Owner) (k : Krnl) (addr v : ℕ)
      → Pages o k
      → (pg_setval phy k addr v).1 ≡ success
      → Written (pg_setval phy k addr v).0 addr v
  unfolding pg_setval write_byte
  lookup_cases o k addr v s h = go (pg_getpage phy k (page_of addr)) refl
    where
      go :
          (r : Krnl × Option ℕ)
          → pg_getpage phy k (page_of addr) ≡ r
          → Written (pg_setval phy k addr v).0 addr v
      go (k', none) e = cc (rw (e, write_byte) at h)
      go (k', some f) e = (setval_lookup o k k' addr v f s e).1

  -- When the pages have frames of their own, a byte that has been written successfully reads back,
  -- whether its page was present or a fault brought it in.
  pub pg_setval-pg_getval :
      (o : Owner) (k k' : Krnl) (addr v : ℕ)
      → Pages o k
      → pg_setval phy k addr v ≡ (k', success)
      → pg_getval phy k' addr ≡ (k', some v)
  pg_setval-pg_getval o k k' addr v s h =
      let (o', s', e) = lookup_cases o k addr v s (ap (λ (r : Krnl × ℤ). r.1) h) in
      subst (λ (x : Krnl). pg_getval phy x addr ≡ (x, some v)) (ap (λ (r : Krnl × ℤ). r.0) h) e

  -- A successful write keeps the frames of the pages apart from each other, from the tables and
  -- from the free frames.
  pub pg_setval-Pages :
      (o : Owner) (k k' : Krnl) (addr v : ℕ)
      → Pages o k
      → pg_setval phy k addr v ≡ (k', success)
      → (o' : Owner) × Pages o' k'
  pg_setval-Pages o k k' addr v s h =
      let (o', s', e) = lookup_cases o k addr v s (ap (λ (r : Krnl × ℤ). r.1) h) in
      (o', subst (Pages o') (ap (λ (r : Krnl × ℤ). r.0) h) s')

  fault_page-succeeds :
      (k : Krnl) (pgn : ℕ)
      → 5 ≤ length k.mram.free_fp_list
      → (f : ℕ) × ((fault_page phy k pgn).1 ≡ some f)
  unfolding fault_page
  fault_page-succeeds k pgn h = go k.mram.free_fp_list refl h
    where
      go :
          (fs : List ℕ)
          → k.mram.free_fp_list ≡ fs
          → 5 ≤ length fs
          → (f : ℕ) × ((fault_page phy k pgn).1 ≡ some f)
      go [] e l = absurd (omega arith)
      go (f ∷ fs) e l =
          let (m, g) = laws.gives k.mram f fs e in
          let taken = (laws.taken k.mram m f g).0 in
          let enough : 4 ≤ length m.free_fp_list = omega (arith, ap length (sym e ∙ taken)) in
          let status = pte_set_fpn-frames phy laws (record k { mram = m }) pgn f enough in
          rw (g, fault_page, status) (f, refl)

  pub getpage-succeeds :
      (k : Krnl) (pgn : ℕ)
      → pgn < paging_max_pgn
      → 5 ≤ length k.mram.free_fp_list
      → (f : ℕ) × ((pg_getpage phy k pgn).1 ≡ some f)
  unfolding pg_getpage
  getpage-succeeds k pgn b h = elim (Bool-cases (present k pgn)) [
    | inl p ↦ rw (lt→leb paging_max_pgn pgn b, p, pg_getpage) (frame k pgn, refl)
    | inr p ↦ rw (lt→leb paging_max_pgn pgn b, p, pg_getpage) (fault_page-succeeds k pgn h)
  ]

  -- When the pages have frames of their own and five frames are free, one for the page and four for
  -- tables, a write succeeds at every address.
  pub pg_setval-succeeds :
      (o : Owner) (k : Krnl) (addr v : ℕ)
      → Pages o k
      → 5 ≤ length k.mram.free_fp_list
      → (pg_setval phy k addr v).1 ≡ success
  pg_setval-succeeds o k addr v s h =
      let (f, e) = getpage-succeeds k (page_of addr) (page_of_bound addr) h in
      let r = ap (λ (x : Option ℕ). ((pg_getpage phy k (page_of addr)).0, x)) e in
      (setval_lookup o k (pg_getpage phy k (page_of addr)).0 addr v f s r).0

  -- Two addresses of pages that are present have different places in the RAM.
  place_apart :
      (o : Owner) (k : Krnl) (addr b : ℕ)
      → Pages o k
      → present k (page_of addr) ≡ true
      → present k (page_of b) ≡ true
      → addr % 2 ^ 22 ≢ b % 2 ^ 22
      → phyaddr phy (frame k (page_of b)) (as_int b)
        ≢ phyaddr phy (frame k (page_of addr)) (as_int addr)
  place_apart o k addr b s p q n e = elim (ℕ_discrete (page_of addr) (page_of b)) [
    | yes z ↦ n (
        omega (
          arith,
          z,
          e,
          ap (frame k) z,
          paging_pgn-lem (as_int addr),
          paging_pgn-lem (as_int b),
          paging_offst-lem (as_int addr),
          paging_offst-lem (as_int b),
        ))
    | no w ↦
        s.apart (page_of addr) (page_of b) (omega (arith, page_of_bound addr))
          (omega (arith, page_of_bound b)) w p q
          (omega (arith, e, paging_offst-lem (as_int addr), paging_offst-lem (as_int b)))
  ]

  -- When the pages have frames of their own, writing a byte of a page that is present leaves every
  -- other byte of the pages that are present: those whose address differs in the 22 digits that are
  -- translated.
  pub pg_setval-others :
      (o : Owner) (k k' : Krnl) (addr b v : ℕ)
      → Pages o k
      → present k (page_of addr) ≡ true
      → present k (page_of b) ≡ true
      → addr % 2 ^ 22 ≢ b % 2 ^ 22
      → pg_setval phy k addr v ≡ (k', success)
      → (pg_getval phy k' b).1 ≡ (pg_getval phy k b).1
  pg_setval-others o k k' addr b v s p q n h =
      let (d, low, high, bound) = facts s addr (frame k (page_of addr)) p refl in
      let a = phyaddr phy (frame k (page_of addr)) (as_int addr) in
      let c = phyaddr phy (frame k (page_of b)) (as_int b) in
      let k1 = poked o k (frame k (page_of addr)) a v s.tree d low high in
      let s1 = poked-Pages s (frame k (page_of addr)) a v d low high in
      let g = get-poked o k (frame k (page_of addr)) a v s.tree d low high (page_of b) in
      let same : k1 ≡ k' =
        ap (λ (r : Krnl × ℤ). r.0)
          (sym (setval_present s addr (frame k (page_of addr)) p refl v) ∙ h) in
      let away = place_apart o k addr b s p q n in
      let kept : update k.mram.storage a v c ≡ k.mram.storage c = ground (arith, away) in
      ap (λ (x : Krnl). (pg_getval phy x b).1) (sym same)
      ∙ ap (λ (r : Krnl × Option ℕ). r.1)
          (getval_present s1 b (frame k (page_of b)) (rw g q) (ap pte_fpn g))
      ∙ ap some kept
      ∙ sym (ap (λ (r : Krnl × Option ℕ). r.1) (getval_present s b (frame k (page_of b)) q refl))
