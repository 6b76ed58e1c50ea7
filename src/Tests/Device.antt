-- ===== src/Tests/Device.antt =====
-- A random access device with the documented behaviour of the functions of include/mm.h, and a
-- process that has just been given its memory map by `init_mm` of src/mm64.c.
use mathlib.Core.Option.{some-injective}
use simple_operating_system.Common.{
  ℕ, ◌≡◌, refl, ap, ap₂, sym, Bool, true, false, Option, none, some, List, [], ◌∷◌, ltb,
  if◌then◌else◌, lt→ltb,
}
use simple_operating_system.Mm.{Memphy, Krnl}
use simple_operating_system.Phy.{MemphyOps, update}
use simple_operating_system.Phy.Laws.{MemphyLaws}
use simple_operating_system.Vmap.{init_mm}

abbrev pop_frame : Memphy → List ℕ → Option (ℕ × Memphy)
pop_frame m [] = none
pop_frame m (f ∷ fs) = some (f, record m { free_fp_list = fs })

abbrev read_cell : Memphy → ℕ → Option ℕ × Memphy
read_cell m a = if ltb a m.maxsz then (some (m.storage a), m) else (none, m)

abbrev write_cell : Memphy → ℕ → ℕ → Bool × Memphy
write_cell m a v =
    if ltb a m.maxsz then (true, record m { storage = update m.storage a v }) else (false, m)

abbrev pub device : MemphyOps
device = record {
  get_freefp = λ m. pop_frame m m.free_fp_list;
  put_freefp = λ m f. record m { free_fp_list = f ∷ m.free_fp_list };
  read = read_cell;
  write = write_cell;
}

pop_frame-taken :
    (m m' : Memphy) (f : ℕ) (fs : List ℕ)
    → pop_frame m fs ≡ some (f, m')
    → (fs ≡ f ∷ m'.free_fp_list)
      × (m'.storage ≡ m.storage)
      × (m'.maxsz ≡ m.maxsz)
      × (m'.rdmflg ≡ m.rdmflg)
pop_frame-taken m m' f [] e = cc
pop_frame-taken m m' f (x ∷ fs) e =
    let p = some-injective (x, record m { free_fp_list = fs }) (f, m') e in
    let q = ap (λ (r : ℕ × Memphy). r.1) p in
    (
      ap₂ (◌∷◌) (ap (λ (r : ℕ × Memphy). r.0) p) (ap (λ (d : Memphy). d.free_fp_list) q),
      sym (ap (λ (d : Memphy). d.storage) q),
      sym (ap (λ (d : Memphy). d.maxsz) q),
      sym (ap (λ (d : Memphy). d.rdmflg) q),
    )

pub device-MemphyLaws : MemphyLaws device
device-MemphyLaws = record {
  taken = λ m m' f e. pop_frame-taken m m' f m.free_fp_list e;
  gives = λ m f fs e. (record m { free_fp_list = fs }, rw e refl);
  reads = λ m a r h. rw (lt→ltb a m.maxsz h);
  writes = λ m a v r h. rw (lt→ltb a m.maxsz h);
}

abbrev pub ram : Memphy
ram = record {
  storage = λ x. 0;
  maxsz = 0x1_0000;
  rdmflg = 1;
  cursor = 0;
  free_fp_list = 1 ∷ 2 ∷ 3 ∷ 4 ∷ 5 ∷ 6 ∷ 7 ∷ 8 ∷ [];
  used_fp_list = [];
}

-- A process with nothing mapped.
abbrev pub started : Krnl
started = record { mm = init_mm []; mram = ram; active_mswp = ram }
