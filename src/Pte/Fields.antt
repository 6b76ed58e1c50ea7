-- ===== src/Pte/Fields.antt =====
-- The fields of the entries that src/mm64.c writes.
use simple_operating_system.Common.{
  ℕ, ◌*◌, ◌/◌, ◌%◌, ◌^◌, ◌<◌, ◌≡◌, ap, refl, sym, ◌∙◌, bit_and, bit_or, true, false, ◌==◌, arith,
}
use simple_operating_system.Common.Bits.{
  bit_and-bit, bit_or-bit, bit_and-field, bit_and-ones, bit_and-mod, bit_or-mod, zero-bit_or,
  bit_and-zero, bit_or-div, bit_and-div, bit_and-lt, bit_or-lt,
}
use simple_operating_system.Mm.{word}
use simple_operating_system.Pte.{
  dirty_mask, complement, swpoff_mask, swptyp_mask, present_mask, swapped_mask, fpn_mask,
  pte_present, pte_swapped, pte_fpn, pte_swp, online_entry, mapped_entry, swap_entry, setbit,
  clrbit, setval,
}

-- The readers in terms of digits.
pub pte_present-bit : (v : ℕ) → pte_present v ≡ (v / 2 ^ 31 % 2 == 1)
unfolding pte_present
pte_present-bit v = ground (arith, bit_and-field 1 31 v)

pub pte_swapped-bit : (v : ℕ) → pte_swapped v ≡ (v / 2 ^ 30 % 2 == 1)
unfolding pte_swapped
pte_swapped-bit v = ground (arith, bit_and-field 1 30 v)

pub pte_fpn-mod : (v : ℕ) → pte_fpn v ≡ v % 8192
unfolding pte_fpn
pte_fpn-mod v = omega (arith, bit_and-ones 13 v)

-- A cleared entry is not present.
pub zero-present : pte_present 0 ≡ false
unfolding pte_present
zero-present = refl

-- What the macros do to the two status digits and to the frame number.
setbit_present : (v : ℕ) → setbit v present_mask / 2 ^ 31 % 2 ≡ 1
unfolding setbit
setbit_present v = omega (arith, bit_or-bit 31 v present_mask)

setbit_swapped : (v : ℕ) → setbit v swapped_mask / 2 ^ 30 % 2 ≡ 1
unfolding setbit
setbit_swapped v = omega (arith, bit_or-bit 30 v swapped_mask)

setbit_swapped-present : (v : ℕ) → setbit v swapped_mask / 2 ^ 31 % 2 ≡ v / 2 ^ 31 % 2
unfolding setbit
setbit_swapped-present v = omega (arith, bit_or-bit 31 v swapped_mask)

clrbit_swapped : (v : ℕ) → clrbit v swapped_mask / 2 ^ 30 % 2 ≡ 0
unfolding clrbit
clrbit_swapped v = omega (arith, bit_and-bit 30 v (complement swapped_mask))

clrbit_swapped-present : (v : ℕ) → clrbit v swapped_mask / 2 ^ 31 % 2 ≡ v / 2 ^ 31 % 2
unfolding clrbit
clrbit_swapped-present v = omega (arith, bit_and-bit 31 v (complement swapped_mask))

clrbit_dirty-present : (v : ℕ) → clrbit v dirty_mask / 2 ^ 31 % 2 ≡ v / 2 ^ 31 % 2
unfolding clrbit
clrbit_dirty-present v = omega (arith, bit_and-bit 31 v (complement dirty_mask))

clrbit_dirty-swapped : (v : ℕ) → clrbit v dirty_mask / 2 ^ 30 % 2 ≡ v / 2 ^ 30 % 2
unfolding clrbit
clrbit_dirty-swapped v = omega (arith, bit_and-bit 30 v (complement dirty_mask))

-- A value written under a mask that leaves the status digits alone.
setval-bit :
    (k v x mask offst : ℕ)
    → complement mask / 2 ^ k % 2 ≡ 1
    → mask / 2 ^ k % 2 ≡ 0
    → setval v x mask offst / 2 ^ k % 2 ≡ v / 2 ^ k % 2
unfolding setval
setval-bit k v x mask offst h l = omega (
  arith,
  bit_or-bit k (bit_and v (complement mask)) (bit_and (x * 2 ^ offst % word) mask),
  bit_and-bit k v (complement mask),
  bit_and-bit k (x * 2 ^ offst % word) mask,
)

setval_fpn-mod : (v x : ℕ) → setval v x fpn_mask 0 % 8192 ≡ x % 8192
unfolding setval
setval_fpn-mod v x =
    bit_or-mod 13 (bit_and v (complement fpn_mask)) (bit_and (x * 2 ^ 0 % word) fpn_mask)
    ∙ ap (λ (t : ℕ). bit_or t (bit_and (x * 2 ^ 0 % word) fpn_mask % 2 ^ 13)) cleared
    ∙ zero-bit_or _
    ∙ ap (λ (t : ℕ). t % 2 ^ 13) (bit_and-ones 13 (x * 2 ^ 0 % word))
    ∙ omega arith
  where
    cleared : bit_and v (complement fpn_mask) % 2 ^ 13 ≡ 0
    cleared = bit_and-mod 13 v (complement fpn_mask) ∙ bit_and-zero (v % 2 ^ 13)

setval-word : (v x mask offst : ℕ) → mask < 2 ^ 32 → setval v x mask offst < 2 ^ 64
unfolding setval
setval-word v x mask offst h = omega (
  arith,
  bit_or-lt 32 (bit_and v (complement mask)) (bit_and (x * 2 ^ offst % word) mask)
      (bit_and-lt 32 v (complement mask) (omega arith))
      (bit_and-lt 32 (x * 2 ^ offst % word) mask h),
)

-- What is written is an `addr_t`.
pub online_entry-word : (v fpn : ℕ) → online_entry v fpn < 2 ^ 64
unfolding online_entry
online_entry-word v fpn = setval-word _ fpn fpn_mask 0 (omega arith)

pub mapped_entry-word : (fpn : ℕ) → mapped_entry fpn < 2 ^ 64
unfolding mapped_entry
mapped_entry-word fpn = setval-word _ fpn fpn_mask 0 (omega arith)

-- An entry set on line by `init_pte` is present, is not swapped, and names the lowest 13 digits of
-- the frame number, whatever it held before.
pub online_entry-fields :
    (v fpn : ℕ)
    → (pte_present (online_entry v fpn) ≡ true)
      × (pte_swapped (online_entry v fpn) ≡ false)
      × (pte_fpn (online_entry v fpn) ≡ fpn % 8192)
unfolding online_entry
online_entry-fields v fpn =
    let a = setbit v present_mask in
    let b = clrbit a swapped_mask in
    let c = clrbit b dirty_mask in
    let e = setval c fpn fpn_mask 0 in
    (
      ground (
        arith,
        pte_present-bit e,
        setbit_present v,
        clrbit_swapped-present a,
        clrbit_dirty-present b,
        setval-bit 31 c fpn fpn_mask 0 refl refl,
      ),
      ground (
        arith,
        pte_swapped-bit e,
        clrbit_swapped a,
        clrbit_dirty-swapped b,
        setval-bit 30 c fpn fpn_mask 0 refl refl,
      ),
      omega (arith, pte_fpn-mod e, setval_fpn-mod c fpn),
    )

-- The entry that `pte_set_fpn` writes, likewise.
pub mapped_entry-fields :
    (fpn : ℕ)
    → (pte_present (mapped_entry fpn) ≡ true)
      × (pte_swapped (mapped_entry fpn) ≡ false)
      × (pte_fpn (mapped_entry fpn) ≡ fpn % 8192)
unfolding mapped_entry
mapped_entry-fields fpn =
    let a = setbit 0 present_mask in
    let b = clrbit a swapped_mask in
    let e = setval b fpn fpn_mask 0 in
    (
      ground (
        arith,
        pte_present-bit e,
        setbit_present 0,
        clrbit_swapped-present a,
        setval-bit 31 b fpn fpn_mask 0 refl refl,
      ),
      ground (arith, pte_swapped-bit e, clrbit_swapped a, setval-bit 30 b fpn fpn_mask 0 refl refl),
      omega (arith, pte_fpn-mod e, setval_fpn-mod b fpn),
    )

pte_swp-field : (v : ℕ) → pte_swp v ≡ v / 2 ^ 5 % 2 ^ 21
unfolding pte_swp
pte_swp-field v = omega (arith, bit_and-field 21 5 v)

setval_swp : (v x : ℕ) → pte_swp (setval v x swpoff_mask 5) ≡ x % 2 ^ 21
unfolding setval
setval_swp v x =
    pte_swp-field _
    ∙ ap (λ (t : ℕ). t % 2 ^ 21) (bit_or-div 5 kept new)
    ∙ bit_or-mod 21 (kept / 2 ^ 5) (new / 2 ^ 5)
    ∙ ap (λ (t : ℕ). bit_or t (new / 2 ^ 5 % 2 ^ 21)) cleared
    ∙ zero-bit_or _
    ∙ ap (λ (t : ℕ). t / 2 ^ 5 % 2 ^ 21) (bit_and-field 21 5 (x * 2 ^ 5 % word))
    ∙ omega arith
  where
    kept : ℕ
    kept = bit_and v (complement swpoff_mask)

    new : ℕ
    new = bit_and (x * 2 ^ 5 % word) swpoff_mask

    cleared : kept / 2 ^ 5 % 2 ^ 21 ≡ 0
    cleared =
        ap (λ (t : ℕ). t % 2 ^ 21) (bit_and-div 5 v (complement swpoff_mask))
        ∙ bit_and-mod 21 (v / 2 ^ 5) (complement swpoff_mask / 2 ^ 5)
        ∙ bit_and-zero _

-- An entry set by `pte_set_swap` is present and swapped, and gives back the swap offset up to its
-- 21 digits, whatever it held before.
pub swap_entry-fields :
    (v swptyp swpoff : ℕ)
    → (pte_present (swap_entry v swptyp swpoff) ≡ true)
      × (pte_swapped (swap_entry v swptyp swpoff) ≡ true)
      × (pte_swp (swap_entry v swptyp swpoff) ≡ swpoff % 2 ^ 21)
unfolding swap_entry
swap_entry-fields v swptyp swpoff =
    let a = setbit v present_mask in
    let b = setbit a swapped_mask in
    let c = setval b swptyp swptyp_mask 0 in
    let e = setval c swpoff swpoff_mask 5 in
    (
      ground (
        arith,
        pte_present-bit e,
        setbit_present v,
        setbit_swapped-present a,
        setval-bit 31 b swptyp swptyp_mask 0 refl refl,
        setval-bit 31 c swpoff swpoff_mask 5 refl refl,
      ),
      ground (
        arith,
        pte_swapped-bit e,
        setbit_swapped a,
        setval-bit 30 b swptyp swptyp_mask 0 refl refl,
        setval-bit 30 c swpoff swpoff_mask 5 refl refl,
      ),
      setval_swp c swpoff,
    )

-- A reader of an entry sees as much in its 32-bit value.
pub truncated-fields :
    (v : ℕ)
    → (pte_present (v % 2 ^ 32) ≡ pte_present v)
      × (pte_swapped (v % 2 ^ 32) ≡ pte_swapped v)
      × (pte_fpn (v % 2 ^ 32) ≡ pte_fpn v)
truncated-fields v = (
  pte_present-bit (v % 2 ^ 32) ∙ ap (λ (t : ℕ). t == 1) e31 ∙ sym (pte_present-bit v),
  pte_swapped-bit (v % 2 ^ 32) ∙ ap (λ (t : ℕ). t == 1) e30 ∙ sym (pte_swapped-bit v),
  omega (arith, pte_fpn-mod (v % 2 ^ 32), pte_fpn-mod v),
)
  where
    e31 : v % 2 ^ 32 / 2 ^ 31 % 2 ≡ v / 2 ^ 31 % 2
    e31 = omega arith

    e30 : v % 2 ^ 32 / 2 ^ 30 % 2 ≡ v / 2 ^ 30 % 2
    e30 = omega arith
