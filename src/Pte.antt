-- ===== src/Pte.antt =====
-- Page table entries: the macros of include/bitops.h and include/mm.h, and `init_pte` of
-- src/mm64.c (src/mm.c has the same text). An entry is an `addr_t`, a number below 2 ^ 64; the masks
-- are 32-bit constants, so that `~mask` has no digit above place 31.
pub mod Fields
pub mod Address
use simple_operating_system.Common.{
  ℕ, ◌+◌, ◌-◌, ◌*◌, ◌/◌, ◌%◌, ◌^◌, bit_and, bit_or, Bool, not, ◌==◌, if◌then◌else◌, ℤ, success,
  failure,
}
use simple_operating_system.Mm.{word}

-- BIT(nr).
abbrev pub bit : ℕ → ℕ
bit nr = 2 ^ nr

-- GENMASK(h, l), at 32 bits per long.
abbrev pub genmask : ℕ → ℕ → ℕ
genmask h l = bit_and ((2 ^ 32 - 1) * 2 ^ l % 2 ^ 32) ((2 ^ 32 - 1) / 2 ^ (32 - h - 1))

abbrev pub div_round_up : ℕ → ℕ → ℕ
div_round_up n d = (n + d - 1) / d

-- ~mask of a 32-bit constant.
abbrev pub complement : ℕ → ℕ
complement mask = 2 ^ 32 - 1 - mask

unfoldable pub setbit : ℕ → ℕ → ℕ
setbit v mask = bit_or v mask

unfoldable pub clrbit : ℕ → ℕ → ℕ
clrbit v mask = bit_and v (complement mask)

unfoldable pub setval : (v value mask offst : ℕ) → ℕ
setval v value mask offst =
    bit_or (bit_and v (complement mask)) (bit_and (value * 2 ^ offst % word) mask)

unfoldable pub getval : (v mask offst : ℕ) → ℕ
getval v mask offst = bit_and v mask / 2 ^ offst

abbrev pub present_mask : ℕ
present_mask = bit 31

abbrev pub swapped_mask : ℕ
swapped_mask = bit 30

abbrev pub dirty_mask : ℕ
dirty_mask = bit 28

abbrev pub fpn_mask : ℕ
fpn_mask = genmask 12 0

abbrev pub swptyp_mask : ℕ
swptyp_mask = genmask 4 0

abbrev pub swpoff_mask : ℕ
swpoff_mask = genmask 25 5

-- PAGING_PTE_PRESENT, read as a truth value; so is PAGING_PAGE_PRESENT.
unfoldable pub pte_present : ℕ → Bool
pte_present pte = not (bit_and pte present_mask == 0)

unfoldable pub pte_swapped : ℕ → Bool
pte_swapped pte = not (bit_and pte swapped_mask == 0)

-- PAGING_PTE_FPN, which is also PAGING_FPN.
unfoldable pub pte_fpn : ℕ → ℕ
unfolding getval
pte_fpn pte = getval pte fpn_mask 0

-- PAGING_PTE_SWP and PAGING_SWP.
unfoldable pub pte_swp : ℕ → ℕ
unfolding getval
pte_swp pte = getval pte swpoff_mask 5

-- The on-line and the swapped setting of an entry, as `init_pte` makes them.
unfoldable pub online_entry : (pte fpn : ℕ) → ℕ
online_entry pte fpn =
    setval (clrbit (clrbit (setbit pte present_mask) swapped_mask) dirty_mask) fpn fpn_mask 0

unfoldable pub swapped_entry : (pte swptyp swpoff : ℕ) → ℕ
swapped_entry pte swptyp swpoff =
    setval
      (setval (clrbit (setbit (setbit pte present_mask) swapped_mask) dirty_mask) swptyp swptyp_mask
        0)
      swpoff swpoff_mask 5

-- The status and the entry's new value. `drt` is not read.
unfoldable pub init_pte : (pte pre fpn drt swp swptyp swpoff : ℕ) → ℤ × ℕ
init_pte pte pre fpn drt swp swptyp swpoff =
    if not (pre == 0)
    then if swp == 0
      then (if fpn == 0 then (failure, pte) else (success, online_entry pte fpn))
      else (success, swapped_entry pte swptyp swpoff)
    else (success, pte)

-- The entry that `pte_set_fpn` writes over a cleared one.
unfoldable pub mapped_entry : ℕ → ℕ
mapped_entry fpn = setval (clrbit (setbit 0 present_mask) swapped_mask) fpn fpn_mask 0

-- What `pte_set_swap` makes of an entry.
unfoldable pub swap_entry : (pte swptyp swpoff : ℕ) → ℕ
swap_entry pte swptyp swpoff =
    setval (setval (setbit (setbit pte present_mask) swapped_mask) swptyp swptyp_mask 0) swpoff
      swpoff_mask 5
