-- ===== src/Pte/Address.antt =====
-- The parts of an address: `get_pd_from_address` and `get_pd_from_pagenum` of src/mm64.c, the masks
-- of include/mm64.h, and the macros of include/mm.h for a page number and an offset.
use mathlib.Core.Option.{some-injective}
use simple_operating_system.Common.{
  ℕ, ◌-◌, ◌*◌, ◌/◌, ◌%◌, ◌^◌, ◌<◌, ◌≡◌, ap, sym, ◌∙◌, bit_and, ◌||◌, Option, none, some, leb,
  lt→leb, if◌then◌else◌, arith,
}
use simple_operating_system.Common.Bits.{bit_and-field, bit_and-ones}
use simple_operating_system.Mm.{word, table_entries}
use simple_operating_system.Pte.{genmask, getval}

-- GENMASK64(h, l).
abbrev pub genmask64 : ℕ → ℕ → ℕ
genmask64 h l = bit_and ((2 ^ 64 - 1) * 2 ^ l % word) ((2 ^ 64 - 1) / 2 ^ (64 - h - 1))

-- (addr & MASK) >> LOBIT.
unfoldable pub directory_index : (addr h l : ℕ) → ℕ
directory_index addr h l = bit_and addr (genmask64 h l) / 2 ^ l

-- The indices into the five tables.
pub record Indices : Type 0 where
  pub pgd : ℕ
  pub p4d : ℕ
  pub pud : ℕ
  pub pmd : ℕ
  pub pt : ℕ

unfoldable pub address_indices : ℕ → Indices
unfolding directory_index
address_indices addr = record {
  pgd = directory_index addr 56 48;
  p4d = directory_index addr 47 39;
  pud = directory_index addr 38 30;
  pmd = directory_index addr 29 21;
  pt = directory_index addr 20 12;
}

-- `none` is the status -1.
unfoldable pub get_pd_from_address : ℕ → Option Indices
get_pd_from_address addr =
    let ix = address_indices addr in
    if leb table_entries ix.pgd
      || (leb table_entries ix.p4d
          || (leb table_entries ix.pud || (leb table_entries ix.pmd || leb table_entries ix.pt)))
    then none
    else some ix

unfoldable pub get_pd_from_pagenum : ℕ → Option Indices
get_pd_from_pagenum pgn = get_pd_from_address (pgn * 2 ^ 12 % word)

-- PAGING_PGN and PAGING_OFFST, of the 22-bit bus of include/mm.h.
unfoldable pub paging_pgn : ℕ → ℕ
unfolding getval
paging_pgn x = getval x (genmask 21 12) 12

unfoldable pub paging_offst : ℕ → ℕ
unfolding getval
paging_offst x = getval x (genmask 11 0) 0

pub paging_pgn-lem : (x : ℕ) → paging_pgn x ≡ x / 4096 % 1024
unfolding paging_pgn
paging_pgn-lem x = omega (arith, bit_and-field 10 12 x)

pub paging_offst-lem : (x : ℕ) → paging_offst x ≡ x % 4096
unfolding paging_offst
paging_offst-lem x = omega (arith, bit_and-ones 12 x)

directory_index-pgd : (a : ℕ) → directory_index a 56 48 ≡ a / 2 ^ 48 % 512
unfolding directory_index
directory_index-pgd a = omega (arith, bit_and-field 9 48 a)

directory_index-p4d : (a : ℕ) → directory_index a 47 39 ≡ a / 2 ^ 39 % 512
unfolding directory_index
directory_index-p4d a = omega (arith, bit_and-field 9 39 a)

directory_index-pud : (a : ℕ) → directory_index a 38 30 ≡ a / 2 ^ 30 % 512
unfolding directory_index
directory_index-pud a = omega (arith, bit_and-field 9 30 a)

directory_index-pmd : (a : ℕ) → directory_index a 29 21 ≡ a / 2 ^ 21 % 512
unfolding directory_index
directory_index-pmd a = omega (arith, bit_and-field 9 21 a)

directory_index-pt : (a : ℕ) → directory_index a 20 12 ≡ a / 2 ^ 12 % 512
unfolding directory_index
directory_index-pt a = omega (arith, bit_and-field 9 12 a)

abbrev pub address_digits : ℕ → Indices
address_digits a = record {
  pgd = a / 2 ^ 48 % 512;
  p4d = a / 2 ^ 39 % 512;
  pud = a / 2 ^ 30 % 512;
  pmd = a / 2 ^ 21 % 512;
  pt = a / 2 ^ 12 % 512;
}

pub address_indices-digits : (a : ℕ) → address_indices a ≡ address_digits a
unfolding address_indices
address_indices-digits a = rw (
  directory_index-pgd a,
  directory_index-p4d a,
  directory_index-pud a,
  directory_index-pmd a,
  directory_index-pt a,
)

-- No address fails the check of the indices, and what they are.
pub get_pd_from_address-digits : (a : ℕ) → get_pd_from_address a ≡ some (address_digits a)
unfolding get_pd_from_address
get_pd_from_address-digits a = rw (
  address_indices-digits a,
  lt→leb table_entries (a / 2 ^ 48 % 512) (omega arith),
  lt→leb table_entries (a / 2 ^ 39 % 512) (omega arith),
  lt→leb table_entries (a / 2 ^ 30 % 512) (omega arith),
  lt→leb table_entries (a / 2 ^ 21 % 512) (omega arith),
  lt→leb table_entries (a / 2 ^ 12 % 512) (omega arith),
)

abbrev pub pgn_digits : ℕ → Indices
pgn_digits pgn = record {
  pgd = pgn / 2 ^ 36 % 512;
  p4d = pgn / 2 ^ 27 % 512;
  pud = pgn / 2 ^ 18 % 512;
  pmd = pgn / 2 ^ 9 % 512;
  pt = pgn % 512;
}

-- Every page number is accepted; its indices are its five digits to base 512.
pub get_pd_from_pagenum-digits : (pgn : ℕ) → get_pd_from_pagenum pgn ≡ some (pgn_digits pgn)
unfolding get_pd_from_pagenum
get_pd_from_pagenum-digits pgn = get_pd_from_address-digits (pgn * 2 ^ 12 % word) ∙ ap some same
  where
    e48 : pgn * 2 ^ 12 % word / 2 ^ 48 % 512 ≡ pgn / 2 ^ 36 % 512
    e48 = omega arith

    e39 : pgn * 2 ^ 12 % word / 2 ^ 39 % 512 ≡ pgn / 2 ^ 27 % 512
    e39 = omega arith

    e30 : pgn * 2 ^ 12 % word / 2 ^ 30 % 512 ≡ pgn / 2 ^ 18 % 512
    e30 = omega arith

    e21 : pgn * 2 ^ 12 % word / 2 ^ 21 % 512 ≡ pgn / 2 ^ 9 % 512
    e21 = omega arith

    e12 : pgn * 2 ^ 12 % word / 2 ^ 12 % 512 ≡ pgn % 512
    e12 = omega arith

    same : address_digits (pgn * 2 ^ 12 % word) ≡ pgn_digits pgn
    same = λ i. record { pgd = e48 i; p4d = e39 i; pud = e30 i; pmd = e21 i; pt = e12 i }

pub digits-injective : (p q : ℕ) → p < 2 ^ 45 → q < 2 ^ 45 → pgn_digits p ≡ pgn_digits q → p ≡ q
digits-injective p q hp hq e = omega (
  arith,
  ap (λ (ix : Indices). ix.pgd) e,
  ap (λ (ix : Indices). ix.p4d) e,
  ap (λ (ix : Indices). ix.pud) e,
  ap (λ (ix : Indices). ix.pmd) e,
  ap (λ (ix : Indices). ix.pt) e,
)

-- Two page numbers of the 57-bit address space with the same indices are the same.
pub get_pd_from_pagenum-injective :
    (p q : ℕ) → p < 2 ^ 45 → q < 2 ^ 45 → get_pd_from_pagenum p ≡ get_pd_from_pagenum q → p ≡ q
get_pd_from_pagenum-injective p q hp hq e = digits-injective p q hp hq (
    some-injective (pgn_digits p) (pgn_digits q)
      (sym (get_pd_from_pagenum-digits p) ∙ e ∙ get_pd_from_pagenum-digits q))
