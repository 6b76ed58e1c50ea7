-- ===== src/Legacy.antt =====
-- src/mem.c and the first functions of src/cpu.c, the memory of an earlier version. The functions are
-- compiled, but under MM_PAGING `run` calls none of them but `calc`. `none` is what C leaves undefined.
use simple_operating_system.Common.{
  ℕ, ◌+◌, ◌-◌, ◌*◌, ◌/◌, ◌%◌, ◌^◌, ◌<◌, ◌≡◌, ◌≢◌, refl, Option, none, some, Bool, true, false, List,
  [], ◌∷◌, ◌==◌, ltb, if◌then◌else◌, arith, get_or,
}
use simple_operating_system.Mm.{word}
use simple_operating_system.Process.{Pcb, num_regs}
use simple_operating_system.Calls.{set_reg}

abbrev pub offset_len : ℕ
offset_len = 10

abbrev pub page_len : ℕ
page_len = 5

abbrev pub page_size : ℕ
page_size = 2 ^ offset_len

unfoldable pub get_offset : ℕ → ℕ
get_offset addr = addr % 2 ^ offset_len

unfoldable pub get_first_lv : ℕ → ℕ
get_first_lv addr = addr / 2 ^ (offset_len + page_len)

-- The difference of two addresses, modulo 2 ^ 64.
unfoldable pub get_second_lv : ℕ → ℕ
get_second_lv addr =
    (addr / 2 ^ offset_len + (word - (get_first_lv addr * 2 ^ page_len) % word)) % word

-- An address below 2 ^ 64 is put together from its three parts.
get_first_lv-get_second_lv :
    (addr : ℕ)
    → addr < 2 ^ 64
    → (get_second_lv addr < 2 ^ page_len)
      × (get_first_lv addr * 2 ^ (offset_len + page_len)
            + get_second_lv addr * 2 ^ offset_len
            + get_offset addr
          ≡ addr)
unfolding get_first_lv get_second_lv get_offset
get_first_lv-get_second_lv addr h = (omega (arith, h), omega (arith, h))

-- The rows of the two levels, by their virtual index.
abbrev pub TransTable : Type 0
TransTable = List (ℕ × ℕ)

abbrev pub PageTable : Type 0
PageTable = List (ℕ × TransTable)

-- The loop over the rows has no body.
unfoldable pub get_trans_table : (index : ℕ) → PageTable → Option TransTable
get_trans_table index [] = none
get_trans_table index (row ∷ rows) = get_trans_table index rows

unfoldable pub has_entry : (second_lv : ℕ) → TransTable → Bool
has_entry second_lv [] = false
has_entry second_lv ((v_index, p_index) ∷ rows) =
    let rest = has_entry second_lv rows in if v_index == second_lv then true else rest

-- A physical address is never written.
unfoldable pub translate : (virtual_addr : ℕ) → PageTable → Bool
translate virtual_addr page_table = elim (get_trans_table (get_first_lv virtual_addr) page_table) [
  | none ↦ false
  | some trans_table ↦ has_entry (get_second_lv virtual_addr) trans_table
]

unfoldable pub num_pages : (size : ℕ) → ℕ
num_pages size = if size % page_size == 0 then size / page_size + 1 else size / page_size

-- `mem_avail` is 0, and nothing sets it.
abbrev pub mem_avail : ℕ
mem_avail = 0

unfoldable pub alloc_mem : (size : ℕ) → Pcb → ℕ × Pcb
alloc_mem size proc =
    if mem_avail == 0
    then (0, proc)
    else (proc.bp, record proc { bp = (proc.bp + num_pages size * page_size) % 2 ^ 32 })

abbrev pub free_mem : (address : ℕ) → ℕ
free_mem address = 0

-- The status; the bytes of `_ram` are not reached, since the physical address has no value.
unfoldable pub read_mem : (address : ℕ) → PageTable → Option ℕ
read_mem address page_table = if translate address page_table then none else some 1

unfoldable pub write_mem : (address : ℕ) → PageTable → Option ℕ
write_mem address page_table = if translate address page_table then none else some 1

abbrev pub get_reg : Pcb → ℕ → Option ℕ
get_reg proc i = if ltb i num_regs then some (get_or proc.regs i 0) else none

-- A register set, with status 0.
abbrev pub keep : Option Pcb → Option (Pcb × ℕ)
keep none = none
keep (some proc) = some (proc, 0)

unfoldable pub alloc : Pcb → (size reg_index : ℕ) → Option (Pcb × ℕ)
alloc proc size reg_index =
    let (addr, proc') = alloc_mem size proc in
    if addr == 0 then some (proc', 1) else keep (set_reg proc' reg_index addr)

unfoldable pub free_data : Pcb → (reg_index : ℕ) → Option ℕ
free_data proc reg_index = elim (get_reg proc reg_index) [
  | none ↦ none
  | some address ↦ some (free_mem address)
]

-- `data` is a local variable; `stale` is what it holds before anything is stored in it.
unfoldable pub read :
    Pcb → PageTable → (stale : ℕ) → (source offset destination : ℕ) → Option (Pcb × ℕ)
read proc page_table stale source offset destination = elim (get_reg proc source) [
  | none ↦ none
  | some base ↦ elim (read_mem ((base + offset) % word) page_table) [
    | none ↦ none
    | some status ↦ if status == 0 then some (proc, 1) else keep (set_reg proc destination stale)
  ]
]

unfoldable pub write : Pcb → PageTable → (destination offset : ℕ) → Option ℕ
write proc page_table destination offset = elim (get_reg proc destination) [
  | none ↦ none
  | some base ↦ write_mem ((base + offset) % word) page_table
]

get_trans_table-none :
    (index : ℕ) (page_table : PageTable) → get_trans_table index page_table ≡ none
unfolding get_trans_table
get_trans_table-none index [] = refl
get_trans_table-none index (row ∷ rows) = get_trans_table-none index rows

translate-none :
    (virtual_addr : ℕ) (page_table : PageTable) → translate virtual_addr page_table ≡ false
unfolding translate
translate-none virtual_addr page_table =
    rw (translate, get_trans_table-none (get_first_lv virtual_addr) page_table) refl

read_mem-none : (address : ℕ) (page_table : PageTable) → read_mem address page_table ≡ some 1
unfolding read_mem
read_mem-none address page_table = rw (read_mem, translate-none address page_table) refl

-- The old `read` finds no byte, whatever the page table holds, and yet it succeeds: the register gets
-- what a local variable held.
read-stale :
    (proc : Pcb) (page_table : PageTable) (stale source offset destination : ℕ)
    → source < num_regs
    → destination < num_regs
    → read proc page_table stale source offset destination ≡ keep (set_reg proc destination stale)
unfolding read
read-stale proc page_table stale source offset destination h k =
    let e : ltb source num_regs ≡ true = ground (arith, h) in
    let base = get_or proc.regs source 0 in
    rw (read, e, read_mem-none ((base + offset) % word) page_table) refl

-- A size that is no multiple of a page is rounded down.
num_pages-short : (size : ℕ) → size % page_size ≢ 0 → num_pages size * page_size < size
unfolding num_pages
num_pages-short size h =
    let e : (size % page_size == 0) ≡ false = ground (arith, h) in rw e (omega (arith, h))
