-- ===== src/Os/Config/Print.antt =====
-- The text of a configuration, as the files of input are written, with or without the line of memory
-- sizes.
use simple_operating_system.Common.{ℕ, ◌^◌, ◌<◌, ◌≡◌, false, List, [], ◌∷◌, ◌++◌, ◌==◌, length}
use simple_operating_system.Loader.Scan.{Bytes, is_space, is_digit}
use simple_operating_system.Loader.Numbers.{decimal}
use simple_operating_system.Loader.Print.{print_args}

-- A process of a configuration: the name of its file is without the folder.
pub record Entry : Type 0 where
  pub start_time : ℕ
  pub name : Bytes
  pub prio : ℕ

unfoldable pub print_entries : List Entry → Bytes
print_entries [] = []
print_entries (e ∷ es) =
    decimal e.start_time (b' ' ∷ e.name ++ b' ' ∷ decimal e.prio (b'\n' ∷ print_entries es))

-- The line of memory sizes, if there are any.
abbrev pub print_memory : List ℕ → Bytes → Bytes
print_memory [] rest = rest
print_memory (a ∷ xs) rest = decimal a (print_args xs (b'\n' ∷ rest))

abbrev pub print_config : (time_slot num_cpus : ℕ) (memory : List ℕ) (entries : List Entry) → Bytes
print_config t n memory es =
    decimal t (
      b' '
      ∷ decimal n (b' ' ∷ decimal (length es) (b'\n' ∷ print_memory memory (print_entries es))))

-- No white space.
abbrev pub Solid : Bytes → Type 0
Solid [] = Unit
Solid (c ∷ cs) = (is_space c ≡ false) × Solid cs

-- The name of a file that fits its array.
pub record IsName (s : Bytes) : Type 0 where
  pub named : 0 < length s
  pub fits : length s < 89
  pub solid : Solid s

abbrev pub EachEntry : List Entry → Type 0
EachEntry [] = Unit
EachEntry (e ∷ es) = (e.start_time < 2 ^ 64) × (e.prio < 2 ^ 64) × IsName e.name × EachEntry es

-- Bytes that are no number: neither a digit nor a sign is the first.
abbrev pub Wordy : Bytes → Type 0
Wordy [] = Unit
Wordy (c ∷ cs) = (is_digit c ≡ false) × ((c == b'-') ≡ false) × ((c == b'+') ≡ false)

abbrev pub FirstWordy : List Entry → Type 0
FirstWordy [] = Unit
FirstWordy (e ∷ es) = Wordy e.name

abbrev pub SizesOnly : List ℕ → Type 0
SizesOnly [] = Unit
SizesOnly (a ∷ xs) = (a < 2 ^ 32) × SizesOnly xs

-- A line of memory sizes has at least two; without one, the first name is not a number.
abbrev pub Readable : List ℕ → List Entry → Type 0
Readable [] es = FirstWordy es
Readable (a ∷ xs) es = (0 < length xs) × SizesOnly (a ∷ xs)
