-- ===== src/Loader/Scan.antt =====
-- What src/loader.c and src/os.c use of the C library: `fscanf`, `sscanf` and `fgets` on the rest of a
-- file, which is a list of bytes.
use simple_operating_system.Common.{
  ℕ, zero, suc, ◌+◌, ◌-◌, ◌*◌, ◌%◌, ◌^◌, Option, none, some, Bool, true, false, ◌&&◌, ◌||◌, List,
  [], ◌∷◌, ◌==◌, leb, if◌then◌else◌,
}

abbrev pub Bytes : Type 0
Bytes = List ℕ

abbrev pub is_space : ℕ → Bool
is_space c = (c == b' ') || (leb 9 c && leb c 13)

abbrev pub is_digit : ℕ → Bool
is_digit c = leb b'0' c && leb c b'9'

-- White space in a format, and before a number or a word.
unfoldable pub skip_space : Bytes → Bytes
skip_space [] = []
skip_space (c ∷ cs) = let rest = skip_space cs in if is_space c then rest else c ∷ cs

-- The digits of a number that begins with value v.
unfoldable pub scan_digits : ℕ → Bytes → ℕ × Bytes
scan_digits v [] = (v, [])
scan_digits v (c ∷ cs) =
    let rest = scan_digits (v * 10 + (c - b'0')) cs in if is_digit c then rest else (v, c ∷ cs)

unfoldable pub scan_unsigned : Bytes → Option ℕ × Bytes
scan_unsigned [] = (none, [])
scan_unsigned (c ∷ cs) =
    if is_digit c
    then (let (v, rest) = scan_digits 0 (c ∷ cs) in (some v, rest))
    else (none, c ∷ cs)

-- The bits that a conversion stores in a number of w bits, after the sign.
abbrev pub stored_bits : ℕ → Bool → Option ℕ → Option ℕ
stored_bits w minus none = none
stored_bits w true (some v) = some ((2 ^ w - v % 2 ^ w) % 2 ^ w)
stored_bits w false (some v) = some (v % 2 ^ w)

abbrev pub with_sign : ℕ → Bool → Bytes → Option ℕ × Bytes
with_sign w minus cs = let (v, rest) = scan_unsigned cs in (stored_bits w minus v, rest)

unfoldable pub scan_signed : ℕ → Bytes → Option ℕ × Bytes
scan_signed w [] = (none, [])
scan_signed w (c ∷ cs) =
    if c == b'-'
    then with_sign w true cs
    else if c == b'+'
    then with_sign w false cs
    else with_sign w false (c ∷ cs)

-- `%d`, `%u` and `%lu` for numbers of w bits. A number that w bits do not hold, whose conversion C
-- leaves undefined, is taken modulo 2 ^ w.
unfoldable pub scan_number : ℕ → Bytes → Option ℕ × Bytes
scan_number w f = scan_signed w (skip_space f)

-- n conversions of numbers of w bits, up to the first that fails.
unfoldable pub scan_numbers : ℕ → ℕ → Bytes → List ℕ × Bytes
scan_numbers w zero f = ([], f)
scan_numbers w (suc n) f =
    let (o, g) = scan_number w f in
    let (vs, h) = scan_numbers w n g in elim o [ none ↦ ([], g) | some v ↦ (v ∷ vs, h) ]

-- The bytes up to white space, or to the end.
unfoldable pub take_word : Bytes → Bytes × Bytes
take_word [] = ([], [])
take_word (c ∷ cs) =
    let (word, rest) = take_word cs in if is_space c then ([], c ∷ cs) else (c ∷ word, rest)

-- Nothing is stored when no word is left.
unfoldable pub store_word : Bytes → Option Bytes × Bytes
store_word f =
    let (word, rest) = take_word f in
    elim word [ [] ↦ (none, rest) | c ∷ cs ↦ (some (c ∷ cs), rest) ]

-- `%s`.
unfoldable pub scan_word : Bytes → Option Bytes × Bytes
scan_word f = store_word (skip_space f)

-- At most n bytes, up to a newline, which is taken too.
unfoldable pub take_line : ℕ → Bytes → Bytes × Bytes
take_line zero f = ([], f)
take_line (suc n) [] = ([], [])
take_line (suc n) (c ∷ cs) =
    let (line, rest) = take_line n cs in if c == b'\n' then (c ∷ [], cs) else (c ∷ line, rest)

-- `fgets` into n + 1 bytes: nothing is stored at the end of the file.
unfoldable pub get_line : ℕ → Bytes → Option Bytes × Bytes
get_line n [] = (none, [])
get_line n (c ∷ cs) = let (line, rest) = take_line n (c ∷ cs) in (some line, rest)
