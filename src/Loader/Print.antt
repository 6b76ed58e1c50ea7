-- ===== src/Loader/Print.antt =====
-- The text of a process description, as the files of input/proc are written.
use simple_operating_system.Common.{
  ℕ, zero, suc, ◌+◌, ◌*◌, ◌/◌, ◌%◌, ◌^◌, ◌≤◌, ◌<◌, ◌≡◌, refl, sym, ap, ◌∙◌, inl, inr, Option, some,
  true, false, List, [], ◌∷◌, ◌++◌, ◌==◌, arith, Bool-cases, length,
}
use simple_operating_system.Process.{Opcode, calc, alloc, free, read, write, syscall}
use simple_operating_system.Loader.Scan.{
  Bytes, is_space, scan_number, scan_numbers, skip_space, take_word, store_word, scan_word,
  take_line, get_line,
}
use simple_operating_system.Loader.Numbers.{
  digits, decimal, Stops, scan_number-decimal, scan_number-space,
}

-- An instruction of a description.
pub record Line : Type 0 where
  pub opcode : Opcode
  pub args : List ℕ

abbrev pub opcode_word : Opcode → Bytes
opcode_word calc = b'c' ∷ b'a' ∷ b'l' ∷ b'c' ∷ []
opcode_word alloc = b'a' ∷ b'l' ∷ b'l' ∷ b'o' ∷ b'c' ∷ []
opcode_word free = b'f' ∷ b'r' ∷ b'e' ∷ b'e' ∷ []
opcode_word read = b'r' ∷ b'e' ∷ b'a' ∷ b'd' ∷ []
opcode_word write = b'w' ∷ b'r' ∷ b'i' ∷ b't' ∷ b'e' ∷ []
opcode_word syscall = b's' ∷ b'y' ∷ b's' ∷ b'c' ∷ b'a' ∷ b'l' ∷ b'l' ∷ []

-- The arguments, each behind a blank, in front of other bytes.
unfoldable pub print_args : List ℕ → Bytes → Bytes
print_args [] rest = rest
print_args (a ∷ xs) rest = b' ' ∷ decimal a (print_args xs rest)

abbrev pub print_line : Line → Bytes → Bytes
print_line l rest = opcode_word l.opcode ++ print_args l.args (b'\n' ∷ rest)

unfoldable pub print_text : List Line → Bytes
print_text [] = []
print_text (l ∷ ls) = print_line l (print_text ls)

abbrev pub print_description : (priority : ℕ) → List Line → Bytes
print_description p ls = decimal p (b' ' ∷ decimal (length ls) (b'\n' ∷ print_text ls))

-- How many arguments an instruction has; a system call has four at most.
abbrev pub Arity : Opcode → ℕ → Type 0
Arity calc n = n ≡ 0
Arity alloc n = n ≡ 2
Arity free n = n ≡ 1
Arity read n = n ≡ 3
Arity write n = n ≡ 3
Arity syscall n = n ≤ 4

abbrev pub Words : List ℕ → Type 0
Words [] = Unit
Words (a ∷ xs) = (a < 2 ^ 64) × Words xs

-- The lines are well formed.
abbrev pub Fits : List Line → Type 0
Fits [] = Unit
Fits (l ∷ ls) = Words l.args × Arity l.opcode (length l.args) × Fits ls

-- Bytes that go on with white space.
abbrev pub Blank : Bytes → Type 0
Blank [] = false ≡ true
Blank (c ∷ cs) = is_space c ≡ true

pub Blank-Stops : (f : Bytes) → Blank f → Stops f
Blank-Stops [] h = cc
Blank-Stops (c ∷ cs) h = ground arith

pub print_args-Blank : (xs : List ℕ) (f : Bytes) → Blank f → Blank (print_args xs f)
unfolding print_args
print_args-Blank [] f h = h
print_args-Blank (a ∷ xs) f h = refl

pub scan_numbers-step :
    (w n v : ℕ) (f g : Bytes)
    → scan_number w f ≡ (some v, g)
    → scan_numbers w (suc n) f ≡ (v ∷ (scan_numbers w n g).0, (scan_numbers w n g).1)
unfolding scan_numbers
scan_numbers-step w n v f g e =
    rw (scan_numbers, ap (λ (r : Option ℕ × Bytes). r.0) e, ap (λ (r : Option ℕ × Bytes). r.1) e)
      refl

-- The printed arguments are read back, and more conversions go on behind them.
pub scan_numbers-print_args :
    (j : ℕ) (xs : List ℕ) (f : Bytes)
    → Words xs
    → Blank f
    → scan_numbers 64 (length xs + j) (print_args xs f)
      ≡ (xs ++ (scan_numbers 64 j f).0, (scan_numbers 64 j f).1)
unfolding scan_numbers print_args
scan_numbers-print_args j [] f h b = let e : 0 + j ≡ j = omega arith in rw e refl
scan_numbers-print_args j (a ∷ xs) f (h, hs) b =
    let e : suc (length xs) + j ≡ suc (length xs + j) = omega arith in
    let s = Blank-Stops (print_args xs f) (print_args-Blank xs f b) in
    let one =
      scan_number-space 64 (decimal a (print_args xs f))
      ∙ scan_number-decimal 64 a (print_args xs f) h h s in
    rw e (
      scan_numbers-step 64 (length xs + j) a (b' ' ∷ decimal a (print_args xs f)) (print_args xs f)
        one
      ∙ ap (λ (r : List ℕ × Bytes). (a ∷ r.0, r.1)) (scan_numbers-print_args j xs f hs b))

-- A word ends where white space follows.
pub take_word-Blank : (f : Bytes) → Blank f → take_word f ≡ ([], f)
unfolding take_word
take_word-Blank [] h = cc
take_word-Blank (c ∷ cs) h = rw h refl

pub scan_word-opcode_word :
    (op : Opcode) (f : Bytes)
    → Blank f
    → scan_word (opcode_word op ++ f) ≡ (some (opcode_word op), f)
unfolding scan_word store_word take_word skip_space
scan_word-opcode_word calc f h = rw (take_word-Blank f h) refl
scan_word-opcode_word alloc f h = rw (take_word-Blank f h) refl
scan_word-opcode_word free f h = rw (take_word-Blank f h) refl
scan_word-opcode_word read f h = rw (take_word-Blank f h) refl
scan_word-opcode_word write f h = rw (take_word-Blank f h) refl
scan_word-opcode_word syscall f h = rw (take_word-Blank f h) refl

-- Bytes without a newline.
abbrev pub Plain : Bytes → Type 0
Plain [] = Unit
Plain (c ∷ cs) = ((c == b'\n') ≡ false) × Plain cs

digits-Plain : (k n : ℕ) (f : Bytes) → Plain f → Plain (digits k n f)
unfolding digits
digits-Plain zero n f h = h
digits-Plain (suc k) n f h =
    let first : Plain ((b'0' + n % 10) ∷ f) = (ground arith, h) in
    elim (Bool-cases (n / 10 == 0)) [
      | inl e ↦ rw e first
      | inr e ↦ rw e (digits-Plain k (n / 10) ((b'0' + n % 10) ∷ f) first)
    ]

digits-length : (k n : ℕ) (f : Bytes) → length (digits k n f) ≤ k + length f
unfolding digits
digits-length zero n f = omega arith
digits-length (suc k) n f =
    let rest = digits-length k (n / 10) ((b'0' + n % 10) ∷ f) in
    elim (Bool-cases (n / 10 == 0)) [
      | inl e ↦ rw e (omega arith)
      | inr e ↦ rw e (omega (arith, rest))
    ]

digits-append : (k n : ℕ) (f g : Bytes) → digits k n (f ++ g) ≡ digits k n f ++ g
unfolding digits
digits-append zero n f g = refl
digits-append (suc k) n f g = elim (Bool-cases (n / 10 == 0)) [
  | inl e ↦ rw e refl
  | inr e ↦ rw e (digits-append k (n / 10) ((b'0' + n % 10) ∷ f) g)
]

pub print_args-Plain : (xs : List ℕ) → Plain (print_args xs [])
unfolding print_args decimal
print_args-Plain [] = tt
print_args-Plain (a ∷ xs) = (refl, digits-Plain 20 a (print_args xs []) (print_args-Plain xs))

print_args-length : (xs : List ℕ) → length (print_args xs []) ≤ 21 * length xs
unfolding print_args decimal
print_args-length [] = omega arith
print_args-length (a ∷ xs) =
    omega (arith, digits-length 20 a (print_args xs []), print_args-length xs)

pub print_args-append : (xs : List ℕ) (f : Bytes) → print_args xs f ≡ print_args xs [] ++ f
unfolding print_args decimal
print_args-append [] f = refl
print_args-append (a ∷ xs) f =
    ap (λ g. b' ' ∷ digits 20 a g) (print_args-append xs f)
    ∙ ap (◌∷◌ b' ') (digits-append 20 a (print_args xs []) f)

take_line-line :
    (n : ℕ) (s f : Bytes)
    → Plain s
    → length s < n
    → take_line n (s ++ b'\n' ∷ f) ≡ (s ++ b'\n' ∷ [], f)
unfolding take_line
take_line-line zero s f p h = absurd (omega (arith, h))
take_line-line (suc n) [] f p h = refl
take_line-line (suc n) (c ∷ s) f (p, q) h = rw (p, take_line-line n s f q (omega (arith, h))) refl

get_line-Blank :
    (n : ℕ) (f : Bytes) → Blank f → get_line n f ≡ (some (take_line n f).0, (take_line n f).1)
unfolding get_line
get_line-Blank n [] h = absurd cc
get_line-Blank n (c ∷ cs) h = refl

-- Four arguments at most fit the buffer of a line.
pub get_line-print_args :
    (xs : List ℕ) (f : Bytes)
    → length xs ≤ 4
    → get_line 199 (print_args xs (b'\n' ∷ f)) ≡ (some (print_args xs (b'\n' ∷ [])), f)
get_line-print_args xs f h =
    let fits : length (print_args xs []) < 199 = omega (arith, print_args-length xs) in
    let line =
      ap (take_line 199) (print_args-append xs (b'\n' ∷ f))
      ∙ take_line-line 199 (print_args xs []) f (print_args-Plain xs) fits in
    get_line-Blank 199 (print_args xs (b'\n' ∷ f)) (print_args-Blank xs (b'\n' ∷ f) refl)
    ∙ ap (λ (r : Bytes × Bytes). (some r.0, r.1)) line
    ∙ ap (λ s. (some s, f)) (sym (print_args-append xs (b'\n' ∷ [])))
