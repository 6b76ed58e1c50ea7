-- ===== src/Loader/Numbers.antt =====
-- The decimal digits of a number, and that the scanner of Loader/Scan reads them back.
use simple_operating_system.Common.{
  ℕ, zero, suc, ◌+◌, ◌-◌, ◌*◌, ◌/◌, ◌%◌, ◌^◌, ◌<◌, ◌≡◌, refl, sym, ap, ◌∙◌, inl, inr, some, true,
  false, [], ◌∷◌, ◌==◌, arith, if◌then◌else◌, Bool-cases,
}
use simple_operating_system.Loader.Scan.{
  Bytes, is_space, is_digit, skip_space, scan_digits, scan_unsigned, scan_signed, scan_number,
}

-- The last k digits of n, in front of other bytes; leading zeros are left out.
unfoldable pub digits : (k n : ℕ) → Bytes → Bytes
digits zero n rest = rest
digits (suc k) n rest =
    let first = (b'0' + n % 10) ∷ rest in
    let more = digits k (n / 10) first in if (n / 10) == 0 then first else more

-- A number below 2 ^ 64, in front of other bytes.
unfoldable pub decimal : ℕ → Bytes → Bytes
decimal n rest = digits 20 n rest

-- Bytes that go on after a number.
abbrev pub Stops : Bytes → Type 0
Stops [] = Unit
Stops (c ∷ cs) = is_digit c ≡ false

scan_digits-Stops : (v : ℕ) (rest : Bytes) → Stops rest → scan_digits v rest ≡ (v, rest)
unfolding scan_digits
scan_digits-Stops v [] h = refl
scan_digits-Stops v (c ∷ cs) h = rw h refl

scan_digits-digit :
    (v d : ℕ) (rest : Bytes)
    → d < 10
    → scan_digits v ((b'0' + d) ∷ rest) ≡ scan_digits (v * 10 + d) rest
unfolding scan_digits
scan_digits-digit v d rest h =
    let e : is_digit (b'0' + d) ≡ true = ground arith in
    let f : b'0' + d - b'0' ≡ d = omega arith in rw (e, f) refl

last_digit :
    (n : ℕ) (rest : Bytes) → scan_digits (n / 10) ((b'0' + n % 10) ∷ rest) ≡ scan_digits n rest
last_digit n rest =
    scan_digits-digit (n / 10) (n % 10) rest (omega arith)
    ∙ ap (λ m. scan_digits m rest) (omega arith)

one_digit :
    (n : ℕ) (rest : Bytes)
    → (n / 10 == 0) ≡ true
    → scan_digits 0 ((b'0' + n % 10) ∷ rest) ≡ scan_digits n rest
one_digit n rest e =
    let same : n / 10 ≡ 0 = ground (arith, e) in
    ap (λ m. scan_digits m ((b'0' + n % 10) ∷ rest)) (sym same) ∙ last_digit n rest

scan_digits-digits :
    (k n : ℕ) (rest : Bytes)
    → n < 10 ^ suc k
    → scan_digits 0 (digits (suc k) n rest) ≡ scan_digits n rest
unfolding digits
scan_digits-digits zero n rest h =
    let e : (n / 10 == 0) ≡ true = ground arith in rw e (one_digit n rest e)
scan_digits-digits (suc k) n rest h =
    let fits : n / 10 < 10 ^ suc k = omega arith in
    elim (Bool-cases (n / 10 == 0)) [
      | inl e ↦ rw e (one_digit n rest e)
      | inr e ↦
          rw e (scan_digits-digits k (n / 10) ((b'0' + n % 10) ∷ rest) fits ∙ last_digit n rest)
    ]

-- Bytes that begin with a digit.
abbrev pub Begins : Bytes → Type 0
Begins [] = false ≡ true
Begins (c ∷ cs) = is_digit c ≡ true

digits-Begins : (k n : ℕ) (rest : Bytes) → Begins rest → Begins (digits k n rest)
unfolding digits
digits-Begins zero n rest h = h
digits-Begins (suc k) n rest h =
    let first : Begins ((b'0' + n % 10) ∷ rest) = ground arith in
    elim (Bool-cases (n / 10 == 0)) [
      | inl e ↦ rw e first
      | inr e ↦ rw e (digits-Begins k (n / 10) ((b'0' + n % 10) ∷ rest) first)
    ]

pub decimal-Begins : (n : ℕ) (rest : Bytes) → Begins (decimal n rest)
unfolding decimal digits
decimal-Begins n rest =
    let first : Begins ((b'0' + n % 10) ∷ rest) = ground arith in
    elim (Bool-cases (n / 10 == 0)) [
      | inl e ↦ rw e first
      | inr e ↦ rw e (digits-Begins 19 (n / 10) ((b'0' + n % 10) ∷ rest) first)
    ]

scan_digits-decimal :
    (n : ℕ) (rest : Bytes) → n < 2 ^ 64 → Stops rest → scan_digits 0 (decimal n rest) ≡ (n, rest)
unfolding decimal
scan_digits-decimal n rest h s =
    scan_digits-digits 19 n rest (omega arith) ∙ scan_digits-Stops n rest s

skip_space-Begins : (f : Bytes) → Begins f → skip_space f ≡ f
unfolding skip_space
skip_space-Begins [] h = refl
skip_space-Begins (c ∷ cs) h = let space : is_space c ≡ false = ground arith in rw space refl

scan_number-Begins :
    (w : ℕ) (f : Bytes)
    → Begins f
    → scan_number w f ≡ (some ((scan_digits 0 f).0 % 2 ^ w), (scan_digits 0 f).1)
unfolding scan_number scan_signed scan_unsigned skip_space
scan_number-Begins w [] h = cc
scan_number-Begins w (c ∷ cs) h =
    let space : is_space c ≡ false = ground arith in
    let minus : (c == b'-') ≡ false = ground arith in
    let plus : (c == b'+') ≡ false = ground arith in rw space (rw (minus, plus, h) refl)

-- A number that has been printed is read back, as far as w bits hold it, and what follows is left.
pub scan_number-decimal_mod :
    (w n : ℕ) (rest : Bytes)
    → n < 2 ^ 64
    → Stops rest
    → scan_number w (decimal n rest) ≡ (some (n % 2 ^ w), rest)
scan_number-decimal_mod w n rest h s =
    rw
      (
        scan_number-Begins w (decimal n rest) (decimal-Begins n rest),
        scan_digits-decimal n rest h s,
      )
      refl

-- A number that w bits hold is read back whole.
pub scan_number-decimal :
    (w n : ℕ) (rest : Bytes)
    → n < 2 ^ 64
    → n < 2 ^ w
    → Stops rest
    → scan_number w (decimal n rest) ≡ (some n, rest)
scan_number-decimal w n rest h b s =
    let e : n % 2 ^ w ≡ n = grind arith in
    scan_number-decimal_mod w n rest h s ∙ ap (λ m. (some m, rest)) e

-- White space is skipped up to a number.
pub skip_space-decimal : (n : ℕ) (rest : Bytes) → skip_space (decimal n rest) ≡ decimal n rest
skip_space-decimal n rest = skip_space-Begins (decimal n rest) (decimal-Begins n rest)

-- The blank in front of a number is skipped.
pub scan_number-space : (w : ℕ) (rest : Bytes) → scan_number w (b' ' ∷ rest) ≡ scan_number w rest
unfolding scan_number skip_space
scan_number-space w rest = refl
