-- ===== src/Common/Bits.antt =====
-- Laws of `bit_and` and `bit_or` at variables, from the digit recursion that defines them.
use Prim.Native.Nat.{
  ℕ, zero, suc, ◌+◌, ◌*◌, ◌/◌, ◌%◌, ◌-◌, ◌^◌, ◌≤◌, ◌<◌, min, max, bit_and, bit_or, digits,
  bit_and-bitwise, bit_or-bitwise,
}
use mathlib.Core.Path.{◌≡◌, refl, ap, ap₂, sym, ◌∙◌}
use native.Mathlib.Omega.{arith}
use native.Mathlib.Nat.{pow-suc, div-add-mod, mod-lt, add-mul-div_right, add_comm, div-eq_of_lt}

-- Fuel beyond the number itself changes nothing, for any operation on digits.
module _ (base : ℕ → ℕ) (op : ℕ → ℕ → ℕ) where
  digits_more : (n x y : ℕ) → x ≤ n → digits base op (suc n) x y ≡ digits base op n x y
  digits_more zero zero y h = refl
  digits_more (suc n) zero y h = refl
  digits_more zero (suc x) y h = absurd (omega arith)
  digits_more (suc n) (suc x) y h = omega (arith, digits_more n (suc x / 2) (y / 2) (omega arith))

  digits_enough : (d x y : ℕ) → digits base op (d + x) x y ≡ digits base op x x y
  digits_enough zero x y = let e : 0 + x ≡ x = omega arith in ap (λ (n : ℕ). digits base op n x y) e
  digits_enough (suc d) x y =
      let e : suc d + x ≡ suc (d + x) = omega arith in
      ap (λ (n : ℕ). digits base op n x y) e
      ∙ digits_more (d + x) x y (omega arith)
      ∙ digits_enough d x y

  digits_half :
      (x y : ℕ)
      → digits base op x (suc x / 2) (y / 2) ≡ digits base op (suc x / 2) (suc x / 2) (y / 2)
  digits_half x y =
      let rounds : x ≡ (x - suc x / 2) + suc x / 2 = omega arith in
      ap (λ (n : ℕ). digits base op n (suc x / 2) (y / 2)) rounds
      ∙ digits_enough (x - suc x / 2) (suc x / 2) (y / 2)

pub zero-bit_or : (y : ℕ) → bit_or 0 y ≡ y
zero-bit_or y = bit_or-bitwise 0 y

-- The laws for the lowest digit.
pub bit_or_step : (x y : ℕ) → bit_or x y ≡ bit_or (x / 2) (y / 2) * 2 + max (x % 2) (y % 2)
bit_or_step zero y = omega (arith, zero-bit_or y, zero-bit_or (y / 2))
bit_or_step (suc x) y = omega (
  arith,
  digits_half (λ z. z) max x y,
  bit_or-bitwise (suc x / 2) (y / 2),
  bit_or-bitwise (suc x) y,
)

pub bit_or-zero : (x : ℕ) → bit_or x 0 ≡ x
bit_or-zero x = go x x (omega arith)
  where
    go : (n z : ℕ) → z ≤ n → bit_or z 0 ≡ z
    go n zero h = refl
    go zero (suc z) h = absurd (omega arith)
    go (suc n) (suc z) h = omega (arith, go n (suc z / 2) (omega arith), bit_or_step (suc z) 0)

zero-bit_and : (y : ℕ) → bit_and 0 y ≡ 0
zero-bit_and y = bit_and-bitwise 0 y

pub bit_and_step : (x y : ℕ) → bit_and x y ≡ bit_and (x / 2) (y / 2) * 2 + min (x % 2) (y % 2)
bit_and_step zero y = omega (arith, zero-bit_and (y / 2), zero-bit_and y)
bit_and_step (suc x) y = omega (
  arith,
  digits_half (λ z. zero) min x y,
  bit_and-bitwise (suc x / 2) (y / 2),
  bit_and-bitwise (suc x) y,
)

pub bit_and-zero : (x : ℕ) → bit_and x 0 ≡ 0
bit_and-zero x = go x x (omega arith)
  where
    go : (n z : ℕ) → z ≤ n → bit_and z 0 ≡ 0
    go n zero h = refl
    go zero (suc z) h = absurd (omega arith)
    go (suc n) (suc z) h = omega (arith, go n (suc z / 2) (omega arith), bit_and_step (suc z) 0)

pow-pos : (k : ℕ) → 0 < 2 ^ k
pow-pos zero = omega arith
pow-pos (suc k) = omega (arith, pow-suc 2 k, pow-pos k)

half-split : (k a r : ℕ) → (a * 2 ^ suc k + r) / 2 ≡ a * 2 ^ k + r / 2
half-split k a r = omega (arith, ap (λ (p : ℕ). a * p) (pow-suc 2 k))

low-split : (k a r : ℕ) → (a * 2 ^ suc k + r) % 2 ≡ r % 2
low-split k a r = omega (arith, ap (λ (p : ℕ). a * p) (pow-suc 2 k))

-- The operations work on the digits above and below any place apart.
bit_and-split :
    (k a b r s : ℕ)
    → r < 2 ^ k
    → s < 2 ^ k
    → bit_and (a * 2 ^ k + r) (b * 2 ^ k + s) ≡ bit_and a b * 2 ^ k + bit_and r s
bit_and-split zero a b r s hr hs =
    let ea : a * 2 ^ 0 + r ≡ a = omega arith in
    let eb : b * 2 ^ 0 + s ≡ b = omega arith in
    let er : r ≡ 0 = omega arith in rw (ea, eb, er) (omega (arith, zero-bit_and s))
bit_and-split (suc k) a b r s hr hs = omega (
  arith,
  bit_and_step (a * 2 ^ suc k + r) (b * 2 ^ suc k + s),
  ap₂ bit_and (half-split k a r) (half-split k b s),
  ap₂ min (low-split k a r) (low-split k b s),
  bit_and-split k a b (r / 2) (s / 2) (omega (arith, pow-suc 2 k)) (omega (arith, pow-suc 2 k)),
  bit_and_step r s,
  ap (λ (p : ℕ). bit_and a b * p) (pow-suc 2 k),
)

bit_or-split :
    (k a b r s : ℕ)
    → r < 2 ^ k
    → s < 2 ^ k
    → bit_or (a * 2 ^ k + r) (b * 2 ^ k + s) ≡ bit_or a b * 2 ^ k + bit_or r s
bit_or-split zero a b r s hr hs =
    let ea : a * 2 ^ 0 + r ≡ a = omega arith in
    let eb : b * 2 ^ 0 + s ≡ b = omega arith in
    let er : r ≡ 0 = omega arith in rw (ea, eb, er) (omega (arith, zero-bit_or s))
bit_or-split (suc k) a b r s hr hs = omega (
  arith,
  bit_or_step (a * 2 ^ suc k + r) (b * 2 ^ suc k + s),
  ap₂ bit_or (half-split k a r) (half-split k b s),
  ap₂ max (low-split k a r) (low-split k b s),
  bit_or-split k a b (r / 2) (s / 2) (omega (arith, pow-suc 2 k)) (omega (arith, pow-suc 2 k)),
  bit_or_step r s,
  ap (λ (p : ℕ). bit_or a b * p) (pow-suc 2 k),
)

parts : (k v : ℕ) → v / 2 ^ k * 2 ^ k + v % 2 ^ k ≡ v
parts k v = omega (arith, div-add-mod v (2 ^ k))

pub bit_and-parts :
    (k v m : ℕ)
    → bit_and v m ≡ bit_and (v / 2 ^ k) (m / 2 ^ k) * 2 ^ k + bit_and (v % 2 ^ k) (m % 2 ^ k)
bit_and-parts k v m =
    ap₂ bit_and (sym (parts k v)) (sym (parts k m))
    ∙ bit_and-split k _ _ _ _ (mod-lt v (pow-pos k)) (mod-lt m (pow-pos k))

pub bit_or-parts :
    (k v m : ℕ)
    → bit_or v m ≡ bit_or (v / 2 ^ k) (m / 2 ^ k) * 2 ^ k + bit_or (v % 2 ^ k) (m % 2 ^ k)
bit_or-parts k v m =
    ap₂ bit_or (sym (parts k v)) (sym (parts k m))
    ∙ bit_or-split k _ _ _ _ (mod-lt v (pow-pos k)) (mod-lt m (pow-pos k))

ones_below : (k r : ℕ) → r < 2 ^ k → bit_and r (2 ^ k - 1) ≡ r
ones_below zero r h = let e : r ≡ 0 = omega arith in rw e (zero-bit_and (2 ^ 0 - 1))
ones_below (suc k) r h = omega (
  arith,
  pow-suc 2 k,
  pow-pos k,
  bit_and_step r (2 ^ suc k - 1),
  ap (bit_and (r / 2)) half,
  ones_below k (r / 2) (omega (arith, pow-suc 2 k)),
)
  where
    half : (2 ^ suc k - 1) / 2 ≡ 2 ^ k - 1
    half = omega (arith, pow-suc 2 k, pow-pos k)

-- A mask of the lowest k places takes the remainder.
pub bit_and-ones : (k a : ℕ) → bit_and a (2 ^ k - 1) ≡ a % 2 ^ k
bit_and-ones k a =
    ap₂ bit_and (sym (parts k a)) (omega arith)
    ∙ bit_and-split k (a / 2 ^ k) 0 (a % 2 ^ k) (2 ^ k - 1) (mod-lt a (pow-pos k))
        (omega (arith, pow-pos k))
    ∙ omega (
      arith,
      ap (λ (t : ℕ). t * 2 ^ k) (bit_and-zero (a / 2 ^ k)),
      ones_below k (a % 2 ^ k) (mod-lt a (pow-pos k)),
    )

-- A mask of j places from place k on takes a field, still in its place.
pub bit_and-field : (j k a : ℕ) → bit_and a ((2 ^ j - 1) * 2 ^ k) ≡ a / 2 ^ k % 2 ^ j * 2 ^ k
bit_and-field j k a =
    ap₂ bit_and (sym (parts k a)) (omega arith)
    ∙ bit_and-split k (a / 2 ^ k) (2 ^ j - 1) (a % 2 ^ k) 0 (mod-lt a (pow-pos k)) (pow-pos k)
    ∙ omega
        (arith, ap (λ (t : ℕ). t * 2 ^ k) (bit_and-ones j (a / 2 ^ k)), bit_and-zero (a % 2 ^ k))

pub bit_and-lt : (k a b : ℕ) → b < 2 ^ k → bit_and a b < 2 ^ k
bit_and-lt zero a b h = let e : b ≡ 0 = omega arith in rw e (omega (arith, bit_and-zero a))
bit_and-lt (suc k) a b h = omega (
  arith,
  pow-suc 2 k,
  bit_and_step a b,
  bit_and-lt k (a / 2) (b / 2) (omega (arith, pow-suc 2 k)),
)

pub bit_or-lt : (k a b : ℕ) → a < 2 ^ k → b < 2 ^ k → bit_or a b < 2 ^ k
bit_or-lt zero a b h l =
    let e : b ≡ 0 = omega arith in let e' : a ≡ 0 = omega arith in rw (e, e') (omega arith)
bit_or-lt (suc k) a b h l = omega (
  arith,
  pow-suc 2 k,
  bit_or_step a b,
  bit_or-lt k (a / 2) (b / 2) (omega (arith, pow-suc 2 k)) (omega (arith, pow-suc 2 k)),
)

-- The digits from place k on, and those below it.
high : (k h l : ℕ) → l < 2 ^ k → (h * 2 ^ k + l) / 2 ^ k ≡ h
high k h l b =
    rw (add_comm (h * 2 ^ k) l, add-mul-div_right l h (pow-pos k)) (omega (arith, div-eq_of_lt b))

low : (k h l : ℕ) → l < 2 ^ k → (h * 2 ^ k + l) % 2 ^ k ≡ l
low k h l b = omega (arith, parts k (h * 2 ^ k + l), ap (λ (t : ℕ). t * 2 ^ k) (high k h l b))

module _ (k a b : ℕ) where
  and_low : bit_and (a % 2 ^ k) (b % 2 ^ k) < 2 ^ k
  and_low = bit_and-lt k _ _ (mod-lt b (pow-pos k))

  or_low : bit_or (a % 2 ^ k) (b % 2 ^ k) < 2 ^ k
  or_low = bit_or-lt k _ _ (mod-lt a (pow-pos k)) (mod-lt b (pow-pos k))

  pub bit_and-mod : bit_and a b % 2 ^ k ≡ bit_and (a % 2 ^ k) (b % 2 ^ k)
  bit_and-mod = rw (bit_and-parts k a b) (low k _ _ and_low)

  pub bit_or-mod : bit_or a b % 2 ^ k ≡ bit_or (a % 2 ^ k) (b % 2 ^ k)
  bit_or-mod = rw (bit_or-parts k a b) (low k _ _ or_low)

  pub bit_and-div : bit_and a b / 2 ^ k ≡ bit_and (a / 2 ^ k) (b / 2 ^ k)
  bit_and-div = rw (bit_and-parts k a b) (high k _ _ and_low)

  pub bit_or-div : bit_or a b / 2 ^ k ≡ bit_or (a / 2 ^ k) (b / 2 ^ k)
  bit_or-div = rw (bit_or-parts k a b) (high k _ _ or_low)

  -- The digit at place k.
  pub bit_and-bit : bit_and a b / 2 ^ k % 2 ≡ min (a / 2 ^ k % 2) (b / 2 ^ k % 2)
  bit_and-bit = rw bit_and-div (omega (arith, bit_and_step (a / 2 ^ k) (b / 2 ^ k)))

  pub bit_or-bit : bit_or a b / 2 ^ k % 2 ≡ max (a / 2 ^ k % 2) (b / 2 ^ k % 2)
  bit_or-bit = rw bit_or-div (omega (arith, bit_or_step (a / 2 ^ k) (b / 2 ^ k)))
