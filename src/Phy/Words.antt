-- ===== src/Phy/Words.antt =====
-- Words in a storage: reading back, and what a write leaves alone.
use simple_operating_system.Common.{
  ℕ, zero, suc, ◌+◌, ◌*◌, ◌/◌, ◌%◌, ◌^◌, ◌≤◌, ◌<◌, ◌≡◌, ◌⊎◌, inl, inr, ap₂, refl, ◌∙◌, arith,
}
use native.Mathlib.Nat.{pow-suc}
use simple_operating_system.Phy.{Storage, update, load_le, store_le, load64, store64, zero_words}

load_le-congr :
    (n : ℕ) (st st' : Storage) (a : ℕ)
    → ((x : ℕ) → a ≤ x → x < a + n → st x ≡ st' x)
    → load_le n st a ≡ load_le n st' a
unfolding load_le
load_le-congr zero st st' a h = refl
load_le-congr (suc n) st st' a h =
    let rest = load_le-congr n st st' (suc a) (λ x l u. h x (omega arith) (omega arith)) in
    ap₂ (λ (p q : ℕ). p + 256 * q) (h a (omega arith) (omega arith)) rest

pub store_le-outside :
    (n : ℕ) (st : Storage) (a v x : ℕ) → (x < a) ⊎ (a + n ≤ x) → store_le n st a v x ≡ st x
unfolding store_le
store_le-outside zero st a v x h = refl
store_le-outside (suc n) st a v x (inl h) =
    ground (arith, store_le-outside n st (suc a) (v / 256) x (inl (omega arith)))
store_le-outside (suc n) st a v x (inr h) =
    ground (arith, store_le-outside n st (suc a) (v / 256) x (inr (omega arith)))

load-store_le : (n : ℕ) (st : Storage) (a v : ℕ) → v < 256 ^ n → load_le n (store_le n st a v) a ≡ v
unfolding load_le store_le
load-store_le zero st a v h = omega arith
load-store_le (suc n) st a v h =
    let s = store_le n st (suc a) (v / 256) in
    let rest : load_le n s (suc a) ≡ v / 256 =
      load-store_le n st (suc a) (v / 256) (omega (arith, pow-suc 256 n)) in
    let apart : load_le n (update s a (v % 256)) (suc a) ≡ load_le n s (suc a) =
      load_le-congr n _ s (suc a) (λ x l u. ground arith) in
    let here : update s a (v % 256) a ≡ v % 256 = ground arith in omega (arith, here, apart, rest)

-- A word reads back as it was written.
pub load64-store64_self : (st : Storage) (a v : ℕ) → v < 2 ^ 64 → load64 (store64 st a v) a ≡ v
unfolding load64 store64
load64-store64_self st a v h = load-store_le 8 st a v h

-- Writing a word leaves the bytes outside it alone, and so every word that it does not overlap.
pub store64-outside : (st : Storage) (a v x : ℕ) → (x < a) ⊎ (a + 8 ≤ x) → store64 st a v x ≡ st x
unfolding store64
store64-outside st a v x h = store_le-outside 8 st a v x h

pub load64-congr :
    (st st' : Storage) (a : ℕ)
    → ((x : ℕ) → a ≤ x → x < a + 8 → st x ≡ st' x)
    → load64 st a ≡ load64 st' a
unfolding load64
load64-congr st st' a h = load_le-congr 8 st st' a h

pub load64-store64_ne :
    (st : Storage) (a b v : ℕ) → (b + 8 ≤ a) ⊎ (a + 8 ≤ b) → load64 (store64 st a v) b ≡ load64 st b
load64-store64_ne st a b v (inl h) =
    load64-congr _ st b (λ x l u. store64-outside st a v x (inl (omega arith)))
load64-store64_ne st a b v (inr h) =
    load64-congr _ st b (λ x l u. store64-outside st a v x (inr (omega arith)))

pub zero_words-outside :
    (n : ℕ) (st : Storage) (a x : ℕ) → (x < a) ⊎ (a + n * 8 ≤ x) → zero_words n st a x ≡ st x
unfolding zero_words
zero_words-outside zero st a x h = refl
zero_words-outside (suc n) st a x (inl h) =
    zero_words-outside n (store64 st a 0) (a + 8) x (inl (omega arith))
    ∙ store64-outside st a 0 x (inl h)
zero_words-outside (suc n) st a x (inr h) =
    zero_words-outside n (store64 st a 0) (a + 8) x (inr (omega arith))
    ∙ store64-outside st a 0 x (inr (omega arith))

-- Each of the words that are cleared reads 0.
pub load64-zero_words :
    (n : ℕ) (st : Storage) (a i : ℕ) → i < n → load64 (zero_words n st a) (a + i * 8) ≡ 0
unfolding zero_words
load64-zero_words zero st a i h = elim h [ ]
load64-zero_words (suc n) st a zero h =
    let e : a + 0 * 8 ≡ a = omega arith in
    rw e (
      load64-congr _ (store64 st a 0) a
        (λ x l u. zero_words-outside n (store64 st a 0) (a + 8) x (inl (omega arith)))
      ∙ load64-store64_self st a 0 (omega arith))
load64-zero_words (suc n) st a (suc i) h =
    let e : a + suc i * 8 ≡ a + 8 + i * 8 = omega arith in
    rw e (load64-zero_words n (store64 st a 0) (a + 8) i (omega arith))
