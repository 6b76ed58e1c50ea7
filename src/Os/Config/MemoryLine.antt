-- ===== src/Os/Config/MemoryLine.antt =====
-- The line of memory sizes in a configuration, which `read_config` of src/os.c skips if it is there.
use simple_operating_system.Common.{
  ℕ, suc, ◌%◌, ◌^◌, ◌<◌, ◌≡◌, refl, ap, ◌∙◌, none, some, List, [], ◌∷◌, ◌++◌, arith, length,
  first_eq, second_eq,
}
use simple_operating_system.Loader.Scan.{
  Bytes, skip_space, scan_unsigned, scan_signed, scan_number, scan_numbers,
}
use simple_operating_system.Loader.Numbers.{
  decimal, scan_number-decimal_mod, scan_number-decimal, scan_number-space,
}
use simple_operating_system.Loader.Print.{
  print_args, Blank-Stops, Plain, print_args-Plain, print_args-append, print_args-Blank,
  scan_numbers-step,
}
use simple_operating_system.Os.Config.{skip_line, skip_memory_line}
use simple_operating_system.Os.Config.Print.{
  Entry, print_entries, print_memory, Solid, EachEntry, Wordy, Readable, FirstWordy,
}

skip_line-line : (s f : Bytes) → Plain s → skip_line (s ++ b'\n' ∷ f) ≡ f
unfolding skip_line
skip_line-line [] f h = refl
skip_line-line (c ∷ s) f (h, hs) = rw h (skip_line-line s f hs)

pub scan_two :
    (a b : ℕ) (f g h : Bytes)
    → scan_number 32 f ≡ (some a, g)
    → scan_number 32 g ≡ (some b, h)
    → scan_numbers 32 2 f ≡ (a ∷ b ∷ [], h)
unfolding scan_numbers
scan_two a b f g h one two =
    scan_numbers-step 32 1 a f g one
    ∙ ap (λ (r : List ℕ × Bytes). (a ∷ r.0, r.1)) (scan_numbers-step 32 0 b g h two)

skip_memory_line-sizes :
    (a b : ℕ) (xs : List ℕ) (f : Bytes)
    → a < 2 ^ 32
    → b < 2 ^ 32
    → skip_memory_line (decimal a (print_args (b ∷ xs) (b'\n' ∷ f))) ≡ f
unfolding skip_memory_line print_args
skip_memory_line-sizes a b xs f h k =
    let tail = print_args xs (b'\n' ∷ f) in
    let rest = b' ' ∷ decimal b tail in
    let stops = Blank-Stops tail (print_args-Blank xs (b'\n' ∷ f) refl) in
    let one = scan_number-decimal 32 a rest (omega (arith, h)) h refl in
    let two =
      scan_number-space 32 (decimal b tail)
      ∙ scan_number-decimal 32 b tail (omega (arith, k)) k stops in
    let sizes = scan_two a b (decimal a rest) rest tail one two in
    rw (skip_memory_line, first_eq sizes, second_eq sizes)
      (ap skip_line (print_args-append xs (b'\n' ∷ f))
        ∙ skip_line-line (print_args xs []) f (print_args-Plain xs))

-- A word is no number.
scan_number-Wordy :
    (w : ℕ) (s f : Bytes)
    → 0 < length s
    → Solid s
    → Wordy s
    → (scan_number w (b' ' ∷ s ++ f)).0 ≡ none
unfolding scan_number scan_signed scan_unsigned skip_space
scan_number-Wordy w [] f h q n = absurd (omega (arith, h))
scan_number-Wordy w (c ∷ s) f h (q, qs) (d, m, p) = rw (q, m, p, d) refl

scan_numbers-empty :
    (w n : ℕ) (f : Bytes) → (scan_number w f).0 ≡ none → (scan_numbers w (suc n) f).0 ≡ []
unfolding scan_numbers
scan_numbers-empty w n f e = rw (scan_numbers, e) refl

skip_memory_line-print_entries :
    (es : List Entry)
    → EachEntry es
    → FirstWordy es
    → skip_memory_line (print_entries es) ≡ print_entries es
unfolding skip_memory_line print_entries scan_numbers scan_number scan_signed skip_space
skip_memory_line-print_entries [] v h = refl
skip_memory_line-print_entries (e ∷ es) (start, _, name, _) h =
    let after = b' ' ∷ decimal e.prio (b'\n' ∷ print_entries es) in
    let rest = b' ' ∷ e.name ++ after in
    let one = scan_number-decimal_mod 32 e.start_time rest start refl in
    let none_left =
      scan_numbers-empty 32 0 rest (scan_number-Wordy 32 e.name after name.named name.solid h) in
    let sizes =
      first_eq (scan_numbers-step 32 1 (e.start_time % 2 ^ 32) (decimal e.start_time rest) rest one)
      ∙ ap (◌∷◌ (e.start_time % 2 ^ 32)) none_left in
    rw (skip_memory_line, sizes) refl

-- The line of memory sizes is skipped, and its absence is noticed.
pub skip_memory_line-print_memory :
    (memory : List ℕ) (es : List Entry)
    → EachEntry es
    → Readable memory es
    → skip_memory_line (print_memory memory (print_entries es)) ≡ print_entries es
skip_memory_line-print_memory [] es v h = skip_memory_line-print_entries es v h
skip_memory_line-print_memory (a ∷ []) es v (p, h) = absurd (omega (arith, p))
skip_memory_line-print_memory (a ∷ b ∷ xs) es v (p, (h, (k, hs))) =
    skip_memory_line-sizes a b xs (print_entries es) h k
