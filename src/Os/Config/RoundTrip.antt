-- ===== src/Os/Config/RoundTrip.antt =====
-- `read_config` of src/os.c reads back the configurations that Os/Config/Print prints.
use simple_operating_system.Common.{
  ℕ, suc, ◌^◌, ◌<◌, ◌≡◌, refl, ap, ◌∙◌, Option, some, true, false, List, [], ◌∷◌, ◌++◌, ltb, arith,
  length, first_eq, second_eq,
}
use simple_operating_system.Loader.Scan.{
  Bytes, is_space, skip_space, scan_number, scan_numbers, take_word, store_word, scan_word,
}
use simple_operating_system.Loader.Numbers.{
  decimal, scan_number-decimal, scan_number-space, skip_space-decimal,
}
use simple_operating_system.Loader.Print.{print_args, Blank, take_word-Blank, scan_numbers-step}
use simple_operating_system.Loader.{returns, and_then}
use simple_operating_system.Os.Config.{
  LdProcess, proc_folder, read_prio, read_process, read_processes, read_config,
}
use simple_operating_system.Os.Config.Print.{
  Entry, print_entries, print_memory, print_config, Solid, IsName, EachEntry, Readable,
}
use simple_operating_system.Os.Config.MemoryLine.{scan_two, skip_memory_line-print_memory}

take_word-Solid : (s f : Bytes) → Solid s → Blank f → take_word (s ++ f) ≡ (s, f)
unfolding take_word
take_word-Solid [] f h b = take_word-Blank f b
take_word-Solid (c ∷ s) f (h, hs) b = rw (h, take_word-Solid s f hs b) refl

store_word-word :
    (c : ℕ) (s f g : Bytes) → take_word f ≡ (c ∷ s, g) → store_word f ≡ (some (c ∷ s), g)
unfolding store_word
store_word-word c s f g e = rw (store_word, first_eq e, second_eq e) refl

skip_space-keeps : (c : ℕ) (cs : Bytes) → is_space c ≡ false → skip_space (c ∷ cs) ≡ c ∷ cs
unfolding skip_space
skip_space-keeps c cs h = rw h refl

scan_word-name : (s f : Bytes) → IsName s → Blank f → scan_word (b' ' ∷ s ++ f) ≡ (some s, f)
unfolding scan_word skip_space
scan_word-name [] f h b = absurd (omega (arith, h.named))
scan_word-name (c ∷ s) f h b =
    ap store_word (skip_space-keeps c (s ++ f) h.solid.0)
    ∙ store_word-word c s (c ∷ s ++ f) f (take_word-Solid (c ∷ s) f h.solid b)

skip_space-entries : (es : List Entry) → skip_space (print_entries es) ≡ print_entries es
unfolding skip_space print_entries
skip_space-entries [] = refl
skip_space-entries (e ∷ es) =
    skip_space-decimal e.start_time
      (b' ' ∷ e.name ++ b' ' ∷ decimal e.prio (b'\n' ∷ print_entries es))

read_prio-decimal :
    (stale n : ℕ) (es : List Entry)
    → n < 2 ^ 64
    → read_prio stale (b' ' ∷ decimal n (b'\n' ∷ print_entries es)) ≡ (n, print_entries es)
unfolding read_prio skip_space
read_prio-decimal stale n es h =
    let f = b'\n' ∷ print_entries es in
    let one = scan_number-space 64 (decimal n f) ∙ scan_number-decimal 64 n f h h refl in
    rw (read_prio, first_eq one, second_eq one) (ap (λ g. (n, g)) (skip_space-entries es))

-- What the loop makes of an entry.
abbrev pub process_of : Entry → LdProcess
process_of e = record { path = proc_folder ++ e.name; start_time = e.start_time; prio = e.prio }

read_process-parts :
    (stale start prio : ℕ) (proc file file' file'' rest : Bytes)
    → scan_number 64 file ≡ (some start, file')
    → scan_word file' ≡ (some proc, file'')
    → read_prio stale file'' ≡ (prio, rest)
    → length proc < 89
    → read_process stale file
      ≡ returns (record { path = proc_folder ++ proc; start_time = start; prio = prio }, rest)
unfolding read_process
read_process-parts stale start prio proc file file' file'' rest a b c h =
    let short : ltb (length proc) 100 ≡ true = ground (arith, h) in
    let fits : ltb (length (proc_folder ++ proc)) 100 ≡ true = ground (arith, h) in
    rw (read_process, first_eq a, second_eq a, first_eq b, second_eq a, second_eq b, c, short, fits)
      refl

read_process-entry :
    (stale : ℕ) (e : Entry) (es : List Entry)
    → e.start_time < 2 ^ 64
    → e.prio < 2 ^ 64
    → IsName e.name
    → read_process stale (print_entries (e ∷ es)) ≡ returns (process_of e, print_entries es)
unfolding print_entries
read_process-entry stale e es h k n =
    let after = b' ' ∷ decimal e.prio (b'\n' ∷ print_entries es) in
    let one = scan_number-decimal 64 e.start_time (b' ' ∷ e.name ++ after) h h refl in
    let word = scan_word-name e.name after n refl in
    read_process-parts stale e.start_time e.prio e.name (print_entries (e ∷ es))
      (b' ' ∷ e.name ++ after) after (print_entries es) one word
      (read_prio-decimal stale e.prio es k) n.fits

abbrev pub processes_of : List Entry → List LdProcess
processes_of [] = []
processes_of (e ∷ es) = process_of e ∷ processes_of es

read_processes-print_entries :
    (stale : ℕ → ℕ) (i : ℕ) (es : List Entry)
    → EachEntry es
    → read_processes stale (length es) i (print_entries es) ≡ returns (processes_of es)
unfolding read_processes and_then
read_processes-print_entries stale i [] v = refl
read_processes-print_entries stale i (e ∷ es) (h, k, n, v) =
    rw (read_process-entry (stale i) e es h k n, read_processes-print_entries stale (suc i) es v)
      refl

read_head :
    (t n k : ℕ) (rest : Bytes)
    → t < 2 ^ 32
    → n < 2 ^ 32
    → k < 2 ^ 32
    → scan_numbers 32 3 (decimal t (b' ' ∷ decimal n (b' ' ∷ decimal k (b'\n' ∷ rest))))
      ≡ (t ∷ n ∷ k ∷ [], b'\n' ∷ rest)
unfolding scan_numbers
read_head t n k rest ht hn hk =
    let sizes = b' ' ∷ decimal k (b'\n' ∷ rest) in
    let after = b' ' ∷ decimal n sizes in
    let one = scan_number-decimal 32 t after (omega (arith, ht)) ht refl in
    let two =
      scan_number-space 32 (decimal n sizes)
      ∙ scan_number-decimal 32 n sizes (omega (arith, hn)) hn refl in
    let three =
      scan_number-space 32 (decimal k (b'\n' ∷ rest))
      ∙ scan_number-decimal 32 k (b'\n' ∷ rest) (omega (arith, hk)) hk refl in
    scan_numbers-step 32 2 t (decimal t after) after one
    ∙ ap (λ (r : List ℕ × Bytes). (t ∷ r.0, r.1))
        (scan_two n k after sizes (b'\n' ∷ rest) two three)

skip_space-print_memory :
    (memory : List ℕ) (es : List Entry)
    → skip_space (b'\n' ∷ print_memory memory (print_entries es))
      ≡ print_memory memory (print_entries es)
unfolding skip_space
skip_space-print_memory [] es = skip_space-entries es
skip_space-print_memory (a ∷ xs) es =
    skip_space-decimal a (print_args xs (b'\n' ∷ print_entries es))

-- A configuration that has been printed is read back: the time slot, the processors, and for each
-- process its path, its start time and its priority. The sizes of memory are fixed: a line of them in
-- the file, of two numbers at least, makes no difference. Where there is none, the name of the first
-- process must not begin with a digit or a sign.
pub read_config-print_config :
    (files : Bytes → Option Bytes) (stale : ℕ → ℕ) (path : Bytes) (t n : ℕ) (memory : List ℕ)
    (es : List Entry)
    → files path ≡ some (print_config t n memory es)
    → t < 2 ^ 32
    → n < 2 ^ 32
    → length es < 2 ^ 31
    → EachEntry es
    → Readable memory es
    → read_config files stale path
      ≡ returns (record {
        time_slot = t;
        num_cpus = n;
        num_processes = length es;
        memramsz = 0x10_0000;
        memswpsz = 0x100_0000 ∷ 0 ∷ 0 ∷ 0 ∷ [];
        ld_processes = processes_of es;
      })
unfolding read_config and_then
read_config-print_config files stale path t n memory es f ht hn hk v h =
    let head =
      read_head t n (length es) (print_memory memory (print_entries es)) ht hn
        (omega (arith, hk)) in
    let few : ltb (length es) (2 ^ 31) ≡ true = ground (arith, hk) in
    let entries = read_processes-print_entries stale 0 es v in
    rw
      (
        read_config,
        f,
        head,
        few,
        skip_space-print_memory memory es,
        skip_memory_line-print_memory memory es v h,
        entries,
      )
      refl
