-- ===== src/Syscall/Memmap.antt =====
-- System call 17, `sys_memmap` of src/sys_mem.c: which process it works on.
use simple_operating_system.Common.{◌≡◌, some, List, [], ◌∷◌}
use simple_operating_system.Queue.{Ptr}
use simple_operating_system.World.{World, deref}

-- The control blocks of a list are all in use.
abbrev pub Live : World → List Ptr → Type 0
Live w [] = Unit
Live w (p ∷ ps) = (deref w p ≡ some (w.procs p)) × Live w ps

-- No other process of a list has the number of process p.
abbrev pub Sole : World → Ptr → List Ptr → Type 0
Sole w p [] = Unit
Sole w p (q ∷ qs) = ((w.procs q).pid ≡ (w.procs p).pid → q ≡ p) × Sole w p qs
