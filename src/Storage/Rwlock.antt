-- ===== src/Storage/Rwlock.antt =====
-- 2.3/src/rwlock: list.c and the thread functions of main.c, the text of those of 2.3/src/mutex with a read-write lock in
-- place of the mutex.
use os_5_sem.Base.{ℕ, Bool, Option, List}
use os_5_sem.Storage.Memory.{Mode, shared, Cmd}
use os_5_sem.Storage.{Storage}
use os_5_sem.Storage as Storage
use os_5_sem.Storage.Build.{Arena}
use os_5_sem.Storage.Build as Build

abbrev pub generate_gandom_string : (rand : ℕ → ℕ) → (next : ℕ) → List ℕ
generate_gandom_string = Build.generate_gandom_string

abbrev pub storage_init :
    (malloc : ℕ → Option ℕ) → (rand : ℕ → ℕ) → (n : ℕ) → Arena → Option (Option Storage × Arena)
storage_init = Build.storage_init

abbrev pub storage_destroy : (fuel : ℕ) → Option Storage → Arena → Option Arena
storage_destroy = Build.storage_destroy

-- The threads that search lock as this program does.
abbrev pub search_mode : Mode
search_mode = shared

abbrev pub search_pairs : (ℕ → ℕ → Bool) → (fuel rounds : ℕ) → Storage → Cmd (Unit {0})
search_pairs = Storage.search_pairs search_mode

abbrev pub pair_searcher : (ℕ → ℕ → Bool) → (fuel rounds : ℕ) → Storage → Cmd (Unit {0})
pair_searcher = Storage.pair_searcher search_mode

abbrev pub swap_pairs : (ℕ → ℕ → Bool) → (random : ℕ) → Storage → Cmd (Unit {0})
swap_pairs = Storage.swap_pairs

abbrev pub swapper : (ℕ → ℕ → Bool) → List ℕ → Storage → Cmd (Unit {0})
swapper = Storage.swapper
