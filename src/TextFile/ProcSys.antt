-- ===== src/TextFile/ProcSys.antt =====
-- procsys/procsys.c: /proc/sys/my_module keeps the text that was written last.
pub mod Buffer
pub mod Texts
use linux_driver.Base.{
  ℕ, ◌-◌, ℤ, pos, Option, none, some, List, ◌∷◌, ◌++◌, leb, ◌==◌, if◌then◌else◌, set, cstr, codes,
  enomem, efault,
}
use linux_driver.Kernel.{Event, proc_create, remove_proc_entry, Log, Run, overwrite, padded}

abbrev pub user_data_size : ℕ
user_data_size = 256

-- What the file shows of `user_data`.
unfoldable pub my_proc_show : (user_data : List ℕ) → List ℕ
my_proc_show user_data = codes "User data: " ++ (cstr user_data ++ codes "\n")

-- The reader that `single_open` is given.
unfoldable pub my_proc_open : List ℕ → List ℕ
unfolding my_proc_show
my_proc_open = my_proc_show

-- The text is checked for its size before it is copied. `left` bytes stay uncopied, and the kernel
-- puts zeros in their places.
unfoldable pub my_proc_write : (user_data buf : List ℕ) (count left : ℕ) → ℤ × List ℕ
my_proc_write user_data buf count left =
    if leb user_data_size count
    then (efault, user_data)
    else if left == 0
    then (pos count, set (overwrite user_data buf count) count 0)
    else (efault, overwrite user_data (padded buf count left) count)

-- The module's state is the entry, which it does not keep: it is removed by its name.
unfoldable pub my_module_init : (entry : Option ℕ) → Log → Run (Unit {0})
my_module_init entry log =
    let log' = proc_create entry ∷ log in
    elim entry [
      | none ↦ record { ret = enomem; dev = tt; log = log' }
      | some _ ↦ record { ret = pos 0; dev = tt; log = log' }
    ]

-- `entry` is what the kernel finds under the name.
unfoldable pub my_module_exit : (entry : ℕ) → Log → Log
my_module_exit entry log = remove_proc_entry entry ∷ log
