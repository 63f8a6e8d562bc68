-- ===== src/DeviceTree/Backlight.antt =====
-- dtsof/dtsof.c: reads the properties of the node /backlight once, when the module loads.
pub mod Memory
use linux_driver.Base.{
  ℕ, ◌-◌, ◌+◌, ◌*◌, ◌^◌, ◌%◌, ℤ, pos, negsuc, is_set, Bool, true, false, Option, none, some, List,
  ◌∷◌, [], if◌then◌else◌, take, einval, enomem,
}
use linux_driver.Kernel.{kmalloc, kfree, Log}

-- What the device tree and the allocator answer. A property that `of_find_property` finds has its
-- value; `count` is the answer of `of_property_count_elems_of_size`, an `int`.
pub record Answers : Type 0 where
  pub node : Option ℕ
  pub compatible : Option (List ℕ)
  pub status : ℤ
  pub status_text : List ℕ
  pub level : ℤ
  pub level_value : ℕ
  pub count : ℤ
  pub memory : Option ℕ
  pub levels : ℤ
  pub levels_values : List ℕ

pub data Line : Type 0 where
  compatible_is : List ℕ → Line
  status_is : List ℕ → Line
  default_level : ℕ → Line
  levels_size : ℕ → Line
  brightness_level : ℕ → ℕ → Line

-- The return code, the calls that move memory and what is printed, the latest first.
pub record Read : Type 0 where
  pub ret : ℤ
  pub log : Log
  pub lines : List Line

-- `elemsize` is a u32, so that a negative answer becomes a large number.
unfoldable pub to_u32 : ℤ → ℕ
to_u32 (pos n) = n % 2 ^ 32
to_u32 (negsuc n) = 2 ^ 32 - 1 - n % 2 ^ 32

-- `for (i = 0; i < elemsize; i++)` over the cells that were read.
unfoldable pub print_levels : ℕ → List ℕ → List Line → List Line
print_levels i [] out = out
print_levels i (v ∷ vs) out = print_levels (i + 1) vs (brightness_level i v ∷ out)

-- After the reading, failed or not, the memory is freed, and 0 is returned.
unfoldable pub read_levels : Answers → (elemsize brival : ℕ) → Log → List Line → Read
unfolding print_levels
read_levels k elemsize brival log lines =
    let shown =
      if is_set k.levels then lines else print_levels 0 (take elemsize k.levels_values) lines in
    record { ret = pos 0; log = kfree brival ∷ log; lines = shown }

module _ (size_bits : ℕ) where
  -- The test `elemsize < 0` on a u32 never holds. The product is taken in `size_t`.
  unfoldable pub allocate_levels : Answers → Log → List Line → Read
  unfolding read_levels to_u32
  allocate_levels k log lines =
      let elemsize = to_u32 k.count in
      let lines' = levels_size elemsize ∷ lines in
      let log' = kmalloc (elemsize * 4 % 2 ^ size_bits) k.memory ∷ log in
      elim k.memory [
        | none ↦ record { ret = enomem; log = log'; lines = lines' }
        | some a ↦ read_levels k elemsize a log' lines'
      ]

  unfoldable pub read_numbers : Answers → Log → List Line → Read
  unfolding allocate_levels
  read_numbers k log lines =
      if is_set k.level
      then record { ret = k.level; log = log; lines = lines }
      else allocate_levels k log (default_level k.level_value ∷ lines)

  unfoldable pub read_texts : Answers → (compatible : List ℕ) → Log → Read
  unfolding read_numbers
  read_texts k compatible log =
      let lines = compatible_is compatible ∷ [] in
      if is_set k.status
      then record { ret = k.status; log = log; lines = lines }
      else read_numbers k log (status_is k.status_text ∷ lines)

  unfoldable pub dtsof_init : Answers → Log → Read
  unfolding read_texts
  dtsof_init k log =
      let missing : Read = record { ret = einval; log = log; lines = [] } in
      elim k.node [
        | none ↦ missing
        | some _ ↦ elim k.compatible [ none ↦ missing | some text ↦ read_texts k text log ]
      ]

unfoldable pub dtsof_exit : Log → Log
dtsof_exit log = log
