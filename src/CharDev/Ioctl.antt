-- ===== src/CharDev/Ioctl.antt =====
-- ioctl_device/my_device.c: a device that stores one `int`, set and read by ioctl.
pub mod Value
pub mod Load
use linux_driver.Base.{
  ℕ, ℤ, pos, negsuc, is_neg, eqb_ℤ, Bool, true, false, Option, none, some, List, ◌∷◌, ◌≡◌, enotty,
  efault, ◌==◌, if◌then◌else◌,
}
use linux_driver.Kernel.{
  ErrPtr, alloc_chrdev_region, unregister_chrdev_region, cdev_init, cdev_add, cdev_del,
  class_create, class_unregister, class_destroy, device_create, device_destroy, Log, Run,
}

-- The three command numbers; `_IOR` of the kernel's headers makes different numbers of them.
pub record Commands : Type 0 where
  pub set_value : ℕ
  pub get_value : ℕ
  pub show_value : ℕ
  pub set-ne-get : (set_value == get_value) ≡ false
  pub set-ne-show : (set_value == show_value) ≡ false
  pub get-ne-show : (get_value == show_value) ≡ false

-- The module's `value`, and the `int` that `arg` points to in the caller's memory.
pub record Cells : Type 0 where
  pub value : ℤ
  pub arg : ℤ

module _ (c : Commands) where
  -- `left` is the number of bytes that a copy left uncopied. A copy to the caller that stops short
  -- leaves there what `torn` says.
  unfoldable pub my_ioctl : (cmd left : ℕ) (torn : ℤ) → Cells → ℤ × Cells
  my_ioctl cmd left torn s =
      if cmd == c.set_value
      then (if left == 0 then (pos 0, record s { value = s.arg }) else (efault, s))
      else if cmd == c.get_value
      then (if left == 0
          then (pos 0, record s { arg = s.value })
          else (efault, record s { arg = torn }))
      else if cmd == c.show_value
      then (pos 0, s)
      else (enotty, s)

-- `dev`, `class` and `device`.
pub record Driver : Type 0 where
  pub devid : ℕ
  pub class : ErrPtr
  pub device : ErrPtr

pub record Answers : Type 0 where
  pub region : ℤ
  pub devid : ℕ
  pub added : ℤ
  pub class : ErrPtr
  pub device : ErrPtr

-- The answers of `class_create` and `device_create` are not tested.
unfoldable pub make_node : Answers → Driver → Log → Run Driver
make_node k g log = record {
  ret = pos 0;
  dev = record g { class = k.class; device = k.device };
  log = device_create g.devid k.device ∷ class_create k.class ∷ log;
}

unfoldable pub my_driver_init : Answers → Driver → Log → Run Driver
unfolding make_node
my_driver_init k g log =
    let log1 = alloc_chrdev_region k.region k.devid ∷ log in
    let g' = record g { devid = k.devid } in
    let log2 = cdev_add k.added ∷ cdev_init ∷ log1 in
    if is_neg k.region
    then record { ret = negsuc 0; dev = g; log = log1 }
    else if eqb_ℤ k.added (negsuc 0)
    then record { ret = negsuc 0; dev = g'; log = unregister_chrdev_region k.devid ∷ log2 }
    else make_node k g' log2

unfoldable pub my_driver_exit : Driver → Log → Log
my_driver_exit g log =
    unregister_chrdev_region g.devid
    ∷ cdev_del
    ∷ class_destroy g.class
    ∷ class_unregister g.class
    ∷ device_destroy g.devid
    ∷ log
