-- ===== src/CharDev/NewChrdev.antt =====
-- newchrdevbase/newchrdevbase.c: a character device with one 100-byte buffer, whose load function
-- takes four resources in turn and gives them back through the `fail_` labels.
pub mod Buffer
pub mod Load
use linux_driver.Base.{
  ℕ, ℤ, pos, is_neg, Bool, Option, none, some, List, [], ◌∷◌, ltb, if◌then◌else◌, length,
}
use linux_driver.Kernel.{
  ErrPtr, address, err_ptr, is_err, ptr_err, Event, alloc_chrdev_region, register_chrdev_region,
  unregister_chrdev_region, cdev_init, cdev_add, cdev_del, class_create, class_destroy,
  device_create, device_destroy, Log, Run, DevT, copy_from_user, copy_to_user,
}

-- `struct newchrled_cdev`, less the cdev itself, and `samebuf`.
pub record Newchrled : Type 0 where
  pub devid : ℕ
  pub class : ErrPtr
  pub device : ErrPtr
  pub major : ℕ
  pub minor : ℕ

-- What the kernel answers while the module loads.
pub record Answers : Type 0 where
  pub region : ℤ
  pub new_devid : ℕ
  pub added : ℤ
  pub class : ErrPtr
  pub device : ErrPtr

unfoldable pub newchardevbase_open : ℤ
newchardevbase_open = pos 0

unfoldable pub newchardevbase_release : ℤ
newchardevbase_release = pos 0

-- `sizeof(samebuf)` bytes go to the caller's memory, whatever `count` is.
unfoldable pub newchardevbase_read : (samebuf user : List ℕ) (count left : ℕ) → Option (ℤ × List ℕ)
newchardevbase_read samebuf user count left = elim (copy_to_user user samebuf 100 left) [
  | none ↦ none
  | some user' ↦ some (pos 0, user')
]

-- `count` is the caller's, and nothing bounds it by the size of the buffer.
unfoldable pub newchardevbase_write : (samebuf user : List ℕ) (count left : ℕ) → Option (ℤ × List ℕ)
newchardevbase_write samebuf user count left = elim (copy_from_user samebuf user count left) [
  | none ↦ none
  | some samebuf' ↦ some (pos 0, samebuf')
]

-- The labels, each falling through to the next.
unfoldable pub fail_devid : ℤ → Newchrled → Log → Run Newchrled
fail_devid ret g log = record { ret = ret; dev = g; log = log }

unfoldable pub fail_cdev : ℤ → Newchrled → Log → Run Newchrled
unfolding fail_devid
fail_cdev ret g log = fail_devid ret g (unregister_chrdev_region g.devid ∷ log)

unfoldable pub fail_class : ℤ → Newchrled → Log → Run Newchrled
unfolding fail_cdev
fail_class ret g log = fail_cdev ret g (cdev_del ∷ log)

unfoldable pub fail_device : ℤ → Newchrled → Log → Run Newchrled
unfolding fail_class
fail_device ret g log = fail_class ret g (class_destroy g.class ∷ log)

unfoldable pub make_device : Answers → Newchrled → Log → Run Newchrled
unfolding fail_device
make_device k g log =
    let g' = record g { device = k.device } in
    let log' = device_create g.devid k.device ∷ log in
    if is_err k.device
    then fail_device (ptr_err k.device) g' log'
    else record { ret = pos 0; dev = g'; log = log' }

unfoldable pub make_class : Answers → Newchrled → Log → Run Newchrled
unfolding fail_class make_device
make_class k g log =
    let g' = record g { class = k.class } in
    let log' = class_create k.class ∷ log in
    if is_err k.class then fail_class (ptr_err k.class) g' log' else make_device k g' log'

unfoldable pub add_cdev : Answers → Newchrled → Log → Run Newchrled
unfolding fail_cdev make_class
add_cdev k g log =
    let log' = cdev_add k.added ∷ cdev_init ∷ log in
    if is_neg k.added then fail_cdev k.added g log' else make_class k g log'

module _ (t : DevT) where
  -- A set major number is registered; otherwise the kernel chooses one, which it writes on success.
  unfoldable pub get_region : Answers → Newchrled → Log → Run Newchrled
  get_region k g log =
      if ltb 0 g.major
      then (let d = t.mkdev g.major 0 in
          record {
            ret = k.region;
            dev = record g { devid = d };
            log = register_chrdev_region k.region d ∷ log;
          })
      else (let d = if is_neg k.region then g.devid else k.new_devid in
          record {
            ret = k.region;
            dev = record g { devid = d; major = t.major d; minor = t.minor d };
            log = alloc_chrdev_region k.region d ∷ log;
          })

  unfoldable pub newchardevbase_init : Answers → Newchrled → Log → Run Newchrled
  unfolding get_region add_cdev
  newchardevbase_init k g log =
      let r = get_region k g log in
      if is_neg r.ret then fail_devid r.ret r.dev r.log else add_cdev k r.dev r.log

unfoldable pub newchardevbase_exit : Newchrled → Log → Log
newchardevbase_exit g log =
    class_destroy g.class
    ∷ device_destroy g.devid
    ∷ unregister_chrdev_region g.devid
    ∷ cdev_del
    ∷ log
