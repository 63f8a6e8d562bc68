-- ===== src/DeviceTree/Led.antt =====
-- dtsofled/dtsofled.c: an LED on bit 3 of a GPIO data register, whose addresses come from the
-- device tree.
pub mod Write
pub mod Switch
pub mod Load
use Prim.Native.Nat.{bit_and, bit_or}
use linux_driver.Base.{
  leb, ◌&&◌, ℕ, ◌-◌, ◌+◌, ◌^◌, ◌%◌, ℤ, pos, negsuc, is_neg, Bool, Option, none, some, List, [], ◌∷◌,
  ◌++◌, ltb, leb, ◌==◌, if◌then◌else◌, length, get_or, take, drop, replicate, efault,
}
use linux_driver.Kernel.{
  ErrPtr, is_err, ptr_err, alloc_chrdev_region, unregister_chrdev_region, cdev_init, cdev_add,
  cdev_del, class_create, class_destroy, device_create, device_destroy, ioremap, iounmap, Log, Run,
  DevT, copy_from_user,
}

abbrev pub ledoff : ℕ
ledoff = 0

abbrev pub ledon : ℕ
ledon = 1

-- `val &= ~(1 << 3)` and `val |= (1 << 3)` on a u32.
unfoldable pub clear_bit3 : ℕ → ℕ
clear_bit3 val = bit_and val 0xffff_fff7

unfoldable pub set_bit3 : ℕ → ℕ
set_bit3 val = bit_or val 8

-- The result is what GPIO1_DR holds after the call.
unfoldable pub led_switch : (sta gpio1_dr : ℕ) → ℕ
unfolding clear_bit3 set_bit3
led_switch sta gpio1_dr =
    if sta == ledon
    then clear_bit3 gpio1_dr
    else if sta == ledoff
    then set_bit3 gpio1_dr
    else gpio1_dr

unfoldable pub dtsled_open : ℤ
dtsled_open = pos 0

unfoldable pub dtsled_release : ℤ
dtsled_release = pos 0

unfoldable pub dtsled_read : ℤ
dtsled_read = pos 0

-- An unsigned long stored in an `int`.
unfoldable pub to_int : ℕ → ℤ
to_int n = let w = n % 2 ^ 32 in if ltb w (2 ^ 31) then pos w else negsuc (2 ^ 32 - w - 1)

-- The copy goes to a local array of one byte; the byte that is acted on is read through the caller's
-- pointer, which faults if the kernel could not copy even the first byte. The result is the return
-- value and GPIO1_DR.
unfoldable pub dtsled_write : (buf : List ℕ) (cnt left gpio1_dr : ℕ) → Option (ℤ × ℕ)
unfolding led_switch to_int
dtsled_write buf cnt left gpio1_dr = elim (copy_from_user (0 ∷ []) buf cnt left) [
  | none ↦ none
  | some databuf ↦
      if is_neg (to_int left)
      then some (efault, gpio1_dr)
      else if ltb 0 left && leb cnt left
      then none
      else some (pos 0, led_switch (get_or buf 0 0) gpio1_dr)
]

-- `struct dtsled_dev`, and the addresses after mapping, in the order of the source.
pub record Dtsled : Type 0 where
  pub devid : ℕ
  pub class : ErrPtr
  pub device : ErrPtr
  pub major : ℕ
  pub minor : ℕ
  pub nd : Option ℕ
  pub ccm_ccgr1 : ℕ
  pub sw_mux : ℕ
  pub sw_pad : ℕ
  pub gpio1_dr : ℕ
  pub gpio1_gdir : ℕ

-- The kernel's answers; `mapped` gives the address at which a physical range is mapped.
pub record Answers : Type 0 where
  pub region : ℤ
  pub devid : ℕ
  pub added : ℤ
  pub class : ErrPtr
  pub device : ErrPtr
  pub nd : Option ℕ
  pub status : ℤ
  pub compatible : ℤ
  pub reg : ℤ
  pub reg_cells : List ℕ
  pub mapped : ℕ → ℕ → ℕ

-- `of_property_read_u32_array`: on success `sz` cells are written, a fault if they do not fit.
unfoldable pub read_u32_array : (ret : ℤ) (cells regdata : List ℕ) (sz : ℕ) → Option (List ℕ)
read_u32_array ret cells regdata sz =
    if is_neg ret
    then some regdata
    else if leb sz (length regdata)
    then some (take sz cells ++ drop sz regdata)
    else none

-- The labels, each falling through to the next.
unfoldable pub fail_devid : ℤ → Dtsled → Log → Run Dtsled
fail_devid ret g log = record { ret = ret; dev = g; log = log }

unfoldable pub fail_cdev : ℤ → Dtsled → Log → Run Dtsled
unfolding fail_devid
fail_cdev ret g log = fail_devid ret g (unregister_chrdev_region g.devid ∷ log)

unfoldable pub fail_class : ℤ → Dtsled → Log → Run Dtsled
unfolding fail_cdev
fail_class ret g log = fail_cdev ret g (cdev_del ∷ log)

unfoldable pub fail_device : ℤ → Dtsled → Log → Run Dtsled
unfolding fail_class
fail_device ret g log = fail_class ret g (class_destroy g.class ∷ log)

-- `fail_rs` and `fail_findnd` are one place.
unfoldable pub fail_findnd : ℤ → Dtsled → Log → Run Dtsled
unfolding fail_device
fail_findnd ret g log = fail_device ret g (device_destroy g.devid ∷ log)

-- One `ioremap` for each pair of cells.
unfoldable pub map_registers : Answers → (regdata : List ℕ) → Dtsled → Log → Run Dtsled
map_registers k r g log =
    let at = λ (i : ℕ). k.mapped (get_or r i 0) (get_or r (i + 1) 0) in
    let call = λ (i : ℕ). ioremap (get_or r i 0) (get_or r (i + 1) 0) (at i) in
    record {
      ret = pos 0;
      dev = record g {
        ccm_ccgr1 = at 0;
        sw_mux = at 2;
        sw_pad = at 4;
        gpio1_dr = at 6;
        gpio1_gdir = at 8;
      };
      log = call 8 ∷ call 6 ∷ call 4 ∷ call 2 ∷ call 0 ∷ log;
    }

-- Ten cells of `regdata` on the stack, and `sizeof(regdata)`, 40, as the number of cells to read.
unfoldable pub read_reg : Answers → Dtsled → Log → Option (Run Dtsled)
unfolding fail_findnd read_u32_array map_registers
read_reg k g log = elim (read_u32_array k.reg k.reg_cells (replicate 10 0) 40) [
  | none ↦ none
  | some regdata ↦
      some (if is_neg k.reg then fail_findnd k.reg g log else map_registers k regdata g log)
]

unfoldable pub read_node : Answers → Dtsled → Log → Option (Run Dtsled)
unfolding fail_findnd read_reg
read_node k g log =
    if is_neg k.status
    then some (fail_findnd k.status g log)
    else if is_neg k.compatible
    then some (fail_findnd k.compatible g log)
    else read_reg k g log

-- With no node the code jumps to the label with `ret` as the last call left it.
unfoldable pub find_node : (ret : ℤ) → Answers → Dtsled → Log → Option (Run Dtsled)
unfolding fail_findnd read_node
find_node ret k g log =
    let g' = record g { nd = k.nd } in
    elim k.nd [ none ↦ some (fail_findnd ret g' log) | some _ ↦ read_node k g' log ]

unfoldable pub make_node : (ret : ℤ) → Answers → Dtsled → Log → Option (Run Dtsled)
unfolding fail_class fail_device find_node
make_node ret k g log =
    let g1 = record g { class = k.class } in
    let log1 = class_create k.class ∷ log in
    let g2 = record g1 { device = k.device } in
    let log2 = device_create g.devid k.device ∷ log1 in
    if is_err k.class
    then some (fail_class (ptr_err k.class) g1 log1)
    else if is_err k.device
    then some (fail_device (ptr_err k.device) g2 log2)
    else find_node ret k g2 log2

unfoldable pub add_cdev : Answers → Dtsled → Log → Option (Run Dtsled)
unfolding fail_cdev make_node
add_cdev k g log =
    let log' = cdev_add k.added ∷ cdev_init ∷ log in
    if is_neg k.added then some (fail_cdev k.added g log') else make_node k.added k g log'

module _ (t : DevT) where
  -- `major` is set to 0 first, so the number is always chosen by the kernel.
  unfoldable pub dtsofled_init : Answers → Dtsled → Log → Option (Run Dtsled)
  unfolding fail_devid add_cdev
  dtsofled_init k g log =
      let d = if is_neg k.region then g.devid else k.devid in
      let g' = record g { devid = d; major = t.major d; minor = t.minor d } in
      let log' = alloc_chrdev_region k.region d ∷ log in
      if is_neg k.region then some (fail_devid k.region g' log') else add_cdev k g' log'

-- The LED is switched off before the mappings go. The result is GPIO1_DR and the log.
unfoldable pub dtsofled_exit : (gpio1_dr : ℕ) → Dtsled → Log → ℕ × Log
unfolding set_bit3
dtsofled_exit val g log = (
  set_bit3 val,
  class_destroy g.class
      ∷ device_destroy g.devid
      ∷ unregister_chrdev_region g.devid
      ∷ cdev_del
      ∷ iounmap g.gpio1_gdir
      ∷ iounmap g.gpio1_dr
      ∷ iounmap g.sw_pad
      ∷ iounmap g.sw_mux
      ∷ iounmap g.ccm_ccgr1
      ∷ log,
)
