-- ===== src/DeviceTree/Led/Write.antt =====
-- dtsofled/dtsofled.c: a write to the device.
use linux_driver.Base.{ℕ, ◌<◌, ◌≤◌, pos, ◌≡◌, refl, ◌↔◌, none, some, List, [], ◌∷◌, ◌⊎◌, arith}
use linux_driver.DeviceTree.Led.{dtsled_write, led_switch}

-- A write faults exactly when it is given more than one byte, and runs past `databuf`, or when its
-- byte cannot be read.
pub dtsled_write_faults :
    (buf : List ℕ) (cnt left gpio1_dr : ℕ)
    → left ≤ cnt
    → (dtsled_write buf cnt left gpio1_dr ≡ none) ↔ ((1 < cnt) ⊎ (left ≡ 1))
unfolding dtsled_write
dtsled_write_faults buf cnt left v k = ground arith

-- A write of one byte that the kernel can copy returns 0 and switches the LED by it.
pub dtsled_write_switches :
    (b gpio1_dr : ℕ) → dtsled_write (b ∷ []) 1 0 gpio1_dr ≡ some (pos 0, led_switch b gpio1_dr)
unfolding dtsled_write
dtsled_write_switches b v = refl
