-- ===== src/CharDev/Ioctl/Load.antt =====
-- ioctl_device/my_device.c: what loading and unloading the module leaves held.
use linux_driver.Base.{ℕ, pos, negsuc, is_neg, true, false, ◌≡◌, ◌≢◌, none, some, [], arith}
use linux_driver.Kernel.{address, Log, account}
use linux_driver.CharDev.Ioctl.{Driver, Answers, my_driver_init, my_driver_exit}

-- Only the answer -1 of `cdev_add` is taken for a failure. With nothing held before and the device
-- number allocated, after any other error number loading succeeds, and unloading then gives back a
-- cdev that was never added, which is a fault.
pub my_driver_exit_faults :
    (k : Answers) (g : Driver) (log : Log)
    → account log ≡ some []
    → is_neg k.region ≡ false
    → is_neg k.added ≡ true
    → k.added ≢ negsuc 0
    → let r = my_driver_init k g log in
      (r.ret ≡ pos 0) × (account (my_driver_exit r.dev r.log) ≡ none)
unfolding my_driver_init my_driver_exit
my_driver_exit_faults k g log h r a n = ground arith

-- With nothing held before and every call successful, unloading gives the class back twice:
-- `class_unregister` does, and so does `class_destroy` after it. That is a fault.
pub my_driver_exit-class_twice :
    (k : Answers) (g : Driver) (log : Log) {c d : ℕ}
    → account log ≡ some []
    → is_neg k.region ≡ false
    → is_neg k.added ≡ false
    → k.class ≡ address c
    → k.device ≡ address d
    → let r = my_driver_init k g log in
      (r.ret ≡ pos 0) × (account (my_driver_exit r.dev r.log) ≡ none)
unfolding my_driver_init my_driver_exit
my_driver_exit-class_twice k g log h r a c d = ground arith
