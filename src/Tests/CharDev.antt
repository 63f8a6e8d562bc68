-- ===== src/Tests/CharDev.antt =====
-- The character device modules at concrete inputs.

use linux_driver.Base.{ℕ, ◌≡◌, refl, pos, negsuc, false, some, List, [], ◌∷◌, replicate}
use linux_driver.Kernel.{address, err_ptr, ReturnsAll, account}
use linux_driver.CharDev.NewChrdev
use linux_driver.CharDev.NewChrdev.{
  newchardevbase_init, newchardevbase_exit, newchardevbase_read, newchardevbase_write,
}
use linux_driver.CharDev.NewChrdev.Load.{newchardevbase_exit-ReturnsAll}
use linux_driver.CharDev.Mutex
use linux_driver.CharDev.Mutex.{my_init, my_exit, my_read, my_write}
use linux_driver.CharDev.Mutex.Access.{IsIdle}
use linux_driver.CharDev.Ioctl
use linux_driver.CharDev.Ioctl.{my_ioctl, my_driver_init, my_driver_exit}
use linux_driver.Tests.Data.{dev_t, a_devid}

abbrev unloaded : NewChrdev.Newchrled
unloaded = record { devid = 0; class = address 0; device = address 0; major = 0; minor = 0 }

abbrev answers : NewChrdev.Answers
answers = record {
  region = pos 0;
  new_devid = a_devid;
  added = pos 0;
  class = address 7;
  device = address 9;
}

-- `device_create` fails with -12.
abbrev no_device : NewChrdev.Answers
no_device = record answers { device = err_ptr 11 }

newchardevbase_init_fails : (newchardevbase_init dev_t no_device unloaded []).ret ≡ negsuc 11
unfolding newchardevbase_init
newchardevbase_init_fails = refl

newchardevbase_exit-ReturnsAll_example :
    let r = newchardevbase_init dev_t answers unloaded [] in
    ReturnsAll NewChrdev.Load.loaded [] r (account (newchardevbase_exit r.dev r.log))
newchardevbase_exit-ReturnsAll_example =
    newchardevbase_exit-ReturnsAll dev_t answers unloaded [] refl

abbrev hi : List ℕ
hi = 104 ∷ 105 ∷ []

abbrev no_driver : Mutex.Driver
no_driver = record { major = 0; shared_resource = 0; dev_id = 0 }

abbrev mutex_answers : Mutex.Answers
mutex_answers = record { region = pos 0; dev_id = a_devid; added = pos 0; memory = some 64 }

abbrev idle : Mutex.Shared
idle = record { bytes = replicate 1024 0; locked = false }

idle-IsIdle : IsIdle idle
idle-IsIdle = record { sized = refl; unlocked = refl }

abbrev commands : Ioctl.Commands
commands = record {
  set_value = 0x80046b00;
  get_value = 0x80046b01;
  show_value = 0x80046b02;
  set-ne-get = refl;
  set-ne-show = refl;
  get-ne-show = refl;
}

abbrev cells : Ioctl.Cells
cells = record { value = pos 0; arg = negsuc 4 }

abbrev no_ioctl : Ioctl.Driver
no_ioctl = record { devid = 0; class = address 0; device = address 0 }

-- `cdev_add` fails with -12.
abbrev ioctl_no_cdev : Ioctl.Answers
ioctl_no_cdev = record {
  region = pos 0;
  devid = a_devid;
  added = negsuc 11;
  class = address 7;
  device = address 9;
}

abbrev ioctl_answers : Ioctl.Answers
ioctl_answers = record ioctl_no_cdev { added = pos 0 }
