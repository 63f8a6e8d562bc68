-- ===== src/Tests/Files.antt =====
-- The text files and the device tree modules at concrete inputs.
use linux_driver.Base.{
  ℕ, ◌≡◌, ◌⊎◌, refl, pos, negsuc, is_set, Bool, true, none, ◌∷◌, some, List, [], ◌++◌, arith,
  replicate, codes,
}
use linux_driver.Kernel.{address, account}
use linux_driver.TextFile.ProcSys.{my_proc_show}
use linux_driver.TextFile.ProcSys.Texts.{Write, AreCalls, writes, stores, writes-stores}
use linux_driver.TextFile.ProcSys.Buffer.{IsBuffer}
use linux_driver.TextFile.SysAttr
use linux_driver.TextFile.SysAttr.{mymodule_init, mymodule_exit}
use linux_driver.DeviceTree.Led
use linux_driver.DeviceTree.Led.{dtsled_write, led_switch}
use linux_driver.DeviceTree.Led.Switch.{After, led_writes, led_writes-After}
use linux_driver.DeviceTree.Backlight
use linux_driver.DeviceTree.Backlight.{dtsof_init}
use linux_driver.DeviceTree.Backlight.Memory.{dtsof_init_memory}
use linux_driver.Tests.Data.{a_devid}

abbrev zeros : List ℕ
zeros = replicate 256 0

zeros-IsBuffer : IsBuffer zeros
zeros-IsBuffer = record { sized = refl; ended = refl }

abbrev attr_answers : SysAttr.Answers
attr_answers = record { kobj = some 5; created = pos 0 }

abbrev no_led : Led.Dtsled
no_led = record {
  devid = 0;
  class = address 0;
  device = address 0;
  major = 0;
  minor = 0;
  nd = none;
  ccm_ccgr1 = 0;
  sw_mux = 0;
  sw_pad = 0;
  gpio1_dr = 0;
  gpio1_gdir = 0;
}

-- The kernel refuses to read forty cells.
abbrev led_answers : Led.Answers
led_answers = record {
  region = pos 0;
  devid = a_devid;
  added = pos 0;
  class = address 7;
  device = address 9;
  nd = some 3;
  status = pos 0;
  compatible = pos 0;
  reg = negsuc 74;
  reg_cells = [];
  mapped = λ base size. base;
}

led_on : led_switch 1 0xff ≡ 0xf7
unfolding led_switch
led_on = refl

abbrev light_answers : Backlight.Answers
light_answers = record {
  node = some 3;
  compatible = some [];
  status = pos 0;
  status_text = [];
  level = pos 0;
  level_value = 6;
  count = pos 2;
  memory = some 64;
  levels = negsuc 21;
  levels_values = [];
}

dtsof_init_memory_example :
    let r = dtsof_init 32 light_answers [] in
    (account r.log ≡ some [])
    × ((r.ret ≡ pos 0)
        ⊎ ((is_set r.ret ≡ true)
            × ((light_answers.node ≡ none)
                ⊎ (light_answers.compatible ≡ none)
                ⊎ (is_set light_answers.status ≡ true)
                ⊎ (is_set light_answers.level ≡ true)
                ⊎ (light_answers.memory ≡ none))))
dtsof_init_memory_example = dtsof_init_memory 32 light_answers [] refl

abbrev bytes : List (ℕ × Bool)
bytes = (1, true) ∷ (7, true) ∷ (0, true) ∷ []

led_writes-After_example : After bytes 0x1234 (led_writes bytes 0x1234)
led_writes-After_example = led_writes-After bytes 0x1234 (omega arith)

-- The bytes are all read, and the last one switches the LED off.
led_off : led_writes bytes 0x1234 ≡ some 0x123c
unfolding led_writes dtsled_write led_switch
led_off = refl

-- A text, one that is too long, and one of which the last byte is not copied.
abbrev texts : List Write
texts =
    record { buf = codes "abc"; count = 3; left = 0 }
    ∷ record { buf = replicate 300 97; count = 300; left = 7 }
    ∷ record { buf = codes "de"; count = 2; left = 1 }
    ∷ []

texts-AreCalls : AreCalls texts
texts-AreCalls =
    ((omega arith, omega arith), ((omega arith, omega arith), ((omega arith, omega arith), tt)))

writes-stores_example :
    ((writes texts zeros).0 ≡ (stores texts []).0)
    × (my_proc_show (writes texts zeros).1
        ≡ codes "User data: " ++ ((stores texts []).1 ++ codes "\n"))
    × IsBuffer (writes texts zeros).1
writes-stores_example = writes-stores texts zeros zeros-IsBuffer texts-AreCalls
