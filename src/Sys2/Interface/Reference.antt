-- ===== src/Sys2/Interface/Reference.antt =====
-- sys2/mypacket.c: references to network devices, and the values that an MTU can get.
use linux_driver.Base.{[], false}
use linux_driver.Base.{
  ℕ, ◌≤◌, ℤ, pos, is_neg, true, ◌≡◌, ◌⊎◌, Option, none, some, List, ◌≤ℤ◌, arith, cstr, length,
}
use linux_driver.Kernel.{Log, Resource, account}
use linux_driver.Sys2.Interface.{
  NetDevice, Devices, NetApi, Outcome, Scanned, nothing, word, word_int, showinterface_in,
  setmtu_in, clearinterface_in,
}

-- The bytes that `sscanf` puts into the name's buffer.
abbrev pub scanned_word : Scanned → List ℕ
scanned_word nothing = []
scanned_word (word w) = w
scanned_word (word_int w _) = w

-- What was held before a command is held after it; it faults only under the condition given.
abbrev pub Balanced : (fault : Type 0) → List Resource → Option Outcome → Type 0
Balanced f rs none = f
Balanced f rs (some o) = account o.log ≡ some rs

-- From a state without a fault, each of the three commands gives back the reference to the device
-- that it looked up, on every branch: unknown device, refused value or success. Showing never
-- faults, setting the MTU faults only for a first word of 16 bytes or more, and clearing only if
-- the figures do not fit in the field that is cleared.
pub interface-Balanced :
    (api : NetApi) (param : List ℕ) (devs : Devices) (log : Log) {rs : List Resource}
    → account log ≡ some rs
    → Balanced ⊥ rs (some (showinterface_in api param devs log))
      × Balanced
          (16 ≤ length (scanned_word (api.scan (cstr param))))
          rs
          (setmtu_in api param devs log)
      × Balanced (api.stats_fit ≡ false) rs (clearinterface_in api param devs log)
unfolding showinterface_in setmtu_in clearinterface_in
interface-Balanced api param devs log h = ground arith

abbrev pub InRange : ℤ → Type 0
InRange m = (pos 68 ≤ℤ m) × (m ≤ℤ pos 65535)

-- What `setmtu` leaves of the device at an address: a valid MTU, which is the old one if the
-- command failed, and the other fields as they were. It faults only for a word of 16 bytes or more.
abbrev pub SetsMtu : (old : NetDevice) (address : ℕ) (input : Scanned) → Option Outcome → Type 0
SetsMtu old b input none = 16 ≤ length (scanned_word input)
SetsMtu old b input (some o) =
    InRange (o.devs b).mtu
    × ((o.devs b).name ≡ old.name)
    × ((o.devs b).stats ≡ old.stats)
    × ((o.ret ≡ pos 0) ⊎ ((is_neg o.ret ≡ true) × ((o.devs b).mtu ≡ old.mtu)))

-- If the MTU of a device is between 68 and 65535, it is so after any `setmtu`, whatever its
-- parameter; a failing command leaves the device alone, and no command changes the name or the
-- figures of a device. Only a first word of 16 bytes or more runs past the name's buffer.
pub setmtu_in-SetsMtu :
    (api : NetApi) (param : List ℕ) (devs : Devices) (log : Log) (b : ℕ)
    → InRange (devs b).mtu
    → SetsMtu (devs b) b (api.scan (cstr param)) (setmtu_in api param devs log)
unfolding setmtu_in
setmtu_in-SetsMtu api param devs log b h = ground arith
