-- ===== src/Sys2/Interface.antt =====
-- sys2/mypacket.c, lines 138 to 314: the commands on network interfaces.
pub mod Reference
pub mod Trim
use linux_driver.Base.{
  ℕ, zero, suc, ◌+◌, ◌-◌, ℤ, pos, Bool, true, false, ◌||◌, Option, none, some, List, [], ◌∷◌, ◌++◌,
  ltb, leb, ltb_ℤ, ◌==◌, if◌then◌else◌, length, get_or, set, take, replicate, cstr, einval, enodev,
}
use linux_driver.Kernel.{dev_get_by_name, dev_put, Log}
use linux_driver.Sys2.Console.{
  Line, invalid_format, showing, not_found, interface_info, setting_mtu, invalid_mtu, mtu_set,
  clearing, cleared,
}

abbrev pub ifnamsiz : ℕ
ifnamsiz = 16

-- What is read and written of a `struct net_device`.
pub record NetDevice : Type 0 where
  pub name : List ℕ
  pub mtu : ℤ
  pub stats : List ℕ

-- The devices by their addresses.
abbrev pub Devices : Type 0
Devices = ℕ → NetDevice

abbrev pub update : Devices → ℕ → NetDevice → Devices
update devs a d b = if a == b then d else devs b

-- What `sscanf(param, "%s %d", …)` converts: nothing, a word, or a word and an integer.
pub data Scanned : Type 0 where
  nothing : Scanned
  word : List ℕ → Scanned
  word_int : List ℕ → ℤ → Scanned

-- What the kernel provides. `lookup` gives the address of the device of a name, and `get_stats` the
-- figures of a device. Whether the 64-bit figures fit in `dev->stats` is a matter of its headers.
pub record NetApi : Type 0 where
  pub isspace : ℕ → Bool
  pub scan : List ℕ → Scanned
  pub lookup : List ℕ → Option ℕ
  pub get_stats : NetDevice → List ℕ
  pub stats_fit : Bool

-- The return code, the calls that move a reference, the devices, and what is printed, latest first.
pub record Outcome : Type 0 where
  pub ret : ℤ
  pub log : Log
  pub devs : Devices
  pub lines : List Line

-- `strncpy(name, param, IFNAMSIZ - 1); name[IFNAMSIZ - 1] = '\0';` fills the whole buffer.
unfoldable pub copy_name : (param : List ℕ) → List ℕ
copy_name param =
    let text = take (ifnamsiz - 1) (cstr param) in text ++ replicate (ifnamsiz - length text) 0

-- `sscanf` puts a word and its NUL into the buffer of IFNAMSIZ bytes, with no bound: a fault if they
-- do not fit.
unfoldable pub store_word : List ℕ → Option (List ℕ)
store_word w =
    if ltb (length w) ifnamsiz then some (w ++ replicate (ifnamsiz - length w) 0) else none

module _ (api : NetApi) where
  -- The loop of `trim_trailing_whitespace`, `end` bytes from the start of the buffer.
  unfoldable pub trim_loop : (end : ℕ) (str : List ℕ) → List ℕ
  trim_loop zero str = str
  trim_loop (suc e) str =
      let rest = trim_loop e (set str (suc e) 0) in
      if api.isspace (get_or str (suc e) 0) then rest else str

  -- For the empty string `end` starts before the buffer, and the loop is not entered.
  unfoldable pub trim_trailing_whitespace : (str : List ℕ) → List ℕ
  unfolding trim_loop
  trim_trailing_whitespace str = trim_loop (length (cstr str) - 1) str

  unfoldable pub show_device : (address : ℕ) → Devices → Log → List Line → Outcome
  show_device a devs log lines = record {
    ret = pos 0;
    log = dev_put a ∷ log;
    devs = devs;
    lines = interface_info (devs a).name (devs a).mtu (api.get_stats (devs a)) ∷ lines;
  }

  unfoldable pub showinterface_in : (param : List ℕ) → Devices → Log → Outcome
  unfolding show_device copy_name trim_trailing_whitespace
  showinterface_in param devs log =
      let name = cstr (trim_trailing_whitespace (copy_name param)) in
      let lines = showing name ∷ [] in
      let log' = dev_get_by_name (api.lookup name) ∷ log in
      if length (cstr param) == 0
      then record { ret = einval; log = log; devs = devs; lines = invalid_format ∷ [] }
      else elim (api.lookup name) [
        | none ↦ record { ret = enodev; log = log'; devs = devs; lines = not_found name ∷ lines }
        | some a ↦ show_device a devs log' lines
      ]

  -- The value is checked after the device has been found; the reference is put back either way.
  unfoldable pub write_mtu : (address : ℕ) (mtu : ℤ) → Devices → Log → List Line → Outcome
  write_mtu a mtu devs log lines =
      if ltb_ℤ mtu (pos 68) || ltb_ℤ (pos 65535) mtu
      then record {
        ret = einval;
        log = dev_put a ∷ log;
        devs = devs;
        lines = invalid_mtu mtu ∷ lines;
      }
      else record {
        ret = pos 0;
        log = dev_put a ∷ log;
        devs = update devs a (record (devs a) { mtu = mtu });
        lines = mtu_set (devs a).name mtu ∷ lines;
      }

  unfoldable pub find_and_write_mtu : (buffer : List ℕ) (mtu : ℤ) → Devices → Log → Outcome
  unfolding trim_trailing_whitespace write_mtu
  find_and_write_mtu buffer mtu devs log =
      let name = cstr (trim_trailing_whitespace buffer) in
      let lines = setting_mtu name mtu ∷ [] in
      let log' = dev_get_by_name (api.lookup name) ∷ log in
      elim (api.lookup name) [
        | none ↦ record { ret = enodev; log = log'; devs = devs; lines = not_found name ∷ lines }
        | some a ↦ write_mtu a mtu devs log' lines
      ]

  unfoldable pub scan_and_write_mtu : Scanned → Devices → Log → Option Outcome
  unfolding find_and_write_mtu store_word
  scan_and_write_mtu nothing devs log =
      some (record { ret = einval; log = log; devs = devs; lines = invalid_format ∷ [] })
  scan_and_write_mtu (word w) devs log = elim (store_word w) [
    | none ↦ none
    | some _ ↦ some (record { ret = einval; log = log; devs = devs; lines = invalid_format ∷ [] })
  ]
  scan_and_write_mtu (word_int w mtu) devs log = elim (store_word w) [
    | none ↦ none
    | some buffer ↦ some (find_and_write_mtu buffer mtu devs log)
  ]

  unfoldable pub setmtu_in : (param : List ℕ) → Devices → Log → Option Outcome
  unfolding scan_and_write_mtu
  setmtu_in param devs log =
      if length (cstr param) == 0
      then some (record { ret = einval; log = log; devs = devs; lines = invalid_format ∷ [] })
      else scan_and_write_mtu (api.scan (cstr param)) devs log

  -- `memset(&dev->stats, 0, …)`, a fault if it runs past that field.
  unfoldable pub clear_stats : (address : ℕ) → Devices → Log → List Line → Option Outcome
  clear_stats a devs log lines =
      if api.stats_fit
      then some (record {
        ret = pos 0;
        log = dev_put a ∷ log;
        devs = update devs a (record (devs a) { stats = replicate (length (devs a).stats) 0 });
        lines = cleared (devs a).name ∷ lines;
      })
      else none

  unfoldable pub clearinterface_in : (param : List ℕ) → Devices → Log → Option Outcome
  unfolding clear_stats copy_name trim_trailing_whitespace
  clearinterface_in param devs log =
      let name = cstr (trim_trailing_whitespace (copy_name param)) in
      let lines = clearing name ∷ [] in
      let log' = dev_get_by_name (api.lookup name) ∷ log in
      if length (cstr param) == 0
      then some (record { ret = einval; log = log; devs = devs; lines = invalid_format ∷ [] })
      else elim (api.lookup name) [
        | none ↦
            some (record { ret = enodev; log = log'; devs = devs; lines = not_found name ∷ lines })
        | some a ↦ clear_stats a devs log' lines
      ]
