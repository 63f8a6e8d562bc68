-- ===== src/Sys2/Route.antt =====
-- sys2/mypacket.c, lines 316 to 374: the command on routes, which is compiled with OPEN_SHOWROUTE.
pub mod Lookup
use linux_driver.Base.{
  ℕ, ℤ, pos, negsuc, Option, none, some, List, [], ◌∷◌, enodev, is_set, ◌==◌, if◌then◌else◌,
}
use linux_driver.Kernel.{Log, rcu_read_lock, rcu_read_unlock}
use linux_driver.Sys2.Console.{Line, no_main_table, route_title, route_header, route}

-- What is read of a `struct fib_info`, with its first next hop and the name of the device there.
pub record FibInfo : Type 0 where
  pub fib_dst : ℕ
  pub nh_gw : ℕ
  pub nh_dev : Option (List ℕ)

-- `struct fib_result`, as far as it is used, and the return code of the lookup.
pub record Found : Type 0 where
  pub err : ℤ
  pub fi : Option ℕ

-- What the kernel provides: the main table, a lookup in it, and what stands at the address of an
-- entry after the calls of a log; nothing, once the entry is freed.
pub record RouteApi : Type 0 where
  pub main_table : Option ℕ
  pub lookup : (table daddr : ℕ) → Found
  pub fib_info : (address : ℕ) → Log → Option FibInfo

-- The return code, the calls made, and what is printed, latest first.
pub record Shown : Type 0 where
  pub ret : ℤ
  pub log : Log
  pub lines : List Line

-- `htonl(INADDR_NONE)`
abbrev pub inaddr_none : ℕ
inaddr_none = 0xffffffff

module _ (api : RouteApi) where
  -- `nh->nh_dev->name`
  unfoldable pub show_entry : FibInfo → Log → List Line → Option Shown
  show_entry f log lines = elim f.nh_dev [
    | none ↦ none
    | some name ↦
        some (record { ret = pos 0; log = log; lines = route f.fib_dst f.nh_gw name ∷ lines })
  ]

  -- Behind the read-side section: a freed entry is a fault.
  unfoldable pub show_found : (err : ℤ) (fi : Option ℕ) → Log → List Line → Option Shown
  unfolding show_entry
  show_found err none log lines = some (record { ret = pos 0; log = log; lines = lines })
  show_found err (some a) log lines =
      if is_set err
      then some (record { ret = pos 0; log = log; lines = lines })
      else elim (api.fib_info a log) [ none ↦ none | some f ↦ show_entry f log lines ]

  -- The parameter is not used.
  unfoldable pub showroute_in : (param : List ℕ) → Log → Option Shown
  unfolding show_found
  showroute_in param log = elim api.main_table [
    | none ↦ some (record { ret = enodev; log = log; lines = no_main_table ∷ [] })
    | some table ↦
        let res = api.lookup table inaddr_none in
        let log' = rcu_read_unlock ∷ rcu_read_lock ∷ log in
        show_found res.err res.fi log' (route_header ∷ route_title ∷ [])
  ]
