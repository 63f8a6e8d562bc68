-- ===== src/Sys2/Route/Lookup.antt =====
-- sys2/mypacket.c, the command on routes: what it shows, and what it reads too late.
use linux_driver.Base.{
  ℕ, ◌≤◌, pos, ◌≡◌, refl, ◌⊎◌, Option, none, some, List, ◌∷◌, enodev, length, arith,
}
use linux_driver.Kernel.{Log, Resource, account, rcu_read_lock, rcu_read_unlock}
use linux_driver.Sys2.Route.{FibInfo, RouteApi, Shown, inaddr_none, showroute_in}

-- What the entry's address holds once the section is left: nothing, or an entry without a device.
abbrev pub IsGone : RouteApi → (table : ℕ) → Log → Type 0
IsGone api table log =
    (a : ℕ) × ((api.lookup table inaddr_none).err ≡ pos 0)
    × ((api.lookup table inaddr_none).fi ≡ some a)
    × ((api.fib_info a (rcu_read_unlock ∷ rcu_read_lock ∷ log) ≡ none)
        ⊎ ((f : FibInfo) × (api.fib_info a (rcu_read_unlock ∷ rcu_read_lock ∷ log) ≡ some f)
            × (f.nh_dev ≡ none)))

-- The outcome of a run: a fault only for an entry that is gone.
abbrev pub ShowsOne : RouteApi → (rs : List Resource) → Log → Option Shown → Type 0
ShowsOne api rs log none = (table : ℕ) × (api.main_table ≡ some table) × IsGone api table log
ShowsOne api rs log (some r) =
    (account r.log ≡ some rs)
    × (((r.ret ≡ enodev) × (api.main_table ≡ none) × (length r.lines ≡ 1))
        ⊎ ((r.ret ≡ pos 0) × (2 ≤ length r.lines) × (length r.lines ≤ 3)))

-- From a state without a fault, `showroute` does the same whatever its parameter is. It fails only
-- for want of the main table; otherwise it prints two lines of headings and at most one route, that
-- of the address 255.255.255.255, and leaves the read-side section that it entered. It faults only
-- where the lookup found an entry that was freed after the section was left, or that has no device.
pub showroute_in-ShowsOne :
    (api : RouteApi) (param param' : List ℕ) (log : Log) {rs : List Resource}
    → account log ≡ some rs
    → (showroute_in api param log ≡ showroute_in api param' log)
      × ShowsOne api rs log (showroute_in api param log)
unfolding showroute_in
showroute_in-ShowsOne api param param' log h = (refl, ground arith)
