-- ===== src/Symbols/Kept.antt =====
-- The references to modules that the modules of `Symbols.Reference` leave, and the sections without
-- preemption of those of `Symbols.Address`.
use Prim.Native.String.{String}
use linux_driver.Base.{ℕ, ◌≡◌, ℤ, pos, Option, none, some, List, [], ◌∷◌, refl}
use linux_driver.Kernel.{
  Exec, Ends, World, Log, Printk, world, ◌>>=◌, ◌>>◌, done, call, printk, module_put, symbol_put,
  deref, text, nat, account, Held, held_kind, module_ref, symbol_get, acquire_some, release,
}
use linux_driver.Symbols.{Api, ModuleStruct, Symbol, print_refcount, owner_of}
use linux_driver.Symbols.Reference.{
  put_owner, after_put, put_module, put_found, put_parport, show_symbol, print_symbol,
  symbol_get_init, symbol_put_addr_init, symbol_put_init, module_put_init, try_module_get_init,
}

abbrev put_log : Option ℕ → Log → Log
put_log none log = log
put_log (some m) log = module_put m ∷ log

abbrev parport_log : Option ModuleStruct → Option ℕ → Log → Log
parport_log none o log = log
parport_log (some m) none log = log
parport_log (some m) (some a) log = symbol_put a ∷ log

abbrev address_of : Option ModuleStruct → Option ℕ
address_of none = none
address_of (some m) = some m.address

abbrev names : List String
names = "symbol_A" ∷ "symbol_0" ∷ "xor" ∷ "DbgPrintMsg" ∷ "cpu_info" ∷ []

module _ (api : Api) where
  -- The calls of five lookups.
  abbrev gets : List String → Log → Log
  gets [] log = log
  gets (n ∷ ns) log = gets ns (symbol_get (owner_of (api.lookup n)) ∷ log)

  shown : List Printk → String → Option Symbol → List Printk
  shown pr n none = record { format = "%s isn't found\n"; args = text n ∷ [] } ∷ pr
  shown pr n (some s) =
      record { format = "the address of %s is :%lx\n"; args = text n ∷ nat s.address ∷ [] } ∷ pr

  print_symbol-shown :
      (n : String) (s : Option Symbol) (w : World)
      → print_symbol api n s w ≡ some (tt, world w.log (shown w.printed n s))
  unfolding shown printk
  print_symbol-shown n none w = refl
  print_symbol-shown n (some s) w = refl

  show_symbol-shown :
      (n : String) (w : World)
      → show_symbol api n w
        ≡ some (
          tt,
          world (symbol_get (owner_of (api.lookup n)) ∷ w.log) (shown w.printed n (api.lookup n)),
        )
  unfolding show_symbol ◌>>=◌ done call
  show_symbol-shown n w =
      print_symbol-shown n (api.lookup n)
        (world (symbol_get (owner_of (api.lookup n)) ∷ w.log) w.printed)

  show_all : List String → List Printk → List Printk
  show_all [] pr = pr
  show_all (n ∷ ns) pr = show_all ns (shown pr n (api.lookup n))

  symbol_get_init-Ends : (w : World) → Ends (symbol_get_init api w) (pos 0) (gets names w.log)
  unfolding symbol_get_init ◌>>=◌ done show_all
  symbol_get_init-Ends w = (
    show_all names w.printed,
    rw (
      show_symbol-shown "symbol_A",
      show_symbol-shown "symbol_0",
      show_symbol-shown "xor",
      show_symbol-shown "DbgPrintMsg",
      show_symbol-shown "cpu_info",
    ),
  )

  put_module-Ends :
      (found : Option ModuleStruct) (w : World)
      → Ends (put_module api found w) (pos 0) (put_log (address_of found) w.log)
  unfolding put_module ◌>>=◌ done printk call
  put_module-Ends none w = (_, refl)
  put_module-Ends (some m) w = (_, refl)

  put_found-Ends :
      (s : Option Symbol) (w : World)
      → Ends ((put_found api s >> (print_refcount api >> done (pos 0))) w) (pos 0) w.log
  unfolding put_found ◌>>=◌ done printk
  put_found-Ends none w = (_, refl)
  put_found-Ends (some s) w = (_, refl)

  symbol_put_addr_init-Ends :
      (w : World)
      → Ends
          (symbol_put_addr_init api w)
          (pos 0)
          (symbol_get (owner_of (api.lookup "symbol_A")) ∷ w.log)
  unfolding symbol_put_addr_init ◌>>=◌ done printk call
  symbol_put_addr_init-Ends w =
      put_found-Ends (api.lookup "symbol_A")
        (world (symbol_get (owner_of (api.lookup "symbol_A")) ∷ w.log) w.printed)

  try_module_get_init-Ends : (w : World) → Ends (try_module_get_init api w) (pos 0) w.log
  unfolding try_module_get_init ◌>>=◌ done printk call
  try_module_get_init-Ends w = (_, refl)

  put_owner-Ends :
      (m : ModuleStruct) (o : Option ℕ) (w : World)
      → Ends ((put_owner o >> after_put api m) w) (pos 0) (parport_log (some m) o w.log)
  unfolding ◌>>=◌ done printk call
  put_owner-Ends m none w = (_, refl)
  put_owner-Ends m (some a) w = (_, refl)

  put_parport-Ends :
      (found : Option ModuleStruct) (s : Symbol) (w : World)
      → api.lookup "parport" ≡ some s
      → Ends (put_parport api found w) (pos 0) (parport_log found s.owner w.log)
  unfolding put_parport ◌>>=◌ done printk call deref
  put_parport-Ends none s w e = (_, refl)
  put_parport-Ends (some m) s w e = rw e (put_owner-Ends m s.owner (world w.log _))

-- The modules, by the directory each stands in.
pub data Demo : Type 0 where
  in_symbol_get in_symbol_put in_symbol_put_addr in_module_put in_try_module_get : Demo

-- The load function of each; their unload functions only print.
unfoldable pub load : Api → Demo → Exec ℤ
load api in_symbol_get = symbol_get_init api
load api in_symbol_put = symbol_put_init api
load api in_symbol_put_addr = symbol_put_addr_init api
load api in_module_put = module_put_init api
load api in_try_module_get = try_module_get_init api

-- What each does to what is held. To give back a reference that is not held is a fault.
unfoldable pub acquire_all : Api → List String → Held → Held
acquire_all api [] h = h
acquire_all api (n ∷ ns) h =
    acquire_all api ns (acquire_some module_ref (owner_of (api.lookup n)) h)

unfoldable pub release_some : Option ℕ → Held → Held
release_some none h = h
release_some (some m) h = release (held_kind module_ref m) h

unfoldable pub release_if_found : Option ModuleStruct → Option ℕ → Held → Held
release_if_found none o h = h
release_if_found (some m) o h = release_some o h

unfoldable pub change : Api → Demo → Held → Held
change api in_symbol_get h = acquire_all api names h
change api in_symbol_put h =
    release_if_found (api.find_module "parport") (owner_of (api.lookup "parport")) h
change api in_symbol_put_addr h = acquire_some module_ref (owner_of (api.lookup "symbol_A")) h
change api in_module_put h = release_some (address_of (api.find_module "test_module")) h
change api in_try_module_get h = h

account-put : (o : Option ℕ) (log : Log) → account (put_log o log) ≡ release_some o (account log)
unfolding release_some
account-put none log = refl
account-put (some m) log = refl

account-symbol :
    (m : ModuleStruct) (o : Option ℕ) (log : Log)
    → account (parport_log (some m) o log) ≡ release_some o (account log)
unfolding release_some
account-symbol m none log = refl
account-symbol m (some a) log = refl

account-parport :
    (api : Api) (found : Option ModuleStruct) (s : Symbol) (log : Log)
    → api.lookup "parport" ≡ some s
    → account (parport_log found s.owner log)
      ≡ release_if_found found (owner_of (api.lookup "parport")) (account log)
unfolding release_if_found
account-parport api none s log e = refl
account-parport api (some m) s log e = rw e (account-symbol m s.owner log)

unfoldable pub Changes : Option (ℤ × World) → Held → Type 0
Changes o h = (w : World) × (o ≡ some (pos 0, w)) × (account w.log ≡ h)

-- Each of the five load functions returns 0, whether the modules it looks for are found or not, if
-- the symbol parport exists. `__symbol_get_init` takes a reference for every symbol of its five that
-- a module has; `__symbol_put_init` and `module_put_init` give back a reference of the module they
-- find, which they have not taken; `symbol_put_addr_init` takes one and gives none back, and
-- `try_module_get_init` takes none.
pub load-Changes :
    (api : Api) (d : Demo) (w : World) {s : Symbol}
    → api.lookup "parport" ≡ some s
    → Changes (load api d w) (change api d (account w.log))
unfolding load change acquire_all Changes symbol_put_init module_put_init
load-Changes api in_symbol_get w e =
    let (pr, ends) = symbol_get_init-Ends api w in (world (gets api names w.log) pr, ends, refl)
load-Changes api in_symbol_put w {s = s} e =
    let (pr, ends) = put_parport-Ends api (api.find_module "parport") s w e in
    (
      world (parport_log (api.find_module "parport") s.owner w.log) pr,
      ends,
      account-parport api (api.find_module "parport") s w.log e,
    )
load-Changes api in_symbol_put_addr w e =
    let (pr, ends) = symbol_put_addr_init-Ends api w in
    (world (symbol_get (owner_of (api.lookup "symbol_A")) ∷ w.log) pr, ends, refl)
load-Changes api in_module_put w e =
    let (pr, ends) = put_module-Ends api (api.find_module "test_module") w in
    (
      world (put_log (address_of (api.find_module "test_module")) w.log) pr,
      ends,
      account-put (address_of (api.find_module "test_module")) w.log,
    )
load-Changes api in_try_module_get w e =
    let (pr, ends) = try_module_get_init-Ends api w in (world w.log pr, ends, refl)
