-- ===== src/Symbols.antt =====
-- What the modules about modules and symbols have in common. `Symbols.Reference` has those that take
-- or give back references, `Symbols.Lookup` those that only look, `Symbols.Kept` the references that
-- are left.
pub mod Reference
pub mod Lookup
pub mod Address
pub mod Kept
pub mod Sections
use Prim.Native.String.{String}
use linux_driver.Base.{ℕ, ℤ, Bool, Option, none, some, List, [], ◌∷◌}
use linux_driver.Kernel.{Log, World, Exec, ◌>>=◌, ◌>>◌, done, call, symbol_get, printk, int, text}

-- `struct module`; its reference count changes, and is the kernel's to tell.
pub record ModuleStruct : Type 0 where
  pub address : ℕ
  pub name : List ℕ
  pub state : ℤ
  pub percpu_size : ℕ
  pub version : List ℕ
  pub srcversion : List ℕ
  pub base : ℕ

-- An exported symbol: where it is, and the module that has it, unless that is the kernel.
pub record Symbol : Type 0 where
  pub address : ℕ
  pub owner : Option ℕ

-- `lookup` is what `__symbol_get` finds, `module_at` the module whose text an address is in.
pub record Api : Type 0 where
  pub find_module : String → Option ModuleStruct
  pub lookup : String → Option Symbol
  pub module_at : ℕ → Option ModuleStruct
  pub this_module : ModuleStruct
  pub module_is_live : ModuleStruct → ℤ
  pub refcount : (module' : ℕ) → Log → ℤ
  pub try_module_get : Option ModuleStruct → Log → Bool

-- The module that a reference to a symbol is taken of.
abbrev pub owner_of : Option Symbol → Option ℕ
owner_of none = none
owner_of (some s) = s.owner

module _ (api : Api) where
  -- `module_refcount(m)`
  abbrev pub refs_of : ModuleStruct → Exec ℤ
  refs_of m w = some (api.refcount m.address w.log, w)

  -- `__symbol_get(name)`
  abbrev pub get_symbol : String → Exec (Option Symbol)
  get_symbol name = do call (symbol_get (owner_of (api.lookup name))); done (api.lookup name)

  abbrev pub print_refcount : Exec (Unit {0})
  print_refcount = do
    printk "module_refcount(THIS_MODULE):%d\n" (int (← refs_of api.this_module) ∷ [])
