-- ===== src/Symbols/Lookup.antt =====
-- module_refcount/module_refcount.c, module_is_live/module_is_live.c, find_module/find_module.c and
-- find_symbol/find_symbol.c: modules that look modules and symbols up.
use Prim.Native.String.{String}
use linux_driver.Base.{ℕ, ℤ, pos, eqb_ℤ, Option, none, some, [], ◌∷◌, if◌then◌else◌}
use linux_driver.Kernel.{Exec, ◌>>=◌, ◌>>◌, done, printk, int, nat, text, chars}
use linux_driver.Symbols.{Api, ModuleStruct, refs_of, print_refcount}

-- `struct kernel_symbol`
pub record KernelSymbol : Type 0 where
  pub value : ℕ
  pub name : ℕ

-- A pointer variable that nothing was stored in holds anything: NULL, the address of something that
-- can be read, or an address that cannot.
pub data Pointer (A : Type 0) : Type 0 where
  null unmapped : Pointer A
  to : A → Pointer A

module _ (api : Api) where
  abbrev pub print_name : Option ModuleStruct → Exec (Unit {0})
  print_name none = printk "find %s failed!\n" (text "test_module" ∷ [])
  print_name (some fmodule) = do
    printk "fmodule->name:%s\n" (chars fmodule.name ∷ [])
    printk "module_refcount(fmodule):%d\n" (int (← refs_of api fmodule) ∷ [])

  unfoldable pub module_refcount_init : Exec ℤ
  module_refcount_init = do
    print_name (api.find_module "test_module")
    printk "THIS_MODULE->name:%s\n" (chars api.this_module.name ∷ [])
    print_refcount api
    done (pos 0)

  unfoldable pub module_is_live_init : Exec ℤ
  module_is_live_init = do
    let ret = api.module_is_live api.this_module
    let live = printk "<0>in init, state is : not GOING!\n" []
    let going = printk "<0>in init, state is : GOING!\n" []
    (if eqb_ℤ (pos 1) ret then live else going)
    done (pos 0)

  unfoldable pub module_is_live_exit : Exec (Unit {0})
  module_is_live_exit = do
    let ret = api.module_is_live api.this_module
    let live = printk "<0>in exit, state is : not GOING!\n" []
    let going = printk "<0>in exit, state is : GOING!\n" []
    (if eqb_ℤ (pos 1) ret then live else going)
    printk "<0>module[%s] exit ok!\n" (text "module_is_live_exit" ∷ [])

  abbrev pub print_module : (name : String) → Option ModuleStruct → Exec (Unit {0})
  print_module name none = printk "fail to find  :%s\n" (text name ∷ [])
  print_module name (some fmodule) = do
    printk "fmodule->name  :%s\n" (chars fmodule.name ∷ [])
    printk "fmodule->state :%d\n" (int fmodule.state ∷ [])
    printk "fmodule->percpu_size :%d\n" (nat fmodule.percpu_size ∷ [])
    printk "module_refcount(fmodule):%d\n" (int (← refs_of api fmodule) ∷ [])

  unfoldable pub find_module_init : Exec ℤ
  find_module_init = do
    print_module "test_module" (api.find_module "test_module")
    print_module "cuse" (api.find_module "cuse")
    done (pos 0)

abbrev pub print_ksymbol : Option KernelSymbol → Exec (Unit {0})
print_ksymbol none = printk "Failed to find symbol %s\n" (text "perf_pmu_register" ∷ [])
print_ksymbol (some ksymbol) = do
  printk "ksymbol->value:%lx\n" (nat ksymbol.value ∷ [])
  printk "ksymbol->name :%lx\n" (nat ksymbol.name ∷ [])

abbrev pub print_owner : Pointer ModuleStruct → Exec (Unit {0})
print_owner null = done tt
print_owner unmapped = λ w. none
print_owner (to m) = printk "owner->name  :%s\n" (chars m.name ∷ [])

abbrev pub print_crc : Pointer ℕ → Exec (Unit {0})
print_crc null = done tt
print_crc unmapped = λ w. none
print_crc (to c) = printk "*crc  :%lx\n" (nat c ∷ [])

-- What `find_symbol` finds, with the owner it stores; it stores none if it finds nothing.
pub record Found : Type 0 where
  pub ksymbol : KernelSymbol
  pub owner : Pointer ModuleStruct

abbrev pub symbol_of : Option Found → Option KernelSymbol
symbol_of none = none
symbol_of (some f) = some f.ksymbol

abbrev pub owner_after : (before : Pointer ModuleStruct) → Option Found → Pointer ModuleStruct
owner_after before none = before
owner_after before (some f) = f.owner

-- `owner` and `crc` are what the variables of that name hold at the start. The call is not given
-- `&crc`.
unfoldable pub find_symbol_init :
    (owner : Pointer ModuleStruct) (crc : Pointer ℕ) (found : Option Found) → Exec ℤ
find_symbol_init owner crc found = do
  print_ksymbol (symbol_of found)
  print_owner (owner_after owner found)
  print_crc crc
  done (pos 0)
