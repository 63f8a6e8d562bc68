-- ===== src/Symbols/Reference.antt =====
-- __symbol_get/__symbol_get.c, __symbol_put/__symbol_put.c, symbol_put_addr/symbol_put_addr.c,
-- module_put/module_put.c and try_module_get/try_module_get.c: modules that take references to
-- modules, or give them back.
use Prim.Native.String.{String}
use linux_driver.Base.{ℕ, ℤ, pos, Bool, true, false, Option, none, some, [], ◌∷◌, if◌then◌else◌}
use linux_driver.Kernel.{
  Exec, ◌>>=◌, ◌>>◌, done, call, deref, printk, int, nat, text, symbol_put, module_put,
  try_module_get,
}
use linux_driver.Symbols.{Api, ModuleStruct, Symbol, refs_of, get_symbol, print_refcount}

-- C's truth of an answer.
abbrev pub answer : Bool → ℤ
answer true = pos 1
answer false = pos 0

-- The module of a reference that a symbol's put gives back, none for one of the kernel's own.
abbrev pub put_owner : Option ℕ → Exec (Unit {0})
put_owner none = done tt
put_owner (some m) = call (symbol_put m)

abbrev pub null_is_not_null : Bool
null_is_not_null = false

module _ (api : Api) where
  -- One of the five lookups of `__symbol_get_init`.
  abbrev pub print_symbol : (symbol_name : String) → Option Symbol → Exec (Unit {0})
  print_symbol name none = printk "%s isn't found\n" (text name ∷ [])
  print_symbol name (some s) = printk "the address of %s is :%lx\n" (text name ∷ nat s.address ∷ [])

  unfoldable pub show_symbol : (symbol_name : String) → Exec (Unit {0})
  show_symbol name = do addr ← get_symbol api name; print_symbol name addr

  unfoldable pub symbol_get_init : Exec ℤ
  unfolding show_symbol
  symbol_get_init = do
    show_symbol "symbol_A"
    show_symbol "symbol_0"
    show_symbol "xor"
    show_symbol "DbgPrintMsg"
    show_symbol "cpu_info"
    done (pos 0)

  abbrev pub after_put : ModuleStruct → Exec ℤ
  after_put fmodule = do
    printk "after calling __symbol_put, \n" []
    printk "ref of %s is:%d\n" (text "parport" ∷ int (← refs_of api fmodule) ∷ [])
    done (pos 0)

  -- `__symbol_put(symbol_name)` of a symbol that does not exist is a bug that stops the kernel.
  unfoldable pub put_parport : Option ModuleStruct → Exec ℤ
  put_parport none = do printk "find %s failed!\n" (text "parport" ∷ []); done (pos 0)
  put_parport (some fmodule) = do
    printk "before calling __symbol_put,\n" []
    printk "ref of %s is :%d\n" (text "parport" ∷ int (← refs_of api fmodule) ∷ [])
    symbol ← deref (api.lookup "parport")
    put_owner symbol.owner
    after_put fmodule

  unfoldable pub symbol_put_init : Exec ℤ
  unfolding put_parport
  symbol_put_init = put_parport (api.find_module "parport")

  -- The branch that the test `NULL != NULL` leaves out.
  put_address : ℕ → Option ModuleStruct → Exec (Unit {0})
  put_address addr found = do
    fmodule ← deref found
    printk "before calling symbol_put_addr,\n" []
    printk "refs of %s is: %d\n" (text "test_module" ∷ int (← refs_of api fmodule) ∷ [])
    owner ← deref (api.module_at addr)
    call (symbol_put owner.address)
    printk "after calling symbol_put_addr,\n" []
    printk "refs of %s is: %d\n" (text "test_module" ∷ int (← refs_of api fmodule) ∷ [])

  unfoldable pub put_found : Option Symbol → Exec (Unit {0})
  unfolding put_address
  put_found none = printk "%s isn't found\n" (text "symbol_A" ∷ [])
  put_found (some s) = do
    printk "addr:%#x\n" (nat s.address ∷ [])
    let fmodule = api.find_module "test_module"
    let missing = printk "find %s failed!\n" (text "test_module" ∷ [])
    (if null_is_not_null then put_address s.address fmodule else missing)

  unfoldable pub symbol_put_addr_init : Exec ℤ
  unfolding put_found
  symbol_put_addr_init = do
    addr ← get_symbol api "symbol_A"
    put_found addr
    print_refcount api
    done (pos 0)

  unfoldable pub put_module : Option ModuleStruct → Exec ℤ
  put_module none = do printk "find %s failed!\n" (text "test_module" ∷ []); done (pos 0)
  put_module (some fmodule) = do
    printk "before callling  module_put,\n" []
    printk "refs of %s is: %d\n" (text "test_module" ∷ int (← refs_of api fmodule) ∷ [])
    call (module_put fmodule.address)
    printk "after callling  module_put,\n" []
    printk "refs of %s is: %d\n" (text "test_module" ∷ int (← refs_of api fmodule) ∷ [])
    done (pos 0)

  unfoldable pub module_put_init : Exec ℤ
  unfolding put_module
  module_put_init = put_module (api.find_module "test_module")

  -- The branch that the test `NULL != NULL` leaves out.
  get_module : Option ModuleStruct → Exec (Unit {0})
  get_module found = do
    fmodule ← deref found
    printk "before calling try_module_get,\n" []
    printk "refs of %s is: %d\n" (text "test_module" ∷ int (← refs_of api fmodule) ∷ [])
    got ← (λ w. some (api.try_module_get found w.log, w))
    call (try_module_get fmodule.address got)
    printk "after calling try_module_get,\n" []
    printk "ret=%d\n" (int (answer got) ∷ [])
    printk "refs of %s is: %d\n" (text "test_module" ∷ int (← refs_of api fmodule) ∷ [])

  unfoldable pub try_module_get_init : Exec ℤ
  unfolding get_module
  try_module_get_init = do
    let fmodule = api.find_module "test_module"
    let missing = printk "find %s failed!\n" (text "test_module" ∷ [])
    (if null_is_not_null then get_module fmodule else missing)
    print_refcount api
    done (pos 0)
