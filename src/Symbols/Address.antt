-- ===== src/Symbols/Address.antt =====
-- module_address/module_address.c, eg/module_address.c and module_text_address/module_text_address.c:
-- the module that a function of one's own stands in; sprint_symbol/sprint_symbol.c and
-- __print_symbol/__print_symbol.c: the names of addresses.
use Prim.Native.String.{String}
use linux_driver.Base.{Bool, false, ℕ, ◌+◌, ℤ, pos, Option, none, some, List, [], ◌∷◌, length}
use linux_driver.Kernel.{
  Exec, ◌>>=◌, ◌>>◌, done, call, printk, int, nat, chars, preempt_disable, preempt_enable,
}
use linux_driver.Message.{dbg_print_msg}
use linux_driver.Symbols.{Api, ModuleStruct, refs_of, print_refcount}

-- The bytes of a `struct module` in memory, what `sprint_symbol` writes for an address, with the length
-- it returns, and what `__print_symbol` prints.
pub record AddressApi : Type 0 where
  pub bytes : ModuleStruct → List ℕ
  pub symbol : (address : ℕ) → List ℕ × ℤ
  pub print : (format : String) (address : ℕ) → Exec (Unit {0})
  pub return_address : ℕ
  pub ksym_symbol_len : ℕ

-- The lines of `DbgPrintMsg` of common/dbgmsg.c, and the whole function with its rulers.
unfoldable pub print_lines : List (List ℕ) → Exec (Unit {0})
print_lines [] = done tt
print_lines (l ∷ ls) = do printk " %s\n" (chars l ∷ []); print_lines ls

abbrev pub print_all : Option (List (List ℕ)) → Exec (Unit {0})
print_all none = λ w. none
print_all (some lines) = print_lines lines

unfoldable pub print_bytes : (pMsg : List ℕ) → Exec (Unit {0})
print_bytes pMsg = do
  printk "--------------------- begin\n" []
  print_all (dbg_print_msg pMsg).1
  printk "\n" []
  printk "--------------------- end\n" []

-- With preemption enabled again the module that was found may be unloaded at any time. To read its
-- struct then is a fault; `stays` tells whether it is still there.
abbrev pub if_there : (stays : Bool) → Option ModuleStruct → Exec (Unit {0}) → Exec (Unit {0})
if_there false (some _) body = λ w. none
if_there _ _ body = body

module _ (api : Api) (addresses : AddressApi) where
  -- The lines on a module in module_address.c, and the lines on none.
  abbrev pub print_module : Option ModuleStruct → Exec (Unit {0})
  print_module none = printk "__module_address return NULL!\n" []
  print_module (some ret) = do
    print_bytes (addresses.bytes ret)
    printk "size struct module      :%d\n" (nat (length (addresses.bytes ret)) ∷ [])
    printk "ret->name      :%s\n" (chars ret.name ∷ [])
    printk "ret->state     :%d\n" (int ret.state ∷ [])
    printk "refs of %s is %d\n" (chars ret.name ∷ int (← refs_of api ret) ∷ [])

  unfoldable pub module_address_init : (a_module : ℕ) (stays : Bool) → Exec ℤ
  module_address_init a_module stays = do
    call preempt_disable
    let ret = api.module_at a_module
    call preempt_enable
    if_there stays ret (print_module ret)
    done (pos 0)

  -- In eg/ the search is commented out, and the answer NULL.
  unfoldable pub eg_module_address_init : Exec ℤ
  eg_module_address_init = do
    call preempt_disable
    call preempt_enable
    print_module none
    done (pos 0)

  abbrev pub print_text_module : Option ModuleStruct → Exec (Unit {0})
  print_text_module none = printk "__module_address return NULL!\n" []
  print_text_module (some ret) = do
    print_bytes (addresses.bytes ret)
    printk "size struct module      :%d\n" (nat (length (addresses.bytes ret)) ∷ [])
    printk "ret->name               :%s\n" (chars ret.name ∷ [])
    printk "ret->state              :%d\n" (int ret.state ∷ [])
    printk "ret->version            :%s\n" (chars ret.version ∷ [])
    printk "ret->srcversion         :%s\n" (chars ret.srcversion ∷ [])
    printk "refs of %s is %d\n" (chars ret.name ∷ int (← refs_of api ret) ∷ [])

  unfoldable pub module_text_address_init : (fun_test : ℕ) (stays : Bool) → Exec ℤ
  module_text_address_init fun_test stays = do
    call preempt_disable
    let ret = api.module_at fun_test
    call preempt_enable
    printk "it's about fun_test\n" []
    if_there stays ret (print_text_module ret)
    done (pos 0)

  -- `ret = sprint_symbol(buffer, address)`, and the lines on both.
  abbrev pub print_symbol_at : (address : ℕ) → Exec (Unit {0})
  print_symbol_at address = do
    let (buffer, ret) = addresses.symbol address
    printk "ret    :%d\n" (int ret ∷ [])
    printk "buffer :%s\n" (chars buffer ∷ [])

  abbrev pub print_base : Option ModuleStruct → Exec (Unit {0})
  print_base none = done tt
  print_base (some fmodule) = do
    printk "fmodule->name:%s\n" (chars fmodule.name ∷ [])
    print_symbol_at fmodule.base

  unfoldable pub sprint_symbol_init : (a_symbol : ℕ) → Exec ℤ
  sprint_symbol_init a_symbol = do
    printk "KSYM_SYMBOL_LEN    :%u\n" (nat addresses.ksym_symbol_len ∷ [])
    print_symbol_at addresses.return_address
    printk "\n" []
    print_base (api.find_module "test_module")
    printk "\n" []
    print_symbol_at (a_symbol + 5)
    print_refcount api
    done (pos 0)

  abbrev pub print_psmouse : Option ModuleStruct → Exec (Unit {0})
  print_psmouse none = done tt
  print_psmouse (some fmodule) = do
    printk "fmodule->name:%s\n" (chars fmodule.name ∷ [])
    addresses.print "it's the second part, \n %s" fmodule.base

  unfoldable pub print_symbol_init : (a_symbol : ℕ) → Exec ℤ
  print_symbol_init a_symbol = do
    addresses.print "it's the first part,\n %s" addresses.return_address
    printk "\n\n" []
    print_psmouse (api.find_module "psmouse")
    printk "\n\n" []
    addresses.print "it's the third part,\n %s" (a_symbol + 5)
    printk "\n\n" []
    done (pos 0)
