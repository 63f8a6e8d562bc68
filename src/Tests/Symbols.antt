-- ===== src/Tests/Symbols.antt =====
-- The modules about modules and symbols at concrete inputs.
use linux_driver.Base.{◌≡◌, refl, pos, true, none, some, [], codes, replicate}
use linux_driver.Kernel.{◌>>=◌, printk, World}
use linux_driver.Symbols.{Api, ModuleStruct}
use linux_driver.Symbols.Lookup.{null, unmapped, find_symbol_init}
use linux_driver.Symbols.Address.{AddressApi}
use linux_driver.Symbols.Kept.{in_module_put, load, change, Changes, release_some, load-Changes}

abbrev test_module : ModuleStruct
test_module = record {
  address = 4096;
  name = codes "test_module";
  state = pos 0;
  percpu_size = 0;
  version = [];
  srcversion = [];
  base = 8192;
}

abbrev api : Api
api = record {
  find_module = λ n. some test_module;
  lookup = λ n. some (record { address = 8200; owner = some 4096 });
  module_at = λ a. some test_module;
  this_module = test_module;
  module_is_live = λ m. pos 1;
  refcount = λ m log. pos 0;
  try_module_get = λ m log. true;
}

abbrev addresses : AddressApi
addresses = record {
  bytes = λ m. replicate 40 1;
  symbol = λ a. ([], pos 0);
  print = λ f a w. some (tt, w);
  return_address = 8300;
  ksym_symbol_len = 256;
}

abbrev quiet : World
quiet = record { log = []; printed = [] }

-- Nobody has taken the reference that is given back.
load-Changes_example : Changes (load api in_module_put quiet) none
unfolding change release_some
load-Changes_example = load-Changes api in_module_put quiet refl

-- Where the symbol is not found, `owner` is read as it was before the call.
find_symbol_init_faults : find_symbol_init unmapped null none quiet ≡ none
unfolding find_symbol_init ◌>>=◌ printk
find_symbol_init_faults = refl
