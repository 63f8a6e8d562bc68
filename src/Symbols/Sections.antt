-- ===== src/Symbols/Sections.antt =====
-- module_address/module_address.c, eg/module_address.c and module_text_address/module_text_address.c:
-- the sections without preemption.
use linux_driver.Base.{Bool, false, ◌≡◌, ℤ, Option, none, some, List}
use linux_driver.Kernel.{World, Resource}
use linux_driver.Symbols.{ModuleStruct}
use linux_driver.Symbols.Kept.{Changes}

-- A load function that reads a module which was found.
abbrev pub Closes :
    (stays : Bool) → Option ModuleStruct → Option (ℤ × World) → List Resource → Type 0
Closes false (some _) o rs = o ≡ none
Closes _ _ o rs = Changes o (some rs)
