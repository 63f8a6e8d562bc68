-- ===== src/Sys2/Load.antt =====
-- sys2/sys2.c, lines 133 to 175: loading and unloading the module.
pub mod Balance
use linux_driver.Base.{ℕ, ℤ, pos, is_set, Option, none, some, ◌∷◌, enomem, if◌then◌else◌}
use linux_driver.Kernel.{
  kobject_create_and_add, kobject_put, sysfs_create_file, sysfs_remove_file, Log, Run,
}
use linux_driver.Sys2.Packet.{register_net_hooks, unregister_net_hooks}

pub record Answers : Type 0 where
  pub kobj : Option ℕ
  pub created : ℤ
  pub hooked : ℤ

-- `mymodule_kobj` is the module's state.
unfoldable pub add_hooks : (kobj : ℕ) → Answers → Log → Run ℕ
unfolding register_net_hooks
add_hooks kobj k log =
    let (ret, log') = register_net_hooks k.hooked log in
    if is_set ret
    then record { ret = ret; dev = kobj; log = kobject_put kobj ∷ sysfs_remove_file kobj ∷ log' }
    else record { ret = pos 0; dev = kobj; log = log' }

unfoldable pub create_file : (kobj : ℕ) → Answers → Log → Run ℕ
unfolding add_hooks
create_file kobj k log =
    let log' = sysfs_create_file kobj k.created ∷ log in
    if is_set k.created
    then record { ret = k.created; dev = kobj; log = kobject_put kobj ∷ log' }
    else add_hooks kobj k log'

unfoldable pub mymodule_init : Answers → Log → Run ℕ
unfolding create_file
mymodule_init k log =
    let log' = kobject_create_and_add k.kobj ∷ log in
    elim k.kobj [
      | none ↦ record { ret = enomem; dev = 0; log = log' }
      | some kobj ↦ create_file kobj k log'
    ]

unfoldable pub mymodule_exit : (kobj : ℕ) → Log → Log
unfolding unregister_net_hooks
mymodule_exit kobj log = kobject_put kobj ∷ sysfs_remove_file kobj ∷ unregister_net_hooks log
