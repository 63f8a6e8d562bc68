-- ===== src/Kernel/Events.antt =====
-- The kernel calls that the modules make, each with its arguments and the kernel's answer, where
-- those matter to the caller. An address is a number, and a pointer that may be NULL an Option.
use linux_driver.Base.{ℕ, ℤ, Bool, true, false, negsuc, pos, Option, List}

-- What `class_create` and `device_create` return: an address, or an error number in disguise.
pub data ErrPtr : Type 0 where
  address : ℕ → ErrPtr
  err_ptr : ℕ → ErrPtr

abbrev pub is_err : ErrPtr → Bool
is_err (address _) = false
is_err (err_ptr _) = true

-- `PTR_ERR`; `err_ptr n` holds the error -(n + 1).
abbrev pub ptr_err : ErrPtr → ℤ
ptr_err (address a) = pos a
ptr_err (err_ptr n) = negsuc n

-- The address behind a pointer that is no error.
abbrev pub address_of : ErrPtr → ℕ
address_of (address a) = a
address_of (err_ptr _) = 0

pub data Event : Type 0 where
  -- character devices: the number, the cdev, its class and its node
  alloc_chrdev_region : (ret : ℤ) (devid : ℕ) → Event
  register_chrdev_region : (ret : ℤ) (devid : ℕ) → Event
  unregister_chrdev_region : (devid : ℕ) → Event
  register_chrdev : (ret : ℤ) (major : ℕ) → Event
  unregister_chrdev : (major : ℕ) → Event
  cdev_init : Event
  cdev_add : (ret : ℤ) → Event
  cdev_del : Event
  class_create : (class : ErrPtr) → Event
  class_unregister : (class : ErrPtr) → Event
  class_destroy : (class : ErrPtr) → Event
  device_create : (devid : ℕ) (device : ErrPtr) → Event
  device_destroy : (devid : ℕ) → Event
  -- memory and mappings
  kmalloc : (size : ℕ) (mem : Option ℕ) → Event
  kfree : (mem : ℕ) → Event
  ioremap : (base size : ℕ) (mapped : ℕ) → Event
  iounmap : (mapped : ℕ) → Event
  -- sysfs, procfs, netfilter
  kobject_create_and_add : (kobj : Option ℕ) → Event
  kobject_put : (kobj : ℕ) → Event
  sysfs_create_file : (kobj : ℕ) (ret : ℤ) → Event
  sysfs_remove_file : (kobj : ℕ) → Event
  nf_register_net_hook : (ret : ℤ) → Event
  nf_unregister_net_hook : Event
  proc_create : (entry : Option ℕ) → Event
  remove_proc_entry : (entry : ℕ) → Event
  -- network devices
  alloc_etherdev : (netdev : Option ℕ) → Event
  free_netdev : (netdev : ℕ) → Event
  register_netdev : (netdev : ℕ) (ret : ℤ) → Event
  unregister_netdev : (netdev : ℕ) → Event
  pci_enable_device : (pdev : ℕ) (ret : ℤ) → Event
  pci_disable_device : (pdev : ℕ) → Event
  pci_register_driver : (ret : ℤ) → Event
  pci_unregister_driver : Event
  dev_kfree_skb : (skb : ℕ) → Event
  -- references and read-side sections
  find_get_pid : (pid : Option ℕ) → Event
  put_pid : (pid : ℕ) → Event
  dev_get_by_name : (dev : Option ℕ) → Event
  dev_put : (dev : ℕ) → Event
  rcu_read_lock : Event
  rcu_read_unlock : Event
  get_pid : (pid : ℕ) → Event
  get_task_mm : (mm : Option ℕ) → Event
  mmput : (mm : ℕ) → Event
  -- modules and symbols: a symbol's reference is one to the module that has it
  symbol_get : (owner : Option ℕ) → Event
  symbol_put : (owner : ℕ) → Event
  try_module_get : (module' : ℕ) (got : Bool) → Event
  module_put : (module' : ℕ) → Event
  preempt_disable : Event
  preempt_enable : Event
  -- threads
  kthread_create : (thread : ErrPtr) → Event
  kernel_thread : (pid : ℤ) → Event
  wake_up_process : (thread : ℕ) → Event

-- The latest call stands first.
abbrev pub Log : Type 0
Log = List Event
