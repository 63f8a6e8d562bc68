-- ===== src/Kernel/Account.antt =====
-- What a log of kernel calls leaves held. This is the specification that the load and unload
-- functions are held to: which call hands out a resource when it succeeds, and which takes one
-- back. To give back what is not held is a fault.
use linux_driver.Kernel.Events.{pci_register_driver, pci_unregister_driver, dev_kfree_skb}
use linux_driver.Kernel.Events.{
  get_pid, get_task_mm, mmput, symbol_get, symbol_put, try_module_get, module_put, preempt_disable,
  preempt_enable, kthread_create, kernel_thread, wake_up_process,
}
use linux_driver.Kernel.Events.{
  find_get_pid, put_pid, dev_get_by_name, dev_put, rcu_read_lock, rcu_read_unlock,
}
use linux_driver.Base.{
  ℕ, Bool, ◌&&◌, Option, none, some, List, [], ◌∷◌, is_neg, is_set, ◌==◌, if◌then◌else◌,
}
use linux_driver.Kernel.Events.{
  ErrPtr, address, err_ptr, Event, alloc_chrdev_region, register_chrdev_region,
  unregister_chrdev_region, register_chrdev, unregister_chrdev, cdev_init, cdev_add, cdev_del,
  class_create, class_unregister, class_destroy, device_create, device_destroy, kmalloc, kfree,
  ioremap, iounmap, kobject_create_and_add, kobject_put, sysfs_create_file, sysfs_remove_file,
  nf_register_net_hook, nf_unregister_net_hook, proc_create, remove_proc_entry, alloc_etherdev,
  free_netdev, register_netdev, unregister_netdev, pci_enable_device, pci_disable_device, Log,
}

pub data Kind : Type 0 where
  region chrdev cdev class device memory mapping kobject sysfs_file net_hook proc_entry : Kind
  netdev registration pci pid_ref dev_ref rcu_reader pci_driver skb : Kind
  mm_ref module_ref no_preempt : Kind

abbrev rank : Kind → ℕ
rank region = 0
rank chrdev = 1
rank cdev = 2
rank class = 3
rank device = 4
rank memory = 5
rank mapping = 6
rank kobject = 7
rank sysfs_file = 8
rank net_hook = 9
rank proc_entry = 10
rank netdev = 11
rank registration = 12
rank pci = 13
rank pid_ref = 14
rank dev_ref = 15
rank rcu_reader = 16
rank pci_driver = 17
rank skb = 18
rank mm_ref = 19
rank module_ref = 20
rank no_preempt = 21

pub record Resource : Type 0 where
  pub kind : Kind
  pub id : ℕ

abbrev pub same : Resource → Resource → Bool
same r s = (rank r.kind == rank s.kind) && (r.id == s.id)

-- `none` stands for a fault.
abbrev pub Held : Type 0
Held = Option (List Resource)

abbrev pub held_kind : Kind → ℕ → Resource
held_kind k i = record { kind = k; id = i }

abbrev pub acquire : Resource → Held → Held
acquire r none = none
acquire r (some rs) = some (r ∷ rs)

abbrev pub erase : Resource → List Resource → Held
erase r [] = none
erase r (s ∷ rs) =
    if same r s then some rs else elim (erase r rs) [ none ↦ none | some ts ↦ some (s ∷ ts) ]

abbrev pub release : Resource → Held → Held
release r none = none
release r (some rs) = erase r rs

-- Where an `int` answer tells success.
abbrev pub acquire_unless : Bool → Resource → Held → Held
acquire_unless failed r h = if failed then h else acquire r h

abbrev pub acquire_some : Kind → Option ℕ → Held → Held
acquire_some k none h = h
acquire_some k (some a) h = acquire (held_kind k a) h

abbrev pub acquire_ptr : Kind → ErrPtr → Held → Held
acquire_ptr k (address a) h = acquire (held_kind k a) h
acquire_ptr k (err_ptr _) h = h

-- The kernel's `class_destroy` does nothing with an error pointer.
abbrev pub release_ptr : Kind → ErrPtr → Held → Held
release_ptr k (address a) h = release (held_kind k a) h
release_ptr k (err_ptr _) h = h

abbrev pub effect : Event → Held → Held
effect (alloc_chrdev_region ret d) h = acquire_unless (is_neg ret) (held_kind region d) h
effect (register_chrdev_region ret d) h = acquire_unless (is_neg ret) (held_kind region d) h
effect (unregister_chrdev_region d) h = release (held_kind region d) h
effect (register_chrdev ret major) h = acquire_unless (is_neg ret) (held_kind chrdev major) h
effect (unregister_chrdev major) h = release (held_kind chrdev major) h
effect cdev_init h = h
effect (cdev_add ret) h = acquire_unless (is_neg ret) (held_kind cdev 0) h
effect cdev_del h = release (held_kind cdev 0) h
effect (class_create c) h = acquire_ptr class c h
effect (class_unregister c) h = release_ptr class c h
effect (class_destroy c) h = release_ptr class c h
effect (device_create d (address a)) h = acquire (held_kind device d) h
effect (device_create d (err_ptr _)) h = h
effect (device_destroy d) h = release (held_kind device d) h
effect (kmalloc size mem) h = acquire_some memory mem h
effect (kfree mem) h = release (held_kind memory mem) h
effect (ioremap base size m) h = acquire (held_kind mapping m) h
effect (iounmap m) h = release (held_kind mapping m) h
effect (kobject_create_and_add k) h = acquire_some kobject k h
effect (kobject_put k) h = release (held_kind kobject k) h
effect (sysfs_create_file k ret) h = acquire_unless (is_set ret) (held_kind sysfs_file k) h
effect (sysfs_remove_file k) h = release (held_kind sysfs_file k) h
effect (nf_register_net_hook ret) h = acquire_unless (is_set ret) (held_kind net_hook 0) h
effect nf_unregister_net_hook h = release (held_kind net_hook 0) h
effect (proc_create e) h = acquire_some proc_entry e h
effect (remove_proc_entry e) h = release (held_kind proc_entry e) h
effect (alloc_etherdev n) h = acquire_some netdev n h
effect (free_netdev n) h = release (held_kind netdev n) h
effect (register_netdev n ret) h = acquire_unless (is_set ret) (held_kind registration n) h
effect (unregister_netdev n) h = release (held_kind registration n) h
effect (pci_enable_device p ret) h = acquire_unless (is_set ret) (held_kind pci p) h
effect (pci_disable_device p) h = release (held_kind pci p) h
effect (pci_register_driver ret) h = acquire_unless (is_set ret) (held_kind pci_driver 0) h
effect pci_unregister_driver h = release (held_kind pci_driver 0) h
effect (dev_kfree_skb s) h = release (held_kind skb s) h
effect (find_get_pid p) h = acquire_some pid_ref p h
effect (put_pid p) h = release (held_kind pid_ref p) h
effect (dev_get_by_name d) h = acquire_some dev_ref d h
effect (dev_put d) h = release (held_kind dev_ref d) h
effect rcu_read_lock h = acquire (held_kind rcu_reader 0) h
effect rcu_read_unlock h = release (held_kind rcu_reader 0) h
effect (get_pid p) h = acquire (held_kind pid_ref p) h
effect (get_task_mm m) h = acquire_some mm_ref m h
effect (mmput m) h = release (held_kind mm_ref m) h
effect (symbol_get o) h = acquire_some module_ref o h
effect (symbol_put o) h = release (held_kind module_ref o) h
effect (try_module_get m got) h = if got then acquire (held_kind module_ref m) h else h
effect (module_put m) h = release (held_kind module_ref m) h
effect preempt_disable h = acquire (held_kind no_preempt 0) h
effect preempt_enable h = release (held_kind no_preempt 0) h
effect (kthread_create t) h = h
effect (kernel_thread p) h = h
effect (wake_up_process t) h = h

abbrev pub account : Log → Held
account [] = some []
account (e ∷ log) = effect e (account log)
