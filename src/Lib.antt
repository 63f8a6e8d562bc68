-- ===== src/Lib.antt =====
-- Drivers and kernel modules: what their load, unload and file operations do, and what they hold.
--
-- The repository is a collection of Linux kernel modules. Each directory is a module of its own;
-- they share no state. A module has a load function and an unload function, which take resources of
-- the kernel and give them back, and operations that the kernel calls for a file, a device, a
-- packet or a text written under /sys. The largest, sys2/, is a small command interpreter: a write
-- stores a line, a table names a handler for it, and the handlers of showtask.c, parse.c,
-- mypacket.c and process.c list and change what the kernel holds. np-nc/ starts threads that share
-- a ring buffer.
--
-- Which file models which part:
--   Base               numbers, lists of bytes and C strings, C's `int` and the error codes
--   Kernel             the calls to the kernel (Events), what they leave held (Account), transfers
--                      from and to user memory (Copy), loading (Loading), device numbers (Numbers), code
--                      that calls and prints in sequence (Execution, Steps)
--   CharDev.NewChrdev  newchrdevbase/newchrdevbase.c
--   CharDev.Chrdev     chrdevbase/chrdevbase.c
--   CharDev.Mutex      mutex/mutex.c; Mutex.Threads has its readers and writers at once
--   CharDev.Ioctl      ioctl_device/my_device.c
--   DeviceTree.Led     dtsofled/dtsofled.c
--   DeviceTree.Backlight  dtsof/dtsof.c
--   TextFile.ProcSys   procsys/procsys.c
--   TextFile.SysAttr   sys/sys.c
--   NetDevice          network/mynetwork.c
--   Sys2.Command, Sys2.Load      sys2/sys2.c
--   Sys2.Session       sys2/sys2.c with all its handlers: the module while commands are written to
--                      it, from loading to unloading
--   Sys2.Task          sys2/showtask.c
--   Sys2.Parse         sys2/parse.c
--   Sys2.Packet        sys2/mypacket.c, the netfilter hook
--   Sys2.Interface     sys2/mypacket.c, the commands on interfaces
--   Sys2.Route         sys2/mypacket.c, the command on routes
--   Sys2.Descriptor    sys2/process.c
--   NpNc               np-nc/np-nc.c
--   Message            common/dbgmsg.c
--   Audit              auditexample/module/audit.c, forKenerl/audit.c and daemon/auditd.c there
--   App.ReadWrite      chrdevbase/chrdevbaseApp.c, newchrdevbase/newchrdevbaseApp.c
--   App.Ioctl          ioctl_device/my_device_test.c
--   Mmap               mmap/main.c
--   Process.Pid        get_pid.c, put_pid.c, find_get_pid.c, find_vpid.c, pid_task.c, pid_nr.c and
--                      pid_vnr.c, each in the directory of its name
--   Process.Namespace  ns_of_pid.c, find_pid_ns.c, __task_pid_nr_ns.c, task_active_pid_ns.c and
--                      task_tgid_nr_ns.c, likewise
--   Process.Memory     get_task_mm/get_task_mm.c, mmput/mmput.c
--   Process.Listing    print_pid/print_pid.c, iterateprocess/iterateprocess.c
--   Symbols.Reference  __symbol_get.c, __symbol_put.c, symbol_put_addr.c, module_put.c and
--                      try_module_get.c, likewise
--   Symbols.Lookup     find_module.c, module_refcount.c, module_is_live.c, find_symbol.c, likewise
--   Symbols.Address    module_address.c, eg/module_address.c, module_text_address.c, sprint_symbol.c
--                      and __print_symbol.c, likewise
--   WaitQueue          __wake_up.c, __wake_up_sync.c and __wake_up_sync_key.c, likewise
--   WaitQueue.Queued   add_wait_queue.c, abort_exclusive_wait.c, likewise
--   Demo               hello.c, kernel_thread.c, kthread_run.c and test_module.c, likewise
--   Tests              runs on concrete inputs
-- The modules below these prove properties and are named for what they prove.
--
-- How code becomes a definition. A C function is a definition of the same name, in snake case. A
-- function that calls the kernel takes the kernel's answers as a parameter (`Answers`, `TaskApi`,
-- `NetApi`, `Api`) and returns the log with its calls added; a load function returns a `Run`:
-- return code, the module's variables, log. A long function is cut at its `if` and `goto` into
-- definitions that are composed in the order of the code; a label that falls through to the next
-- calls it. `Kernel.Account.account` is the specification of resources: it reads a log and says
-- what is held, and is `none` where something is given back that is not held. A definition with an
-- Option as its result is `none` where the C code has no further behaviour, such as a copy past the
-- end of a buffer.
--
-- Numbers. Bytes, counts and addresses are natural numbers, an `int` that is only compared and
-- stored is an integer; the counters of the packet hook wrap at 2 ^ 64, `elemsize` of dtsof.c at 2
-- ^ 32. Lists of the kernel (tasks, threads, file tables) are finite lists, walked by structural
-- recursion. The producers and consumers of np-nc/ are a step relation for any number of threads,
-- one shared access or semaphore call at a time; a thread inside the mutex makes its access to the
-- ring and its printk in one step. So are the readers and writers of mutex/mutex.c, which copy one
-- byte at a step; a copy from user memory that stops short fills up with zeros, as the kernel
-- documents. The one loop on fuel is that of `parse`, and `run_handler` gives it two more units
-- than the parameter has bytes, which is enough.
--
-- The modules that demonstrate calls of the kernel are runs (`Exec`): a state monad over the calls
-- made and the lines printed, in which a read through NULL or of freed memory is a fault. What a
-- count holds is a function of the calls made so far, and `Process.IsKernel` states what the kernel
-- documents of it. The load function and the thread of WaitQueue are a step relation with every
-- interleaving of their shared accesses and of the timer. The life of sys2/ is a step relation on
-- `my_data` and what the handlers see: a step is a write that does not fault, or a change of tasks
-- and devices by the rest of the system. In auditexample/, the system calls that are audited while
-- a read goes on are lists, one for each stretch between two accesses of the read to the module's
-- variables.
--
-- In WaitQueue.Queued, line 91 of abort_exclusive_wait.c, which is not C, is modelled as a call
-- without its arguments.
--
-- Not modelled: the texts of printk in the driver modules where they carry no value of the program,
-- the tables of function pointers, and the kernel itself, whose calls are parameters. Generated
-- sources are left out, and so are the copies of kernel files in auditexample/forKenerl (entry.s,
-- i386_ksyms.c).
pub mod Base
pub mod Kernel
pub mod CharDev
pub mod TextFile
pub mod NetDevice
pub mod DeviceTree
pub mod NpNc
pub mod Message
pub mod Audit
pub mod App
pub mod Mmap
pub mod Process
pub mod Symbols
pub mod WaitQueue
pub mod Demo
pub mod Sys2
pub mod Tests
