-- ===== src/Kernel.antt =====
-- The boundary to the kernel. The modules of this repository mostly call the kernel's API; what it
-- answers is a parameter of every operation, and the calls made are recorded in a log.
-- `Kernel.Events` has the calls with their answers, `Kernel.Account` the resources that a log
-- leaves held, `Kernel.Loading` the outcome of a load function, `Kernel.Copy` the transfers between
-- user memory and a module's buffers, `Kernel.Numbers` the packing of a device number,
-- `Kernel.Execution` code that prints and calls the kernel in sequence.
mod Events
mod Account
mod Copy
mod Loading
mod Numbers
mod Execution
mod Steps
pub use Events.*
pub use Account.*
pub use Copy.*
pub use Loading.*
pub use Numbers.*
pub use Execution.*
unfoldable pub use Execution.{◌>>=◌, done, printk, call, deref}
pub use Steps.*
