-- ===== src/Sys2/Session.antt =====
-- sys2/: the module while it is loaded. Commands are written one after the other, and between two of
-- them the rest of the system goes on.
pub mod Buffer
pub mod Values
pub mod Handlers
pub mod Kept
pub mod Leftover
pub mod Lifecycle
use linux_driver.Base.{ℕ, ℤ, pos, negsuc, ◌≤ℤ◌, ◌≡◌, some, List, [], ◌∷◌}
use linux_driver.Sys2.Console.{Line}
use linux_driver.Sys2.Task
use linux_driver.Sys2.Interface.Reference.{InRange}
use linux_driver.Sys2.Command.{World, Api, my_data_store}

-- `my_data`, and what the handlers work on.
pub record State : Type 0 where
  pub my_data : List ℕ
  pub world : World

-- A nice value that the kernel takes.
abbrev pub IsNice : ℤ → Type 0
IsNice n = (negsuc 19 ≤ℤ n) × (n ≤ℤ pos 19)

abbrev pub AreNice : List Task.Task → Type 0
AreNice [] = Unit
AreNice (t ∷ ts) = IsNice t.nice × AreNice ts

-- The same for the threads of all processes.
abbrev pub AreNiceThreads : List Task.Process → Type 0
AreNiceThreads [] = Unit
AreNiceThreads (p ∷ ps) = IsNice p.leader.nice × AreNice p.threads × AreNiceThreads ps

-- What the kernel documents of `set_user_nice`.
abbrev pub SetsNice : Api → Type 0
SetsNice api = (t : Task.Task) (n : ℤ) → (api.tasks.set_user_nice t n).nice ≡ n

-- What the rest of the system does: tasks and devices come and go, with valid values; what the module
-- holds is its own.
pub record Others (before after : World) : Type 0 where
  pub log : after.log ≡ before.log
  pub nice : AreNice after.tasks
  pub nice_threads : AreNiceThreads after.processes
  pub mtu : (b : ℕ) → InRange (after.devs b).mtu

-- A write of `count` bytes that does not fault; the kernel's answers may differ from write to write.
pub data Step (s : State) : State → Type 0 where
  write :
      (api : Api) (buf : List ℕ) (count : ℕ) {w : World} {lines : List Line}
      → SetsNice api
      → (my_data_store api s.my_data buf count s.world).effect ≡ some (w, lines)
      → Step s
          (record { my_data = (my_data_store api s.my_data buf count s.world).my_data; world = w })
  others : {w : World} → Others s.world w → Step s (record s { world = w })

pub data Reach (first : State) : State → Type 0 where
  start : Reach first first
  later : {s t : State} → Reach first s → Step s t → Reach first t
