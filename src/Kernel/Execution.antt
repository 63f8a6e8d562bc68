-- ===== src/Kernel/Execution.antt =====
-- Kernel code that prints and calls the kernel in sequence. A run starts from the calls made and the
-- lines printed so far, the latest first, and goes on from there; `none` is a fault, such as a read
-- through NULL or of freed memory. A line is the format of a `printk` as it stands in the source,
-- and its values.
use Prim.Native.String.{String}
use linux_driver.Base.{ℕ, ℤ, pos, Option, none, some, List, ◌∷◌}
use linux_driver.Kernel.Events.{Event, Log}

pub data Arg : Type 0 where
  int : ℤ → Arg
  text : String → Arg
  chars : List ℕ → Arg

pub record Printk : Type 0 where
  pub format : String
  pub args : List Arg

pub record World : Type 0 where
  pub log : Log
  pub printed : List Printk

abbrev pub Exec : Type 0 → Type 0
Exec A = World → Option (A × World)

abbrev pub continue : {A B : Type 0} → Option (A × World) → (A → Exec B) → Option (B × World)
continue none f = none
continue (some (a, w)) f = f a w

infixl 5 ◌>>=◌ ◌>>◌
unfoldable pub ◌>>=◌ : {A B : Type 0} → Exec A → (A → Exec B) → Exec B
◌>>=◌ m f w = continue (m w) f

abbrev pub ◌>>◌ : {B : Type 0} → Exec (Unit {0}) → Exec B → Exec B
m >> k = m >>= λ _. k

unfoldable pub done : {A : Type 0} → A → Exec A
done a w = some (a, w)

unfoldable pub printk : String → List Arg → Exec (Unit {0})
printk f vs w = some (tt, record w { printed = record { format = f; args = vs } ∷ w.printed })

-- A call of the kernel, for what it changes there.
unfoldable pub call : Event → Exec (Unit {0})
call e w = some (tt, record w { log = e ∷ w.log })

-- What a pointer points to; a NULL pointer faults.
unfoldable pub deref : {A : Type 0} → Option A → Exec A
deref none w = none
deref (some a) w = some (a, w)

-- `%d` of a number that is not negative.
abbrev pub nat : ℕ → Arg
nat n = int (pos n)
