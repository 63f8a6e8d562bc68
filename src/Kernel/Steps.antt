-- ===== src/Kernel/Steps.antt =====
-- How a run goes on after its first statement. `simp` goes through a run by these equations, from the
-- first statement to the last.
use linux_driver.Base.{Option, some, List, ◌∷◌, ◌≡◌, refl, none}
use linux_driver.Kernel.Events.{Event, Log}
use linux_driver.Kernel.Execution.{
  Arg, Printk, World, Exec, continue, ◌>>=◌, done, printk, call, deref,
}
use Prim.Native.String.{String}

abbrev pub world : Log → List Printk → World
world log pr = record { log = log; printed = pr }

-- A run that ends with the value after these calls, whatever it has printed.
abbrev pub Ends : {A : Type 0} → Option (A × World) → A → Log → Type 0
Ends o a log = (pr : List Printk) × (o ≡ some (a, world log pr))

pub follows :
    {A B : Type 0} (m : Exec A) (f : A → Exec B) (w : World) {a : A} {b : B} {log log' : Log}
    → Ends (m w) a log
    → ((pr : List Printk) → Ends (f a (world log pr)) b log')
    → Ends ((m >>= f) w) b log'
unfolding ◌>>=◌
follows m f w (pr, e) next = let (pr', ends) = next pr in (pr', rw (e, ◌>>=◌) ends)

continue_assoc :
    {A B C : Type 0} (x : Option (A × World)) (f : A → Exec C) (g : C → Exec B)
    → continue (continue x f) g ≡ continue x (λ a. f a >>= g)
unfolding ◌>>=◌
continue_assoc none f g = refl
continue_assoc (some x) f g = refl

module _ {B : Type 0} where
  pub bind_assoc :
      {A C : Type 0} (m : Exec A) (f : A → Exec C) (g : C → Exec B) (w : World)
      → ((m >>= f) >>= g) w ≡ (m >>= (λ a. f a >>= g)) w
  unfolding ◌>>=◌
  bind_assoc m f g w = continue_assoc (m w) f g

  pub bind_printk :
      (f : String) (vs : List Arg) (k : Unit {0} → Exec B) (log : Log) (pr : List Printk)
      → (printk f vs >>= k) (world log pr)
        ≡ k tt (world log (record { format = f; args = vs } ∷ pr))
  unfolding ◌>>=◌ printk
  bind_printk f vs k log pr = refl

  pub bind_call :
      (e : Event) (k : Unit {0} → Exec B) (log : Log) (pr : List Printk)
      → (call e >>= k) (world log pr) ≡ k tt (world (e ∷ log) pr)
  unfolding ◌>>=◌ call
  bind_call e k log pr = refl

  pub bind_done : {A : Type 0} (a : A) (k : A → Exec B) (w : World) → (done a >>= k) w ≡ k a w
  unfolding ◌>>=◌ done
  bind_done a k w = refl

  pub bind_deref :
      {A : Type 0} (a : A) (k : A → Exec B) (w : World) → (deref (some a) >>= k) w ≡ k a w
  unfolding ◌>>=◌ deref
  bind_deref a k w = refl

pub run_done : {A : Type 0} (a : A) (w : World) → done a w ≡ some (a, w)
unfolding done
run_done a w = refl

pub ruleset steps = (bind_assoc, bind_printk, bind_call, bind_done, bind_deref, run_done)
