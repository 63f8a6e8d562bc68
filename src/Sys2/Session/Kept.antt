-- ===== src/Sys2/Session/Kept.antt =====
-- sys2/: what holds at any time while the module is loaded, whatever is written to it.
use linux_driver.Base.{
  ℕ, ◌≡◌, refl, sym, Option, none, some, List, [], ◌∷◌, length, cstr, arith, true,
}
use mathlib.Core.Path.{subst}
use linux_driver.Kernel.{Resource, snprintf_s, length-snprintf_s}
use linux_driver.Sys2.Console.{Line, received, unknown_command}
use linux_driver.Sys2.Command.{
  Handler, command_handlers, find_handler, World, Api, Effect, logged, run_handler, call_handler,
  ends_inside, my_data_store,
}
use linux_driver.Sys2.Session.{State, SetsNice, Step, Reach}
use linux_driver.Sys2.Session.Buffer.{EndsInNul, snprintf_s-EndsInNul, param-ends_inside}
use linux_driver.Sys2.Session.Handlers.{IsWorld, HoldsMore, Faults, Ran, run_handler-Ran}

pub record IsModule (first : List Resource) (s : State) : Type 0 where
  pub sized : length s.my_data ≡ 256
  pub ends : EndsInNul s.my_data
  pub world : IsWorld first s.world

module _ (api : Api) (my_data buf : List ℕ) (count : ℕ) (w : World) where
  abbrev text : List ℕ
  text = snprintf_s my_data 256 buf

  -- The handler that the text written selects faults.
  abbrev pub StoreFaults : Type 0
  StoreFaults =
      (h : Handler) × (param : List ℕ) × (find_handler command_handlers text ≡ some (h, param))
      × Faults api h param

  logged-Ran :
      (fault : Type 0) (first : List Resource) (l : Line) (e : Effect)
      → Ran fault first e
      → Ran fault first (logged l e)
  logged-Ran fault first l none f = f
  logged-Ran fault first l (some (w', ls)) g = g

  -- What becomes of a row that was found.
  abbrev dispatched : Option (Handler × List ℕ) → Effect
  dispatched none = some (w, received (cstr text) ∷ unknown_command (cstr text) ∷ [])
  dispatched (some (h, param)) = logged (received (cstr text)) (call_handler api h param w)

  effect-dispatched :
      (o : Option (Handler × List ℕ))
      → find_handler command_handlers text ≡ o
      → (my_data_store api my_data buf count w).effect ≡ dispatched o
  unfolding my_data_store
  effect-dispatched none e = rw (e, my_data_store) refl
  effect-dispatched (some (h, param)) e = rw (e, my_data_store) refl

  call_handler-ends_inside :
      (h : Handler) (param : List ℕ)
      → ends_inside param ≡ true
      → call_handler api h param w ≡ run_handler api h param w
  unfolding call_handler
  call_handler-ends_inside h param e = ground arith

  module _ (sized : length my_data ≡ 256) (ends : EndsInNul my_data) where
    text-EndsInNul : EndsInNul text
    text-EndsInNul = snprintf_s-EndsInNul my_data buf 256 ends

    dispatched-Ran :
        (first : List Resource) (o : Option (Handler × List ℕ))
        → find_handler command_handlers text ≡ o
        → SetsNice api
        → IsWorld first w
        → Ran StoreFaults first (dispatched o)
    dispatched-Ran first none e law good = good
    dispatched-Ran first (some (h, param)) e law good =
        let inside : ends_inside param ≡ true =
          param-ends_inside command_handlers text h param
            (length-snprintf_s my_data buf 256 (omega arith) sized) text-EndsInNul e in
        logged-Ran (StoreFaults) first _ _ (
          subst (Ran StoreFaults first) (sym (call_handler-ends_inside h param inside))
            (why (run_handler api h param w) (run_handler-Ran api law first w good param h)))
      where
        why : (o : Effect) → Ran (Faults api h param) first o → Ran StoreFaults first o
        why none f = (h, param, e, f)
        why (some (w', ls)) g = g

    pub my_data_store-Ran :
        (first : List Resource)
        → SetsNice api
        → IsWorld first w
        → Ran StoreFaults first (my_data_store api my_data buf count w).effect
    my_data_store-Ran first law good =
        let o = find_handler command_handlers text in
        subst (Ran StoreFaults first) (sym (effect-dispatched o refl))
          (dispatched-Ran first o refl law good)

    my_data_store-sized :
        (length (my_data_store api my_data buf count w).my_data ≡ 256)
        × EndsInNul (my_data_store api my_data buf count w).my_data
    unfolding my_data_store
    my_data_store-sized = (length-snprintf_s my_data buf 256 (omega arith) sized, text-EndsInNul)

Step-IsModule :
    {first : List Resource} {s t : State} → Step s t → IsModule first s → IsModule first t
Step-IsModule {first} {s} (Step.write api buf count law e) h =
    let (sized, ends) = my_data_store-sized api s.my_data buf count s.world h.sized h.ends in
    record {
      sized = sized;
      ends = ends;
      world =
          subst (Ran (StoreFaults api s.my_data buf count s.world) first) e
            (my_data_store-Ran api s.my_data buf count s.world h.sized h.ends first law h.world);
    }
Step-IsModule {first} (Step.others {w} o) h = record {
  sized = h.sized;
  ends = h.ends;
  world = record {
    nice = o.nice;
    nice_threads = o.nice_threads;
    mtu = o.mtu;
    held = subst (HoldsMore first) (sym o.log) h.world.held;
  };
}

-- While the module is loaded, any commands are written to it, of any bytes, in any order and with any
-- answers of the kernel, whose `set_user_nice` sets the value that it is given; and in between the
-- rest of the system changes tasks and devices, to valid values. If the following holds at first, it
-- holds as long as no write has faulted: `my_data` has 256 bytes, the last of them NUL; every task,
-- also every thread of a process, has a nice value between -20 and 19, and every device an MTU between 68 and 65535; nothing was given
-- back that was not held, and what is held besides `first` is copies made by `parse` and read-side
-- sections, never a reference to a pid or to a device.
pub Reach-IsModule :
    {first : List Resource} {s t : State} → IsModule first s → Reach s t → IsModule first t
Reach-IsModule h Reach.start = h
Reach-IsModule h (Reach.later r st) = Step-IsModule st (Reach-IsModule h r)
