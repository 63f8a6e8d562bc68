-- ===== src/Sys2/Session/Leftover.antt =====
-- sys2/: exactly what the commands leave held that are written while the module is loaded.
use linux_driver.Base.{
  ℕ, ◌+◌, ◌≡◌, refl, sym, ap, ◌∙◌, inl, inr, Option, none, some, List, [], ◌∷◌, ◌++◌, length, cstr,
  is_set, ◌&&◌, not, if◌then◌else◌, append_assoc, arith, Bool, true, false,
}
use mathlib.Core.Path.{subst}
use linux_driver.Kernel.{Resource, held_kind, account, memory, rcu_reader, snprintf_s}
use linux_driver.Sys2.Console.{Line}
use linux_driver.Sys2.Task.Thread.{set_thread_priority_in-balance}
use linux_driver.Sys2.Parse.{parse_command}
use linux_driver.Sys2.Parse.Words.{parse_command-words}
use linux_driver.Sys2.Interface
use linux_driver.Sys2.Interface.Reference.{Balanced, interface-Balanced}
use linux_driver.Sys2.Descriptor.{setsocketsize_in}
use linux_driver.Sys2.Descriptor.ReadSide.{setsocketsize_in-account}
use linux_driver.Sys2.Descriptor.Listing.{showprocessfd_in-body}
use linux_driver.Sys2.Command.{
  Handler, showtasklist, print_task_info, parse, set_user_nice_by_uid, set_all_task_nice,
  showkernelsymbol, showallthread, set_thread_priority, showinterface, setmtu, clearinterface,
  showprocessfd, setsocketsize, World, Api, Effect, on_net?, parsed, run_handler, call_handler,
  reads_param, ends_inside, task_of, logged, find_handler, command_handlers, my_data_store,
}
use linux_driver.Sys2.Session.{State, Step, Reach}
use linux_driver.Sys2.Session.Handlers.{AreKept}

abbrev copied : Option ℕ → List Resource
copied none = []
copied (some a) = held_kind memory a ∷ []

-- The copy of `parse`, and the read-side section of a socket that was resized.
abbrev pub left_by : Api → Handler → (param : List ℕ) → World → List Resource
left_by api parse param w = copied api.kstrdup
left_by api setsocketsize param w =
    let r = setsocketsize_in (api.tasks.scan 4 (cstr param)) w.socks w.open_files w.log in
    if is_set r.ret then [] else held_kind rcu_reader 0 ∷ []
left_by api _ param w = []

abbrev Holds : List Resource → Effect → Type 0
Holds rs none = Unit
Holds rs (some (w, lines)) = account w.log ≡ some rs

module _ (api : Api) (w : World) {rs : List Resource} (held : account w.log ≡ some rs)
    (param : List ℕ) where
  on_net?-Holds :
      (fault : Type 0) (o : Option Interface.Outcome) → Balanced fault rs o → Holds rs (on_net? w o)
  on_net?-Holds fault none f = tt
  on_net?-Holds fault (some o) e = e

  parse-Holds :
      (copy : Option ℕ)
      → Holds
          (copied copy ++ rs)
          (parsed w (parse_command (length (cstr param) + 2) param copy w.log))
  unfolding parse_command
  parse-Holds none = held
  parse-Holds (some a) =
      let (runs, _, e) = parse_command-words param a w.log held in
      subst (λ o. Holds (held_kind memory a ∷ rs) (parsed w o)) (sym runs) e

  setsocketsize-Holds :
      Holds (left_by api setsocketsize param w ++ rs) (run_handler api setsocketsize param w)
  unfolding run_handler
  setsocketsize-Holds = ground (
    arith,
    setsocketsize_in-account (api.tasks.scan 4 (cstr param)) w.socks w.open_files w.log held,
  )

  run_handler-Holds :
      (h : Handler) → Holds (left_by api h param w ++ rs) (run_handler api h param w)
  unfolding run_handler
  run_handler-Holds showtasklist = held
  run_handler-Holds print_task_info = held
  run_handler-Holds parse = parse-Holds api.kstrdup
  run_handler-Holds set_user_nice_by_uid = held
  run_handler-Holds set_all_task_nice = held
  run_handler-Holds showkernelsymbol = held
  run_handler-Holds showallthread = held
  run_handler-Holds set_thread_priority =
      (set_thread_priority_in-balance api.tasks param api.pid_of
        (λ tid. task_of tid w.tasks w.processes) w.log held).0
  run_handler-Holds showinterface = (interface-Balanced api.net param w.devs w.log held).0
  run_handler-Holds setmtu =
      on_net?-Holds _ _ (interface-Balanced api.net param w.devs w.log held).1
  run_handler-Holds clearinterface =
      on_net?-Holds _ _ (interface-Balanced api.net param w.devs w.log held).2
  run_handler-Holds showprocessfd = (showprocessfd_in-body w.socks w.open_files w.log held).2
  run_handler-Holds setsocketsize = setsocketsize-Holds

call_handler-Holds :
    (api : Api) (w : World) {rs : List Resource}
    → account w.log ≡ some rs
    → (param : List ℕ) (h : Handler)
    → Holds (left_by api h param w ++ rs) (call_handler api h param w)
unfolding call_handler
call_handler-Holds api w {rs} held param h =
    elim (reads_param h && not (ends_inside param))
      as (λ b.
        Holds (left_by api h param w ++ rs) (if b then none else run_handler api h param w)) [
          | true ↦ tt
          | false ↦ run_handler-Holds api w held param h
        ]

logged-Holds : (rs : List Resource) (l : Line) (e : Effect) → Holds rs e → Holds rs (logged l e)
logged-Holds rs l none h = h
logged-Holds rs l (some (w, ls)) h = h

-- What a write leaves held: that of the handler that it selects, if it does.
abbrev selected : Api → Option (Handler × List ℕ) → World → List Resource
selected api none w = []
selected api (some (h, param)) w = left_by api h param w

abbrev pub left_by_write : Api → (my_data buf : List ℕ) → World → List Resource
left_by_write api my_data buf w =
    selected api (find_handler command_handlers (snprintf_s my_data 256 buf)) w

my_data_store-Holds :
    (api : Api) (my_data buf : List ℕ) (count : ℕ) (w : World) {rs : List Resource}
    → account w.log ≡ some rs
    → Holds (left_by_write api my_data buf w ++ rs) (my_data_store api my_data buf count w).effect
unfolding my_data_store
my_data_store-Holds api my_data buf count w {rs} held =
    by_row (find_handler command_handlers (snprintf_s my_data 256 buf)) refl
  where
    by_row :
        (o : Option (Handler × List ℕ))
        → find_handler command_handlers (snprintf_s my_data 256 buf) ≡ o
        → Holds (selected api o w ++ rs) (my_data_store api my_data buf count w).effect
    by_row none e = rw (e, my_data_store) held
    by_row (some (h, param)) e =
        rw (e, my_data_store) (logged-Holds _ _ _ (call_handler-Holds api w held param h))

-- The writes of a session, the last one first, and what each leaves held.
unfoldable pub left : {s t : State} → Reach s t → List Resource
left Reach.start = []
left (Reach.later {s} r (Step.write api buf count law e)) =
    left_by_write api s.my_data buf s.world ++ left r
left (Reach.later r (Step.others o)) = left r

pub Reach-left :
    {first : List Resource} {s t : State}
    → account s.world.log ≡ some first
    → (r : Reach s t) → account t.world.log ≡ some (left r ++ first)
unfolding left
Reach-left held Reach.start = held
Reach-left {first} held (Reach.later {s} r (Step.write api buf count law e)) =
    subst (Holds ((left_by_write api s.my_data buf s.world ++ left r) ++ first)) e (
      rw (append_assoc (left_by_write api s.my_data buf s.world) (left r) first)
        (my_data_store-Holds api s.my_data buf count s.world (Reach-left held r)))
Reach-left held (Reach.later r (Step.others o)) = ap account o.log ∙ Reach-left held r

AreKept-append : (rs ss : List Resource) → AreKept rs → AreKept ss → AreKept (rs ++ ss)
AreKept-append [] ss h k = k
AreKept-append (r ∷ rs) ss (h, hs) k = (h, AreKept-append rs ss hs k)

module _ (api : Api) (param : List ℕ) (w : World) where
  copied-AreKept : (copy : Option ℕ) → AreKept (copied copy)
  copied-AreKept none = tt
  copied-AreKept (some a) = (inl (a, refl), tt)

  section-AreKept : (failed : Bool) → AreKept (if failed then [] else held_kind rcu_reader 0 ∷ [])
  section-AreKept true = tt
  section-AreKept false = (inr refl, tt)

  left_by-AreKept : (h : Handler) → AreKept (left_by api h param w)
  left_by-AreKept parse = copied-AreKept api.kstrdup
  left_by-AreKept setsocketsize =
      section-AreKept
        (is_set (setsocketsize_in (api.tasks.scan 4 (cstr param)) w.socks w.open_files w.log).ret)
  left_by-AreKept showtasklist = tt
  left_by-AreKept print_task_info = tt
  left_by-AreKept set_user_nice_by_uid = tt
  left_by-AreKept set_all_task_nice = tt
  left_by-AreKept showkernelsymbol = tt
  left_by-AreKept showallthread = tt
  left_by-AreKept set_thread_priority = tt
  left_by-AreKept showinterface = tt
  left_by-AreKept setmtu = tt
  left_by-AreKept clearinterface = tt
  left_by-AreKept showprocessfd = tt

selected-AreKept :
    (api : Api) (o : Option (Handler × List ℕ)) (w : World) → AreKept (selected api o w)
selected-AreKept api none w = tt
selected-AreKept api (some (h, param)) w = left_by-AreKept api param w h

pub left-AreKept : {s t : State} (r : Reach s t) → AreKept (left r)
unfolding left
left-AreKept Reach.start = tt
left-AreKept (Reach.later {s} r (Step.write api buf count law e)) =
    AreKept-append (left_by_write api s.my_data buf s.world) (left r)
      (selected-AreKept api (find_handler command_handlers (snprintf_s s.my_data 256 buf)) s.world)
      (left-AreKept r)
left-AreKept (Reach.later r (Step.others o)) = left-AreKept r
