-- ===== src/Sys2/Session/Lifecycle.antt =====
-- sys2/: the life of the module. It is loaded, commands are written to it, and it is unloaded.
use linux_driver.Base.{
  ℕ, pos, Bool, true, false, is_set, ◌≡◌, refl, sym, ap, inl, inr, none, some, List, [], ◌∷◌, ◌++◌,
  arith, ==_refl, append-nil, ◌∙◌,
}
use mathlib.Core.Path.{subst}
use linux_driver.Kernel.{
  Log, Resource, held_kind, Held, erase, release, same, account, memory, rcu_reader, net_hook,
  sysfs_file, kobject,
}
use linux_driver.Sys2.Load.{Answers, mymodule_init, mymodule_exit}
use linux_driver.Sys2.Session.{State, Reach}
use linux_driver.Sys2.Session.Handlers.{IsKept, AreKept}
use linux_driver.Sys2.Session.Leftover.{left, Reach-left, left-AreKept}

-- What loading took.
abbrev attributes : (dev : ℕ) → List Resource
attributes dev = held_kind sysfs_file dev ∷ held_kind kobject dev ∷ []

abbrev taken : (refused : Bool) (dev : ℕ) → List Resource
taken true dev = attributes dev
taken false dev = held_kind net_hook 0 ∷ attributes dev

mymodule_init-taken :
    (k : Answers) (log : Log)
    → account log ≡ some []
    → (mymodule_init k log).ret ≡ pos 0
    → let r = mymodule_init k log in account r.log ≡ some (taken (is_set k.hooked) r.dev)
unfolding mymodule_init
mymodule_init-taken k log h e = ground arith

abbrev before : List Resource → Held → Held
before kept none = none
before kept (some ts) = some (kept ++ ts)

before-none : (o : Held) → o ≡ before [] o
before-none none = refl
before-none (some rs) = refl

before-step :
    (s : Resource) (kept : List Resource) (o : Held)
    → elim (before kept o) [ none ↦ none | some ts ↦ some (s ∷ ts) ] ≡ before (s ∷ kept) o
before-step s kept none = refl
before-step s kept (some ts) = refl

module _ (r : Resource) (mem : (a : ℕ) → same r (held_kind memory a) ≡ false)
    (reader : same r (held_kind rcu_reader 0) ≡ false) where
  same-IsKept : (s : Resource) → IsKept s → same r s ≡ false
  same-IsKept s (inl (a, e)) = subst (λ u. same r u ≡ false) (sym e) (mem a)
  same-IsKept s (inr e) = subst (λ u. same r u ≡ false) (sym e) reader

  erase-kept :
      (kept rest : List Resource)
      → AreKept kept
      → erase r (kept ++ rest) ≡ before kept (erase r rest)
  erase-kept [] rest _ = before-none (erase r rest)
  erase-kept (s ∷ kept) rest (k, ks) =
      rw (same-IsKept s k, erase-kept kept rest ks) (before-step s kept (erase r rest))

abbrev released : (dev : ℕ) → Held → Held
released dev h =
    release (held_kind kobject dev)
      (release (held_kind sysfs_file dev) (release (held_kind net_hook 0) h))

-- What is left of it, and where the hook was refused, a fault.
abbrev left_over : (refused : Bool) (kept : List Resource) → Held
left_over true kept = none
left_over false kept = some (kept ++ [])

module _ (dev : ℕ) (kept : List Resource) (are : AreKept kept) where
  release-hook :
      (rest : List Resource)
      → release (held_kind net_hook 0) (some (kept ++ rest))
        ≡ before kept (erase (held_kind net_hook 0) rest)
  release-hook rest = erase-kept (held_kind net_hook 0) (λ a. refl) refl kept rest are

  release-file :
      (rest : List Resource)
      → release (held_kind sysfs_file dev) (some (kept ++ rest))
        ≡ before kept (erase (held_kind sysfs_file dev) rest)
  release-file rest = erase-kept (held_kind sysfs_file dev) (λ a. refl) refl kept rest are

  release-kobject :
      (rest : List Resource)
      → release (held_kind kobject dev) (some (kept ++ rest))
        ≡ before kept (erase (held_kind kobject dev) rest)
  release-kobject rest = erase-kept (held_kind kobject dev) (λ a. refl) refl kept rest are

  released-kept :
      (refused : Bool) → released dev (some (kept ++ taken refused dev)) ≡ left_over refused kept
  released-kept true = rw (release-hook (attributes dev)) refl
  released-kept false =
      rw
        (
          release-hook (held_kind net_hook 0 ∷ attributes dev),
          release-file (attributes dev),
          ==_refl dev,
          release-kobject (held_kind kobject dev ∷ []),
          ==_refl dev,
        )
        refl

-- What the session left, `kept`; or where the hook was refused, a fault.
abbrev pub Unloads : (refused : Bool) (kept : List Resource) → Held → Type 0
Unloads true kept h = h ≡ none
Unloads false kept h = h ≡ some kept

mymodule_exit-Unloads :
    (dev : ℕ) (log : Log) (kept : List Resource)
    → AreKept kept
    → (refused : Bool) → account log ≡ some (kept ++ taken refused dev)
    → Unloads refused kept (account (mymodule_exit dev log))
unfolding mymodule_exit
mymodule_exit-Unloads dev log kept are true e =
    ap (released dev) e ∙ released-kept dev kept are true
mymodule_exit-Unloads dev log kept are false e =
    ap (released dev) e ∙ released-kept dev kept are false ∙ ap some (append-nil kept)

-- The life of the module. It is loaded with nothing held before, and loading reported success; then
-- any commands are written to it, of any bytes, with no fault and with kernels whose `set_user_nice`
-- sets the value that it is given, while the rest of the system changes tasks and devices to valid
-- values; and then it is unloaded. If the kernel had taken the hook, exactly the following is left
-- held, whatever was written: for each write that selects `parse` and gets memory for its copy, that
-- memory, and for each one that selects `setsocketsize` and returns 0, the read-side section. If the
-- kernel had refused the hook, unloading takes back a hook that was never there.
pub mymodule_exit-left :
    (k : Answers) (loading : Log) {s t : State}
    → account loading ≡ some []
    → (mymodule_init k loading).ret ≡ pos 0
    → s.world.log ≡ (mymodule_init k loading).log
    → (r : Reach s t)
    → Unloads
        (is_set k.hooked)
        (left r)
        (account (mymodule_exit (mymodule_init k loading).dev t.world.log))
mymodule_exit-left k loading {s} {t} h ok e r =
    mymodule_exit-Unloads (mymodule_init k loading).dev t.world.log (left r) (left-AreKept r)
      (is_set k.hooked) (Reach-left (ap account e ∙ mymodule_init-taken k loading h ok) r)
