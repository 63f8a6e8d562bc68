-- ===== src/Process/Tasks.antt =====
-- What the walks over the task list leave held, and what they count.
use linux_driver.Base.{ℕ, suc, ◌+◌, ◌≡◌, pos, some, List, [], ◌∷◌, length, ap, ◌∙◌, arith}
use linux_driver.Kernel.{
  Arg, int, nat, text, chars, Exec, World, Printk, Log, account, Resource, held_kind, pid_ref,
  find_get_pid, world, steps, ◌>>=◌, ◌>>◌, done, printk,
}
use linux_driver.Process.{Api, IsKernel, PidStruct, Task, get_pid_of}
use linux_driver.Process.Runs.{counts, levels, nrs}
use linux_driver.Process.Listing.{Ring, print_pids, print_pid_init, print_pid_exit}

-- Each task has a pid, and these are the pids.
unfoldable pub HavePids : Api → List Task → List PidStruct → Type 0
HavePids api [] [] = Unit
HavePids api [] (p ∷ ps) = ⊥
HavePids api (t ∷ ts) [] = ⊥
HavePids api (t ∷ ts) (p ∷ ps) = (api.find_vpid t.pid ≡ some p) × HavePids api ts ps

-- The calls that get these pids, the first one first.
pub gets : List PidStruct → Log → Log
gets [] log = log
gets (p ∷ ps) log = gets ps (find_get_pid (some p.address) ∷ log)

pub HeldMore : ℕ → List Resource → Log → Type 0
HeldMore n rs log =
    (held : List Resource) × (account log ≡ some held) × (length held ≡ n + length rs)

gets-HeldMore :
    (api : Api) (ts : List Task) (ps : List PidStruct) (log : Log) {rs : List Resource}
    → HavePids api ts ps
    → account log ≡ some rs
    → HeldMore (length ts) rs (gets ps log)
unfolding HavePids HeldMore gets
gets-HeldMore api [] [] log {rs = rs} hs h = (rs, h, omega arith)
gets-HeldMore api [] (p ∷ ps) log hs h = elim hs [ ]
gets-HeldMore api (t ∷ ts) [] log hs h = elim hs [ ]
gets-HeldMore api (t ∷ ts) (p ∷ ps) log {rs = rs} (_, hs) h =
    let next : account (find_get_pid (some p.address) ∷ log)
        ≡ some (held_kind pid_ref p.address ∷ rs) =
      rw h in
    let (held, e, l) = gets-HeldMore api ts ps (find_get_pid (some p.address) ∷ log) hs next in
    (held, e, omega arith)

unfoldable pub Shown : Exec ℕ → ℕ → (log log' : Log) → List Printk → Type 0
Shown m n log log' pr = (pr' : List Printk) × (m (world log pr) ≡ some (n, world log' pr'))

-- The lines before the loop.
abbrev pub opening : List Printk → List Printk
opening pr =
    let headings : List Arg =
      text "PID" ∷ text "NAME" ∷ text "COUNT" ∷ text "LEVEL" ∷ text "NR" ∷ text "VNR" ∷ [] in
    record { format = "%-6s %-30s %-10s %-10s %-10s %-10s\n"; args = headings }
    ∷ record { format = "Hello World enter begin:\n"; args = [] }
    ∷ record { format = "print_pid,\n"; args = [] }
    ∷ pr

module _ (api : Api) (law : IsKernel api) where
  -- The loop goes over all tasks, whatever was printed before.
  pub print_pids-gets :
      (c : ℕ) (ts : List Task) (ps : List PidStruct) (log : Log) (pr : List Printk)
      → HavePids api ts ps
      → Shown (print_pids api c ts) (c + length ts) log (gets ps log) pr
  unfolding print_pids HavePids gets done get_pid_of ◌>>=◌ printk Shown
  print_pids-gets c [] [] log pr h = (pr, ap (λ n. some (n, world log pr)) (omega arith))
  print_pids-gets c [] (p ∷ ps) log pr h = elim h [ ]
  print_pids-gets c (t ∷ ts) [] log pr h = elim h [ ]
  print_pids-gets c (t ∷ ts) (p ∷ ps) log pr (h, hs) =
      let log' : Log = find_get_pid (some p.address) ∷ log in
      let live : api.count p.address log' ≡ suc (api.count p.address log) =
        law.count-find_get_pid p.address log in
      let values : List Arg =
        int t.pid
        ∷ chars t.comm
        ∷ nat (api.count p.address log')
        ∷ nat p.level
        ∷ int p.nr
        ∷ int (api.pid_vnr (some p))
        ∷ [] in
      let line : Printk = record {
        format = "%-6d--->%-30s %-10d %-10d %-10d %-10d\n";
        args = values;
      } in
      let (pr', e) = print_pids-gets (c + 1) ts ps log' (line ∷ pr) hs in
      let total : c + 1 + length ts ≡ c + length (t ∷ ts) = omega arith in
      (
        pr',
        simp (h, steps, counts api p live, levels api p live, nrs api p live)
            (e ∙ ap (λ n. some (n, world (gets ps log') pr')) total),
      )

  -- If the counts follow the kernel's rules and each task that is shown has a pid, `print_pid_init`
  -- returns 0, and when the module is unloaded again one resource more is held for each of the
  -- tasks.
  pub print_pid-leaks :
      (ring : Ring) (ps : List PidStruct) (w : World) {rs : List Resource}
      → HavePids api ring.others ps
      → account w.log ≡ some rs
      → (w' : World) × ((do ret ← print_pid_init api ring; print_pid_exit; done ret) w
          ≡ some (pos 0, w'))
        × HeldMore (length ring.others) rs w'.log
  unfolding print_pid_init done ◌>>=◌ printk Shown
  print_pid-leaks ring ps w h a =
      let (pr', e) = print_pids-gets 0 ring.others ps w.log (opening w.printed) h in
      let summary : Printk = record {
        format = "the number of process is:%d\n";
        args = nat (0 + length ring.others) ∷ [];
      } in
      let last : Printk = record { format = "goodbye,kernel\n"; args = [] } in
      (
        world (gets ps w.log) (last ∷ summary ∷ pr'),
        rw e,
        gets-HeldMore api ring.others ps w.log h a,
      )
