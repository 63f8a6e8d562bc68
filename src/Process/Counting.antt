-- ===== src/Process/Counting.antt =====
-- What the walks over the task list count.
use linux_driver.Base.{
  ℕ, ◌+◌, ◌≡◌, ℤ, Option, none, some, List, [], ◌∷◌, ◌++◌, length, length-append, ap, ◌∙◌, arith,
}
use linux_driver.Kernel.{Arg, nat, int, chars, World, Printk, world, done, printk, ◌>>=◌}
use linux_driver.Process.{Api, IsKernel, PidStruct, Task}
use linux_driver.Process.Listing.{Ring, print_pid_init, traverse, traverse_init}
use linux_driver.Process.Tasks.{HavePids, print_pids-gets, opening, Shown}

unfoldable pub values_of : List Printk → List Arg
values_of [] = []
values_of (l ∷ ls) = l.args

-- The values in the last line of a run.
unfoldable pub last_values : Option (ℤ × World) → List Arg
last_values none = []
last_values (some (ret, w)) = values_of w.printed

traverse-Shown :
    (c : ℕ) (ts : List Task) (w : World)
    → Shown (traverse c ts) (c + length ts) w.log w.log w.printed
unfolding Shown traverse ◌>>=◌ printk done
traverse-Shown c [] w = (w.printed, ap (λ n. some (n, w)) (omega arith))
traverse-Shown c (t ∷ ts) w =
    let values : List Arg = nat (c + 1) ∷ chars t.comm ∷ int t.pid ∷ [] in
    let line : Printk = record { format = "[process %-5d]: %s's pid is %-5d\n"; args = values } in
    let (pr', e) = traverse-Shown (c + 1) ts (world w.log (line ∷ w.printed)) in
    let total : c + 1 + length ts ≡ c + length (t ∷ ts) = omega arith in
    (pr', e ∙ ap (λ n. some (n, world w.log pr')) total)

traverse_init-counts :
    (ring : Ring) (w : World) → last_values (traverse_init ring w) ≡ nat (length ring.others) ∷ []
unfolding last_values values_of traverse_init ◌>>=◌ printk done Shown
traverse_init-counts ring w =
    let first : Printk = record { format = "Traversal module is working..\n"; args = [] } in
    let (pr', e) = traverse-Shown 0 ring.others (world w.log (first ∷ w.printed)) in
    rw e (ap (λ n. nat n ∷ []) (omega arith))

print_pid_init-counts :
    (api : Api) (law : IsKernel api) (ring : Ring) (ps : List PidStruct) (w : World)
    → HavePids api ring.others ps
    → last_values (print_pid_init api ring w) ≡ nat (length ring.others) ∷ []
unfolding last_values values_of print_pid_init ◌>>=◌ printk done Shown
print_pid_init-counts api law ring ps w h =
    let (pr', e) = print_pids-gets api law 0 ring.others ps w.log (opening w.printed) h in
    rw e (ap (λ n. nat n ∷ []) (omega arith))

-- The ring of tasks starts with `init_task`, and the task that loads iterateprocess stands anywhere on
-- it. Then the last lines of `print_pid_init` and `traverse_init` give the same number, that of the
-- tasks on the ring but one, if each task that the first shows has a pid and the counts of the pids
-- follow the kernel's rules.
pub counts-agree :
    (api : Api) (law : IsKernel api) (init_task current : Task) (rest before after : List Task)
    (ps : List PidStruct) (w w' : World)
    → init_task ∷ rest ≡ before ++ current ∷ after
    → HavePids api rest ps
    → (last_values (print_pid_init api (record { head = init_task; others = rest }) w)
        ≡ nat (length rest) ∷ [])
      × (last_values (traverse_init (record { head = current; others = after ++ before }) w')
          ≡ nat (length rest) ∷ [])
counts-agree api law init_task current rest before after ps w w' ring h =
    let one : Ring = record { head = init_task; others = rest } in
    let other : Ring = record { head = current; others = after ++ before } in
    let same : length (after ++ before) ≡ length rest =
      omega (
        arith,
        ap length ring,
        length-append before (current ∷ after),
        length-append after before,
      ) in
    (
      print_pid_init-counts api law one ps w h,
      traverse_init-counts other w' ∙ ap (λ n. nat n ∷ []) same,
    )
