-- ===== src/Sys2/Task/Nice.antt =====
-- sys2/showtask.c: the commands that set nice values, against a description task by task.
use linux_driver.Base.{
  ℕ, suc, ◌+◌, ℤ, pos, negsuc, zero, ltb, ◌==◌, Bool, true, false, not, ◌&&◌, ◌||◌, Option, none,
  some, List, [], ◌∷◌, ◌++◌, map, List-cases, sym, ◌≡◌, refl, ap, ◌∙◌, eqb_ℤ, if◌then◌else◌, cstr,
  arith, Bool-cases, inl, inr, length,
}
use linux_driver.Sys2.Console.{process, task_count}
use linux_driver.Sys2.Task.{
  Task, TaskApi, nice_ok, renice_all, set_all_task_nice, is_users, renice_user, renice_user_checked,
  set_user_nice_by_uid, list_tasks, showtasklist,
}

list_tasks-count :
    (n : ℕ) (ts : List Task)
    → list_tasks n ts ≡ map (λ t. process t.comm t.pid) ts ++ (task_count (n + length ts) ∷ [])
unfolding list_tasks
list_tasks-count n [] = ap (λ k. task_count k ∷ []) (omega arith)
list_tasks-count n (t ∷ ts) =
    let e : n + 1 + length ts ≡ n + suc (length ts) = omega arith in
    ap (λ l. process t.comm t.pid ∷ l)
      (list_tasks-count (n + 1) ts
        ∙ ap (λ k. map (λ t. process t.comm t.pid) ts ++ (task_count k ∷ [])) e)

-- `showtask` prints every task, in order, and then how many they are.
pub showtasklist-count :
    (ts : List Task)
    → showtasklist ts ≡ map (λ t. process t.comm t.pid) ts ++ (task_count (length ts) ∷ [])
unfolding showtasklist
showtasklist-count ts =
    list_tasks-count 0 ts
    ∙ ap (λ k. map (λ t. process t.comm t.pid) ts ++ (task_count k ∷ [])) (omega arith)

-- -20, …, 19
abbrev pub is_nice : ℤ → Bool
is_nice (pos n) = ltb n 20
is_nice (negsuc n) = ltb n 20

nice_ok-is_nice : (n : ℤ) → nice_ok n ≡ is_nice n
nice_ok-is_nice (pos n) = ground arith
nice_ok-is_nice (negsuc n) = ground arith

abbrev pub is_zero : ℤ → Bool
is_zero (pos zero) = true
is_zero _ = false

eqb_ℤ-is_zero : (n : ℤ) → eqb_ℤ n (pos 0) ≡ is_zero n
eqb_ℤ-is_zero (pos zero) = refl
eqb_ℤ-is_zero (pos (suc n)) = ground arith
eqb_ℤ-is_zero (negsuc n) = ground arith

module _ (api : TaskApi) where
  -- The nice value that a parameter of `setnice` asks for, if it is one.
  abbrev pub requested : List ℤ → Option ℤ
  requested [] = none
  requested (n ∷ _) = if nice_ok n then some n else none

  -- A task that the request is about is changed, any other stays.
  abbrev pub reniced : (concerned : Task → Bool) → Option ℤ → Task → Task
  reniced c none t = t
  reniced c (some n) t = if c t then api.set_user_nice t n else t

  abbrev pub has_pid : Task → Bool
  has_pid t = not (eqb_ℤ t.pid (pos 0))

  map-none : (c : Task → Bool) (ts : List Task) → map (reniced c none) ts ≡ ts
  map-none c [] = refl
  map-none c (t ∷ ts) = ap (λ l. t ∷ l) (map-none c ts)

  renice_all-map :
      (n : ℤ) (ts : List Task) → (renice_all api n ts).tasks ≡ map (reniced has_pid (some n)) ts
  unfolding renice_all
  renice_all-map n [] = refl
  renice_all-map n (t ∷ ts) = ground (arith, renice_all-map n ts)

  -- `setnice` gives every task whose pid is not 0 the value asked for, if that lies between -20
  -- and 19, and leaves all tasks alone otherwise.
  pub set_all_task_nice-map :
      (param : List ℕ) (ts : List Task)
      → (set_all_task_nice api param ts).tasks
        ≡ map (reniced has_pid (requested (api.scan 1 (cstr param)))) ts
  unfolding set_all_task_nice
  set_all_task_nice-map param ts = elim (List-cases (api.scan 1 (cstr param))) [
    | inl e ↦ rw (e, set_all_task_nice) (sym (map-none has_pid ts))
    | inr (n, ns, e) ↦
        rw (e, set_all_task_nice)
          (elim (Bool-cases (nice_ok n)) [
            | inl good ↦ rw good (renice_all-map n ts)
            | inr bad ↦ rw bad (sym (map-none has_pid ts))
          ])
  ]

  -- Whether a task of the user is among the tasks.
  abbrev pub any_of : ℕ → List Task → Bool
  any_of kuid [] = false
  any_of kuid (t ∷ ts) = is_users api kuid t || any_of kuid ts

  renice_user-map :
      (kuid : ℕ) (uid n : ℤ) (flag : Bool) (ts : List Task)
      → let r = renice_user api kuid uid n flag ts in
        (r.0.tasks ≡ map (reniced (is_users api kuid) (some n)) ts)
        × (r.1 ≡ (flag || any_of kuid ts))
  unfolding renice_user
  renice_user-map kuid uid n flag [] = ground arith
  renice_user-map kuid uid n flag (t ∷ ts) =
      ground (arith, renice_user-map kuid uid n (flag || is_users api kuid t) ts)

  -- What `setniceuser` asks for: the user's number and the value, if both are valid.
  abbrev pub requested_user : List ℤ → Option (ℕ × ℤ)
  requested_user (uid ∷ n ∷ _) =
      if api.uid_valid (api.make_kuid uid) && nice_ok n then some (api.make_kuid uid, n) else none
  requested_user _ = none

  abbrev pub reniced_user : Option (ℕ × ℤ) → Task → Task
  reniced_user none t = t
  reniced_user (some (kuid, n)) t = reniced (is_users api kuid) (some n) t

  map-reniced_user-none : (ts : List Task) → map (reniced_user none) ts ≡ ts
  map-reniced_user-none [] = refl
  map-reniced_user-none (t ∷ ts) = ap (λ l. t ∷ l) (map-reniced_user-none ts)

  renice_user_checked-map :
      (uid n : ℤ) (more : List ℤ) (ts : List Task)
      → (renice_user_checked api uid n ts).tasks
        ≡ map (reniced_user (requested_user (uid ∷ n ∷ more))) ts
  unfolding renice_user_checked
  renice_user_checked-map uid n more ts =
      let kuid = api.make_kuid uid in
      elim (Bool-cases (api.uid_valid kuid)) [
        | inr e ↦ rw (e, renice_user_checked) (sym (map-reniced_user-none ts))
        | inl e ↦ elim (Bool-cases (nice_ok n)) [
          | inr f ↦ rw (e, f, renice_user_checked) (sym (map-reniced_user-none ts))
          | inl f ↦ elim (Bool-cases (renice_user api kuid uid n false ts).1) [
            | inl g ↦ rw (e, f, g, renice_user_checked) (renice_user-map kuid uid n false ts).0
            | inr g ↦ rw (e, f, g, renice_user_checked) (renice_user-map kuid uid n false ts).0
          ]
        ]
      ]

  -- `setniceuser` gives the value asked for to exactly the tasks of the user whose pid is not 0, if
  -- the user is valid and the value lies between -20 and 19, and leaves all tasks alone otherwise.
  pub set_user_nice_by_uid-map :
      (param : List ℕ) (ts : List Task)
      → (set_user_nice_by_uid api param ts).tasks
        ≡ map (reniced_user (requested_user (api.scan 2 (cstr param)))) ts
  unfolding set_user_nice_by_uid
  set_user_nice_by_uid-map param ts = elim (List-cases (api.scan 2 (cstr param))) [
    | inl e ↦ rw (e, set_user_nice_by_uid) (sym (map-reniced_user-none ts))
    | inr (uid, rest, e) ↦ elim (List-cases rest) [
      | inl f ↦ rw (e, f, set_user_nice_by_uid) (sym (map-reniced_user-none ts))
      | inr (n, more, f) ↦ rw (e, f, set_user_nice_by_uid) (renice_user_checked-map uid n more ts)
    ]
  ]

  abbrev pub asked : List ℤ → Option ℤ
  asked [] = none
  asked (n ∷ _) = if is_nice n then some n else none

  abbrev pub asked_user : List ℤ → Option (ℕ × ℤ)
  asked_user (uid ∷ n ∷ _) =
      if api.uid_valid (api.make_kuid uid) && is_nice n then some (api.make_kuid uid, n) else none
  asked_user _ = none

  requested-asked : (ns : List ℤ) → requested ns ≡ asked ns
  requested-asked [] = refl
  requested-asked (n ∷ ns) = ap (λ b. if b then some n else none) (nice_ok-is_nice n)

  requested_user-asked_user : (ns : List ℤ) → requested_user ns ≡ asked_user ns
  requested_user-asked_user [] = refl
  requested_user-asked_user (u ∷ []) = refl
  requested_user-asked_user (u ∷ n ∷ ns) =
      ap (λ b. if api.uid_valid (api.make_kuid u) && b then some (api.make_kuid u, n) else none)
        (nice_ok-is_nice n)

  -- A task after `setnice` asked for a value, and after `setniceuser` did so for a user.
  abbrev pub with_nice : Option ℤ → Task → Task
  with_nice none t = t
  with_nice (some n) t = if is_zero t.pid then t else api.set_user_nice t n

  abbrev pub with_user_nice : Option (ℕ × ℤ) → Task → Task
  with_user_nice none t = t
  with_user_nice (some (kuid, n)) t =
      if is_zero t.pid then t else if t.uid == kuid then api.set_user_nice t n else t

  reniced-with_nice : (o : Option ℤ) (t : Task) → reniced has_pid o t ≡ with_nice o t
  reniced-with_nice none t = refl
  reniced-with_nice (some n) t = ground (arith, eqb_ℤ-is_zero t.pid)

  reniced_user-with_user_nice :
      (o : Option (ℕ × ℤ)) (t : Task) → reniced_user o t ≡ with_user_nice o t
  reniced_user-with_user_nice none t = refl
  reniced_user-with_user_nice (some (kuid, n)) t = ground (arith, eqb_ℤ-is_zero t.pid)

  map-same : (f g : Task → Task) → ((t : Task) → f t ≡ g t) → (ts : List Task) → map f ts ≡ map g ts
  map-same f g h [] = refl
  map-same f g h (t ∷ ts) = ap (λ u. u ∷ map f ts) (h t) ∙ ap (λ us. g t ∷ us) (map-same f g h ts)

  -- `setnice` gives every task whose pid is not 0, that is also init, whose pid is 1, the value asked
  -- for, if that lies between -20 and 19, and leaves all tasks alone otherwise; `setniceuser` gives it
  -- to exactly those of them whose uid is that of the user asked for, if the user is valid besides.
  pub nice_commands-map :
      (param : List ℕ) (ts : List Task)
      → ((set_all_task_nice api param ts).tasks
          ≡ map (with_nice (asked (api.scan 1 (cstr param)))) ts)
        × ((set_user_nice_by_uid api param ts).tasks
            ≡ map (with_user_nice (asked_user (api.scan 2 (cstr param)))) ts)
  nice_commands-map param ts = (
    set_all_task_nice-map param ts
        ∙ ap (λ o. map (reniced has_pid o) ts) (requested-asked (api.scan 1 (cstr param)))
        ∙ map-same _ _ (reniced-with_nice (asked (api.scan 1 (cstr param)))) ts,
    set_user_nice_by_uid-map param ts
        ∙ ap (λ o. map (reniced_user o) ts) (requested_user-asked_user (api.scan 2 (cstr param)))
        ∙ map-same _ _ (reniced_user-with_user_nice (asked_user (api.scan 2 (cstr param)))) ts,
  )
