-- ===== src/Sys2/Command/Dispatch.antt =====
-- sys2/sys2.c: which handler a written command reaches, and with which parameter.
use linux_driver.Sys2.Console.{received}
use linux_driver.Sys2.Command.{logged, run_handler, call_handler, ends_inside}
use linux_driver.Base.{take_all, append_assoc, length-append, true}
use linux_driver.Base.{
  ℕ, ◌+◌, ◌≤◌, ◌≡◌, refl, ap, ◌∙◌, some, List, ◌∷◌, ◌++◌, length, drop, take, cstr, cstr-append,
  codes, IsText, arith,
}
use linux_driver.Kernel.{snprintf_s, cstr-snprintf_s, length-snprintf_s}
use linux_driver.Sys2.Command.{
  Handler, showtasklist, print_task_info, parse, set_user_nice_by_uid, set_all_task_nice,
  showkernelsymbol, showallthread, set_thread_priority, showinterface, setmtu, clearinterface,
  showprocessfd, setsocketsize, command_name, command_handlers, find_handler, my_data_show,
  my_data_store, World, Api,
}

-- Data that begin with the name of a command and a byte that is neither NUL nor a letter of a
-- longer name, here a space, are for that command, and the parameter begins behind the space.
find_handler-command :
    (h : Handler) (rest : List ℕ)
    → find_handler command_handlers (command_name h ++ (32 ∷ rest)) ≡ some (h, rest)
unfolding find_handler command_handlers
find_handler-command showtasklist rest = refl
find_handler-command print_task_info rest = refl
find_handler-command parse rest = refl
find_handler-command set_user_nice_by_uid rest = refl
find_handler-command set_all_task_nice rest = refl
find_handler-command showkernelsymbol rest = refl
find_handler-command showallthread rest = refl
find_handler-command set_thread_priority rest = refl
find_handler-command showinterface rest = refl
find_handler-command setmtu rest = refl
find_handler-command clearinterface rest = refl
find_handler-command showprocessfd rest = refl
find_handler-command setsocketsize rest = refl

-- The name alone: what follows in the buffer is a NUL, and the parameter begins behind it.
find_handler-name :
    (h : Handler) (rest : List ℕ)
    → find_handler command_handlers (command_name h ++ (0 ∷ rest)) ≡ some (h, rest)
unfolding find_handler command_handlers
find_handler-name showtasklist rest = refl
find_handler-name print_task_info rest = refl
find_handler-name parse rest = refl
find_handler-name set_user_nice_by_uid rest = refl
find_handler-name set_all_task_nice rest = refl
find_handler-name showkernelsymbol rest = refl
find_handler-name showallthread rest = refl
find_handler-name set_thread_priority rest = refl
find_handler-name showinterface rest = refl
find_handler-name setmtu rest = refl
find_handler-name clearinterface rest = refl
find_handler-name showprocessfd rest = refl
find_handler-name setsocketsize rest = refl

command_name-short : (h : Handler) → length (command_name h) ≤ 255
unfolding command_name
command_name-short showtasklist = omega arith
command_name-short h = omega arith

snprintf_s-fits :
    (my_data buf text : List ℕ)
    → cstr buf ≡ text
    → length text ≤ 255
    → snprintf_s my_data 256 buf ≡ text ++ (0 ∷ drop (length text + 1) my_data)
snprintf_s-fits my_data buf text e h =
    ap (λ t. t ++ (0 ∷ drop (length t + 1) my_data)) (ap (take 255) e ∙ take_all 255 text h)

pub ends_inside-text : (text rest : List ℕ) → IsText text → ends_inside (text ++ (0 ∷ rest)) ≡ true
ends_inside-text text rest t =
    ground (arith, cstr-append text rest t, length-append text (0 ∷ rest))

module _ (api : Api) (my_data buf : List ℕ) (count : ℕ) (w : World) where
  call_handler-ends_inside :
      (h : Handler) (param : List ℕ)
      → ends_inside param ≡ true
      → call_handler api h param w ≡ run_handler api h param w
  unfolding call_handler
  call_handler-ends_inside h param e = ground arith

  -- A write of a command's name, a space and a text, of at most 255 bytes together, runs exactly the
  -- handler of that command, and what the handler reads as its parameter is exactly the text. In
  -- particular `setniceuser` is not taken for `setnice`. The write returns its count.
  pub my_data_store-command :
      (h : Handler) (text : List ℕ)
      → cstr buf ≡ command_name h ++ (32 ∷ text)
      → length (command_name h ++ (32 ∷ text)) ≤ 255
      → IsText text
      → let behind = drop (length (command_name h ++ (32 ∷ text)) + 1) my_data in
        let r = my_data_store api my_data buf count w in
        (r.ret ≡ count)
        × (r.effect
            ≡ logged (received (cstr r.my_data)) (run_handler api h (text ++ (0 ∷ behind)) w))
        × (cstr (text ++ (0 ∷ behind)) ≡ text)
  unfolding my_data_store
  my_data_store-command h text e l t = (refl, whole, cstr-append text _ t)
    where
      found :
          find_handler command_handlers (snprintf_s my_data 256 buf)
          ≡ some (h, text ++ (0 ∷ drop (length (command_name h ++ (32 ∷ text)) + 1) my_data))
      found =
          ap (find_handler command_handlers)
            (snprintf_s-fits my_data buf _ e l ∙ append_assoc (command_name h) (32 ∷ text) _)
          ∙ find_handler-command h _

      whole :
          (my_data_store api my_data buf count w).effect
          ≡ logged (received (cstr (my_data_store api my_data buf count w).my_data)) (
              run_handler api h
                (text ++ (0 ∷ drop (length (command_name h ++ (32 ∷ text)) + 1) my_data))
                w)
      whole =
          rw (found, my_data_store)
            (ap (logged _) (call_handler-ends_inside h _ (ends_inside-text text _ t)))

  -- A write of a command's name alone runs the handler of that command on the bytes that stood in
  -- the buffer behind the name before, one byte further on: what an earlier write left there.
  pub my_data_store-name :
      (h : Handler)
      → cstr buf ≡ command_name h
      → let r = my_data_store api my_data buf count w in
        r.effect
        ≡ logged
            (received (cstr r.my_data))
            (call_handler api h (drop (length (command_name h) + 1) my_data) w)
  unfolding my_data_store
  my_data_store-name h e = rw (found, my_data_store) refl
    where
      found :
          find_handler command_handlers (snprintf_s my_data 256 buf)
          ≡ some (h, drop (length (command_name h) + 1) my_data)
      found =
          ap (find_handler command_handlers)
            (snprintf_s-fits my_data buf _ e (command_name-short h))
          ∙ find_handler-name h _

  -- A buffer of 256 bytes keeps them, and the file then shows the string that was written, cut off
  -- after 255 bytes, and a line end, whatever the command did.
  pub my_data_show-my_data_store :
      length my_data ≡ 256
      → let r = my_data_store api my_data buf count w in
        (length r.my_data ≡ 256) × (my_data_show r.my_data ≡ take 255 (cstr buf) ++ codes "\n")
  unfolding my_data_store my_data_show
  my_data_show-my_data_store e = (
    length-snprintf_s my_data buf 256 (omega arith) e,
    ap (λ t. t ++ codes "\n") (cstr-snprintf_s my_data buf 256),
  )
