-- ===== src/Sys2/Console.antt =====
-- The lines that sys2/ prints, one constructor for each format with the values that it prints.
use linux_driver.Base.{ℕ, ℤ, List}

pub data Line : Type 0 where
  -- showtask.c
  process : (comm : List ℕ) (pid : ℤ) → Line
  process_info : (comm : List ℕ) (pid tgid prio static_prio normal_prio : ℤ) → Line
  task_count : ℕ → Line
  set_nice_of : (comm : List ℕ) (pid nice : ℤ) → Line
  set_nice_of_user : (comm : List ℕ) (pid uid nice : ℤ) → Line
  invalid_nice : Line
  invalid_nice_value : ℤ → Line
  invalid_uid : ℤ → Line
  no_process_with_uid : ℤ → Line
  invalid_format : Line
  thread_header : Line
  thread_ruler : Line
  thread_info : (pid tid : ℤ) (comm : List ℕ) (prio nice : ℤ) (policy : List ℕ) → Line
  setting_priority : (param : List ℕ) → Line
  thread_not_found : ℤ → Line
  invalid_priority : ℤ → Line
  priority_set : (tid priority : ℤ) → Line
  -- parse.c
  no_memory : Line
  parameter : ℕ → List ℕ → Line
  -- mypacket.c
  showing : (name : List ℕ) → Line
  not_found : (name : List ℕ) → Line
  interface_info : (name : List ℕ) (mtu : ℤ) (stats : List ℕ) → Line
  setting_mtu : (name : List ℕ) (mtu : ℤ) → Line
  invalid_mtu : ℤ → Line
  mtu_set : (name : List ℕ) (mtu : ℤ) → Line
  clearing : (name : List ℕ) → Line
  cleared : (name : List ℕ) → Line
  no_main_table : Line
  route_title : Line
  route_header : Line
  route : (destination gateway : ℕ) (device : List ℕ) → Line
  -- process.c
  fd_title : Line
  fd_header : Line
  fd_info : (pid : ℤ) (fd : ℕ) (kind : List ℕ) (first second : ℤ) → Line
  fd_count : (pid : ℤ) → ℕ → Line
  fd_total : ℕ → Line
  changing_size : (pid fd rcv snd : ℤ) → Line
  size_changed : (pid fd rcv snd : ℤ) → Line
  socket_not_found : (pid fd : ℤ) → Line
  -- sys2.c
  received : (text : List ℕ) → Line
  unknown_command : (text : List ℕ) → Line
