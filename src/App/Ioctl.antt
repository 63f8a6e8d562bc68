-- ===== src/App/Ioctl.antt =====
-- ioctl_device/my_device_test.c: sets the value of the device, gets it, and has it shown ten times.
pub mod Session
use linux_driver.Base.{ℕ, zero, suc, ℤ, pos, is_neg, List, [], ◌∷◌, ◌==◌, if◌then◌else◌}
use linux_driver.CharDev.Ioctl.{Commands, Cells, my_ioctl}

pub data Line : Type 0 where
  usage open_failed set_failed get_failed : Line
  retrieved : (value : ℤ) → Line

-- `fd`, and the bytes that the driver's two copies leave uncopied.
pub record Answers : Type 0 where
  pub fd : ℤ
  pub set_left : ℕ
  pub get_left : ℕ
  pub torn : ℤ

-- The exit code, the lines, and the driver's `value` with the program's.
pub record Outcome : Type 0 where
  pub ret : ℤ
  pub lines : List Line
  pub cells : Cells

module _ (c : Commands) where
  -- The loop with `n` rounds to go. A failure is reported as one of getting.
  unfoldable pub show_values : (n : ℕ) → Answers → List Line → Cells → Outcome
  unfolding my_ioctl
  show_values zero k lines s = record { ret = pos 0; lines = lines; cells = s }
  show_values (suc n) k lines s =
      let r = my_ioctl c c.show_value 0 k.torn s in
      let rest = show_values n k lines r.1 in
      if is_neg r.0 then record { ret = pos 1; lines = get_failed ∷ lines; cells = r.1 } else rest

  unfoldable pub get_value : Answers → Cells → Outcome
  unfolding my_ioctl
  get_value k s =
      let r = my_ioctl c c.get_value k.get_left k.torn s in
      if is_neg r.0
      then record { ret = pos 1; lines = get_failed ∷ []; cells = r.1 }
      else show_values 10 k (retrieved r.1.arg ∷ []) r.1

  unfoldable pub set_value : Answers → Cells → Outcome
  unfolding my_ioctl
  set_value k s =
      let r = my_ioctl c c.set_value k.set_left k.torn s in
      if is_neg r.0
      then record { ret = pos 1; lines = set_failed ∷ []; cells = r.1 }
      else get_value k r.1

  -- `number` is `atoi(argv[1])`; `s` holds the driver's value and the program's before it is set.
  unfoldable pub main : (argc : ℕ) (number : ℤ) → Answers → Cells → Outcome
  main argc number k s =
      if argc == 2
      then (if is_neg k.fd
          then record { ret = pos 1; lines = open_failed ∷ []; cells = s }
          else set_value k (record s { arg = number }))
      else record { ret = pos 1; lines = usage ∷ []; cells = s }
