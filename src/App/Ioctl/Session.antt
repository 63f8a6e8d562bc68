-- ===== src/App/Ioctl/Session.antt =====
-- ioctl_device/: the program and the driver together.
use linux_driver.Base.{ℕ, zero, suc, ℤ, pos, is_neg, false, ◌≡◌, refl, List, [], ◌∷◌, arith}
use linux_driver.CharDev.Ioctl.{Commands, Cells}
use linux_driver.App.Ioctl.{Line, retrieved, Answers, show_values, get_value, set_value, main}

module _ (c : Commands) where
  show_values-ok :
      (n : ℕ) (k : Answers) (lines : List Line) (s : Cells)
      → show_values c n k lines s ≡ record { ret = pos 0; lines = lines; cells = s }
  unfolding show_values
  show_values-ok zero k lines s = refl
  show_values-ok (suc n) k lines s =
      ground (arith, c.set-ne-show, c.get-ne-show, show_values-ok n k lines s)

  get_value-ok :
      (k : Answers) (s : Cells)
      → k.get_left ≡ 0
      → get_value c k s ≡ record {
        ret = pos 0;
        lines = retrieved s.value ∷ [];
        cells = record { value = s.value; arg = s.value };
      }
  unfolding get_value
  get_value-ok k s e =
      let s' : Cells = record { value = s.value; arg = s.value } in
      ground (arith, c.set-ne-get, show_values-ok 10 k (retrieved s.value ∷ []) s')

  set_value-ok :
      (k : Answers) (s : Cells)
      → k.set_left ≡ 0
      → set_value c k s ≡ get_value c k (record { value = s.arg; arg = s.arg })
  unfolding set_value
  set_value-ok k s e = ground arith

  -- Whatever the device held, if it can be opened and the driver's copies succeed, the program ends
  -- with success, prints the number of its argument, and leaves that number in the device.
  pub main-retrieved :
      (number : ℤ) (k : Answers) (s : Cells)
      → is_neg k.fd ≡ false
      → k.set_left ≡ 0
      → k.get_left ≡ 0
      → main c 2 number k s ≡ record {
        ret = pos 0;
        lines = retrieved number ∷ [];
        cells = record { value = number; arg = number };
      }
  unfolding main
  main-retrieved number k s f e1 e2 = ground (
    arith,
    set_value-ok k (record s { arg = number }) e1,
    get_value-ok k (record { value = number; arg = number }) e2,
  )
