-- ===== src/CharDev/Ioctl/Value.antt =====
-- ioctl_device/my_device.c: the value behind the ioctl commands.
use linux_driver.Base.{ℕ, ℤ, pos, ◌≡◌, arith, is_neg, true}
use linux_driver.CharDev.Ioctl.{Commands, Cells, my_ioctl}

module _ (c : Commands) where
  -- After a value was set from the caller's memory, getting it delivers that value again, whatever
  -- stands in the caller's memory by then, and showing it changes nothing; all return 0.
  pub my_ioctl-set_get :
      (torn other : ℤ) (s : Cells)
      → let set = my_ioctl c c.set_value 0 torn s in
        let get = my_ioctl c c.get_value 0 torn (record set.1 { arg = other }) in
        (set.0 ≡ pos 0)
        × (get.0 ≡ pos 0)
        × (get.1.arg ≡ s.arg)
        × (get.1.value ≡ s.arg)
        × (my_ioctl c c.show_value 0 torn set.1 ≡ (pos 0, set.1))
  unfolding my_ioctl
  my_ioctl-set_get torn other s = ground (arith, c.set-ne-get, c.set-ne-show, c.get-ne-show)

  -- A call that fails, for a copy that stopped short or a command that the device does not know,
  -- leaves the stored value as it was.
  pub my_ioctl_fails :
      (cmd left : ℕ) (torn : ℤ) (s : Cells)
      → is_neg (my_ioctl c cmd left torn s).0 ≡ true
      → (my_ioctl c cmd left torn s).1.value ≡ s.value
  unfolding my_ioctl
  my_ioctl_fails cmd left torn s h = ground arith
