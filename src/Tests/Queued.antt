-- ===== src/Tests/Queued.antt =====
-- abort_exclusive_wait/ in a kernel whose wait queues do what is documented.
use linux_driver.Base.{refl, pos, false, some, [], ◌∷◌, ◌++◌, inl, if◌then◌else◌, arith}
use linux_driver.Kernel.{address}
use linux_driver.WaitQueue.Queued.{Thread, Api}
use linux_driver.WaitQueue.Queued.Rules.{IsKernel}
use linux_driver.WaitQueue.Queued.Ended.{Fate}

abbrev some_thread : Thread
some_thread = record { pid = pos 71; state = pos 2 }

-- Three threads at one address, which are never freed.
abbrev kernel : Api
kernel = record {
  pid = pos 70;
  tgid = pos 70;
  state = pos 0;
  module_refcount = 1;
  created = λ name. address 4096;
  thread_at = λ a w. some some_thread;
  init_entry = λ p. record { private = p; unlinked = false };
  add_wait_queue = λ e q. e ∷ q;
  prepare_to_wait = λ e s w.
      if e.unlinked then record { queue = e ∷ w.queue; state = s } else record w { state = s };
  prepare_to_wait_exclusive = λ e s w.
      if e.unlinked
      then record { queue = w.queue ++ (e ∷ []); state = s }
      else record w { state = s };
}

kernel-IsKernel : IsKernel kernel
kernel-IsKernel = record {
  init = λ p. refl;
  added = λ e q. refl;
  prepared = λ e s w h. ground arith;
  prepared_exclusive = λ e s w h. ground arith;
}

kernel-Lasts : Fate kernel 4096 4096 4096
kernel-Lasts =
    inl ((λ v. (some_thread, refl)), (λ v. (some_thread, refl)), (λ v. (some_thread, refl)))
