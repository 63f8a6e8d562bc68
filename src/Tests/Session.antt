-- ===== src/Tests/Session.antt =====
-- sys2/ while it is loaded: `parse a b` is written, and then `setmtu` with a name that is too long.
use linux_driver.Base.{pos, ◌≡◌, refl, true, false, some, [], ◌∷◌, replicate, codes, arith, ◌==◌}
use linux_driver.Kernel.{Log, kmalloc, account, held_kind, memory}
use linux_driver.Sys2.Task.{Task}
use linux_driver.Sys2.Interface
use linux_driver.Sys2.Interface.{NetDevice, NetApi}
use linux_driver.Sys2.Parse.{parse_command}
use linux_driver.Sys2.Command.{Api, World, my_data_store}
use linux_driver.Sys2.Session.{State, SetsNice, Reach, write}
use linux_driver.Sys2.Session.Leftover.{left}
use linux_driver.Sys2.Session.Lifecycle.{Unloads, mymodule_exit-left}
use linux_driver.Sys2.Load
use linux_driver.Sys2.Load.{mymodule_init, mymodule_exit}
use linux_driver.Sys2.Session.Kept.{IsModule, Reach-IsModule}

abbrev shell : Task
shell = record {
  comm = codes "sh";
  pid = pos 300;
  tgid = pos 300;
  uid = 1000;
  prio = pos 120;
  static_prio = pos 120;
  normal_prio = pos 120;
  nice = pos 0;
  policy = pos 0;
}

abbrev device : NetDevice
device = record { name = codes "eth0"; mtu = pos 1500; stats = 3 ∷ [] }

-- A kernel in which every parameter of `setmtu` begins with seventeen bytes.
abbrev api : Api
api = record {
  tasks = record {
    scan = λ n text. pos 5 ∷ [];
    set_user_nice = λ t n. record t { nice = n };
    make_kuid = λ uid. 0;
    uid_valid = λ uid. true;
  };
  net = record {
    isspace = λ c. c == 32;
    scan = λ text. Interface.word_int (replicate 17 97) (pos 1400);
    lookup = λ name. some 40;
    get_stats = λ d. d.stats;
    stats_fit = true;
  };
  pid_of = λ pid. some 77;
  kstrdup = some 64;
}

abbrev world : Log → World
world log = record {
  tasks = shell ∷ [];
  processes = [];
  devs = λ a. device;
  open_files = [];
  socks = λ a. record { sk_userlocks = 0; sk_rcvbuf = pos 0; sk_sndbuf = pos 0 };
  log = log;
}

abbrev before : State
before = record { my_data = replicate 256 0; world = world [] }

before-IsModule : IsModule [] before
before-IsModule = record {
  sized = refl;
  ends = refl;
  world = record {
    nice = (omega arith, tt);
    nice_threads = tt;
    mtu = λ b. omega arith;
    held = ([], tt, refl);
  };
}

api-SetsNice : SetsNice api
api-SetsNice t n = refl

abbrev after : State
after = record {
  my_data = (my_data_store api before.my_data (codes "parse a b") 9 before.world).my_data;
  world = world (kmalloc 4 (some 64) ∷ []);
}

parsed : Reach before after
unfolding my_data_store parse_command Interface.setmtu_in
parsed = Reach.later Reach.start (write api (codes "parse a b") 9 api-SetsNice refl)

Reach-IsModule_example : IsModule [] after
Reach-IsModule_example = Reach-IsModule before-IsModule parsed

abbrev answers : Load.Answers
answers = record { kobj = some 5; created = pos 0; hooked = pos 0 }

unfoldable loaded : State
loaded = record { my_data = replicate 256 0; world = world (mymodule_init answers []).log }

unfoldable used : State
used = record {
  my_data = (my_data_store api loaded.my_data (codes "parse a b") 9 loaded.world).my_data;
  world = world (kmalloc 4 (some 64) ∷ (mymodule_init answers []).log);
}

loaded-used : Reach loaded used
unfolding loaded used my_data_store parse_command Interface.setmtu_in
loaded-used = Reach.later Reach.start (write api (codes "parse a b") 9 api-SetsNice refl)

loading : (mymodule_init answers []).ret ≡ pos 0
unfolding mymodule_init
loading = refl

same_log : loaded.world.log ≡ (mymodule_init answers []).log
unfolding loaded
same_log = refl

mymodule_exit-left_example :
    Unloads false
      (left loaded-used)
      (account (mymodule_exit (mymodule_init answers []).dev used.world.log))
mymodule_exit-left_example = mymodule_exit-left answers [] refl loading same_log loaded-used

-- What is left is the copy of `parse`.
left_lem : left loaded-used ≡ held_kind memory 64 ∷ []
unfolding left loaded-used loaded used my_data_store parse_command Interface.setmtu_in
left_lem = refl
