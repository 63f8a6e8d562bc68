-- ===== src/Tests/Sys2.antt =====
-- The commands of sys2/ at concrete inputs.
use linux_driver.Base.{
  ℕ, ◌≡◌, refl, ℤ, pos, negsuc, true, false, none, some, List, [], ◌∷◌, ◌++◌, map, arith, length,
  replicate, codes, cstr, take, drop, ◌<◌, ◌==◌, if◌then◌else◌,
}
use linux_driver.Kernel.{account, kmalloc, held_kind, memory}
use linux_driver.Sys2.Console.{received, fd_title, fd_header, fd_total}
use linux_driver.Sys2.Parse.{parse_command}
use linux_driver.Sys2.Parse.Words.{words, join, numbered, parse_command-words}
use linux_driver.Sys2.Task
use linux_driver.Sys2.Task.{Task, TaskApi}
use linux_driver.Sys2.Task.Nice.{with_nice, asked, with_user_nice, asked_user, nice_commands-map}
use linux_driver.Sys2.Interface
use linux_driver.Sys2.Interface.{NetApi, NetDevice, Devices}
use linux_driver.Sys2.Interface.Trim.{trimmed, trim-copy_name}
use linux_driver.Sys2.Descriptor
use linux_driver.Sys2.Descriptor.ReadSide.{LeavesAll, setsocketsize_in-Leaves}
use linux_driver.Sys2.Descriptor.Listing.{body, total_open, showprocessfd_in-body}
use linux_driver.Sys2.Command.{
  set_all_task_nice, command_name, Api, World, logged, run_handler, my_data_store,
}
use linux_driver.Sys2.Command.Dispatch.{my_data_store-command}
use linux_driver.Sys2.Load
use linux_driver.Sys2.Load.{mymodule_init, mymodule_exit}

abbrev init_task : Task
init_task = record {
  comm = codes "init";
  pid = pos 1;
  tgid = pos 1;
  uid = 0;
  prio = pos 120;
  static_prio = pos 120;
  normal_prio = pos 120;
  nice = pos 0;
  policy = pos 0;
}

abbrev shell : Task
shell = record init_task { comm = codes "sh"; pid = pos 300; tgid = pos 300; uid = 1000 }

abbrev tasks : List Task
tasks = init_task ∷ shell ∷ []

-- A kernel for which every parameter holds the numbers 1000, 5, 7 and 8.
abbrev scanned : ℕ → List ℤ
scanned n = if n == 1 then pos 5 ∷ [] else pos 1000 ∷ pos 5 ∷ []

abbrev task_api : TaskApi
task_api = record {
  scan = λ n text. scanned n;
  set_user_nice = λ t n. record t { nice = n };
  make_kuid = λ uid. elim uid [ pos n ↦ n | negsuc _ ↦ 0xffff_ffff ];
  uid_valid = λ uid. if uid == 0xffff_ffff then false else true;
}

nice_commands-map_example :
    ((Task.set_all_task_nice task_api (codes "5") tasks).tasks
      ≡ map (with_nice task_api (asked task_api (task_api.scan 1 (cstr (codes "5"))))) tasks)
    × ((Task.set_user_nice_by_uid task_api (codes "5") tasks).tasks
        ≡ map
            (with_user_nice task_api (asked_user task_api (task_api.scan 2 (cstr (codes "5")))))
            tasks)
nice_commands-map_example = nice_commands-map task_api (codes "5") tasks

-- `setnice` reaches the task of pid 1 as well.
init_reniced :
    map (λ t. t.nice) (Task.set_all_task_nice task_api (codes "5") tasks).tasks ≡ pos 5 ∷ pos 5 ∷ []
unfolding Task.set_all_task_nice
init_reniced = refl

parse_command-words_example :
    let log' = kmalloc 6 (some 64) ∷ [] in
    (parse_command 7 (codes "a b c") (some 64) []
      ≡ some (log', numbered 0 (words (codes "a b c")) []))
    × (join (words (codes "a b c")) ≡ codes "a b c")
    × (account log' ≡ some (held_kind memory 64 ∷ []))
parse_command-words_example = parse_command-words (codes "a b c") 64 [] refl

abbrev device : NetDevice
device = record { name = codes "eth0"; mtu = pos 1500; stats = 3 ∷ 4 ∷ [] }

abbrev devices : Devices
devices _ = device

abbrev net_api : NetApi
net_api = record {
  isspace = λ c. if c == 32 then true else c == 10;
  scan = λ text. Interface.word_int (codes "eth0") (pos 100000);
  lookup = λ name. some 40;
  get_stats = λ d. d.stats;
  stats_fit = true;
}

name_trimmed :
    cstr (Interface.trim_trailing_whitespace net_api (Interface.copy_name (codes "eth0 \n")))
    ≡ codes "eth0"
unfolding Interface.trim_trailing_whitespace Interface.copy_name
name_trimmed = refl

trim-copy_name_example :
    let b = codes "eth0\n" in
    let param = codes "wlan0 \n" in
    let name = Interface.trim_trailing_whitespace net_api (Interface.copy_name param) in
    (cstr (Interface.trim_trailing_whitespace net_api b) ≡ trimmed net_api.isspace (cstr b))
    × (length (Interface.trim_trailing_whitespace net_api b) ≡ length b)
    × (cstr name ≡ trimmed net_api.isspace (take 15 (cstr param)))
    × (length name ≡ 16)
    × (length (cstr name) < 16)
trim-copy_name_example = trim-copy_name net_api (codes "eth0\n") (codes "wlan0 \n")

abbrev socket_file : Descriptor.File
socket_file = record {
  mode = Descriptor.Mode.sock;
  i_size = 0;
  private_data = Descriptor.sock_at 8;
}

abbrev socks : Descriptor.Socks
socks _ = record { sk_userlocks = 0; sk_rcvbuf = pos 4096; sk_sndbuf = pos 4096 }

abbrev open_files : List Descriptor.Task
open_files =
    record { pid = pos 1; files = none }
    ∷ record { pid = pos 300; files = some (none ∷ some socket_file ∷ []) }
    ∷ []

abbrev size_request : List ℤ
size_request = pos 300 ∷ pos 1 ∷ pos 7 ∷ pos 8 ∷ []

setsocketsize_in-Leaves_example :
    LeavesAll size_request [] socks open_files
      (Descriptor.setsocketsize_in size_request socks open_files [])
setsocketsize_in-Leaves_example = setsocketsize_in-Leaves size_request socks open_files [] refl

socket_resized : (Descriptor.setsocketsize_in size_request socks open_files []).ret ≡ pos 0
unfolding Descriptor.setsocketsize_in
socket_resized = refl

showprocessfd_in-body_example :
    let r = Descriptor.showprocessfd_in socks open_files [] in
    (r.0 ≡ pos 0)
    × (r.1
        ≡ fd_title ∷ fd_header ∷ (body socks open_files ++ (fd_total (total_open open_files) ∷ [])))
    × (account r.2 ≡ some [])
showprocessfd_in-body_example = showprocessfd_in-body socks open_files [] refl

abbrev api : Api
api = record { tasks = task_api; net = net_api; pid_of = λ pid. some 77; kstrdup = some 64 }

abbrev world : World
world = record {
  tasks = tasks;
  processes = [];
  devs = devices;
  open_files = open_files;
  socks = socks;
  log = [];
}

-- The buffer before: an earlier command, `setniceuser 1000 5`.
abbrev buffer : List ℕ
buffer = codes "setniceuser 1000 5" ++ replicate 238 0

my_data_store-command_example :
    let behind = drop 10 buffer in
    let r = my_data_store api buffer (codes "setnice 5") 9 world in
    (r.ret ≡ 9)
    × (r.effect
        ≡ logged
            (received (cstr r.my_data))
            (run_handler api set_all_task_nice (codes "5" ++ (0 ∷ behind)) world))
    × (cstr (codes "5" ++ (0 ∷ behind)) ≡ codes "5")
unfolding command_name
my_data_store-command_example =
    my_data_store-command api buffer (codes "setnice 5") 9 world set_all_task_nice (codes "5") refl
      (omega arith) (omega arith)

abbrev load_answers : Load.Answers
load_answers = record { kobj = some 5; created = pos 0; hooked = negsuc 11 }
