-- ===== src/Framework/World.antt =====
-- The objects of python/drbdtest.py as a store: hosts, nodes and resources are referred to by their
-- index, so that two resources share a host as they do in the program. What the coordinator does is
-- kept as a list of actions; what the hosts answer is a parameter.
use drbd9_tests.Prelude.{
  ℕ, Bool, true, false, ◌||◌, Option, none, some, List, [], ◌∷◌, ◌++◌, String, ◌==◌, nat_eq,
  string_eq, ltb, get_elem?, set, if◌then◌else◌,
}
use drbd9_tests.Prelude.Dict.{Dict}
use drbd9_tests.OrderedSet
use drbd9_tests.OrderedSet.{OrderedSet}
use drbd9_tests.Results.{ok, err, called_process}
use drbd9_tests.Exec.{Exec, pure, ◌>>=◌}

-- The storage pools and volumes of python/disktools.py.
pub data Pool : Type 0 where
  lvm_pool zfs_pool : Bool → Option ℕ → Pool
  raw_pool : Pool
  spaces_pool : Bool → Pool

pub data DiskVolume : Type 0 where
  -- name, path, size
  lvm_volume : String → String → String → DiskVolume
  -- backing device, path, guid, start, partition number
  raw_volume : String → String → String → String → String → DiskVolume
  -- dataset name
  zfs_volume : String → DiskVolume
  -- name, path
  spaces_volume : String → String → DiskVolume
  -- device name, sectors, delay, and the volume below
  delay_volume : String → String → ℕ → DiskVolume → DiskVolume
  -- device name, sectors, logical block size, and the volume below
  block_size_volume : String → String → ℕ → DiskVolume → DiskVolume

pub record Host : Type 0 where
  pub name : String
  pub hostname : String
  pub os_id : String
  pub os_version_id : String
  pub is_linux : Bool
  pub addr : String
  pub addrs : List String
  pub netns : Option String
  pub drbd_config_dir : String
  pub volume_group : String
  pub storage_backend : String
  pub backing_device : String
  pub drbd_version : String
  pub drbd_git_hash : String
  pub drbd_version_tuple : ℕ × ℕ × ℕ
  pub has_other_version : Bool
  -- The address and the prefix of each further network device.
  pub netdevs : Dict String (String × String)
  pub dmesg_process : Bool
  pub fio_count : ℕ
  pub port : ℕ
  pub minors : ℕ
  pub storage_pool : Option Pool

pub record Volume : Type 0 where
  pub volume : ℕ
  pub minor : ℕ
  pub disk_lv : Option String
  pub meta_lv : Option String
  pub disk_volume : Option DiskVolume
  pub meta_volume : Option DiskVolume
  pub tiebreaker : Option Bool
  pub disk_is_online : Bool

pub record Node : Type 0 where
  pub host : ℕ
  pub resource : ℕ
  pub name : String
  pub port : ℕ
  pub id : ℕ
  pub disks : List Volume
  pub config_changed : Bool
  pub fencing_mode : String
  pub connections : OrderedSet (ℕ × ℕ)

pub record Resource : Type 0 where
  pub name : String
  pub net_options : String
  pub disk_options : String
  pub resource_options : String
  pub handlers : String
  pub nodes : OrderedSet ℕ
  pub num_volumes : ℕ
  pub transport : Option String
  pub tls : String
  pub forbidden_patterns : OrderedSet String

-- The globals that `setup` sets from the command line.
pub record Options : Type 0 where
  pub job : String
  pub proxy_enable : Bool
  pub lz4_enable : Bool
  pub zstd_enable : ℕ
  pub memlimit : Option ℕ

-- A command for a host, in a network namespace if there is one, with its standard input.
pub record Command : Type 0 where
  pub host : ℕ
  pub netns : Option String
  pub argv : List String
  pub stdin : String

-- Filters of `logscan`, by the names of the nodes.
abbrev pub Filters : Type 0
Filters = Dict String (List (List String))

pub record Scan : Type 0 where
  pub yes : List String
  pub filters : Filters
  pub always_no : List String

pub data Action : Type 0 where
  ran : Command → Action
  scanned : Scan → Action
  -- `time.sleep`, in milliseconds
  slept : ℕ → Action

pub record World : Type 0 where
  pub options : Options
  pub hosts : List Host
  pub nodes : List Node
  pub resources : List Resource
  pub done : List Action

-- What the hosts and the third-party log scanner answer, from all that was done before: the exit
-- status and the stripped standard output of a command, and whether a scan found its events.
pub record Remote : Type 0 where
  pub answer : List Action → Command → ℕ × String
  pub finds : List Action → Scan → Bool

abbrev pub no_host : Host
no_host = record {
  name = "";
  hostname = "";
  os_id = "";
  os_version_id = "";
  is_linux = true;
  addr = "";
  addrs = [];
  netns = none;
  drbd_config_dir = "";
  volume_group = "";
  storage_backend = "";
  backing_device = "";
  drbd_version = "";
  drbd_git_hash = "";
  drbd_version_tuple = (0, 0, 0);
  has_other_version = false;
  netdevs = [];
  dmesg_process = false;
  fio_count = 0;
  port = 0;
  minors = 0;
  storage_pool = none;
}

abbrev pub no_node : Node
no_node = record {
  host = 0;
  resource = 0;
  name = "";
  port = 0;
  id = 0;
  disks = [];
  config_changed = false;
  fencing_mode = "";
  connections = OrderedSet.empty;
}

abbrev pub no_resource : Resource
no_resource = record {
  name = "";
  net_options = "";
  disk_options = "";
  resource_options = "";
  handlers = "";
  nodes = OrderedSet.empty;
  num_volumes = 0;
  transport = none;
  tls = "no";
  forbidden_patterns = OrderedSet.empty;
}

abbrev pub or_default {ℓ} : {A : Type ℓ} → A → Option A → A
or_default d none = d
or_default d (some a) = a

-- Reading and changing an object of the store. The references that the code holds are all valid.
abbrev pub host_at : ℕ → World → Host
host_at h w = or_default no_host (get_elem? w.hosts h)

abbrev pub node_at : ℕ → World → Node
node_at n w = or_default no_node (get_elem? w.nodes n)

abbrev pub resource_at : ℕ → World → Resource
resource_at r w = or_default no_resource (get_elem? w.resources r)

abbrev pub host_of : ℕ → World → Host
host_of n w = host_at (node_at n w).host w

abbrev pub resource_of : ℕ → World → Resource
resource_of n w = resource_at (node_at n w).resource w

abbrev pub set_host : ℕ → Host → World → World
set_host h x w = record w { hosts = set w.hosts h x }

abbrev pub set_node : ℕ → Node → World → World
set_node n x w = record w { nodes = set w.nodes n x }

abbrev pub set_resource : ℕ → Resource → World → World
set_resource r x w = record w { resources = set w.resources r x }

-- `drbd_version_tuple >= (a, b, c)`
abbrev pub version_ge : ℕ × ℕ × ℕ → ℕ × ℕ × ℕ → Bool
version_ge (a, b, c) (x, y, z) =
    if ltb x a
    then true
    else if ltb a x
    then false
    else if ltb y b
    then true
    else if ltb b y
    then false
    else if ltb c z
    then false
    else true

abbrev pub is_drbd9 : Host → Bool
is_drbd9 h = version_ge h.drbd_version_tuple (9, 0, 0)

module _ (remote : Remote) where
  -- `Host.run`; with `catch`, a failure is only printed.
  unfoldable pub send : Bool → Command → Exec World String
  send catch c w =
      let (status, out) = remote.answer w.done c in
      let t = record w { done = w.done ++ ran c ∷ [] } in
      if status == 0 || catch then (ok out, t) else (err (called_process status), t)

  unfoldable pub host_run : ℕ → List String → Exec World String
  unfolding send
  host_run h argv w =
      send false (record { host = h; netns = (host_at h w).netns; argv = argv; stdin = "" }) w

  -- With a standard input, or without the network namespace of the host.
  unfoldable pub host_feed : ℕ → List String → String → Exec World (Unit {0})
  unfolding send
  host_feed h argv stdin w =
      (do
        _ ←
            send false
              (record { host = h; netns = (host_at h w).netns; argv = argv; stdin = stdin })
        pure tt)
        w

  unfoldable pub host_outside : ℕ → List String → Exec World (Unit {0})
  unfolding send
  host_outside h argv = do
    _ ← send false (record { host = h; netns = none; argv = argv; stdin = "" })
    pure tt

  -- `catch=True`
  unfoldable pub host_try : ℕ → List String → Exec World String
  unfolding send
  host_try h argv w =
      send true (record { host = h; netns = (host_at h w).netns; argv = argv; stdin = "" }) w

  unfoldable pub host_do : ℕ → List String → Exec World (Unit {0})
  unfolding host_run
  host_do h argv = do _ ← host_run h argv; pure tt
