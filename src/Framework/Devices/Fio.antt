-- ===== src/Framework/Devices/Fio.antt =====
-- fio on the volumes of python/drbdtest.py: `Host.fio_file`, and `write` and `fio` of volumes and nodes;
-- device mapper commands for volumes, and the commands of a volume that follow no event. The copy of
-- the output of fio in the log directory is not modelled.
use drbd9_tests.Prelude.{
  ℕ, suc, Bool, Option, List, [], ◌∷◌, ◌++◌, map, String, ◌<>◌, string_eq, set, if◌then◌else◌,
}
use drbd9_tests.Prelude.Text.{dec}
use drbd9_tests.Prelude.Match.{replace_char}
use drbd9_tests.Prelude.Dict.{Dict, insert}
use drbd9_tests.Results.{Result, attribute_error}
use drbd9_tests.Exec.{Exec, pure, gets, modify, lift, or_raise, for_each, ◌>>=◌, ◌>>◌}
use drbd9_tests.Framework.World.{
  World, Remote, node_at, host_of, resource_of, set_host, set_node, host_run,
}
use drbd9_tests.Framework.Json.{Json, member, element}
use drbd9_tests.Framework.Run.{node_do, drbdadm}
use drbd9_tests.Framework.Resources.{touch_config}
use drbd9_tests.Framework.Devices.{volume_at, positions, device, native_filename}

-- Parameters of fio; a number is its text.
abbrev pub FioArgs : Type 0
FioArgs = Dict String String

unfoldable pub fio_write_args : FioArgs
fio_write_args = ("verify", "md5") ∷ ("do_verify", "0") ∷ ("rw", "write") ∷ []

unfoldable pub fio_verify_args : FioArgs
fio_verify_args = ("verify", "md5") ∷ ("verify_only", "1") ∷ ("rw", "read") ∷ []

-- `{**args, **more}`
unfoldable pub override : FioArgs → FioArgs → FioArgs
unfolding insert
override args [] = args
override args ((key, value) ∷ more) = override (insert key value args) more

unfoldable pub fio_write_small_args : FioArgs
unfolding override fio_write_args
fio_write_small_args = override fio_write_args (("size", "4K") ∷ ("randrepeat", "0") ∷ [])

-- The command, with the file and the two sets of parameters.
unfoldable pub fio_command : Bool → String → FioArgs → FioArgs → List String
unfolding override replace_char
fio_command is_linux filename base_args more =
    let args =
      override (override (("filename", replace_char 58 "\\:" filename) ∷ []) base_args) more in
    "fio"
      ∷ "--output-format=json"
      ∷ "--max-jobs=16"
      ∷ "--name=test"
      ∷ map (λ arg. "--" <> (arg.0 <> ("=" <> arg.1))) args
    ++ (if is_linux then [] else "--thread" ∷ [])

unfoldable pub count_fio : ℕ → World → World
count_fio n w =
    let host = host_of n w in
    set_host (node_at n w).host (record host { fio_count = suc host.fio_count }) w

module _ (remote : Remote) (loads : String → Result Json) where
  -- `Host.fio_file`, for the host of a node
  unfoldable pub fio_file : ℕ → String → FioArgs → FioArgs → Exec World Json
  unfolding fio_command count_fio
  fio_file n filename base_args more = do
    native ← native_filename remote n filename
    h ← gets (λ w. (node_at n w).host)
    is_linux ← gets (λ w. (host_of n w).is_linux)
    result ← host_run remote h (fio_command is_linux native base_args more)
    fio_output ← lift (loads result)
    jobs ← lift (member "jobs" fio_output)
    job ← lift (element 0 jobs)
    read ← lift (member "read" job)
    _ ← lift (member "io_kbytes" read)
    write ← lift (member "write" job)
    _ ← lift (member "io_kbytes" write)
    _ ← lift (member "elapsed" job)
    modify (count_fio n)
    pure fio_output

  -- `Volume.fio`, whose result is that of `Node.fio_file`, which returns nothing, and `Volume.write`
  unfoldable pub volume_fio : ℕ → ℕ → FioArgs → FioArgs → Exec World (Unit {0})
  unfolding fio_file
  volume_fio n i base_args more = do
    dev ← device remote n i
    _ ← fio_file n dev base_args more
    pure tt

  unfoldable pub volume_write : ℕ → ℕ → FioArgs → Exec World (Unit {0})
  unfolding volume_fio fio_write_small_args
  volume_write n i more = volume_fio n i fio_write_small_args more

  -- `Volumes.fio` and `Volumes.write`
  unfoldable pub volumes_fio : List (ℕ × ℕ) → FioArgs → FioArgs → Exec World (Unit {0})
  unfolding volume_fio
  volumes_fio vs base_args more = for_each vs (λ v. volume_fio v.0 v.1 base_args more)

  unfoldable pub volumes_write : List (ℕ × ℕ) → FioArgs → Exec World (Unit {0})
  unfolding volume_write
  volumes_write vs more = for_each vs (λ v. volume_write v.0 v.1 more)

  -- `Node.fio` and `Node.write`
  unfoldable pub node_fio : ℕ → FioArgs → FioArgs → Exec World (Unit {0})
  unfolding volume_fio
  node_fio n base_args more w =
      for_each (positions 0 (node_at n w).disks) (λ i. volume_fio n i base_args more) w

  unfoldable pub node_write : ℕ → FioArgs → Exec World (Unit {0})
  unfolding node_fio fio_write_small_args
  node_write n more = node_fio n fio_write_small_args more

module _ (remote : Remote) where
  -- `Volume.dmsetup`; a volume without a disk has no name to replace in.
  unfoldable pub dmsetup : ℕ → ℕ → String → Exec World (Unit {0})
  unfolding replace_char
  dmsetup n i cmd = do
    group ← gets (λ w. (host_of n w).volume_group)
    name ← (λ w. or_raise attribute_error (volume_at n i w).disk_lv w)
    node_do remote n
        ("dmsetup" ∷ cmd ∷ (replace_char 45 "--" group <> ("-" <> replace_char 45 "--" name)) ∷ [])

  unfoldable pub suspend : ℕ → ℕ → Exec World (Unit {0})
  unfolding dmsetup
  suspend n i = dmsetup n i "suspend"

  unfoldable pub resume : ℕ → ℕ → Exec World (Unit {0})
  unfolding dmsetup
  resume n i = dmsetup n i "resume"

  -- `drbdadm` for one volume: `new_current_uuid` and `new_minor`
  unfoldable pub volume_drbdadm : String → ℕ → ℕ → Exec World (Unit {0})
  volume_drbdadm cmd n i = do
    name ← gets (λ w. (resource_of n w).name)
    number ← gets (λ w. (volume_at n i w).volume)
    drbdadm remote n (cmd ∷ (name <> ("/" <> dec number)) ∷ [])

  unfoldable pub new_current_uuid : ℕ → ℕ → Exec World (Unit {0})
  unfolding volume_drbdadm
  new_current_uuid n i = volume_drbdadm "new-current-uuid" n i

  unfoldable pub new_minor : ℕ → ℕ → Exec World (Unit {0})
  unfolding volume_drbdadm
  new_minor n i = volume_drbdadm "new-minor" n i

-- `suspend`, `resume`, `new_current_uuid` and `new_minor` of `Volumes`
unfoldable pub each_volume : (ℕ → ℕ → Exec World (Unit {0})) → List (ℕ × ℕ) → Exec World (Unit {0})
each_volume m vs = for_each vs (λ v. m v.0 v.1)

-- `Volume.tiebreaker = value`
unfoldable pub set_tiebreaker : ℕ → ℕ → Option Bool → World → World
set_tiebreaker n i value w =
    let node = node_at n w in
    let v = volume_at n i w in
    touch_config node.resource
      (set_node n (record node { disks = set node.disks i (record v { tiebreaker = value }) }) w)
