-- ===== src/Framework/Devices/Data.antt =====
-- The data of volumes: the checksums of python/datatools.py and the background load of
-- python/busywrite.py. The copies of the output of fio in the log directory are not modelled.
use Prim.Native.Char.{code}
use drbd9_tests.Prelude.{
  ℕ, zero, suc, Bool, true, false, not, ◌&&◌, ◌||◌, Option, none, some, List, [], ◌∷◌, String, ◌<>◌,
  ◌==◌, nat_eq, string_eq, get_elem?, any, is_some, if◌then◌else◌,
}
use drbd9_tests.Prelude.Text.{dec}
use drbd9_tests.Prelude.Match.{replace_char}
use drbd9_tests.Results.{Result, runtime_error, index_error}
use drbd9_tests.Exec.{
  Exec, pure, raise, gets, modify, raise_if, lift, or_raise, collect, ◌>>=◌, ◌>>◌,
}
use drbd9_tests.Framework.World.{World, Remote, version_ge, node_at, host_of, set_host, or_default}
use drbd9_tests.Framework.Config.{path_or}
use drbd9_tests.Framework.Run.{node_run, node_do}
use drbd9_tests.Framework.Peers.{secondary}
use drbd9_tests.Framework.Json.{Json, member, element}
use drbd9_tests.Framework.Devices.{device, native_filename, become_primary}

optional : String → Option ℕ → String
optional key none = ""
optional key (some zero) = ""
optional key (some (suc n)) = key <> dec (suc n)

-- `len(set(sums)) > 1`
unfoldable pub differ : List String → Bool
differ [] = false
differ (x ∷ xs) = any (λ y. not (x == y)) xs

module _ (remote : Remote) where
  unfoldable pub read_md5sum : ℕ → String → Option ℕ → Option ℕ → Exec World String
  unfolding optional
  read_md5sum n filename size_mb offset_mb = node_run remote n (
      "/bin/bash"
      ∷ "-c"
      ∷ ("set -o pipefail ; dd if="
          <> (filename
              <> (" bs=1M iflag=direct "
                  <> (optional "skip=" offset_mb
                      <> (" " <> (optional "count=" size_mb <> " | md5sum"))))))
      ∷ [])

  -- The checksum of the first volume of one node; a node before DRBD 9 is primary for the time of reading.
  unfoldable pub node_md5sum : Option ℕ → Bool → Option ℕ → ℕ → Exec World String
  unfolding read_md5sum
  node_md5sum size_mb backing_disk offset_mb n = do
    v ← (λ w. or_raise index_error (get_elem? (node_at n w).disks 0) w)
    filename ← if backing_disk then pure (path_or "None" v.disk_volume) else device remote n 0
    is_new ← gets (λ w. version_ge (host_of n w).drbd_version_tuple (9, 0, 0))
    if is_new || backing_disk then read_md5sum n filename size_mb offset_mb else do
      become_primary remote n false true
      sum ← read_md5sum n filename size_mb offset_mb
      secondary remote n true false
      pure sum

  unfoldable pub verify_data : List ℕ → Option ℕ → Bool → Option ℕ → Exec World (Unit {0})
  unfolding node_md5sum differ
  verify_data nodes size_mb backing_disk offset_mb = do
    raise_if (backing_disk && not (is_some size_mb)) runtime_error
    sums ← collect nodes (node_md5sum size_mb backing_disk offset_mb)
    raise_if (differ sums) runtime_error

-- `BusyWrite`: the first volume of a node is `volume = 0`.
pub record BusyWrite : Type 0 where
  pub node : ℕ
  pub volume : ℕ
  pub fio_pid : Option String
  pub fio_out_str : Option String
  pub output_filename : String
  pub stderr_filename : String

abbrev pub Writing : Type 0 → Type 0
Writing A = Exec (World × BusyWrite) A

abbrev pub on_world : {A : Type 0} → Exec World A → Writing A
on_world m s = let (r, w) = m s.0 in (r, (w, s.1))

-- `text[text.find('{'):]`; without a brace this is the last character.
unfoldable pub from_brace : String → String
from_brace String.[] = ""
from_brace (String.◌∷◌ c String.[]) = String.◌∷◌ c String.[]
from_brace (String.◌∷◌ c (String.◌∷◌ d s)) =
    let rest = from_brace (String.◌∷◌ d s) in
    if code c == 123 then String.◌∷◌ c (String.◌∷◌ d s) else rest

module _ (remote : Remote) where
  unfoldable pub start : String → String → Writing (Unit {0})
  unfolding replace_char
  start fio_arg_str fio_base_args = do
    n ← gets (λ s. s.1.node)
    i ← gets (λ s. s.1.volume)
    h ← gets (λ s. host_of n s.0)
    name ← gets (λ s. (node_at n s.0).name)
    base ← pure ("fio-" <> (name <> ("-" <> dec h.fio_count)))
    modify (λ s. (
      s.0,
      record (s.1) {
        output_filename = base <> "-async.json";
        stderr_filename = base <> "-async-stderr";
      },
    ))
    platform_args ←
        pure (if h.is_linux then "--ioengine=libaio " else "--ioengine=windowsaio --thread ")
    dev ← on_world (device remote n i)
    native ← on_world (native_filename remote n dev)
    pid ← on_world (
        node_run remote n (
          "setsid"
          ∷ "bash"
          ∷ "-c"
          ∷ ("fio --output-format=json --max-jobs=4 --name=test "
              <> (platform_args
                  <> ("--filename="
                      <> (replace_char 92 "\\\\" (replace_char 58 "\\:" native)
                          <> (" "
                              <> (fio_base_args
                                  <> (" "
                                      <> (fio_arg_str
                                          <> (" < /dev/null > /tmp/"
                                              <> (base
                                                  <> ("-async.json 2> /tmp/"
                                                      <> (base
                                                          <> "-async-stderr & echo $!"))))))))))))
          ∷ []))
    modify (λ s. (s.0, record (s.1) { fio_pid = some pid }))
    modify (λ s.
        let host = host_of n s.0 in
        (set_host (node_at n s.0).host (record host { fio_count = suc host.fio_count }) s.0, s.1))

  answer : String → Writing Bool
  answer text =
      if text == "true"
      then pure true
      else if text == "false"
      then pure false
      else raise runtime_error

  unfoldable pub is_running : Writing Bool
  unfolding answer
  is_running s = is_running_of s.1.fio_pid s
    where
      is_running_of : Option String → Writing Bool
      is_running_of none = pure false
      is_running_of (some pid) = do
        text ← on_world (
            node_run remote s.1.node (
              "bash"
              ∷ "-c"
              ∷ ("ps -p " <> (pid <> " > /dev/null && echo true || echo false"))
              ∷ []))
        answer text

  -- Waiting without a start waits for the process `None`.
  unfoldable pub wait : Writing (Unit {0})
  unfolding from_brace
  wait = do
    b ← gets (λ s. s.1)
    on_world (
        node_do remote b.node
          ("tail" ∷ ("--pid=" <> or_default "None" b.fio_pid) ∷ "-f" ∷ "/dev/null" ∷ []))
    modify (λ s. (s.0, record (s.1) { fio_pid = none }))
    out ← on_world (node_run remote b.node ("cat" ∷ ("/tmp/" <> b.output_filename) ∷ []))
    modify (λ s. (s.0, record (s.1) { fio_out_str = some (from_brace out) }))
    on_world (node_do remote b.node ("cat" ∷ ("/tmp/" <> b.stderr_filename) ∷ []))

  unfoldable pub kill_jobs : Writing (Unit {0})
  kill_jobs = do
    n ← gets (λ s. s.1.node)
    pid ← (λ s. or_raise runtime_error s.1.fio_pid s)
    on_world (node_do remote n ("bash" ∷ "-c" ∷ ("kill $(ps --ppid " <> (pid <> " -o pid=)")) ∷ []))

  unfoldable pub stop : Writing (Unit {0})
  unfolding wait
  stop = do
    n ← gets (λ s. s.1.node)
    pid ← (λ s. or_raise runtime_error s.1.fio_pid s)
    on_world (node_do remote n ("kill" ∷ pid ∷ []))
    wait

  -- `get_write_kib`, with the parser of the standard library
  unfoldable pub get_write_kib : (String → Result Json) → Writing Json
  get_write_kib loads = do
    out ← (λ s. or_raise runtime_error s.1.fio_out_str s)
    output ← lift (loads out)
    jobs ← lift (member "jobs" output)
    job ← lift (element 0 jobs)
    write ← lift (member "write" job)
    lift (member "io_kbytes" write)
