-- ===== src/Examples/Volumes.antt =====
-- Runs of python/datatools.py and python/busywrite.py.
use drbd9_tests.Prelude.{ℕ, ◌≡◌, refl, true, false, not, ◌&&◌, none, some, [], ◌∷◌, String, is_some}
use drbd9_tests.Results.{ok, err, runtime_error}
use drbd9_tests.Exec.{collect}
use drbd9_tests.Framework.World.{Host, Volume, World, Remote, no_host, no_node, send, host_run}
use drbd9_tests.Framework.Run.{update_config, node_run, node_do}
use drbd9_tests.Framework.Devices.{device}
use drbd9_tests.Framework.Devices.Data.{
  BusyWrite, node_md5sum, read_md5sum, differ, verify_data, is_running, wait, kill_jobs, stop,
}
use drbd9_tests.Framework.Devices.Checksums.{verify_data-alike}
use drbd9_tests.Framework.Devices.Load.{Ended, stop-stopped}

abbrev volume : Volume
volume = record {
  volume = 0;
  minor = 1;
  disk_lv = none;
  meta_lv = none;
  disk_volume = none;
  meta_volume = none;
  tiebreaker = none;
  disk_is_online = false;
}

abbrev host : Host
host = record no_host { name = "vm-1"; drbd_version_tuple = (9, 2, 12) }

abbrev cluster : World
cluster = record {
  options = record {
    job = "j";
    proxy_enable = false;
    lz4_enable = false;
    zstd_enable = 0;
    memlimit = none;
  };
  hosts = host ∷ host ∷ [];
  nodes =
      record no_node { host = 0; disks = volume ∷ []; config_changed = false }
      ∷ record no_node { host = 1; disks = volume ∷ []; config_changed = false }
      ∷ [];
  resources = [];
  done = [];
}

-- Every command prints the same.
abbrev remote : Remote
remote = record { answer = λ done c. (0, "d41d8cd9  -"); finds = λ done s. true }

abbrev read_all : World
read_all = (verify_data remote (0 ∷ 1 ∷ []) none false none cluster).1

verify_data-alike_example :
    ((false && not (is_some {A = ℕ} none)) ≡ false)
    × (sum : String) × (collect (0 ∷ 1 ∷ []) (node_md5sum remote none false none) cluster
        ≡ (ok (sum ∷ sum ∷ []), read_all))
unfolding verify_data node_md5sum read_md5sum differ collect node_run update_config host_run send
    device
verify_data-alike_example =
    verify_data-alike remote (0 ∷ 1 ∷ []) none false none cluster read_all refl

abbrev running : BusyWrite
running = record {
  node = 0;
  volume = 0;
  fio_pid = some "41";
  fio_out_str = none;
  output_filename = "fio-a-0-async.json";
  stderr_filename = "fio-a-0-async-stderr";
}

abbrev stopped : World × BusyWrite
stopped = (stop remote (cluster, running)).1

stop-stopped_example :
    ((pid : String) × (running.fio_pid ≡ some pid) × Ended remote pid (cluster, running))
    × (is_running remote stopped ≡ (ok false, stopped))
    × (stop remote stopped ≡ (err runtime_error, stopped))
    × (kill_jobs remote stopped ≡ (err runtime_error, stopped))
unfolding stop wait node_do node_run update_config host_run send
stop-stopped_example = stop-stopped remote (cluster, running) stopped refl
