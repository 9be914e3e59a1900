-- ===== src/Framework/Endurance/Verified.antt =====
-- What `run_resync` of python/endurance.py has checked when it returns.
use drbd9_tests.Prelude.{ℕ, ◌≡◌, Bool, true, false, none, some, List, map, String}
use drbd9_tests.Results.{Result, ok}
use drbd9_tests.Exec.{Exec, collect, ◌>>◌}
use drbd9_tests.Framework.World.{World, Remote, Action}
use drbd9_tests.Framework.Peers.{secondary}
use drbd9_tests.Framework.Json.{Json}
use drbd9_tests.Framework.Resources.Operations.{members}
use drbd9_tests.Framework.Setup.Teardown.{Dmesg}
use drbd9_tests.Framework.Devices.Data.{node_md5sum}
use drbd9_tests.Framework.Endurance.{EnduranceConfig, diskful_nodes}
use drbd9_tests.Framework.Endurance.Runs.{resync_until_end, shut_down, reset_all}

module _ (remote : Remote) (dmesg : Dmesg) (no_rmmod : Bool) (uuid5 : String → String)
    (as_set : List String → List String) (loads : String → Result Json) where
  -- What `run_resync` did when it returned: after its loop it made the first node secondary, then read
  -- all the disks of the nodes with a disk one after another, with one checksum, and then only shut the
  -- resource down and took the limits of the network away.
  abbrev pub EndsVerified : (List Action → ℕ) → ℕ → EnduranceConfig → World → World → Type 0
  EndsVerified clock r config w t =
      let nodes = members r w in
      let diskful = diskful_nodes config nodes in
      (primary_n : ℕ) × (looped : World) × (before : World) × (after : World) × (sum : String)
      × (resync_until_end remote uuid5 as_set loads dmesg no_rmmod clock r config nodes w
          ≡ (ok primary_n, looped))
      × (secondary remote primary_n true false looped ≡ (ok tt, before))
      × (collect diskful (node_md5sum remote (some 280) true none) before
          ≡ (ok (map (λ _. sum) diskful), after))
      × ((shut_down remote dmesg no_rmmod r
              >> reset_all remote uuid5 as_set loads dmesg no_rmmod config nodes)
            after
          ≡ (ok tt, t))
