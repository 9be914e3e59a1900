-- ===== src/Runner/Machines.antt =====
-- run.py: what the runner does to a machine over ssh. The machines answer, so they are an interface
-- over an unknown state.
pub mod Laws
use drbd9_tests.Prelude.{
  ℕ, zero, suc, ◌≡◌, refl, Bool, true, false, not, Option, none, some, List, [], ◌∷◌, ◌++◌, String,
  ◌<>◌, ltb, ◌==◌, string_eq, nat_eq, contains, if◌then◌else◌,
}
use drbd9_tests.Prelude.Dict.{Dict, lookup}
use drbd9_tests.Results.{
  Error, Result, ok, err, called_process, runtime_error, key_error, attribute_error,
}
use drbd9_tests.Exec.{Exec, pure, raise, or_raise, when, for_each, ◌>>=◌, ◌>>◌}

-- What `drbdsetup down all` on a machine says: done, or the status and the parsed error text: the
-- device, the process that holds it open and its pid, if the pattern matches.
pub data Down : Type 0 where
  done : Down
  failed : ℕ → Option (String × String × String) → Down

pub record Machines (S : Type 0) : Type 0 where
  pub drbdsetup_down : String → Exec S Down
  pub unmount_dev : String → String → Exec S (Unit {0})
  -- `kill -9 pid` over ssh, whose result is not looked at
  pub send_kill : String → String → Exec S (Unit {0})
  pub is_process_running : String → String → Exec S Bool
  -- the shell script that reloads the modules
  pub reload_modules : String → Exec S (Unit {0})
  pub list_lvs : String → Exec S (List String)
  pub lvremove : String → String → Exec S (Unit {0})

module _ {S : Type 0} (m : Machines S) where
  open m use {
    drbdsetup_down, unmount_dev, send_kill, is_process_running, reload_modules, list_lvs, lvremove,
  }

  -- `while attempt < 3`, with the attempts that are left; the `else` of the loop raises.
  unfoldable pub kill_attempts : ℕ → String → String → Exec S (Unit {0})
  kill_attempts zero vm pid = raise runtime_error
  kill_attempts (suc left) vm pid =
      let again = kill_attempts left vm pid in
      do send_kill vm pid; running ← is_process_running vm pid; if running then again else pure tt

  unfoldable pub kill_process : String → String → Exec S (Unit {0})
  unfolding kill_attempts
  kill_process = kill_attempts 3

  -- `subprocess.run(..., check=True)` raises.
  unfoldable pub check_down : Down → Exec S (Unit {0})
  check_down done = pure tt
  check_down (failed status text) = raise (called_process status)

  unfoldable pub down_again : String → Exec S (Unit {0})
  unfolding check_down
  down_again vm = do result ← drbdsetup_down vm; check_down result

  unfoldable pub release : String → String × String × String → Exec S (Unit {0})
  unfolding kill_process
  release vm (dev, procname, pid) =
      if procname == "mount" then unmount_dev vm dev else kill_process vm pid

  -- A text that does not match makes `r.group(1)` raise an AttributeError.
  unfoldable pub handle_down_error :
      String → ℕ → Option (String × String × String) → Exec S (Unit {0})
  unfolding release down_again
  handle_down_error vm status text =
      if status == 11
      then (do holder ← or_raise attribute_error text; release vm holder; down_again vm)
      else raise runtime_error

  -- `except CalledProcessError`
  unfoldable pub recover : String → Down → Exec S (Unit {0})
  unfolding handle_down_error
  recover vm done = pure tt
  recover vm (failed status text) = handle_down_error vm status text

  unfoldable pub try_down_all : String → Exec S (Unit {0})
  unfolding recover
  try_down_all vm = do result ← drbdsetup_down vm; recover vm result

  unfoldable pub cleanup_and_prepare_vm : String → Exec S (Unit {0})
  unfolding try_down_all
  cleanup_and_prepare_vm vm = do try_down_all vm; reload_modules vm

  unfoldable pub remove_excess_lvs : List String → String → Exec S (Unit {0})
  unfolding cleanup_and_prepare_vm for_each
  remove_excess_lvs original vm = do
    lvs ← list_lvs vm
    for_each lvs
        λ lv. if contains lv original then pure tt else do cleanup_and_prepare_vm vm; lvremove vm lv

  unfoldable pub cleanup : Dict String (List String) → List String → Exec S (Unit {0})
  unfolding remove_excess_lvs for_each lookup
  cleanup originals vms =
      for_each vms
        λ vm. do original ← or_raise key_error (lookup vm originals); remove_excess_lvs original vm
