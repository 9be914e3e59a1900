-- ===== src/Framework/Hosts/Unload.antt =====
-- What `LinuxPlatformHelper.rmmod` does and how it ends.
use drbd9_tests.Prelude.{
  ℕ, ◌≡◌, refl, ap, ◌∙◌, List, [], ◌∷◌, ◌++◌, map, String, ◌==◌, nat_eq, Bool-cases, inl, inr,
  if◌then◌else◌, arith,
}
use mathlib.Core.List.{append_assoc, append-nil}
use drbd9_tests.Results.{Result, ok, err, called_process}
use drbd9_tests.Exec.{Exec, for_each, pass_all, when, >>=_ok}
use drbd9_tests.Framework.World.{
  World, Remote, Action, Command, ran, host_at, is_drbd9, send, host_run, host_do, host_try,
}
use drbd9_tests.Framework.Hosts.{linux_rmmod, show_references}

abbrev pub command : ℕ → World → List String → Command
command h w argv = record { host = h; netns = (host_at h w).netns; argv = argv; stdin = "" }

abbrev pub after : List Action → World → World
after actions w = record w { done = w.done ++ actions }

abbrev pub outcome : ℕ → Result (Unit {0})
outcome status = if status == 0 then ok tt else err (called_process status)

module _ (remote : Remote) (h : ℕ) where
  host_do-outcome :
      (argv : List String) (w : World)
      → host_do remote h argv w ≡ (
        outcome (remote.answer w.done (command h w argv)).0,
        after (ran (command h w argv) ∷ []) w,
      )
  unfolding host_do host_run send
  host_do-outcome argv w = ground arith

  host_try-state :
      (argv : List String) (w : World)
      → (host_try remote h argv w).1 ≡ after (ran (command h w argv) ∷ []) w
  unfolding host_try send
  host_try-state argv w = elim (Bool-cases ((remote.answer w.done (command h w argv)).0 == 0)) [
    | inl fine ↦ rw fine refl
    | inr failed ↦ rw failed refl
  ]

  -- Modules that are removed whether that succeeds or not.
  for_each-passed :
      (names : List String) (w : World)
      → for_each names (λ name. pass_all (host_do remote h ("rmmod" ∷ name ∷ []))) w
        ≡ (ok tt, after (map (λ name. ran (command h w ("rmmod" ∷ name ∷ []))) names) w)
  unfolding for_each pass_all
  for_each-passed [] w = rw append-nil refl
  for_each-passed (name ∷ names) w = rw (host_do-outcome ("rmmod" ∷ name ∷ []) w) (
      for_each-passed names (after (ran (command h w ("rmmod" ∷ name ∷ [])) ∷ []) w)
      ∙ ap (λ d. (ok tt, record w { done = d }))
          (append_assoc w.done (ran (command h w ("rmmod" ∷ name ∷ [])) ∷ []) _))

  abbrev pub transports : World → List Action
  transports w =
      if is_drbd9 (host_at h w)
      then map (λ name. ran (command h w ("rmmod" ∷ name ∷ [])))
          ("drbd_transport_tcp" ∷ "drbd_transport_lb-tcp" ∷ "drbd_transport_rdma" ∷ [])
      else []

  -- The status of the last `rmmod`, after all that was done before.
  abbrev pub unload_status : World → ℕ
  unload_status w =
      (remote.answer (after (transports w) w).done (command h w ("rmmod" ∷ "drbd" ∷ []))).0

  when-transports :
      (w : World)
      → when
          (is_drbd9 (host_at h w))
          (for_each
            ("drbd_transport_tcp" ∷ "drbd_transport_lb-tcp" ∷ "drbd_transport_rdma" ∷ [])
            (λ name. pass_all (host_do remote h ("rmmod" ∷ name ∷ []))))
          w
        ≡ (ok tt, after (transports w) w)
  when-transports w = elim (Bool-cases (is_drbd9 (host_at h w))) [
    | inl nine ↦ rw nine (for_each-passed _ w)
    | inr old ↦ rw old (rw append-nil refl)
  ]

  abbrev pub show_cat : World → ℕ → List Action
  show_cat w status =
      if status == 0
      then []
      else ran (command h w ("cat" ∷ "/sys/kernel/debug/drbd/reference_counts" ∷ [])) ∷ []

  show_references-outcome :
      (status : ℕ) (w : World)
      → show_references remote h (outcome status, w) ≡ (outcome status, after (show_cat w status) w)
  unfolding show_references host_try send
  show_references-outcome status w = elim (Bool-cases (status == 0)) [
    | inl fine ↦ rw fine (rw append-nil refl)
    | inr failed ↦ rw failed (ground arith)
  ]

  -- `rmmod` takes out the transports first on DRBD 9, whether that succeeds or not, then the module; it
  -- raises exactly when that last command fails, with its status, and then has shown the references.
  pub linux_rmmod-outcome :
      (w : World)
      → linux_rmmod remote h w ≡ (
        outcome (unload_status w),
        after
            (transports w
              ++ ran (command h w ("rmmod" ∷ "drbd" ∷ [])) ∷ show_cat w (unload_status w))
            w,
      )
  unfolding linux_rmmod
  linux_rmmod-outcome w =
      let u = after (transports w) w in
      let c = ran (command h w ("rmmod" ∷ "drbd" ∷ [])) in
      let transports_out : Exec World (Unit {0}) = when (is_drbd9 (host_at h w)) (
        for_each ("drbd_transport_tcp" ∷ "drbd_transport_lb-tcp" ∷ "drbd_transport_rdma" ∷ [])
          (λ name. pass_all (host_do remote h ("rmmod" ∷ name ∷ [])))) in
      >>=_ok transports_out
        (λ _ t. show_references remote h (host_do remote h ("rmmod" ∷ "drbd" ∷ []) t)) w
        (when-transports w)
      ∙ (ap (show_references remote h) (host_do-outcome ("rmmod" ∷ "drbd" ∷ []) u)
          ∙ (show_references-outcome (unload_status w) (after (c ∷ []) u)
              ∙ ap (λ d. (outcome (unload_status w), record w { done = d }))
                  (append_assoc (w.done ++ transports w) (c ∷ []) (show_cat w (unload_status w))
                    ∙ append_assoc w.done (transports w) (c ∷ show_cat w (unload_status w)))))
