-- ===== src/Framework/Setup/Nodes.antt =====
-- Which numbers of hosts `setup` accepts.
use drbd9_tests.Prelude.{
  ℕ, ◌≡◌, inl, inr, Bool, not, ◌&&◌, ◌||◌, Option, none, some, ◌==◌, nat_eq, leb, length,
  if◌then◌else◌, arith, Option-cases,
}
use drbd9_tests.Results.{ok, err, system_exit}
use drbd9_tests.Framework.Setup.{Needs, Args, bounds, check_nodes}

-- Enough hosts, and no more than the maximum unless that is overridden for a range of numbers.
abbrev pub fits : ℕ → Option ℕ → Bool → ℕ → Bool
fits min_nodes none override_max n = leb min_nodes n
fits min_nodes (some max_nodes) override_max n =
    leb min_nodes n && (leb n max_nodes || (override_max && not (min_nodes == max_nodes)))

-- `setup` exits with 0 when it is to report, goes on when the hosts are at least the least number of nodes
-- and at most the greatest, or above it where that is overridden and the test does not ask for one exact
-- number, and exits with 100 in all other cases.
pub check_nodes-fits :
    (needs : Needs) (args : Args)
    → check_nodes needs args ≡ (
        if args.report_and_quit
        then err (system_exit 0)
        else if fits (bounds needs).0 (bounds needs).1 args.override_max (length args.host)
        then ok tt
        else err (system_exit 100))
unfolding check_nodes
check_nodes-fits needs args = elim (Option-cases (bounds needs).1) [
  | inl open_ended ↦ rw open_ended (ground arith)
  | inr (m, limit) ↦ rw limit (ground arith)
]
