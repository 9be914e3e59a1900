-- ===== src/Examples/Devices.antt =====
-- Runs of target/misaligned_bio.py, with a page of four sectors, and of python/disktools.py.
use drbd9_tests.Prelude.{◌≡◌, refl, List, [], ◌∷◌, ◌++◌, replicate, arith}
use drbd9_tests.Results.{ok}
use drbd9_tests.Bio.{Sector, fill, State, main, verify_pattern, verify_loop}
use drbd9_tests.Bio.Pattern.{pattern_from}
use drbd9_tests.Bio.Verify.{main-verifies, verify_pattern_sound}

abbrev empty_device : List Sector
empty_device = replicate 40 (fill 0)

abbrev start : State
start = record { current_byte = 0; buffer = λ i. fill 0; behind = []; ahead = empty_device }

main-verifies_example : (main 2 start).0 ≡ ok tt
main-verifies_example =
    main-verifies 2 (λ i. fill 0) empty_device (omega arith) (omega arith)
      (λ e. absurd (omega (arith, e)))

abbrev written : State
written = record {
  current_byte = 2;
  buffer = λ i. fill 0;
  behind = [];
  ahead = fill 0 ∷ fill 1 ∷ fill 255 ∷ fill 7 ∷ [];
}

verify_pattern_sound_example :
    (rest : List Sector) × (fill 0 ∷ fill 1 ∷ fill 255 ∷ fill 7 ∷ []
      ≡ pattern_from 2 0 ++ fill 255 ∷ rest)
unfolding verify_pattern verify_loop
verify_pattern_sound_example = verify_pattern_sound 2 written (omega arith) refl refl
