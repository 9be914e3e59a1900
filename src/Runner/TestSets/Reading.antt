-- ===== src/Runner/TestSets/Reading.antt =====
-- How `generate_test_set` of run.py reads the lines that a test prints for `--report-and-quit`, and
-- that it reads what `setup` of python/drbdtest.py prints.
use drbd9_tests.Prelude.{
  ℕ, ◌≡◌, refl, ap, sym, ◌∙◌, none, some, String, ◌<>◌, ◌==◌, nat_eq, if◌then◌else◌, arith,
  Option-cases, inl, inr,
}
use Prim.Native.Char.{Char}
use text.Mathlib.TextLemmas.{cons-append}
use drbd9_tests.Prelude.Text.{dec}
use drbd9_tests.Prelude.Decimal.{to_int-dec, is_digit, is_decimal-dec, all_chars-is_decimal}
use drbd9_tests.Prelude.Match.{find_number, drop_prefix, drop_prefix-append, span_all}
use drbd9_tests.Results.{ok, err, value_error}
use drbd9_tests.Framework.Setup.{Needs, bounds, report_lines}
use drbd9_tests.Runner.TestSets.{read_report}

-- A number right after the key is found.
find_number-key :
    (c : Char) (key : String) (n : ℕ)
    → find_number (String.◌∷◌ c key) (String.◌∷◌ c key <> dec n) ≡ some n
unfolding find_number
find_number-key c key n =
    let found : drop_prefix (String.◌∷◌ c key) (String.◌∷◌ c (key <> dec n)) ≡ some (dec n) =
      ap (drop_prefix (String.◌∷◌ c key)) (sym (cons-append c key (dec n)))
      ∙ drop_prefix-append (String.◌∷◌ c key) (dec n) in
    ap (find_number (String.◌∷◌ c key)) (cons-append c key (dec n))
    ∙ rw (found, find_number)
        (rw (span_all is_digit (dec n) (all_chars-is_decimal (dec n) (is_decimal-dec n)))
          (rw (is_decimal-dec n) (ap some (to_int-dec n))))

-- What `setup` reports for a test is read back by run.py as the least and the greatest number of
-- nodes; a test that sets no maximum, or 0, makes the reading fail.
pub read_report-report_lines :
    (needs : Needs)
    → read_report (report_lines needs) ≡ elim (bounds needs).1 [
      | none ↦ err value_error
      | some n ↦
          if n == 0
          then err value_error
          else ok (record { min_nodes = (bounds needs).0; max_nodes = n })
    ]
unfolding read_report report_lines
read_report-report_lines needs = elim (Option-cases (bounds needs).1) [
  | inl absent ↦ rw absent refl
  | inr (n, found) ↦
      rw (found, find_number)
        (ground (
          arith,
          find_number-key "m" "in_nodes=" (bounds needs).0,
          find_number-key "m" "ax_nodes=" n,
        ))
]
