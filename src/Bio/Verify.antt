-- ===== src/Bio/Verify.antt =====
-- The verification accepts the pattern that the writes leave, and nothing less.
use drbd9_tests.Prelude.{
  ℕ, zero, suc, ◌+◌, ◌%◌, ◌<◌, ◌≤◌, ◌≡◌, ◌≢◌, ◌∙◌, ap, ap₂, true, List, [], ◌∷◌, ◌++◌, length,
  nat_eq, arith, Bool-cases, inl, inr,
}
use mathlib.Core.List.{append_assoc}
use native.Mathlib.Nat.{zero-add}
use drbd9_tests.Results.{Result, ok}
use drbd9_tests.Exec.{>>=_ok}
use drbd9_tests.Bio.{
  Sector, fill, mixed, State, same_fill, write_pattern, verify_loop, verify_pattern, main,
}
use drbd9_tests.Bio.Pattern.{pattern_from, Marked, write_pattern-Marks, total}

-- The state after a round of the verification.
abbrev stepped : State → ℕ → Sector → List Sector → State
stepped s byte x rest = record s {
  current_byte = byte + 1;
  behind = s.behind ++ x ∷ [];
  ahead = rest;
}

verify_loop_same :
    (expected sector byte : ℕ) (x : Sector) (rest : List Sector) (s : State)
    → same_fill x byte ≡ true
    → verify_loop expected (x ∷ rest) sector byte s
      ≡ verify_loop expected rest (sector + 1) (byte + 1) (stepped s byte x rest)
verify_loop_same expected sector byte x rest s h = unfold verify_loop in rw h

verify_loop-pattern :
    (n at expected : ℕ) (rest : List Sector) (s : State)
    → at + n ≡ expected
    → expected % 256 ≢ 255
    → (verify_loop expected (pattern_from n at ++ fill 255 ∷ rest) at at s).0 ≡ ok tt
unfolding pattern_from
verify_loop-pattern zero at expected rest s e ne = unfold verify_loop same_fill in ground arith
verify_loop-pattern (suc n) at expected rest s e ne =
    rw (verify_loop_same expected at at (fill (at % 256)) _ s (unfold same_fill in ground arith))
      (verify_loop-pattern n (at + 1) expected rest _ (omega arith) ne)

verify_loop-past :
    (xs : List Sector) (expected sector byte : ℕ) (s : State)
    → 0 < expected
    → expected < sector
    → (verify_loop expected xs sector byte s).0 ≢ ok tt
verify_loop-past [] expected sector byte s pos past h = unfold verify_loop in cc
verify_loop-past (x ∷ xs) expected sector byte s pos past h = elim (Bool-cases (same_fill x byte)) [
  | inl same ↦
      verify_loop-past xs expected (sector + 1) (byte + 1) (stepped s byte x xs) pos (omega arith)
        (rw (verify_loop_same expected sector byte x xs s same) at h)
  | inr differ ↦ unfold verify_loop in ground arith
]

same_fill-eq : (x : Sector) (byte : ℕ) → same_fill x byte ≡ true → x ≡ fill (byte % 256)
unfolding same_fill
same_fill-eq (fill b) byte h = ground arith
same_fill-eq (mixed n) byte h = absurd (cc)

verify_loop_sound :
    (xs : List Sector) (n at expected : ℕ) (s : State)
    → 0 < expected
    → at + n ≡ expected
    → (verify_loop expected xs at at s).0 ≡ ok tt
    → (rest : List Sector) × (xs ≡ pattern_from n at ++ fill 255 ∷ rest)
verify_loop_sound [] n at expected s pos e h = absurd (unfold verify_loop in cc)
verify_loop_sound (x ∷ xs) zero at expected s pos e h = elim (Bool-cases (same_fill x at)) [
  | inl same ↦ absurd (
      verify_loop-past xs expected (at + 1) (at + 1) (stepped s at x xs) pos (omega arith)
        (rw (verify_loop_same expected at at x xs s same) at h))
  | inr differ ↦ elim (Bool-cases (same_fill x 255)) [
    | inl mark ↦ (xs, unfold pattern_from in ap (λ y. y ∷ xs) (same_fill-eq x 255 mark))
    | inr other ↦ absurd (unfold verify_loop in ground arith)
  ]
]
verify_loop_sound (x ∷ xs) (suc n) at expected s pos e h = elim (Bool-cases (same_fill x at)) [
  | inl same ↦
      let (rest, p) =
        verify_loop_sound xs n (at + 1) expected (stepped s at x xs) pos (omega arith)
          (rw (verify_loop_same expected at at x xs s same) at h) in
      (rest, consed same rest p)
  | inr differ ↦ absurd (unfold verify_loop in ground arith)
]
  where
    consed :
        same_fill x at ≡ true
        → (rest : List Sector) → xs ≡ pattern_from n (at + 1) ++ fill 255 ∷ rest
        → x ∷ xs ≡ pattern_from (suc n) at ++ fill 255 ∷ rest
    consed same rest p = unfold pattern_from in ap₂ ◌∷◌ (same_fill-eq x at same) p

-- Where the pattern's length is not 255 modulo 256, and the device has room for it and the mark, the
-- run writes and then verifies without an error, whatever the device and the memory held before.
pub main-verifies :
    (half : ℕ) (buffer : ℕ → Sector) (device : List Sector)
    → 0 < half
    → total half + 1 ≤ length device
    → total half % 256 ≢ 255
    → (main half (record { current_byte = 0; buffer = buffer; behind = []; ahead = device })).0
      ≡ ok tt
unfolding main
main-verifies half buffer device pos room ne =
    let s : State = record { current_byte = 0; buffer = buffer; behind = []; ahead = device } in
    let (t, e, m) = write_pattern-Marks half s pos room in
    ap (λ (p : Result (Unit {0}) × State). p.0)
      (>>=_ok (write_pattern half) (λ _. verify_pattern) s e)
    ∙ verified t m
  where
    verified :
        (t : State)
        → Marked
            (total half)
            (record { current_byte = 0; buffer = buffer; behind = []; ahead = device })
            t
        → (verify_pattern t).0 ≡ ok tt
    verified t m =
        unfold verify_pattern in
        rw (m.behind_pattern, m.byte_add, zero-add (total half))
          (rw (append_assoc (pattern_from (total half) 0) (fill 255 ∷ []) t.ahead)
            (verify_loop-pattern (total half) 0 (total half) t.ahead _ (omega arith) ne))

-- If the verification after a run that wrote `n` sectors, one or more, returns, then the device begins with the
-- whole pattern: sector i holds i modulo 256 for all i < n, and sector n holds the mark.
pub verify_pattern_sound :
    (n : ℕ) (s : State)
    → 0 < n
    → s.current_byte ≡ n
    → (verify_pattern s).0 ≡ ok tt
    → (rest : List Sector) × (s.behind ++ s.ahead ≡ pattern_from n 0 ++ fill 255 ∷ rest)
unfolding verify_pattern
verify_pattern_sound n s pos e h =
    verify_loop_sound (s.behind ++ s.ahead) n 0 s.current_byte
      (record s { current_byte = 0; behind = []; ahead = s.behind ++ s.ahead }) (omega arith)
      (omega arith) h
