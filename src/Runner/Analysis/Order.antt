-- ===== src/Runner/Analysis/Order.antt =====
-- `analyze` of run.py never raises, and lists the statistics in descending order.
use drbd9_tests.Prelude.{
  ℕ, zero, suc, ◌*◌, ◌<◌, ◌≡◌, refl, ap, sym, ◌∙◌, Bool, true, false, Option, none, some, List, [],
  ◌∷◌, String, nat_eq, string_eq, ◌==◌, ltb, is_some, map, All, arith, Bool-cases, inl, inr,
}
use native.Mathlib.Nat.{suc-mul}
use mathlib.Core.List.{Perm}
use mathlib.Core.List.Perm
use drbd9_tests.Prelude.Dict.{Dict, lookup}
use drbd9_tests.Results.{ok, collect}
use drbd9_tests.OrderedSet.Keys.{Own, entries-Own}
use drbd9_tests.Runner.Loop.{TestResult}
use drbd9_tests.Runner.Statistics.{Statistic, find_statistics}
use drbd9_tests.Runner.Statistics.Laws.{find_statistics-total}
use drbd9_tests.Runner.Analysis.{
  SortKey, Row, less_rate, sort_key, less_average, less_key, row, insert_row, sort_rows, analyze,
}
use drbd9_tests.Runner.Analysis.Laws.{
  IsCoherent, find_statistics-IsCoherent, find_statistics-Distinct,
}

-- A key has an average exactly if its rate is not 0.
abbrev IsFair : SortKey → Type 0
IsFair k = (0 < k.0.1) × (is_some k.1 ≡ ltb 0 k.0.0)

product_pos : (a b : ℕ) → 0 < a → 0 < b → 0 < a * b
product_pos zero b h k = absurd (omega arith)
product_pos (suc a) b h k = rw (suc-mul a b) (omega arith)

abbrev Compares : SortKey → SortKey → Type 0
Compares k l = (b : Bool) × (less_key k l ≡ ok b) × (b ≡ true → less_key l k ≡ ok false)

averages :
    (a b c d : ℕ) (x y : Option (ℕ × ℕ))
    → 0 < b
    → 0 < d
    → is_some x ≡ ltb 0 a
    → is_some y ≡ ltb 0 c
    → a * d ≡ c * b
    → (e : Bool) × (less_average x y ≡ ok e) × (e ≡ true → less_average y x ≡ ok false)
unfolding less_average
averages a b c d none none b_pos d_pos p q h = (false, refl, λ e. absurd (cc))
averages a b c d none (some y) b_pos d_pos p q h =
    let c_pos : 0 < c = ground arith in
    let zero_a : a ≡ 0 = ground arith in
    let pos = product_pos c b c_pos b_pos in
    let nothing : a * d ≡ 0 = rw zero_a (omega arith) in absurd (omega arith)
averages a b c d (some x) none b_pos d_pos p q h =
    let a_pos : 0 < a = ground arith in
    let zero_c : c ≡ 0 = ground arith in
    let pos = product_pos a d a_pos d_pos in
    let nothing : c * b ≡ 0 = rw zero_c (omega arith) in absurd (omega arith)
averages a b c d (some x) (some y) b_pos d_pos p q h = (less_rate x y, refl, λ e. ground arith)

fair_Compares : (k l : SortKey) → IsFair k → IsFair l → Compares k l
unfolding less_key
fair_Compares ((a, b), x) ((c, d), y) (b_pos, p) (d_pos, q) = elim (Bool-cases (a * d == c * b)) [
  | inl same ↦
      let equal : a * d ≡ c * b = (nat_eq.beq_iff (a * d) (c * b)).0 same in
      let back : (c * b == a * d) ≡ true = (nat_eq.beq_iff (c * b) (a * d)).1 (sym equal) in
      rw (same, back) (averages a b c d x y b_pos d_pos p q equal)
  | inr differ ↦
      let back : (c * b == a * d) ≡ false = ground arith in
      rw (differ, back) (less_rate (a, b) (c, d), refl, λ e. ground arith)
]

-- No key is greater than the one before it.
abbrev pub IsDescending : List Row → Type 0
IsDescending [] = Unit
IsDescending (x ∷ []) = Unit
IsDescending (x ∷ y ∷ rows) = (less_key x.0 y.0 ≡ ok false) × IsDescending (y ∷ rows)

-- A row whose key is that of its statistic.
abbrev pub IsKeyed : Row → Type 0
IsKeyed r = sort_key r.1.1 ≡ ok r.0

abbrev IsListed : Row → Type 0
IsListed r = IsFair r.0 × IsKeyed r

abbrev AllListed : List Row → Type 0
AllListed rows = All IsListed rows

record Inserted (r : Row) (rows out : List Row) : Type 0 where
  returns : insert_row r rows ≡ ok out
  fair : AllListed out
  descending : IsDescending out
  -- What comes first was first before, or is the new row.
  head_of :
      (x : Row) → less_key x.0 r.0 ≡ ok false → IsDescending (x ∷ rows) → IsDescending (x ∷ out)
  same : Perm out (r ∷ rows)

tail_of : (x : Row) (xs : List Row) → IsDescending (x ∷ xs) → IsDescending xs
tail_of x [] h = tt
tail_of x (y ∷ ys) (e, h) = h

insert_row-total :
    (r : Row) (rows : List Row)
    → IsListed r
    → AllListed rows
    → IsDescending rows
    → (out : List Row) × Inserted r rows out
unfolding insert_row
insert_row-total r [] fair all ordered = (
  r ∷ [],
  record {
    returns = refl;
    fair = (fair, tt);
    descending = tt;
    head_of = λ x e o. (e, tt);
    same = Perm.refl (r ∷ []);
  },
)
insert_row-total r (x ∷ xs) fair (fair_x, all) ordered =
    let (before, e, flip) = fair_Compares r.0 x.0 fair.0 fair_x.0 in
    let (rest, ins) = insert_row-total r xs fair all (tail_of x xs ordered) in
    elim (Bool-cases before) [
      | inl true_before ↦
          let first = ins.head_of x (flip true_before) ordered in
          (
            x ∷ rest,
            record {
              returns = rw (e, true_before) (rw ins.returns refl);
              fair = (fair_x, ins.fair);
              descending = first;
              head_of = λ z f o. (o.0, first);
              same = Perm.trans (Perm.cons x ins.same) (Perm.swap r x xs);
            },
          )
      | inr not_before ↦
          let behind : less_key r.0 x.0 ≡ ok false = e ∙ ap ok not_before in
          (
            r ∷ x ∷ xs,
            record {
              returns = rw behind refl;
              fair = (fair, (fair_x, all));
              descending = (behind, ordered);
              head_of = λ z f o. (f, (behind, ordered));
              same = Perm.refl (r ∷ x ∷ xs);
            },
          )
    ]

record Sorted (rows out : List Row) : Type 0 where
  returns : sort_rows rows ≡ ok out
  fair : AllListed out
  descending : IsDescending out
  same : Perm out rows

sort_rows-total : (rows : List Row) → AllListed rows → (out : List Row) × Sorted rows out
unfolding sort_rows
sort_rows-total [] all =
    ([], record { returns = refl; fair = tt; descending = tt; same = Perm.refl [] })
sort_rows-total (r ∷ rows) (fair, all) =
    let (sorted, s) = sort_rows-total rows all in
    let (out, i) = insert_row-total r sorted fair s.fair s.descending in
    (
      out,
      record {
        returns = rw s.returns i.returns;
        fair = i.fair;
        descending = i.descending;
        same = Perm.trans i.same (Perm.cons r s.same);
      },
    )

-- The rows of coherent statistics.
rows_of :
    (statistics : Dict String Statistic)
    → All (λ entry. IsCoherent entry.1) statistics
    → (rows : List Row) × (collect row statistics ≡ ok rows)
      × AllListed rows
      × (map (λ (r : Row). r.1) rows ≡ statistics)
unfolding row sort_key collect
rows_of [] all = ([], refl, tt, refl)
rows_of ((name, s) ∷ rest) (c, all) =
    let (rows, e, fair, size) = rows_of rest all in
    (
      (((c.successes, c.runs), s.average_runtime), (name, s)) ∷ rows,
      rw c.rate (rw e refl),
      (((c.some_runs, c.timed), rw c.rate refl), fair),
      ap (λ rest. (name, s) ∷ rest) size,
    )

of_entries :
    (statistics entries : Dict String Statistic)
    → ((name : String) (s : Statistic) → lookup name statistics ≡ some s → IsCoherent s)
    → All (Own statistics) entries
    → All (λ (entry : String × Statistic). IsCoherent entry.1) entries
of_entries statistics [] coherent own = tt
of_entries statistics ((name, s) ∷ rest) coherent (this, own) =
    (coherent name s this, of_entries statistics rest coherent own)

All-map :
    {P Q : Row → Type 0} → ((r : Row) → P r → Q r) → (rows : List Row) → All P rows → All Q rows
All-map f [] all = tt
All-map f (r ∷ rows) (p, all) = (f r p, All-map f rows all)

-- For every history of runs, `analyze` returns: no rate is missing and no average is compared to None. It
-- lists each of the statistics with its name exactly once, by the key that `sorted` is given for it, in
-- descending order of the rate of success and then of the average run time.
pub analyze-total :
    (result_db : List (Dict String TestResult))
    → (statistics : Dict String Statistic) × (out : List Row) × (find_statistics result_db []
        ≡ ok statistics)
      × (analyze result_db ≡ ok out)
      × IsDescending out
      × Perm (map (λ (r : Row). r.1) out) statistics
      × All IsKeyed out
unfolding analyze
analyze-total db =
    let (statistics, e) = find_statistics-total db [] in
    let own = entries-Own statistics (find_statistics-Distinct db statistics e) in
    let coherent =
      of_entries statistics statistics (λ name s. find_statistics-IsCoherent db statistics name s e)
        own in
    let (rows, collected, fair, names) = rows_of statistics coherent in
    let (out, sorted) = sort_rows-total rows fair in
    (
      statistics,
      out,
      e,
      rw e (rw collected sorted.returns),
      sorted.descending,
      rw (← names) (Perm.map (λ (r : Row). r.1) sorted.same),
      All-map (λ r listed. listed.1) out sorted.fair,
    )
