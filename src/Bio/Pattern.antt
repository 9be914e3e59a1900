-- ===== src/Bio/Pattern.antt =====
-- What the writes leave on the device, and that the verification accepts it and nothing less.
use drbd9_tests.Prelude.{
  ℕ, zero, suc, ◌+◌, ◌-◌, ◌*◌, ◌%◌, ◌<◌, ◌≤◌, ◌≡◌, ◌∙◌, ap, sym, refl, List, [], ◌∷◌, ◌++◌, length,
  drop, nat_eq, arith,
}
use mathlib.Core.List.{append-nil, append_assoc}
use native.Mathlib.Nat.{zero-add, add-zero}
use drbd9_tests.Results.{ok}
use drbd9_tests.Exec.{Exec, ◌>>◌, >>=_ok}
use drbd9_tests.Bio.{
  Sector, fill, State, memset, fill_from, prepare_buffer, read_memory, write_sectors, write_bio,
  write_misaligned, write_holes, write_mark, write_pattern,
}

-- `n` sectors, filled with consecutive bytes from `c` on.
unfoldable pub pattern_from : ℕ → ℕ → List Sector
pattern_from zero c = []
pattern_from (suc n) c = fill (c % 256) ∷ pattern_from n (c + 1)

fill_from_below :
    (n start byte : ℕ) (buffer : ℕ → Sector) (i : ℕ)
    → i < start
    → fill_from n start byte buffer i ≡ buffer i
unfolding fill_from memset
fill_from_below zero start byte buffer i h = refl
fill_from_below (suc n) start byte buffer i h =
    fill_from_below n (start + 1) (byte + 1) (memset start byte buffer) i (omega arith)
    ∙ ground arith

read_memory-fill_from :
    (n start byte : ℕ) (buffer : ℕ → Sector)
    → read_memory n start (fill_from n start byte buffer) ≡ pattern_from n byte
unfolding read_memory fill_from pattern_from
read_memory-fill_from zero start byte buffer = refl
read_memory-fill_from (suc n) start byte buffer = ground (
  arith,
  fill_from_below n (start + 1) (byte + 1) (memset start byte buffer) start,
  read_memory-fill_from n (start + 1) (byte + 1) (memset start byte buffer),
)

length-pattern_from : (n c : ℕ) → length (pattern_from n c) ≡ n
unfolding pattern_from
length-pattern_from zero c = refl
length-pattern_from (suc n) c = ap suc (length-pattern_from n (c + 1))

pattern_from-append :
    (n m c : ℕ) → pattern_from n c ++ pattern_from m (c + n) ≡ pattern_from (n + m) c
unfolding pattern_from
pattern_from-append zero m c = rw (add-zero, zero-add)
pattern_from-append (suc n) m c =
    let rest = pattern_from-append n m (c + 1) in
    let shift : c + suc n ≡ c + 1 + n = omega arith in
    let size : suc n + m ≡ suc (n + m) = omega arith in
    rw (shift, size) (ap (λ xs. fill (c % 256) ∷ xs) rest)

drop-nil : {A : Type 0} (m : ℕ) → drop {A = A} m [] ≡ []
drop-nil zero = refl
drop-nil (suc m) = refl

drop-drop : {A : Type 0} (n m : ℕ) (xs : List A) → drop m (drop n xs) ≡ drop (n + m) xs
drop-drop zero m xs = rw zero-add
drop-drop (suc n) m [] = let size : suc n + m ≡ suc (n + m) = omega arith in rw size (drop-nil m)
drop-drop (suc n) m (x ∷ xs) =
    let size : suc n + m ≡ suc (n + m) = omega arith in rw size (drop-drop n m xs)

length-drop : {A : Type 0} (n : ℕ) (xs : List A) → length (drop n xs) ≡ length xs - n
length-drop zero xs = omega arith
length-drop (suc n) [] = omega arith
length-drop (suc n) (x ∷ xs) = omega (arith, length-drop n xs)

-- From `s` to `t`, the next `n` sectors of the pattern were written.
record Wrote (n : ℕ) (s t : State) : Type 0 where
  behind_pattern : t.behind ≡ s.behind ++ pattern_from n s.current_byte
  ahead_drop : t.ahead ≡ drop n s.ahead
  byte_add : t.current_byte ≡ s.current_byte + n

-- A call that returns and writes the next `n` sectors.
abbrev Writes : ℕ → Exec State (Unit {0}) → State → Type 0
Writes n m s = (t : State) × (m s ≡ (ok tt, t)) × Wrote n s t

Wrote-trans : (n m : ℕ) (s t u : State) → Wrote n s t → Wrote m t u → Wrote (n + m) s u
Wrote-trans n m s t u g h = record {
  behind_pattern =
      h.behind_pattern
      ∙ rw (g.behind_pattern, g.byte_add)
          (append_assoc s.behind (pattern_from n s.current_byte)
              (pattern_from m (s.current_byte + n))
            ∙ ap (λ xs. s.behind ++ xs) (pattern_from-append n m s.current_byte));
  ahead_drop = h.ahead_drop ∙ rw g.ahead_drop (drop-drop n m s.ahead);
  byte_add = omega (arith, g.byte_add, h.byte_add);
}

Wrote-room : (n m : ℕ) (s t : State) → n + m ≤ length s.ahead → Wrote n s t → m ≤ length t.ahead
Wrote-room n m s t h w = rw w.ahead_drop (omega (arith, length-drop n s.ahead))

write_sectors-room :
    (xs : List Sector) (s : State)
    → length xs ≤ length s.ahead
    → write_sectors xs s
      ≡ (ok tt, record s { behind = s.behind ++ xs; ahead = drop (length xs) s.ahead })
unfolding write_sectors
write_sectors-room xs s h = ground arith

-- Two writes in a row.
Writes-then :
    (n m : ℕ) (f g : Exec State (Unit {0})) (s : State)
    → Writes n f s
    → ((t : State) → Wrote n s t → Writes m g t)
    → Writes (n + m) (f >> g) s
Writes-then n m f g s (t, e, w) next =
    let (u, d, v) = next t w in (u, >>=_ok f (λ _. g) s e ∙ d, Wrote-trans n m s t u w v)

write_bio-Writes : (start n : ℕ) (s : State) → n ≤ length s.ahead → Writes n (write_bio start n) s
unfolding write_bio prepare_buffer
write_bio-Writes start n s h =
    let sectors = read_memory n start (fill_from n start s.current_byte s.buffer) in
    let is_pattern = read_memory-fill_from n start s.current_byte s.buffer in
    let size : length sectors ≡ n = rw is_pattern (length-pattern_from n s.current_byte) in
    (
      _,
      write_sectors-room sectors _ (rw size h),
      record { behind_pattern = rw is_pattern; ahead_drop = rw size; byte_add = refl },
    )

write_misaligned-Writes :
    (page rounds i : ℕ) (s : State)
    → rounds * page ≤ length s.ahead
    → Writes (rounds * page) (write_misaligned page rounds i) s
unfolding write_misaligned
write_misaligned-Writes page zero i s h =
    let none_written : 0 * page ≡ 0 = omega arith in
    rw none_written (
      s,
      refl,
      record {
        behind_pattern = unfold pattern_from in sym (append-nil s.behind);
        ahead_drop = refl;
        byte_add = omega arith;
      },
    )
write_misaligned-Writes page (suc rounds) i s h =
    let size : suc rounds * page ≡ page + rounds * page = omega arith in
    rw size (
      Writes-then page (rounds * page) (write_bio i page) (write_misaligned page rounds (i + 1)) s
        (write_bio-Writes i page s (omega arith))
        (λ t w.
          write_misaligned-Writes page rounds (i + 1) t
            (Wrote-room page (rounds * page) s t (omega arith) w)))

four_bytes :
    (c : ℕ)
    → pattern_from 4 c
      ≡ fill (c % 256)
        ∷ fill ((c + 1) % 256)
        ∷ fill ((c + 1 + 1) % 256)
        ∷ fill ((c + 1 + 1 + 1) % 256)
        ∷ []
unfolding pattern_from
four_bytes c = refl

write_holes-Writes :
    (page : ℕ) (s : State) → 0 < page → 4 ≤ length s.ahead → Writes 4 (write_holes page) s
unfolding write_holes prepare_buffer fill_from memset
write_holes-Writes page s pos h = (
  _,
  write_sectors-room _ _ h,
  record {
    behind_pattern = rw (four_bytes s.current_byte) (ground arith);
    ahead_drop = refl;
    byte_add = omega arith;
  },
)

-- The sectors that `write_pattern` writes before the mark.
abbrev pub total : ℕ → ℕ
total half = (2 * half - 1) * (2 * half) + ((half + half + half) + ((4 * half + 1) + 4))

-- From `s` to `t`, the next `n` sectors of the pattern and the mark of its end were written.
pub record Marked (n : ℕ) (s t : State) : Type 0 where
  pub behind_pattern : t.behind ≡ s.behind ++ (pattern_from n s.current_byte ++ fill 255 ∷ [])
  pub ahead_drop : t.ahead ≡ drop (n + 1) s.ahead
  pub byte_add : t.current_byte ≡ s.current_byte + n

abbrev pub Marks : ℕ → Exec State (Unit {0}) → State → Type 0
Marks n m s = (t : State) × (m s ≡ (ok tt, t)) × Marked n s t

Wrote-Marked : (n m : ℕ) (s t u : State) → Wrote n s t → Marked m t u → Marked (n + m) s u
Wrote-Marked n m s t u g h = record {
  behind_pattern =
      h.behind_pattern
      ∙ rw (g.behind_pattern, g.byte_add)
          (append_assoc s.behind (pattern_from n s.current_byte) _
            ∙ ap (λ xs. s.behind ++ xs)
                (sym (
                    append_assoc (pattern_from n s.current_byte)
                      (pattern_from m (s.current_byte + n)) _)
                  ∙ ap (λ xs. xs ++ fill 255 ∷ []) (pattern_from-append n m s.current_byte)));
  ahead_drop =
      let size : n + m + 1 ≡ n + (m + 1) = omega arith in
      rw size (h.ahead_drop ∙ rw g.ahead_drop (drop-drop n (m + 1) s.ahead));
  byte_add = omega (arith, g.byte_add, h.byte_add);
}

Marks-then :
    (n m : ℕ) (f g : Exec State (Unit {0})) (s : State)
    → Writes n f s
    → ((t : State) → Wrote n s t → Marks m g t)
    → Marks (n + m) (f >> g) s
Marks-then n m f g s (t, e, w) next =
    let (u, d, v) = next t w in (u, >>=_ok f (λ _. g) s e ∙ d, Wrote-Marked n m s t u w v)

write_mark-Marks : (s : State) → 1 ≤ length s.ahead → Marks 0 write_mark s
unfolding write_mark read_memory memset
write_mark-Marks s h = (
  _,
  write_sectors-room _ _ h,
  record {
    behind_pattern = unfold pattern_from in refl;
    ahead_drop = refl;
    byte_add = omega arith;
  },
)

Wrote-length : (n : ℕ) (s t : State) → Wrote n s t → length t.ahead ≡ length s.ahead - n
Wrote-length n s t w = rw w.ahead_drop (length-drop n s.ahead)

-- Where the device has room for the pattern and the mark, `write_pattern` returns, having written the
-- next sectors of the pattern and then the mark.
pub write_pattern-Marks :
    (half : ℕ) (s : State)
    → 0 < half
    → total half + 1 ≤ length s.ahead
    → Marks (total half) (write_pattern half) s
unfolding write_pattern
write_pattern-Marks half s pos room =
    let page = 2 * half in
    let first = (page - 1) * page in
    let sizes : total half ≡ first + ((page + half) + ((page * 2 + 1) + (4 + 0))) = omega arith in
    rw sizes (
      Marks-then first _ (write_misaligned page (page - 1) 1) _ s
        (write_misaligned-Writes page (page - 1) 1 s (omega arith))
        λ t w.
          Marks-then (page + half) _ (write_bio half (page + half)) _ t
            (write_bio-Writes half (page + half) t (Wrote-room first _ s t (omega arith) w))
            λ u v.
              Marks-then (page * 2 + 1) _ (write_bio 1 (page * 2 + 1)) _ u
                (write_bio-Writes 1 (page * 2 + 1) u
                  (omega (arith, Wrote-length first s t w, Wrote-length (page + half) t u v)))
                λ x y.
                  Marks-then 4 0 (write_holes page) write_mark x
                    (write_holes-Writes page x (omega arith) (
                      omega (
                        arith,
                        Wrote-length first s t w,
                        Wrote-length (page + half) t u v,
                        Wrote-length (page * 2 + 1) u x y,
                      )))
                    λ z k. write_mark-Marks z (
                      omega (
                        arith,
                        Wrote-length first s t w,
                        Wrote-length (page + half) t u v,
                        Wrote-length (page * 2 + 1) u x y,
                        Wrote-length 4 x z k,
                      )))
