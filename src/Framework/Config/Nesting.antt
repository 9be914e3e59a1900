-- ===== src/Framework/Config/Nesting.antt =====
-- The file that `Node.config` writes is well nested, and every line is indented for its depth.
use drbd9_tests.Prelude.{
  ℕ, zero, suc, ◌+◌, ◌≡◌, ◌∙◌, ap, sym, refl, Bool, true, false, Option, none, some, List, [], ◌∷◌,
  ◌++◌, String, ◌==◌, string_eq, nat_eq, length, drop, if◌then◌else◌, arith,
}
use mathlib.Core.List.{append-nil, append_assoc}
use drbd9_tests.Framework.World.{Host, Volume}
use drbd9_tests.Framework.Config.{
  Line, opening, closing, entry, Writer, Script, ◌>>◌, skip, for_each, block_indent, with_block,
  write, write_tiebreaker, config_volume,
}

-- The indentation of a block that is opened inside `depth` blocks.
abbrev pub indent_at : ℕ → ℕ
indent_at zero = 0
indent_at (suc depth) = depth + 2

-- Reads lines inside `depth` blocks: `none` if a closing line has no block, or if a line is not
-- indented for its depth; otherwise the depth at the end.
unfoldable pub depth_after : ℕ → List Line → Option ℕ
depth_after depth [] = some depth
depth_after depth (opening i name ∷ rest) =
    let more = depth_after (suc depth) rest in if i == indent_at depth then more else none
depth_after zero (closing i ∷ rest) = none
depth_after (suc depth) (closing i ∷ rest) =
    let more = depth_after depth rest in if i == indent_at depth then more else none
depth_after zero (entry i text ∷ rest) = none
depth_after (suc depth) (entry i text ∷ rest) =
    let more = depth_after (suc depth) rest in if i == indent_at depth + 1 then more else none

-- A script that, inside `depth` blocks, writes complete blocks and lines, and leaves the stack as it
-- was.
pub record IsNested (depth : ℕ) (f : Script) : Type 0 where
  pub written : Writer → List Line
  pub adds : (w : Writer) → length w.stack ≡ suc depth → (f w).lines ≡ w.lines ++ written w
  pub keeps_stack : (w : Writer) → length w.stack ≡ suc depth → (f w).stack ≡ w.stack
  pub level :
      (w : Writer)
      → length w.stack ≡ suc depth
      → (rest : List Line) → depth_after depth (written w ++ rest) ≡ depth_after depth rest

pub skip-IsNested : (depth : ℕ) → IsNested depth skip
skip-IsNested depth = record {
  written = λ w. [];
  adds = λ w s. sym (append-nil w.lines);
  keeps_stack = λ w s. refl;
  level = λ w s rest. refl;
}

pub >>-IsNested :
    (depth : ℕ) (f g : Script) → IsNested depth f → IsNested depth g → IsNested depth (f >> g)
>>-IsNested depth f g p q = record {
  written = λ w. p.written w ++ q.written (f w);
  adds =
      λ w s. q.adds (f w) (rw (p.keeps_stack w s) s) ∙ rw (p.adds w s) (append_assoc w.lines _ _);
  keeps_stack = λ w s. q.keeps_stack (f w) (rw (p.keeps_stack w s) s) ∙ p.keeps_stack w s;
  level = λ w s rest.
      rw append_assoc
        (p.level w s (q.written (f w) ++ rest) ∙ q.level (f w) (rw (p.keeps_stack w s) s) rest);
}

pub if-IsNested :
    (depth : ℕ) (b : Bool) (f g : Script)
    → IsNested depth f
    → IsNested depth g
    → IsNested depth (if b then f else g)
if-IsNested depth true f g p q = p
if-IsNested depth false f g p q = q

pub for_each-IsNested {ℓ} :
    {A : Type ℓ} (depth : ℕ) (xs : List A) (f : A → Script)
    → ((x : A) → IsNested depth (f x))
    → IsNested depth (for_each xs f)
unfolding for_each
for_each-IsNested depth [] f p = skip-IsNested depth
for_each-IsNested depth (x ∷ xs) f p =
    >>-IsNested depth (f x) (for_each xs f) (p x) (for_each-IsNested depth xs f p)

pub write-IsNested :
    (depth : ℕ) (text : String) → IsNested (suc depth) (write (indent_at depth) text)
unfolding write depth_after
write-IsNested depth text = record {
  written = λ w. entry (indent_at depth + 1) text ∷ [];
  adds = λ w s. refl;
  keeps_stack = λ w s. refl;
  level = λ w s rest. ground arith;
}

block_indent-indent_at :
    (depth : ℕ) (stack : List String)
    → length stack ≡ suc depth
    → block_indent stack ≡ indent_at depth
block_indent-indent_at depth [] h = absurd (omega arith)
block_indent-indent_at zero (x ∷ []) h = refl
block_indent-indent_at (suc depth) (x ∷ []) h = absurd (omega arith)
block_indent-indent_at zero (x ∷ y ∷ stack) h = absurd (omega arith)
block_indent-indent_at (suc depth) (x ∷ y ∷ stack) h = omega arith

abbrev entered : ℕ → String → Writer → Writer
entered i name w = record { stack = name ∷ w.stack; lines = w.lines ++ opening i name ∷ [] }

abbrev left : ℕ → Writer → Writer
left i w = record { stack = drop 1 w.stack; lines = w.lines ++ closing i ∷ [] }

with_block_lem :
    (depth : ℕ) (name : String) (body : ℕ → Script) (w : Writer)
    → length w.stack ≡ suc depth
    → with_block name body w
      ≡ left (indent_at depth) (body (indent_at depth) (entered (indent_at depth) name w))
unfolding with_block
with_block_lem depth name body w s =
    ap (λ i. left i (body i (entered i name w))) (block_indent-indent_at depth w.stack s)

depth_after-opening :
    (depth : ℕ) (name : String) (rest : List Line)
    → depth_after depth (opening (indent_at depth) name ∷ rest) ≡ depth_after (suc depth) rest
unfolding depth_after
depth_after-opening zero name rest = refl
depth_after-opening (suc depth) name rest = ground arith

depth_after-closing :
    (depth : ℕ) (rest : List Line)
    → depth_after (suc depth) (closing (indent_at depth) ∷ rest) ≡ depth_after depth rest
unfolding depth_after
depth_after-closing zero rest = refl
depth_after-closing (suc depth) rest = ground arith

module _ (depth : ℕ) (name : String) (body : ℕ → Script)
    (p : IsNested (suc depth) (body (indent_at depth))) where
  abbrev first : Writer → Writer
  first = entered (indent_at depth) name

  pub with_block-IsNested : IsNested depth (with_block name body)
  with_block-IsNested = record {
    written = λ w.
        opening (indent_at depth) name ∷ (p.written (first w) ++ closing (indent_at depth) ∷ []);
    adds = λ w s.
        ap (λ (x : Writer). x.lines) (with_block_lem depth name body w s)
        ∙ rw (p.adds (first w) (ap suc s)) (
            append_assoc (w.lines ++ opening (indent_at depth) name ∷ []) (p.written (first w)) _
            ∙ append_assoc w.lines _ _);
    keeps_stack = λ w s.
        ap (λ (x : Writer). x.stack) (with_block_lem depth name body w s)
        ∙ ap (drop 1) (p.keeps_stack (first w) (ap suc s));
    level = λ w s rest.
        depth_after-opening depth name _
        ∙ rw append_assoc (p.level (first w) (ap suc s) _ ∙ depth_after-closing depth rest);
  }

pub ruleset nested_rules = (skip-IsNested, >>-IsNested, if-IsNested, write-IsNested)

pub write_tiebreaker-IsNested :
    (depth : ℕ) (t : Option Bool) → IsNested (suc depth) (write_tiebreaker (indent_at depth) t)
unfolding write_tiebreaker
write_tiebreaker-IsNested depth none = skip-IsNested (suc depth)
write_tiebreaker-IsNested depth (some t) = write-IsNested depth _

pub config_volume-IsNested :
    (depth : ℕ) (host : Host) (v : ℕ × Volume) → IsNested depth (config_volume host v)
unfolding config_volume
config_volume-IsNested depth host (index, disk) =
    with_block-IsNested depth _ _ (search (nested_rules, write_tiebreaker-IsNested))
