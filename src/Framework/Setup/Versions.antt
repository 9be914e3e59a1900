-- ===== src/Framework/Setup/Versions.antt =====
-- `Cluster.validate_drbd_versions` of python/drbdtest.py, and what it accepts. Of the patterns of `fnmatch`, those
-- with brackets are not modelled, and a version that is given is not empty.
use drbd9_tests.Prelude.{
  ℕ, ◌≡◌, refl, Bool, true, false, not, ◌&&◌, ◌||◌, Option, none, some, List, [], ◌∷◌, String, ◌==◌,
  nat_eq, string_eq, ltb, length, all, contains, is_some, if◌then◌else◌, arith,
}
use Prim.Native.Char.{code}
use drbd9_tests.Results.{Result, ok, err, runtime_error, raise_if}
use drbd9_tests.Framework.World.{Host}

-- `fnmatch.fnmatchcase(text, pattern)`, for a pattern of `*`, `?` and plain characters
any_suffix : (String → Bool) → String → Bool
any_suffix f String.[] = f String.[]
any_suffix f (String.◌∷◌ c s) = f (String.◌∷◌ c s) || any_suffix f s

after_first : (ℕ → Bool) → (String → Bool) → String → Bool
after_first p f String.[] = false
after_first p f (String.◌∷◌ c s) = p (code c) && f s

unfoldable pub fnmatch : String → String → Bool
unfolding any_suffix after_first
fnmatch String.[] text = text == ""
fnmatch (String.◌∷◌ c pattern_rest) text =
    let rest : String → Bool = fnmatch pattern_rest in
    if code c == b'*'
    then any_suffix rest text
    else after_first (λ d. code c == b'?' || code c == d) rest text

-- The version that is expected of a host, and whether its git hash is compared.
unfoldable pub expected : Option String → Option String → Host → Option String × Bool
expected version other host =
    if is_some other && host.has_other_version then (other, false) else (version, is_some version)

unfoldable pub is_expected : Option String → Host → Bool
unfolding fnmatch
is_expected none host = true
is_expected (some p) host = fnmatch p host.drbd_version

-- `git_hashes.add(hash)`
unfoldable pub add_hash : String → List String → List String
add_hash hash hashes = if contains hash hashes then hashes else hash ∷ hashes

unfoldable pub validate_loop :
    Option String → Option String → List Host → List String → Result (List String)
unfolding expected is_expected add_hash
validate_loop version other [] hashes = ok hashes
validate_loop version other (host ∷ hosts) hashes =
    let (expect, compared) = expected version other host in
    let rest : List String → Result (List String) = validate_loop version other hosts in
    if is_expected expect host
    then rest (if compared then add_hash host.drbd_git_hash hashes else hashes)
    else err runtime_error

unfoldable pub different : Result (List String) → Result (Unit {0})
different (err e) = err e
different (ok hashes) = raise_if (ltb 1 (length hashes)) runtime_error

unfoldable pub validate_drbd_versions :
    Option String → Option String → List Host → Result (Unit {0})
unfolding validate_loop different
validate_drbd_versions version other hosts = different (validate_loop version other hosts [])

-- Every host has the version that is expected of it.
abbrev pub all_expected : Option String → Option String → List Host → Bool
all_expected version other hosts = all (λ h. is_expected (expected version other h).0 h) hosts

-- The hashes that are compared.
abbrev pub compared_hashes : Option String → Option String → List Host → List String
compared_hashes version other [] = []
compared_hashes version other (h ∷ hs) =
    let rest = compared_hashes version other hs in
    if (expected version other h).1 then h.drbd_git_hash ∷ rest else rest

abbrev pub all_same : List String → Bool
all_same [] = true
all_same (x ∷ xs) = all (λ y. x == y) xs

add_all : List String → List String → List String
add_all [] hs = hs
add_all (x ∷ xs) hs = add_all xs (add_hash x hs)

validate_loop-result :
    (version other : Option String) (hosts : List Host) (hs : List String)
    → validate_loop version other hosts hs ≡ (
        if all_expected version other hosts
        then ok (add_all (compared_hashes version other hosts) hs)
        else err runtime_error)
unfolding validate_loop add_all
validate_loop-result version other [] hs = refl
validate_loop-result version other (h ∷ hosts) hs = ground (
  arith,
  validate_loop-result version other hosts hs,
  validate_loop-result version other hosts (add_hash h.drbd_git_hash hs),
)

-- A set of hashes only grows.
add_all-grows :
    (xs : List String) (a b : String) (hs : List String)
    → ltb 1 (length (add_all xs (a ∷ b ∷ hs))) ≡ true
unfolding add_all add_hash
add_all-grows [] a b hs = ground arith
add_all-grows (x ∷ xs) a b hs =
    ground (arith, add_all-grows xs a b hs, add_all-grows xs x a (b ∷ hs))

add_all-one :
    (xs : List String) (a : String)
    → ltb 1 (length (add_all xs (a ∷ []))) ≡ not (all (λ y. a == y) xs)
unfolding add_all add_hash
add_all-one [] a = refl
add_all-one (x ∷ xs) a =
    ground (
      arith,
      add_all-one xs a,
      add_all-grows xs x a [],
      string_eq.beq_iff a x,
      string_eq.beq_iff x a,
    )

add_all-same : (xs : List String) → ltb 1 (length (add_all xs [])) ≡ not (all_same xs)
unfolding add_all add_hash
add_all-same [] = refl
add_all-same (x ∷ xs) = add_all-one xs x

-- The hosts are accepted exactly when each has the version that is expected of it, which is the other version
-- where that is installed, and all that are held to the main version have the same git hash.
pub validate_drbd_versions-accepts :
    (version other : Option String) (hosts : List Host)
    → validate_drbd_versions version other hosts ≡ (
        if all_expected version other hosts && all_same (compared_hashes version other hosts)
        then ok tt
        else err runtime_error)
unfolding validate_drbd_versions different
validate_drbd_versions-accepts version other hosts =
    rw (validate_loop-result version other hosts [])
      (ground (arith, add_all-same (compared_hashes version other hosts)))
