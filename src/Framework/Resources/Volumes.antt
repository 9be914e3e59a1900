-- ===== src/Framework/Resources/Volumes.antt =====
-- The volumes of a node, where `Node.add_disk` puts a new one or replaces one.
use drbd9_tests.Prelude.{
  ℕ, zero, suc, ◌+◌, ◌≤◌, ◌≡◌, refl, true, some, List, [], ◌∷◌, ◌++◌, length, get_elem?, set, ltb,
  arith, is_some, Option-cases, Bool-cases, inl, inr, if◌then◌else◌,
}
use drbd9_tests.Framework.World.{Node, Volume, World}
use drbd9_tests.Framework.Run.Laws.{get-set}
use drbd9_tests.Framework.Resources.{make_volume, put_disk}

-- The volumes have the numbers from i on.
abbrev pub IsAligned : ℕ → List Volume → Type 0
IsAligned i [] = Unit
IsAligned i (v ∷ vs) = (v.volume ≡ i) × IsAligned (suc i) vs

abbrev pub placed : ℕ → Volume → List Volume → List Volume
placed number v vs = if ltb number (length vs) then set vs number v else vs ++ v ∷ []

set-IsAligned :
    (i number : ℕ) (v : Volume) (vs : List Volume)
    → v.volume ≡ i + number
    → IsAligned i vs
    → IsAligned i (set vs number v)
set-IsAligned i number v [] e h = tt
set-IsAligned i zero v (u ∷ vs) e (here, rest) = (omega (arith, e), rest)
set-IsAligned i (suc number) v (u ∷ vs) e (here, rest) =
    (here, set-IsAligned (suc i) number v vs (omega (arith, e)) rest)

append-IsAligned :
    (i : ℕ) (v : Volume) (vs : List Volume)
    → v.volume ≡ i + length vs
    → IsAligned i vs
    → IsAligned i (vs ++ v ∷ [])
append-IsAligned i v [] e h = (omega (arith, e), tt)
append-IsAligned i v (u ∷ vs) e (here, rest) =
    (here, append-IsAligned (suc i) v vs (omega (arith, e)) rest)

placed-IsAligned :
    (number : ℕ) (v : Volume) (vs : List Volume)
    → v.volume ≡ number
    → number ≤ length vs
    → IsAligned 0 vs
    → IsAligned 0 (placed number v vs)
placed-IsAligned number v vs e le h = elim (Bool-cases (ltb number (length vs))) [
  | inl old ↦ rw old (set-IsAligned 0 number v vs (omega (arith, e)) h)
  | inr new ↦ rw new (append-IsAligned 0 v vs (ground (arith, e, new, le)) h)
]

-- Every volume that was there has a volume with its minor in its place.
abbrev pub KeepsMinors : List Volume → List Volume → Type 0
KeepsMinors vs us =
    (k : ℕ) (old : Volume)
    → get_elem? vs k ≡ some old
    → (new : Volume) × (get_elem? us k ≡ some new) × (new.minor ≡ old.minor)

append-KeepsMinors : (v : Volume) (vs : List Volume) → KeepsMinors vs (vs ++ v ∷ [])
append-KeepsMinors v [] k old h = absurd (cc)
append-KeepsMinors v (u ∷ vs) zero old h = (u, refl, ground (arith, h))
append-KeepsMinors v (u ∷ vs) (suc k) old h = append-KeepsMinors v vs k old h

set-KeepsMinors :
    (number : ℕ) (v u : Volume) (vs : List Volume)
    → get_elem? vs number ≡ some u
    → v.minor ≡ u.minor
    → KeepsMinors vs (set vs number v)
set-KeepsMinors number v u [] g e k old h = absurd (cc)
set-KeepsMinors zero v u (x ∷ vs) g e zero old h = (v, refl, ground (arith, g, e, h))
set-KeepsMinors zero v u (x ∷ vs) g e (suc k) old h = (old, h, refl)
set-KeepsMinors (suc number) v u (x ∷ vs) g e zero old h = (x, refl, ground (arith, h))
set-KeepsMinors (suc number) v u (x ∷ vs) g e (suc k) old h =
    set-KeepsMinors number v u vs g e k old h

bounds : (vs : List Volume) (number : ℕ) → ltb number (length vs) ≡ is_some (get_elem? vs number)
bounds [] number = ground arith
bounds (u ∷ vs) zero = ground arith
bounds (u ∷ vs) (suc number) = ground (arith, bounds vs number)

placed-KeepsMinors :
    (number : ℕ) (v : Volume) (vs : List Volume)
    → ((u : Volume) → get_elem? vs number ≡ some u → v.minor ≡ u.minor)
    → KeepsMinors vs (placed number v vs)
placed-KeepsMinors number v vs same = elim (Option-cases (get_elem? vs number)) [
  | inl absent ↦ rw (bounds vs number, absent) (append-KeepsMinors v vs)
  | inr (u, found) ↦
      rw (bounds vs number, found) (set-KeepsMinors number v u vs found (same u found))
]

-- What `make_volume` makes: the number that was asked for, the minor of the volume in its place, and
-- the same nodes.
made-new :
    (n number : ℕ) (w : World) (node : Node)
    → get_elem? w.nodes n ≡ some node
    → ((make_volume n number w).0.volume ≡ number)
      × ((u : Volume)
          → get_elem? node.disks number ≡ some u
          → (make_volume n number w).0.minor ≡ u.minor)
      × ((make_volume n number w).1.nodes ≡ w.nodes)
unfolding make_volume
made-new n number w node found = elim (Option-cases (get_elem? node.disks number)) [
  | inl absent ↦ rw (found, absent, make_volume) (refl, λ u there. absurd (cc (there)), refl)
  | inr (old, there) ↦ rw (found, there, make_volume) (refl, λ u same. ground (arith, same), refl)
]

-- Where the volumes of a node are numbered by their positions, and a volume is put in at one of them
-- or right behind them, they are numbered by their positions afterwards too, every volume that was
-- there keeps its minor number, and the configuration of the node is marked as stale.
pub put_disk-IsAligned :
    (n number : ℕ) (w : World) (node : Node)
    → get_elem? w.nodes n ≡ some node
    → IsAligned 0 node.disks
    → number ≤ length node.disks
    → let (v, t) = make_volume n number w in
      (out : Node) × (get_elem? (put_disk n number v t).nodes n ≡ some out)
      × IsAligned 0 out.disks
      × KeepsMinors node.disks out.disks
      × (out.config_changed ≡ true)
unfolding put_disk
put_disk-IsAligned n number w node found aligned le =
    let v = (make_volume n number w).0 in
    let (numbered, same, nodes) = made-new n number w node found in
    let out : Node = record node { disks = placed number v node.disks; config_changed = true } in
    (
      out,
      rw (nodes, found) (get-set w.nodes n node out found),
      placed-IsAligned number v node.disks numbered le aligned,
      placed-KeepsMinors number v node.disks same,
      refl,
    )
