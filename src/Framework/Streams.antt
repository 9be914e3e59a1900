-- ===== src/Framework/Streams.antt =====
-- The log of a host in python/drbdtest.py and python/drbdtestlogger.py: `FirstWriteTrap` takes the first message,
-- and hands the others on to a `Tee`, which repeats them on its streams. A stream is a number, with the messages
-- that were written to it; a write is one step, as no other thread sees it half done.
use drbd9_tests.Prelude.{
  ℕ, ◌≡◌, refl, ap, sym, ◌∙◌, Bool, true, false, not, ◌&&◌, ◌||◌, Option, none, some, List, [], ◌∷◌,
  ◌++◌, String, ◌==◌, nat_eq, contains, if◌then◌else◌, arith, Bool-cases, Option-cases, inl, inr,
}
use drbd9_tests.Results.{Result, ok, err, key_error, ◌>>=◌, >>=-eq-ok, ok_injective}
use drbd9_tests.OrderedSet
use drbd9_tests.OrderedSet.Invariant.{
  Distinct, Distinct-append, contains-append, contains-remove, remove-Distinct,
}

pub record Log : Type 0 where
  pub first_message : Option String
  pub streams : List ℕ
  pub contents : ℕ → List String

-- `Tee.add` and `Tee.remove`: a set of streams, replaced by a changed copy.
unfoldable pub add : ℕ → Log → Log
add s log = record log {
  streams = if contains s log.streams then log.streams else log.streams ++ s ∷ [];
}

unfoldable pub remove : ℕ → Log → Result Log
remove s log =
    if contains s log.streams
    then ok (record log { streams = OrderedSet.remove s log.streams })
    else err key_error

-- `Tee.write`
unfoldable pub write_streams : List ℕ → String → (ℕ → List String) → ℕ → List String
write_streams [] message contents = contents
write_streams (s ∷ ss) message contents =
    write_streams ss message (λ t. if t == s then contents t ++ message ∷ [] else contents t)

unfoldable pub tee_write : String → Log → Log
unfolding write_streams
tee_write message log = record log { contents = write_streams log.streams message log.contents }

-- `FirstWriteTrap.write`, by the message that was kept
unfoldable pub write_after : Option String → String → Log → Log
unfolding tee_write
write_after none message log = record log { first_message = some message }
write_after (some first) message log = tee_write message log

unfoldable pub write : String → Log → Log
unfolding write_after
write message log = write_after log.first_message message log

-- The calls that reach the log of a host while it is captured.
pub data Call : Type 0 where
  attached detached : ℕ → Call
  received : String → Call

unfoldable pub perform : Call → Log → Result Log
unfolding add remove write
perform (attached s) log = ok (add s log)
perform (detached s) log = remove s log
perform (received message) log = ok (write message log)

unfoldable pub perform_all : List Call → Log → Result Log
unfolding perform
perform_all [] log = ok log
perform_all (c ∷ cs) log = do next ← perform c log; perform_all cs next

-- What is promised of one stream: the first message of all is kept aside, and the stream gets every later one
-- that comes while it is attached.
pub record View : Type 0 where
  pub first_message : Option String
  pub is_attached : Bool
  pub text : List String

abbrev pub seen : View → Call → ℕ → View
seen v (attached t) s = record v { is_attached = v.is_attached || s == t }
seen v (detached t) s = record v { is_attached = v.is_attached && not (s == t) }
seen v (received m) s = elim v.first_message [
  | none ↦ record v { first_message = some m }
  | some first ↦ if v.is_attached then record v { text = v.text ++ m ∷ [] } else v
]

abbrev pub seen_all : View → List Call → ℕ → View
seen_all v [] s = v
seen_all v (c ∷ cs) s = seen_all (seen v c s) cs s

abbrev pub view : ℕ → Log → View
view s log = record {
  first_message = log.first_message;
  is_attached = contains s log.streams;
  text = log.contents s;
}

write_streams-at :
    (ss : List ℕ) (m : String) (contents : ℕ → List String) (s : ℕ)
    → Distinct ss
    → write_streams ss m contents s ≡ (if contains s ss then contents s ++ m ∷ [] else contents s)
unfolding write_streams
write_streams-at [] m contents s d = refl
write_streams-at (x ∷ ss) m contents s (fresh, d) =
    write_streams-at ss m (λ t. if t == x then contents t ++ m ∷ [] else contents t) s d
    ∙ ground (arith, fresh, nat_eq.beq_iff s x)

abbrev with_attached : Log → ℕ → Bool → View
with_attached log s b = record {
  first_message = log.first_message;
  is_attached = b;
  text = log.contents s;
}

added :
    (t s : ℕ) (xs : List ℕ)
    → Distinct xs
    → (contains s (if contains t xs then xs else xs ++ t ∷ []) ≡ (contains s xs || s == t))
      × Distinct (if contains t xs then xs else xs ++ t ∷ [])
added t s xs d = elim (Bool-cases (contains t xs)) [
  | inl known ↦ rw known (ground (arith, known, nat_eq.beq_iff s t), d)
  | inr fresh ↦
      rw fresh (ground (arith, contains-append s xs (t ∷ [])), Distinct-append xs t fresh d)
]

removed :
    (t s : ℕ) (log out : Log)
    → Distinct log.streams
    → remove t log ≡ ok out
    → (view s out ≡ seen (view s log) (detached t) s) × Distinct out.streams
unfolding remove
removed t s log out d h = elim (Bool-cases (contains t log.streams)) [
  | inl known ↦
      let same : record log { streams = OrderedSet.remove t log.streams } ≡ out =
        ok_injective (rw known at h) in
      rw (← same) (
        ap (with_attached log s) (contains-remove s t log.streams d),
        remove-Distinct t log.streams d,
      )
  | inr absent ↦ absurd (cc (rw absent at h))
]

abbrev one_view : Option String → Bool → List String → View
one_view o b text = record { first_message = o; is_attached = b; text = text }

by_attached :
    (o : Option String) (b : Bool) (text : List String) (m : String)
    → one_view o b (if b then text ++ m ∷ [] else text)
      ≡ (if b then one_view o b (text ++ m ∷ []) else one_view o b text)
by_attached o true text m = refl
by_attached o false text m = refl

tee_write-seen :
    (m : String) (s : ℕ) (log : Log) (first : String)
    → log.first_message ≡ some first
    → Distinct log.streams
    → view s (tee_write m log) ≡ seen (view s log) (received m) s
unfolding tee_write
tee_write-seen m s log first captured d =
    ap (one_view log.first_message (contains s log.streams))
      (write_streams-at log.streams m log.contents s d)
    ∙ (by_attached log.first_message (contains s log.streams) (log.contents s) m ∙ rw captured refl)

write-seen :
    (m : String) (s : ℕ) (log : Log)
    → Distinct log.streams
    → (view s (write m log) ≡ seen (view s log) (received m) s) × Distinct (write m log).streams
unfolding write write_after
write-seen m s log d = elim (Option-cases log.first_message) [
  | inl waiting ↦ rw (waiting, write) (refl, d)
  | inr (first, captured) ↦
      let passed : write m log ≡ tee_write m log = ap (λ o. write_after o m log) captured in
      rw passed (tee_write-seen m s log first captured d, d)
]

perform-seen :
    (c : Call) (log out : Log) (s : ℕ)
    → Distinct log.streams
    → perform c log ≡ ok out
    → (view s out ≡ seen (view s log) c s) × Distinct out.streams
unfolding perform add
perform-seen (attached t) log out s d h =
    let same : add t log ≡ out = ok_injective h in
    let (contained, distinct) = added t s log.streams d in
    rw (← same) (ap (with_attached log s) contained, distinct)
perform-seen (detached t) log out s d h = removed t s log out d h
perform-seen (received m) log out s d h =
    let same : write m log ≡ out = ok_injective h in rw (← same) (write-seen m s log d)

-- The log refines its description by single streams: when no stream is attached twice at first and every stream that is
-- detached was attached, then after any sequence of calls each stream has what it is promised, which is every
-- message but the very first that came while it was attached, in their order and once.
pub perform_all-seen :
    (cs : List Call) (log out : Log) (s : ℕ)
    → Distinct log.streams
    → perform_all cs log ≡ ok out
    → view s out ≡ seen_all (view s log) cs s
unfolding perform_all
perform_all-seen [] log out s d h = ap (view s) (ok_injective (sym h))
perform_all-seen (c ∷ cs) log out s d h =
    let (next, one, rest) = >>=-eq-ok (perform c log) (perform_all cs) h in
    let (same, distinct) = perform-seen c log next s d one in
    perform_all-seen cs next out s distinct rest ∙ ap (λ v. seen_all v cs s) same
