-- ===== src/Framework/Hosts/Addresses.antt =====
-- The addresses that `LinuxPlatformHelper.init_host` reads.
use drbd9_tests.Prelude.{
  ◌≡◌, refl, ap, sym, ◌∙◌, Bool, true, false, ◌||◌, Option, none, some, List, [], ◌∷◌, ◌++◌, String,
  ◌==◌, string_eq, Option-cases, Bool-cases, inl, inr, if◌then◌else◌,
}
use mathlib.Core.List.{append_assoc, append-nil}
use drbd9_tests.Prelude.Dict.{insert, lookup, lookup-insert}
use drbd9_tests.Framework.Hosts.Output.{match_address}
use drbd9_tests.Framework.Hosts.{Netdevs, read_addresses}

-- The entries of a line that count: those that are not the loopback and not the host's own address.
abbrev pub further : String → List String → List (String × (String × String))
further own [] = []
further own (line ∷ lines) =
    let rest = further own lines in
    elim (match_address line) [
      | none ↦ rest
      | some found ↦ if found.1.0 == "127.0.0.1" || found.1.0 == own then rest else found ∷ rest
    ]

abbrev pub addresses : List (String × (String × String)) → List String
addresses [] = []
addresses ((device, (addr, prefix)) ∷ found) = addr ∷ addresses found

-- The last entry of a device, or what was there before.
abbrev pub last_of :
    String → List (String × (String × String)) → Option (String × String) → Option (String × String)
last_of dev [] before = before
last_of dev ((device, address) ∷ found) before =
    last_of dev found (if dev == device then some address else before)

if_same : {A : Type 0} (b : Bool) (a : A) → (if b then a else a) ≡ a
if_same true a = refl
if_same false a = refl

grown :
    (multi_paths : Bool) (addrs : List String) (addr : String) (rest : List String)
    → (if multi_paths then addrs ++ addr ∷ [] else addrs) ++ (if multi_paths then rest else [])
      ≡ addrs ++ (if multi_paths then addr ∷ rest else [])
grown true addrs addr rest = append_assoc addrs (addr ∷ []) rest
grown false addrs addr rest = refl

-- The host gets, besides the addresses that it has, all further addresses in the order of the lines for several
-- paths and none otherwise; and each network device gets the last address that a line gives it.
read_addresses-further :
    (own : String) (multi_paths : Bool) (lines : List String) (addrs : List String) (devs : Netdevs)
    → ((read_addresses own multi_paths lines (addrs, devs)).0
        ≡ addrs ++ (if multi_paths then addresses (further own lines) else []))
      × ((dev : String)
          → lookup dev (read_addresses own multi_paths lines (addrs, devs)).1
            ≡ last_of dev (further own lines) (lookup dev devs))
unfolding read_addresses
read_addresses-further own multi_paths [] addrs devs =
    (rw (if_same {A = List String} multi_paths []) (sym (append-nil addrs)), λ dev. refl)
read_addresses-further own multi_paths (line ∷ lines) addrs devs =
    elim (Option-cases (match_address line)) [
      | inl other ↦
          rw (other, read_addresses, further)
            (read_addresses-further own multi_paths lines addrs devs)
      | inr ((device, (addr, prefix)), found) ↦
          rw (found, read_addresses, further)
            (elim (Bool-cases (addr == "127.0.0.1" || addr == own)) [
              | inl own_address ↦
                  rw own_address (read_addresses-further own multi_paths lines addrs devs)
              | inr other ↦ rw other (
                  let (p, q) =
                    read_addresses-further own multi_paths lines
                      (if multi_paths then addrs ++ addr ∷ [] else addrs)
                      (insert device (addr, prefix) devs) in
                  (
                    p ∙ grown multi_paths addrs addr (addresses (further own lines)),
                    λ dev.
                        q dev
                        ∙ ap (last_of dev (further own lines))
                            (lookup-insert dev device (addr, prefix) devs),
                  ))
            ])
    ]
