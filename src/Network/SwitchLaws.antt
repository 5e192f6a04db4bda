-- ===== src/Network/SwitchLaws.antt =====
-- What the searches over the switches of the hosts find.
use cloudify_vsphere_plugin.Common.{
  contains, union, contains-union, ℕ, ◌≡◌, refl, sym, ap, ◌∙◌, String, Bool, ◌||◌, List, [], ◌∷◌,
  ◌++◌, map, filter, any, ℤ, pos, negsuc, ltb, Bool-cases, inl, inr, arith, if◌then◌else◌,
}
use cloudify_vsphere_plugin.Network.{Vswitch, Host}
use cloudify_vsphere_plugin.Network.Switches.{
  union_from, switch_names, get_vswitches, lower_mtu, mtu_of_switches, mtu_of_hosts,
}

contains-union_from :
    (n : String) (found : List String) (hosts : List Host)
    → contains n (union_from found hosts)
      ≡ (contains n found || any (λ h. contains n (switch_names h)) hosts)
unfolding union_from
contains-union_from n found [] = ground arith
contains-union_from n found (h ∷ hs) = ground (
  arith,
  contains-union_from n (union found (switch_names h)) hs,
  contains-union n found (switch_names h),
)

-- A name is listed by get_vswitches if and only if some host has a switch of that name.
pub contains-get_vswitches :
    (name : String) (hosts : List Host)
    → contains name (get_vswitches hosts) ≡ any (λ h. contains name (switch_names h)) hosts
unfolding get_vswitches
contains-get_vswitches name hosts = contains-union_from name [] hosts

abbrev pub min_from : ℕ → List ℕ → ℕ
min_from m [] = m
min_from m (n ∷ ns) = min_from (if ltb n m then n else m) ns

-- The lowest of the numbers; -1 is the lowest of none.
abbrev pub lowest : List ℕ → ℤ
lowest [] = negsuc 0
lowest (n ∷ ns) = pos (min_from n ns)

abbrev pub all_switches : List Host → List Vswitch
all_switches [] = []
all_switches (h ∷ hs) = h.vswitches ++ all_switches hs

abbrev pub mtus : (Vswitch → Bool) → List Vswitch → List ℕ
mtus test ss = map (λ (s : Vswitch). s.mtu) (filter test ss)

abbrev lowest_from : ℤ → List ℕ → ℤ
lowest_from m [] = m
lowest_from m (n ∷ ns) = lowest_from (lower_mtu m n) ns

lowest_from-pos : (m : ℕ) (ns : List ℕ) → lowest_from (pos m) ns ≡ pos (min_from m ns)
lowest_from-pos m [] = refl
lowest_from-pos m (n ∷ ns) = elim (Bool-cases (ltb n m)) [
  | inl less ↦ ground (arith, lowest_from-pos n ns)
  | inr more ↦ ground (arith, lowest_from-pos m ns)
]

lowest_from-none : (ns : List ℕ) → lowest_from (negsuc 0) ns ≡ lowest ns
lowest_from-none [] = refl
lowest_from-none (n ∷ ns) = lowest_from-pos n ns

lowest_from-switches :
    (test : Vswitch → Bool) (m : ℤ) (ss : List Vswitch) (ns : List ℕ)
    → lowest_from (mtu_of_switches test m ss) ns ≡ lowest_from m (mtus test ss ++ ns)
unfolding mtu_of_switches
lowest_from-switches test m [] ns = refl
lowest_from-switches test m (s ∷ ss) ns = elim (Bool-cases (test s)) [
  | inl good ↦ rw good (lowest_from-switches test (lower_mtu m s.mtu) ss ns)
  | inr bad ↦ rw bad (lowest_from-switches test m ss ns)
]

mtus-append :
    (test : Vswitch → Bool) (ss ts : List Vswitch)
    → mtus test (ss ++ ts) ≡ mtus test ss ++ mtus test ts
mtus-append test [] ts = refl
mtus-append test (s ∷ ss) ts = elim (Bool-cases (test s)) [
  | inl good ↦ rw good (ap (λ ns. s.mtu ∷ ns) (mtus-append test ss ts))
  | inr bad ↦ rw bad (mtus-append test ss ts)
]

mtu_of_hosts-from :
    (test : Vswitch → Bool) (m : ℤ) (hosts : List Host)
    → mtu_of_hosts test m hosts ≡ lowest_from m (mtus test (all_switches hosts))
unfolding mtu_of_hosts
mtu_of_hosts-from test m [] = refl
mtu_of_hosts-from test m (h ∷ hs) =
    mtu_of_hosts-from test (mtu_of_switches test m h.vswitches) hs
    ∙ lowest_from-switches test m h.vswitches (mtus test (all_switches hs))
    ∙ ap (lowest_from m) (sym (mtus-append test h.vswitches (all_switches hs)))

-- The search over the hosts gives the lowest MTU of all switches that pass the test, on whichever
-- host they are, and -1 if there is none.
pub mtu_of_hosts-lowest :
    (test : Vswitch → Bool) (hosts : List Host)
    → mtu_of_hosts test (negsuc 0) hosts ≡ lowest (mtus test (all_switches hosts))
mtu_of_hosts-lowest test hosts =
    mtu_of_hosts-from test (negsuc 0) hosts ∙ lowest_from-none (mtus test (all_switches hosts))
