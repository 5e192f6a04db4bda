-- ===== src/Placement/Selection.antt =====
-- What `select_host_and_datastore` chooses, against a description by preference.
use cloudify_vsphere_plugin.Common.{
  ℕ, ◌≡◌, inl, inr, refl, String, Bool, true, false, Option, none, some, List, [], ◌∷◌, pos, leb_ℤ,
  find, arith, Bool-cases,
}
use cloudify_vsphere_plugin.Placement.{Template, Host}
use cloudify_vsphere_plugin.Placement.Datastores.{
  Weighted, Choice, max_from, candidate_datastores, consider, select_from,
}

-- The datastore holds the server even when its disks are full.
abbrev pub is_roomy : Choice → Bool
is_roomy c = leb_ℤ (pos 0) c.weighting

-- What a host has to offer: its datastore of the greatest weighting, if it has one.
abbrev pub best_of : Host → Weighted → List Weighted → Choice
best_of host x xs =
    let (d, w) = max_from x xs in record { host = host; datastore = d; weighting = w }

abbrev pub offer : Host → List Weighted → List Choice → List Choice
offer host [] rest = rest
offer host (x ∷ xs) rest = best_of host x xs ∷ rest

module _ (vm_memory : ℕ) (template : Template) (allowed : List String) where
  unfoldable pub offers : List Host → List Choice
  offers [] = []
  offers (host ∷ hosts) =
      offer host (candidate_datastores vm_memory template allowed host) (offers hosts)

-- The first offer that is roomy, or else the first.
abbrev pub preferred : List Choice → Option Choice
preferred [] = none
preferred (c ∷ cs) = elim (find is_roomy (c ∷ cs)) [ none ↦ some c | some r ↦ some r ]

abbrev or_keep : Choice → Option Choice → Option Choice
or_keep b none = some b
or_keep b (some r) = some r

module _ (vm_memory : ℕ) (template : Template) (allowed : List String) where
  keeps_roomy :
      (b : Choice) (hosts : List Host)
      → is_roomy b ≡ true
      → select_from vm_memory template allowed (some b) hosts ≡ some b
  unfolding select_from
  keeps_roomy b [] h = refl
  keeps_roomy b (host ∷ hosts) h =
      rw (unchanged (candidate_datastores vm_memory template allowed host)) (keeps_roomy b hosts h)
    where
      unchanged :
          (xs : List Weighted) → consider vm_memory template allowed (some b) host xs ≡ some b
      unchanged [] = refl
      unchanged (x ∷ xs) = ground arith

  improves :
      (b : Choice) (hosts : List Host)
      → is_roomy b ≡ false
      → select_from vm_memory template allowed (some b) hosts
        ≡ or_keep b (find is_roomy (offers vm_memory template allowed hosts))
  unfolding select_from offers
  improves b [] h = refl
  improves b (host ∷ hosts) h =
      after (candidate_datastores vm_memory template allowed host) (improves b hosts h)
    where
      after :
          (xs : List Weighted)
          → select_from vm_memory template allowed (some b) hosts
            ≡ or_keep b (find is_roomy (offers vm_memory template allowed hosts))
          → select_from vm_memory template allowed
              (consider vm_memory template allowed (some b) host xs)
              hosts
            ≡ or_keep b (find is_roomy (offer host xs (offers vm_memory template allowed hosts)))
      after [] rest = rest
      after (x ∷ xs) rest =
          let c : Choice = best_of host x xs in
          elim (Bool-cases (is_roomy c)) [
            | inl roomy ↦ ground (arith, keeps_roomy c hosts)
            | inr short ↦ ground (arith, rest)
          ]

  -- The choice is the first offer that holds the server with full disks, or the first of all.
  pub select_from-preferred :
      (hosts : List Host)
      → select_from vm_memory template allowed none hosts
        ≡ preferred (offers vm_memory template allowed hosts)
  unfolding select_from offers
  select_from-preferred [] = refl
  select_from-preferred (host ∷ hosts) =
      after (candidate_datastores vm_memory template allowed host) (select_from-preferred hosts)
    where
      after :
          (xs : List Weighted)
          → select_from vm_memory template allowed none hosts
            ≡ preferred (offers vm_memory template allowed hosts)
          → select_from vm_memory template allowed
              (consider vm_memory template allowed none host xs)
              hosts
            ≡ preferred (offer host xs (offers vm_memory template allowed hosts))
      after [] rest = rest
      after (x ∷ xs) rest =
          let c : Choice = best_of host x xs in
          elim (Bool-cases (is_roomy c)) [
            | inl roomy ↦ ground (arith, keeps_roomy c hosts)
            | inr short ↦ ground (arith, improves c hosts)
          ]
