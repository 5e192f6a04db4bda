-- ===== src/Placement/Datastores.antt =====
-- ServerClient.datastore_is_usable, calculate_datastore_weighting and select_host_and_datastore.
use cloudify_vsphere_plugin.Common.{
  contains, ℕ, ◌+◌, ◌*◌, String, Bool, true, ◌&&◌, Option, none, some, List, [], ◌∷◌, ℤ, pos, ◌-ℤ◌,
  ltb_ℤ, leb_ℤ, filter, Result, ok, err, non_recoverable, if◌then◌else◌,
}
use cloudify_vsphere_plugin.Placement.{Datastore, Template, Host, is_healthy}

-- `if allowed: xs = [x for x in xs if x.name in allowed]`, where an empty list allows everything
abbrev pub is_allowed : List String → String → Bool
is_allowed [] name = true
is_allowed (a ∷ as') name = contains name (a ∷ as')

unfoldable pub datastore_is_usable : Datastore → Bool
datastore_is_usable d = is_healthy d.overall_status && d.accessible

-- `none` if the datastore is too small. Memory is given in MB, space in bytes.
unfoldable pub calculate_datastore_weighting : Datastore → ℕ → Template → Option ℤ
calculate_datastore_weighting d vm_memory template =
    let vm_memory_e2 = vm_memory * 1024 * 1024 in
    let minimum_used = template.committed + vm_memory_e2 in
    let maximum_used = minimum_used + template.uncommitted in
    if ltb_ℤ (pos d.free_space -ℤ pos minimum_used) (pos 0)
    then none
    else some (pos d.free_space -ℤ pos maximum_used)

-- A datastore that fits, and its weighting.
abbrev pub Weighted : Type 0
Weighted = Datastore × ℤ

-- Python's `max(…, key=…)`: the first of the greatest.
abbrev pub max_from : Weighted → List Weighted → Weighted
max_from best [] = best
max_from best (x ∷ xs) = max_from (if ltb_ℤ best.1 x.1 then x else best) xs

-- The best choice so far: host, datastore, weighting.
pub record Choice : Type 0 where
  pub host : Host
  pub datastore : Datastore
  pub weighting : ℤ

-- A datastore is kept with its weighting, or dropped.
abbrev pub keep_weighted : Datastore → Option ℤ → List Weighted → List Weighted
keep_weighted d none rest = rest
keep_weighted d (some w) rest = (d, w) ∷ rest

unfoldable pub weigh : ℕ → Template → List Datastore → List Weighted
weigh vm_memory template [] = []
weigh vm_memory template (d ∷ ds) =
    keep_weighted d (calculate_datastore_weighting d vm_memory template)
      (weigh vm_memory template ds)

module _ (vm_memory : ℕ) (template : Template) (allowed_datastores : List String) where
  -- The datastores of a host that are allowed, healthy and large enough.
  unfoldable pub candidate_datastores : Host → List Weighted
  unfolding weigh calculate_datastore_weighting datastore_is_usable
  candidate_datastores host = weigh vm_memory template (
      filter datastore_is_usable
        (filter (λ d. is_allowed allowed_datastores d.name) host.datastores))

  -- What one host changes about the best choice: a choice gives way only if it cannot hold the full
  -- disk of the server and the new one can.
  unfoldable pub consider : Option Choice → Host → List Weighted → Option Choice
  consider best host [] = best
  consider best host (x ∷ xs) =
      let (d, w) = max_from x xs in
      let candidate : Choice = record { host = host; datastore = d; weighting = w } in
      elim best [
        | none ↦ some candidate
        | some b ↦ if ltb_ℤ b.weighting (pos 0) && leb_ℤ (pos 0) w then some candidate else some b
      ]

  unfoldable pub select_from : Option Choice → List Host → Option Choice
  unfolding consider candidate_datastores
  select_from best [] = best
  select_from best (host ∷ hosts) =
      select_from (consider best host (candidate_datastores host)) hosts

  unfoldable pub select_host_and_datastore : List Host → Result (Host × Datastore)
  unfolding select_from
  select_host_and_datastore hosts = elim (select_from none hosts) [
    | none ↦ err (non_recoverable "No datastores found with enough space.")
    | some c ↦ ok (c.host, c.datastore)
  ]
