-- ===== src/Placement/Finding.antt =====
-- What `find_candidate_hosts` returns, and the placement that `create_server` composes of it.
use cloudify_vsphere_plugin.Common.{
  ◌≡◌, ◌≢◌, ◌↔◌, ◌⊎◌, inl, inr, refl, sym, ap, subst, ◌∙◌, String, Bool, true, Option, none, some,
  List, [], ◌∷◌, map, filter, Within, Within-of_filter, filter_of_Within, Result, ok, err,
  non_recoverable, is_ok, and_then-eq-ok, arith,
}
use cloudify_vsphere_plugin.Placement.{Pool, Host, Template, Datastore}
use cloudify_vsphere_plugin.Placement.Datastores.{is_allowed, select_host_and_datastore}
use cloudify_vsphere_plugin.Placement.Choices.{IsAcceptable, selection_sound}
use cloudify_vsphere_plugin.Placement.PoolTree.{
  pool_name, get_resource_pool, IsPoolOf, get_resource_pool_found,
}
use cloudify_vsphere_plugin.Placement.Ratings.{
  Floats, total_memory, rated, host_cpu_thread_usage_ratio, host_memory_usage_ratio,
}
use cloudify_vsphere_plugin.Placement.Sorting.{
  sort_descending, IsDescending, sort_descending-IsDescending, Within-of_sort, sort_of_Within,
}
use cloudify_vsphere_plugin.Placement.Hosts.{
  Wanted, Rated, examine, append_rated, examine_all, rating, or_no_host, find_candidate_hosts,
}
use cloudify_vsphere_plugin.Placement.Candidates.{
  IsSuitable, IsRated, cluster_iff, pool_iff, networks_of_covered, covered_of_networks,
  examine_found, examine_passed_over,
}

module _ (f : Floats) (r : Wanted) where
  abbrev allowed_test : Host → Bool
  allowed_test h = is_allowed r.allowed_hosts h.name

  -- Whoever passes the tests of the loop is suitable, and the other way round.
  IsSuitable-of_found :
      (host : Host) (c : Rated f)
      → allowed_test host ≡ true
      → examine f r host ≡ ok (some c)
      → (c.host ≡ host) × IsSuitable r host × IsRated f r c
  IsSuitable-of_found host c good e =
      let (same, usable, cluster, pool, covered, cpu, memory) = examine_found f r host e in
      (
        same,
        record {
          allowed = good;
          usable = usable;
          cluster = (cluster_iff r.allowed_clusters host).0 cluster;
          pool = (pool_iff r.resource_pool host).0 pool;
          networks = networks_of_covered r.vm_networks host.networks covered;
        },
        (
          subst (λ h. host_cpu_thread_usage_ratio f h r.vm_cpus ≡ ok c.cpu) (sym same) cpu,
          subst (λ h. host_memory_usage_ratio f h r.vm_memory ≡ ok c.memory) (sym same) memory,
        ),
      )

  passed_over_is_unsuitable : (host : Host) → examine f r host ≡ ok none → ¬ (IsSuitable r host)
  passed_over_is_unsuitable host e s =
      examine_passed_over f r host e s.usable ((cluster_iff r.allowed_clusters host).1 s.cluster)
        ((pool_iff r.resource_pool host).1 s.pool)
        (covered_of_networks r.vm_networks host.networks s.networks)

  split_all :
      (host : Host) (hosts : List Host) {cs : List (Rated f)}
      → examine_all f r (host ∷ hosts) ≡ ok cs
      → (o : Option (Rated f)) × (examine f r host ≡ ok o)
        × (rest : List (Rated f)) × (examine_all f r hosts ≡ ok rest)
        × (append_rated f o rest ≡ cs)
  unfolding examine_all
  split_all host hosts e =
      let (o, first, e') = and_then-eq-ok (examine f r host) _ e in
      let (rest, others, e'') = and_then-eq-ok (examine_all f r hosts) _ e' in
      (o, first, rest, others, cc)

  all_found :
      (c : Rated f) (hosts : List Host) {cs : List (Rated f)}
      → examine_all f r hosts ≡ ok cs
      → Within c cs
      → (h : Host) × Within h hosts × (examine f r h ≡ ok (some c))
  unfolding examine_all
  all_found c [] {cs} e m = absurd (subst (Within c) nothing m)
    where
      nothing : cs ≡ []
      nothing = cc
  all_found c (host ∷ hosts) e m =
      let (o, first, rest, others, whole) = split_all host hosts e in
      from o first rest (all_found c hosts others) (subst (Within c) (sym whole) m)
    where
      from :
          (o : Option (Rated f))
          → examine f r host ≡ ok o
          → (rest : List (Rated f))
          → (Within c rest → (h : Host) × Within h hosts × (examine f r h ≡ ok (some c)))
          → Within c (append_rated f o rest)
          → (h : Host) × Within h (host ∷ hosts) × (examine f r h ≡ ok (some c))
      from none first rest later k = let (h, there, found) = later k in (h, inr there, found)
      from (some x) first rest later (inl same) =
          (host, inl refl, first ∙ ap (λ y. ok (some y)) (sym same))
      from (some x) first rest later (inr k) =
          let (h, there, found) = later k in (h, inr there, found)

  all_examined :
      (h : Host) (hosts : List Host) {cs : List (Rated f)}
      → examine_all f r hosts ≡ ok cs
      → Within h hosts
      → (examine f r h ≡ ok none) ⊎ ((c : Rated f) × Within c cs × (examine f r h ≡ ok (some c)))
  all_examined h [] e m = absurd m
  all_examined h (host ∷ hosts) {cs} e (inl same) =
      let (o, first, rest, others, whole) = split_all host hosts e in
      from o rest (subst (λ x. examine f r x ≡ ok o) (sym same) first) whole
    where
      from :
          (o : Option (Rated f)) (rest : List (Rated f))
          → examine f r h ≡ ok o
          → append_rated f o rest ≡ cs
          → (examine f r h ≡ ok none)
            ⊎ ((c : Rated f) × Within c cs × (examine f r h ≡ ok (some c)))
      from none rest first whole = inl first
      from (some x) rest first whole = inr (x, subst (Within x) whole (inl refl), first)
  all_examined h (host ∷ hosts) {cs} e (inr later) =
      let (o, first, rest, others, whole) = split_all host hosts e in
      elim (all_examined h hosts others later) [
        | inl passed ↦ inl passed
        | inr (c, there, found) ↦ inr (c, subst (Within c) whole (appended o rest c there), found)
      ]
    where
      appended :
          (o : Option (Rated f)) (rest : List (Rated f)) (c : Rated f)
          → Within c rest
          → Within c (append_rated f o rest)
      appended none rest c there = there
      appended (some x) rest c there = inr there

  some_candidates : (xs : List (Rated f)) {cs : List (Rated f)} → or_no_host f xs ≡ ok cs → xs ≡ cs
  some_candidates [] e = cc
  some_candidates (x ∷ xs) e = cc

  module _ (hosts : List Host) {cs : List (Rated f)}
      (e : find_candidate_hosts f r hosts ≡ ok cs) where
    examined :
        (found : List (Rated f)) × (examine_all f r (filter allowed_test hosts) ≡ ok found)
        × (sort_descending f (rating f) found ≡ cs)
    unfolding find_candidate_hosts
    examined =
        let (found, all, e') = and_then-eq-ok (examine_all f r (filter allowed_test hosts)) _ e in
        (found, all, some_candidates (sort_descending f (rating f) found) e')

    -- Every candidate is one of the hosts and suitable, and carries the ratings of its host.
    pub candidates_sound :
        (c : Rated f) → Within c cs → Within c.host hosts × IsSuitable r c.host × IsRated f r c
    candidates_sound c m =
        let (found, all, sorted) = examined in
        let in_found = Within-of_sort f (rating f) c found (subst (Within c) (sym sorted) m) in
        let (h, kept, e') = all_found c (filter allowed_test hosts) all in_found in
        let (there, good) = Within-of_filter allowed_test hosts kept in
        let (same, suitable, ratings) = IsSuitable-of_found h c good e' in
        (
          subst (λ x. Within x hosts) (sym same) there,
          subst (IsSuitable r) (sym same) suitable,
          ratings,
        )

    -- Every suitable host is a candidate.
    pub candidates_complete :
        (h : Host) → Within h hosts → IsSuitable r h → (c : Rated f) × Within c cs × (c.host ≡ h)
    candidates_complete h m s =
        let (found, all, sorted) = examined in
        elim (all_examined h (filter allowed_test hosts) all
          (filter_of_Within allowed_test hosts m s.allowed)) [
            | inl passed ↦ absurd (passed_over_is_unsuitable h passed s)
            | inr (c, there, e') ↦
                let (same, _, _) = IsSuitable-of_found h c s.allowed e' in
                (c, subst (Within c) sorted (sort_of_Within f (rating f) c found there), same)
          ]

    -- The candidates stand in descending order of the product of their ratings.
    pub candidates-IsDescending : IsDescending f (rating f) cs
    candidates-IsDescending =
        let (found, _, sorted) = examined in
        subst (IsDescending f (rating f)) sorted (sort_descending-IsDescending f (rating f) found)

    -- `get_resource_pool` finds the wanted pool on every candidate: the error that the program keeps
    -- for a host without it is never raised.
    pub candidate_has_pool :
        (c : Rated f)
        → Within c cs
        → (p : Pool) × (get_resource_pool c.host r.resource_pool ≡ ok p)
          × IsPoolOf p c.host
          × (pool_name p ≡ r.resource_pool)
    candidate_has_pool c m =
        let (_, suitable, _) = candidates_sound c m in
        let (q, of_host, named) = suitable.pool in
        get_resource_pool_found c.host r.resource_pool q of_host named

  examine_total : (h : Host) → r.vm_cpus ≢ 0 → total_memory h ≢ 0 → is_ok (examine f r h) ≡ true
  unfolding examine
  examine_total h cpus memory = ground (arith, rated f h r.vm_cpus r.vm_memory cpus memory)

  ok_of_is_ok : {A : Type 0} (m : Result A) → is_ok m ≡ true → (a : A) × (m ≡ ok a)
  ok_of_is_ok (ok a) h = (a, refl)
  ok_of_is_ok (err e) h = cc

  all_total :
      r.vm_cpus ≢ 0
      → (hosts : List Host) → ((h : Host) → Within h hosts → total_memory h ≢ 0)
      → (found : List (Rated f)) × (examine_all f r hosts ≡ ok found)
  unfolding examine_all
  all_total cpus [] memory = ([], refl)
  all_total cpus (h ∷ hosts) memory =
      let (o, first) = ok_of_is_ok (examine f r h) (examine_total h cpus (memory h (inl refl))) in
      let (rest, others) = all_total cpus hosts (λ x m. memory x (inr m)) in
      (append_rated f o rest, rw (first, others))

  found_as :
      (hosts : List Host) {found : List (Rated f)}
      → examine_all f r (filter allowed_test hosts) ≡ ok found
      → find_candidate_hosts f r hosts ≡ or_no_host f (sort_descending f (rating f) found)
  unfolding find_candidate_hosts
  found_as hosts all = rw all

  abbrev no_host : Result (List (Rated f))
  no_host = err (
      non_recoverable
        "No healthy hosts could be found with resource pool {pool}, and all required networks.")

  no_candidate : (xs : List (Rated f)) → or_no_host f xs ≡ no_host → xs ≡ []
  no_candidate [] e = refl
  no_candidate (x ∷ xs) e = cc

  nothing_sorted :
      (found : List (Rated f))
      → ((c : Rated f) → ¬ (Within c found))
      → or_no_host f (sort_descending f (rating f) found) ≡ no_host
  unfolding sort_descending
  nothing_sorted [] none_found = refl
  nothing_sorted (c ∷ cs) none_found = absurd (none_found c (inl refl))

  -- With a processor for the server and a megabyte on each host no rating divides by zero, and the
  -- search fails exactly when no host is suitable.
  pub find_fails_iff :
      (hosts : List Host)
      → r.vm_cpus ≢ 0
      → ((h : Host) → Within h hosts → total_memory h ≢ 0)
      → (find_candidate_hosts f r hosts
          ≡ err (
              non_recoverable
                "No healthy hosts could be found with resource pool {pool}, and all required networks."))
        ↔ ((h : Host) → Within h hosts → ¬ (IsSuitable r h))
  find_fails_iff hosts cpus memory =
      let (found, all) =
        all_total cpus (filter allowed_test hosts)
          (λ h m. memory h (Within-of_filter allowed_test hosts m).0) in
      (
        (λ e h m s.
            elim (all_examined h (filter allowed_test hosts) all
              (filter_of_Within allowed_test hosts m s.allowed)) [
                | inl passed ↦ passed_over_is_unsuitable h passed s
                | inr (c, there, _) ↦
                    subst (Within c)
                      (no_candidate (sort_descending f (rating f) found)
                        (sym (found_as hosts all) ∙ e))
                      (sort_of_Within f (rating f) c found there)
              ]),
        λ none_suits.
            found_as hosts all
            ∙ nothing_sorted found (λ c m.
              let (h, kept, e) = all_found c (filter allowed_test hosts) all m in
              let (there, good) = Within-of_filter allowed_test hosts kept in
              let (_, suitable, _) = IsSuitable-of_found h c good e in none_suits h there suitable),
      )

  abbrev pub hosts_of : List (Rated f) → List Host
  hosts_of cs = map (λ c. c.host) cs

  rated_of_host :
      (h : Host) (cs : List (Rated f))
      → Within h (hosts_of cs)
      → (c : Rated f) × Within c cs × (c.host ≡ h)
  rated_of_host h [] m = absurd m
  rated_of_host h (c ∷ cs) (inl same) = (c, inl refl, sym same)
  rated_of_host h (c ∷ cs) (inr later) =
      let (x, there, same) = rated_of_host h cs later in (x, inr there, same)

  -- The placement of a new server, as `create_server` composes it: when the candidates are found
  -- and a datastore is selected, the host is suitable, the datastore is one of its acceptable ones,
  -- and the look-up of the resource pool on that host succeeds.
  pub placement_sound :
      (template : Template) (allowed_datastores : List String) (hosts : List Host)
      {cs : List (Rated f)} {h : Host} {d : Datastore}
      → find_candidate_hosts f r hosts ≡ ok cs
      → select_host_and_datastore r.vm_memory template allowed_datastores (hosts_of cs) ≡ ok (h, d)
      → Within h hosts
        × IsSuitable r h
        × Within d h.datastores
        × IsAcceptable r.vm_memory template allowed_datastores d
        × ((p : Pool) × (get_resource_pool h r.resource_pool ≡ ok p) × IsPoolOf p h)
  placement_sound template allowed_datastores hosts {cs} {h} {d} found selected =
      let (among, attached, good, _) =
        selection_sound r.vm_memory template allowed_datastores (hosts_of cs) h d selected in
      let (c, there, same) = rated_of_host h cs among in
      let (of_hosts, suitable, _) = candidates_sound hosts found c there in
      let (p, looked_up, of_host, _) = candidate_has_pool hosts found c there in
      (
        subst (λ x. Within x hosts) same of_hosts,
        subst (IsSuitable r) same suitable,
        attached,
        good,
        subst (λ x. (q : Pool) × (get_resource_pool x r.resource_pool ≡ ok q) × IsPoolOf q x) same
            (p, looked_up, of_host),
      )
