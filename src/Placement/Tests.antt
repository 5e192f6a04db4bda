-- ===== src/Placement/Tests.antt =====
-- Two hosts in a cluster, one of them with the better ratings but a full datastore.
use cloudify_vsphere_plugin.Common.{
  ℕ, ◌*◌, ◌+◌, ◌≤◌, ◌≡◌, ◌≢◌, ◌↔◌, inl, inr, refl, String, codes, true, false, some, List, [], ◌∷◌,
  ℤ, pos, ltb_ℤ, pos_part, neg_part, sub_ℕ, floor_div, Within, ok, err, non_recoverable, arith,
  lower, unquote, lower_code, ◌-ℤ◌,
}
use cloudify_vsphere_plugin.Placement.{
  green, yellow, Datastore, Template, Pool, pool, nil, cons, Parent, Host,
}
use cloudify_vsphere_plugin.Placement.Datastores.{datastore_is_usable, select_host_and_datastore}
use cloudify_vsphere_plugin.Placement.Choices.{
  IsAcceptable, IsFreest, selection_sound, selection_prefers_room, selection_fails_iff,
}
use cloudify_vsphere_plugin.Placement.PoolTree.{get_resource_pool, IsPoolOf}
use cloudify_vsphere_plugin.Placement.Ratings.{
  Floats, total_memory, host_is_usable, host_memory_usage_ratio, host_cpu_thread_usage_ratio,
}
use cloudify_vsphere_plugin.Placement.Sorting.{sort_descending}
use cloudify_vsphere_plugin.Placement.Hosts.{
  examine_all, examine, cluster_refused, has_pool, lacks_networks, Wanted, Rated,
  find_candidate_hosts,
}
use cloudify_vsphere_plugin.Placement.Candidates.{IsSuitable}
use cloudify_vsphere_plugin.Placement.Finding.{find_fails_iff, placement_sound, hosts_of}

-- Ratings as whole percents.
abbrev product : ℤ → ℤ → ℤ
product a b =
    sub_ℕ (pos_part a * pos_part b + neg_part a * neg_part b)
      (pos_part a * neg_part b + neg_part a * pos_part b)

less_asym : (a b : ℤ) → ltb_ℤ a b ≡ true → ltb_ℤ b a ≡ false
less_asym a b h = ground arith

not_less_trans : (a b c : ℤ) → ltb_ℤ a b ≡ false → ltb_ℤ b c ≡ false → ltb_ℤ a c ≡ false
not_less_trans a b c h k = ground arith

abbrev percents : Floats
percents = record {
  Float = ℤ;
  divide = λ a n. floor_div (product a (pos 100)) n;
  times = product;
  less = ltb_ℤ;
  less_asym = less_asym;
  not_less_trans = not_less_trans;
}

abbrev gib : ℕ
gib = 1024 * 1024 * 1024

abbrev template : Template
template = record { committed = 10 * gib; uncommitted = 30 * gib }

abbrev store : String → ℕ → Datastore
store name free = record {
  id = name;
  name = name;
  overall_status = green;
  accessible = true;
  free_space = free * gib;
}

abbrev cluster : Parent
cluster = record {
  name = "c1";
  is_cluster = true;
  resource_pool = pool "Resources" (cons (pool "web" nil) nil);
}

abbrev host : String → ℕ → List Datastore → Host
host name threads stores = record {
  name = name;
  overall_status = yellow;
  connection_state = "connected";
  in_maintenance_mode = false;
  memory_size = 16 * gib;
  num_cpu_threads = threads;
  vms = record { is_template = false; memory_size_mb = some 2048; num_cpu = some 2 } ∷ [];
  datastores = stores;
  networks = record { name = codes "LAN%201"; switch_distributed = false } ∷ [];
  parent = cluster;
}

abbrev small : Host
small = host "small" 8 (store "ds2" 100 ∷ store "ds3" 90 ∷ [])

abbrev fast : Host
fast = host "fast" 32 (store "ds1" 20 ∷ [])

abbrev inventory : List Host
inventory = small ∷ fast ∷ []

abbrev wanted : Wanted
wanted = record {
  resource_pool = "web";
  vm_cpus = 2;
  vm_memory = 4096;
  vm_networks = record { name = codes "lan 1"; switch_distributed = false } ∷ [];
  allowed_hosts = [];
  allowed_clusters = "c1" ∷ [];
}

abbrev rate : Host → ℤ → ℤ → Rated percents
rate h cpu memory = record { host = h; cpu = cpu; memory = memory }

abbrev found : List (Rated percents)
found = rate fast (pos 800) (pos 62) ∷ rate small (pos 200) (pos 62) ∷ []

finds : find_candidate_hosts percents wanted inventory ≡ ok found
unfolding find_candidate_hosts examine_all examine host_is_usable cluster_refused
    host_memory_usage_ratio has_pool lacks_networks lower unquote lower_code
    host_cpu_thread_usage_ratio sort_descending ◌-ℤ◌
finds = refl

selects :
    select_host_and_datastore 4096 template [] (hosts_of percents wanted found)
    ≡ ok (small, store "ds2" 100)
unfolding select_host_and_datastore ◌-ℤ◌
selects = refl

ds3-IsAcceptable : IsAcceptable 4096 template [] (store "ds3" 90)
unfolding datastore_is_usable
ds3-IsAcceptable = (refl, refl, omega arith)

memory_of_inventory : (h : Host) → Within h inventory → total_memory h ≢ 0
memory_of_inventory h (inl same) = rw same (omega arith)
memory_of_inventory h (inr (inl same)) = rw same (omega arith)
memory_of_inventory h (inr (inr none_left)) = absurd none_left

selection_sound_example :
    Within small (fast ∷ small ∷ [])
    × Within (store "ds2" 100) small.datastores
    × IsAcceptable 4096 template [] (store "ds2" 100)
    × IsFreest 4096 template [] small (store "ds2" 100)
selection_sound_example =
    selection_sound 4096 template [] (fast ∷ small ∷ []) small (store "ds2" 100) selects

-- `fast` comes first and has an acceptable datastore, but only those of `small` hold full disks.
selection_prefers_room_example : 10 * gib + 4096 * 1024 * 1024 + 30 * gib ≤ 100 * gib
selection_prefers_room_example =
    selection_prefers_room 4096 template [] (fast ∷ small ∷ []) small small (store "ds2" 100)
      (store "ds3" 90) selects (inr (inl refl)) (inr (inl refl)) ds3-IsAcceptable (omega arith)

selection_fails_iff_example :
    (select_host_and_datastore 4096 template ("ds9" ∷ []) inventory
      ≡ err (non_recoverable "No datastores found with enough space."))
    ↔ ((h : Host) (d : Datastore)
        → Within h inventory
        → Within d h.datastores
        → ¬ (IsAcceptable 4096 template ("ds9" ∷ []) d))
selection_fails_iff_example = selection_fails_iff 4096 template ("ds9" ∷ []) inventory

find_fails_iff_example :
    (find_candidate_hosts percents wanted inventory
      ≡ err (
          non_recoverable
            "No healthy hosts could be found with resource pool {pool}, and all required networks."))
    ↔ ((h : Host) → Within h inventory → ¬ (IsSuitable wanted h))
find_fails_iff_example = find_fails_iff percents wanted inventory (omega arith) memory_of_inventory

placement_sound_example :
    Within small inventory
    × IsSuitable wanted small
    × Within (store "ds2" 100) small.datastores
    × IsAcceptable 4096 template [] (store "ds2" 100)
    × ((p : Pool) × (get_resource_pool small "web" ≡ ok p) × IsPoolOf p small)
placement_sound_example = placement_sound percents wanted template [] inventory finds selects
