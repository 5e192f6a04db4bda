-- ===== src/Placement/Ratings.antt =====
-- ServerClient.host_is_usable, get_host_free_memory and the two usage ratios. The ratios are
-- Python floats, which the program hands on to `sort`: they are an interface here.
use cloudify_vsphere_plugin.Common.{
  ℕ, ◌+◌, ◌/◌, ◌≡◌, ◌≢◌, arith, Bool, true, false, ◌&&◌, not, Option, none, some, List, [], ◌∷◌, ℤ,
  pos, ◌-ℤ◌, str_eq, Result, ok, err, zero_division, ◌==◌, if◌then◌else◌,
}
use cloudify_vsphere_plugin.Placement.{Vm, Host, is_healthy}

-- Python's floats, as far as the ratings use them: `divide a n` is `a / n` for n > 0. No rating is
-- a NaN, so `<` is a strict weak order.
pub record Floats : Type 1 where
  pub Float : Type 0
  pub divide : ℤ → ℕ → Float
  pub times : Float → Float → Float
  pub less : Float → Float → Bool
  pub less_asym : (a b : Float) → less a b ≡ true → less b a ≡ false
  pub not_less_trans : (a b c : Float) → less a b ≡ false → less b c ≡ false → less a c ≡ false

-- `x / n` on integers: Python raises at zero.
pub true_divide : (f : Floats) → ℤ → ℕ → Result f.Float
true_divide f a n = if n == 0 then err zero_division else ok (f.divide a n)

unfoldable pub host_is_usable : Host → Bool
host_is_usable host =
    let healthy_state = is_healthy host.overall_status in
    let connected = str_eq host.connection_state "connected" in
    let maintenance = host.in_maintenance_mode in healthy_state && connected && not maintenance

-- `try: n += int(x) except: warn`
abbrev pub or_zero : Option ℕ → ℕ
or_zero none = 0
or_zero (some n) = n

-- Memory of the virtual machines on a host, templates aside, in MB.
unfoldable pub used_memory : List Vm → ℕ
used_memory [] = 0
used_memory (vm ∷ vms) =
    let rest = used_memory vms in if vm.is_template then rest else or_zero vm.memory_size_mb + rest

abbrev pub total_memory : Host → ℕ
total_memory host = host.memory_size / 1024 / 1024

unfoldable pub get_host_free_memory : Host → ℤ
unfolding used_memory
get_host_free_memory host = pos (total_memory host) -ℤ pos (used_memory host.vms)

unfoldable pub assigned_cpus : List Vm → ℕ
assigned_cpus [] = 0
assigned_cpus (vm ∷ vms) = or_zero vm.num_cpu + assigned_cpus vms

module _ (f : Floats) where
  unfoldable pub host_cpu_thread_usage_ratio : Host → ℕ → Result f.Float
  unfolding assigned_cpus true_divide
  host_cpu_thread_usage_ratio host vm_cpus =
      true_divide f (pos host.num_cpu_threads) (vm_cpus + assigned_cpus host.vms)

  unfoldable pub host_memory_usage_ratio : Host → ℕ → Result f.Float
  unfolding get_host_free_memory true_divide
  host_memory_usage_ratio host new_mem =
      let free_memory = get_host_free_memory host in
      let free_memory_after = free_memory -ℤ pos new_mem in
      true_divide f free_memory_after (total_memory host)

  -- Both ratings exist for a host with a megabyte of memory and a server with a processor.
  pub rated :
      (host : Host) (vm_cpus new_mem : ℕ)
      → vm_cpus ≢ 0
      → total_memory host ≢ 0
      → (host_cpu_thread_usage_ratio host vm_cpus
          ≡ ok (f.divide (pos host.num_cpu_threads) (vm_cpus + assigned_cpus host.vms)))
        × (host_memory_usage_ratio host new_mem
            ≡ ok (f.divide (get_host_free_memory host -ℤ pos new_mem) (total_memory host)))
  unfolding host_cpu_thread_usage_ratio host_memory_usage_ratio true_divide
  rated host vm_cpus new_mem cpus memory = ground arith
