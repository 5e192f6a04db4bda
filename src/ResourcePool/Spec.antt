-- ===== src/ResourcePool/Spec.antt =====
-- `_get_pool_spec`: the configuration that is asked for.
use cloudify_vsphere_plugin.Common.{
  true, pos, negsuc, Option, none, some, Value, flag, int, str, Result, ok, err, type_error,
}
use cloudify_vsphere_plugin.ResourcePool.{
  Allocation, PoolConfig, SharesInput, AllocationInput, PoolSpec,
}

abbrev pub default_allocation : Value → Allocation
default_allocation shares = record {
  limit = int (negsuc 0);
  reservation = int (pos 0);
  expandable_reservation = flag true;
  shares = shares;
  level = str "normal";
}

abbrev pub default_config : PoolConfig
default_config = record {
  memory_allocation = default_allocation (int (pos 163840));
  cpu_allocation = default_allocation (int (pos 4000));
}

-- `if key in d: old = d.get(key)`
abbrev pub given : Option Value → Value → Value
given none old = old
given (some v) _ = v

-- `if 'shares' in d: shares = d.get('shares'); if key in shares: old = shares.get(key)`
abbrev pub shares_of : Option SharesInput → Option Value
shares_of none = none
shares_of (some s) = s.shares

abbrev pub level_of : Option SharesInput → Option Value
level_of none = none
level_of (some s) = s.level

abbrev pub override_allocation : Option AllocationInput → Allocation → Allocation
override_allocation none a = a
override_allocation (some i) a = record {
  limit = given i.limit a.limit;
  reservation = given i.reservation a.reservation;
  expandable_reservation = given i.expandable_reservation a.expandable_reservation;
  shares = given (shares_of i.shares) a.shares;
  level = given (level_of i.shares) a.level;
}

abbrev pub override_config : PoolSpec → PoolConfig → PoolConfig
override_config i c = record {
  memory_allocation = override_allocation i.memory_allocation c.memory_allocation;
  cpu_allocation = override_allocation i.cpu_allocation c.cpu_allocation;
}

abbrev base_config : Option PoolConfig → PoolConfig
base_config none = default_config
base_config (some c) = c

-- A `pool_spec` that is `None` fails at the first `in`.
unfoldable pub get_pool_spec : Option PoolSpec → Option PoolConfig → Result PoolConfig
get_pool_spec none old_config = err type_error
get_pool_spec (some i) old_config = ok (override_config i (base_config old_config))
