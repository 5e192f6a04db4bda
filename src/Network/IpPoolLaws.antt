-- ===== src/Network/IpPoolLaws.antt =====
-- An ip pool from its creation to its deletion, and the networks that it is attached to.
use cloudify_vsphere_plugin.Common.{
  ◌≡◌, refl, ap, ◌∙◌, String, Text, Bool, true, false, ◌||◌, Option, none, some, List, [], ◌∷◌,
  ◌++◌, any, contains, str_eq, ℤ, int, Value, lookup, lookup-put_self, put, Dict, truthy, ok,
  and_then-eq-ok, arith,
}
use cloudify_vsphere_plugin.Runtime.{World}
use cloudify_vsphere_plugin.Inventory.{Entity}
use cloudify_vsphere_plugin.Inventory.Lookup.{get_obj_by_name}
use cloudify_vsphere_plugin.Network.IpPools.{
  ippool_id, PoolSpec, IpCall, create_ip_pool, destroy_ip_pool, IpView, PoolNetwork, pool_spec,
  standard_ids, insert_each, insert_group, attach, attach_all, create_ippool, delete_ippool,
  create_pool, delete_pool,
}

module _ (reply : List IpCall → IpCall → ℤ) (view : IpView) (datacenter_name : Text) (dc : Entity)
    (found : get_obj_by_name view.datacenters datacenter_name none ≡ some dc) where
  create_ippool-done :
      (ippool : Dict Value) (networks : List PoolNetwork) (spec : PoolSpec) (ids : List String)
      (w : World IpCall)
      → pool_spec ippool ≡ ok spec
      → attach_all view networks [] ≡ ok ids
      → create_ippool reply view datacenter_name ippool networks w ≡ (
        ok (int (reply w.calls (create_ip_pool dc.id spec ids))),
        record w { calls = w.calls ++ create_ip_pool dc.id spec ids ∷ [] },
      )
  unfolding create_ippool
  create_ippool-done ippool networks spec ids w specified attached =
      rw (found, specified, attached) refl

  create_pool-new :
      (ippool : Dict Value) (networks : List PoolNetwork) (spec : PoolSpec) (ids : List String)
      (w : World IpCall)
      → pool_spec ippool ≡ ok spec
      → attach_all view networks [] ≡ ok ids
      → lookup ippool_id w.props ≡ none
      → let call = create_ip_pool dc.id spec ids in
        create_pool reply view datacenter_name ippool networks w ≡ (
          ok tt,
          record w {
            props = put ippool_id (int (reply w.calls call)) w.props;
            calls = w.calls ++ call ∷ [];
          },
        )
  unfolding create_pool
  create_pool-new ippool networks spec ids w specified attached new =
      rw (new, create_ippool-done ippool networks spec ids w specified attached) refl

  create_pool-again :
      (ippool : Dict Value) (networks : List PoolNetwork) (v : Value) (w : World IpCall)
      → lookup ippool_id w.props ≡ some v
      → truthy v ≡ true
      → create_pool reply view datacenter_name ippool networks w ≡ (ok tt, w)
  unfolding create_pool
  create_pool-again ippool networks v w saved good = rw (saved, good) refl

  delete_ippool-done :
      (v : Value) (w : World IpCall)
      → delete_ippool reply view datacenter_name v w
        ≡ (ok tt, record w { calls = w.calls ++ destroy_ip_pool dc.id v ∷ [] })
  unfolding delete_ippool
  delete_ippool-done v w = rw found refl

  delete_pool-saved :
      (v : Value) (w : World IpCall)
      → lookup ippool_id w.props ≡ some v
      → truthy v ≡ true
      → delete_pool reply view datacenter_name w
        ≡ (ok tt, record w { calls = w.calls ++ destroy_ip_pool dc.id v ∷ [] })
  unfolding delete_pool
  delete_pool-saved v w saved good = ground (arith, delete_ippool-done v w)

  -- On an instance without a pool, for a known datacenter, a complete specification, networks that
  -- are found, and a new pool that gets an id other than 0: create asks for one pool and keeps its
  -- id, the next create asks for nothing, and delete asks to destroy the pool of that id.
  pub pool_lifecycle :
      (ippool : Dict Value) (networks : List PoolNetwork) (spec : PoolSpec) (ids : List String)
      (w : World IpCall)
      → pool_spec ippool ≡ ok spec
      → attach_all view networks [] ≡ ok ids
      → lookup ippool_id w.props ≡ none
      → truthy (int (reply w.calls (create_ip_pool dc.id spec ids))) ≡ true
      → let id = int (reply w.calls (create_ip_pool dc.id spec ids)) in
        let (r, w1) = create_pool reply view datacenter_name ippool networks w in
        (r ≡ ok tt)
        × (w1.calls ≡ w.calls ++ create_ip_pool dc.id spec ids ∷ [])
        × (lookup ippool_id w1.props ≡ some id)
        × (create_pool reply view datacenter_name ippool networks w1 ≡ (ok tt, w1))
        × (delete_pool reply view datacenter_name w1
            ≡ (ok tt, record w1 { calls = w1.calls ++ destroy_ip_pool dc.id id ∷ [] }))
  pool_lifecycle ippool networks spec ids w specified attached new good =
      let call = create_ip_pool dc.id spec ids in
      let id = int (reply w.calls call) in
      let w1 : World IpCall = record w {
        props = put ippool_id id w.props;
        calls = w.calls ++ call ∷ [];
      } in
      let saved = lookup-put_self ippool_id id w.props in
      rw (create_pool-new ippool networks spec ids w specified attached new) (
        refl,
        refl,
        saved,
        create_pool-again ippool networks id w1 saved good,
        delete_pool-saved id w1 saved good,
      )

contains-insert_each :
    (i : String) (new old : List String)
    → contains i (insert_each new old) ≡ (contains i new || contains i old)
contains-insert_each i [] old = refl
contains-insert_each i (j ∷ new) old = contains-insert_each i new (j ∷ old) ∙ ground arith

ok-eq : {A : Type 0} {a b : A} → ok a ≡ ok b → b ≡ a
ok-eq h = cc

abbrev group_is : String → Option Entity → Bool
group_is i none = false
group_is i (some g) = str_eq g.id i

abbrev named_is : IpView → String → Bool → Option Text → Bool
named_is view i distributed none = false
named_is view i true (some name) = group_is i (get_obj_by_name view.dv_groups name none)
named_is view i false (some name) = contains i (standard_ids view.networks name)

contains-insert_group :
    (i : String) (o : Option Entity) (old new : List String)
    → insert_group o old ≡ ok new
    → contains i new ≡ (group_is i o || contains i old)
contains-insert_group i none old new h = cc
contains-insert_group i (some g) old new h = ap (contains i) (ok-eq h)

contains-attach :
    (view : IpView) (i : String) (name : Option Text) (distributed : Bool) (old new : List String)
    → attach view name distributed old ≡ ok new
    → contains i new ≡ (named_is view i distributed name || contains i old)
contains-attach view i none distributed old new h = cc
contains-attach view i (some name) true old new h =
    contains-insert_group i (get_obj_by_name view.dv_groups name none) old new h
contains-attach view i (some name) false old new h =
    ap (contains i) (ok-eq h) ∙ contains-insert_each i (standard_ids view.networks name) old

-- Whether a related network stands for the network of an id.
abbrev pub stands_for : IpView → String → PoolNetwork → Bool
stands_for view i n = named_is view i (truthy n.switch_distributed) n.network_name

contains-attach_from :
    (view : IpView) (i : String) (ns : List PoolNetwork) (old new : List String)
    → attach_all view ns old ≡ ok new
    → contains i new ≡ (any (stands_for view i) ns || contains i old)
unfolding attach_all
contains-attach_from view i [] old new h = ap (contains i) (ok-eq h)
contains-attach_from view i (n ∷ ns) old new h =
    let (mid, one, rest) =
      and_then-eq-ok (attach view n.network_name (truthy n.switch_distributed) old)
        (attach_all view ns) h in
    contains-attach_from view i ns mid new rest
    ∙ ground
        (arith, contains-attach view i n.network_name (truthy n.switch_distributed) old mid one)

-- The pool is attached to the networks that the related networks stand for: for a distributed one
-- the group that is found by its name, for another every standard network of exactly that name.
pub contains-attach_all :
    (view : IpView) (i : String) (ns : List PoolNetwork) (ids : List String)
    → attach_all view ns [] ≡ ok ids
    → contains i ids ≡ any (stands_for view i) ns
contains-attach_all view i ns ids attached =
    contains-attach_from view i ns [] ids attached ∙ ground arith
