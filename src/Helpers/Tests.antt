-- ===== src/Helpers/Tests.antt =====
-- An operation with a decorator, a login with a password, and two volumes of a server.
use cloudify_vsphere_plugin.Common.{
  ◌≡◌, String, true, false, some, [], ◌∷◌, null, str, obj, no_fields, field, Fields, lookup, put,
}
use cloudify_vsphere_plugin.Helpers.Inputs.{Func, plain, wrapper, op, op-lookup}
use cloudify_vsphere_plugin.Helpers.Logs.{
  prepare_for_log, value_at, Hidden, cleaned, prepare_for_log-values,
}
use cloudify_vsphere_plugin.Helpers.Related.{Relationship}

abbrev resize_function : Func
resize_function = wrapper (plain ("ctx" ∷ "size" ∷ [])) ("ctx" ∷ "max_wait_time" ∷ [])

-- The runtime property `size` is not what the operation gets.
op-lookup_example :
    lookup "size"
      (op null null resize_function [] (("size", str "20") ∷ []) (("size", str "10") ∷ []))
    ≡ some (str "10")
unfolding lookup put
op-lookup_example =
    op-lookup null null resize_function [] (("size", str "20") ∷ []) (("size", str "10") ∷ [])
      "size"

abbrev login : Fields
login =
    field "connection" (obj (field "host" (str "vc") (field "password" (str "geheim") no_fields)))
      no_fields

prepare_for_log-values_example :
    (true ≡ true
      → Hidden (value_at ("connection" ∷ "password" ∷ []) (some (obj (prepare_for_log login)))))
    × (true ≡ false
        → value_at ("connection" ∷ "password" ∷ []) (some (obj (prepare_for_log login)))
          ≡ cleaned (value_at ("connection" ∷ "password" ∷ []) (some (obj login))))
prepare_for_log-values_example = prepare_for_log-values login ("connection" ∷ "password" ∷ [])

abbrev to_volume : String → Relationship
to_volume id = record {
  type_hierarchy = "connected_to" ∷ [];
  target_types = "Root" ∷ "Storage" ∷ [];
  target_instance = id;
}
