-- ===== src/Common/Entries.antt =====
-- The fields of a value that is a dict, as a dictionary and back.
use mathlib.Core.List.{[], ◌∷◌}
use cloudify_vsphere_plugin.Common.Dictionary.{Dict}
use cloudify_vsphere_plugin.Common.Json.{Value, Fields, no_fields, field}

abbrev pub dict_of : Fields → Dict Value
dict_of no_fields = []
dict_of (field k v rest) = (k, v) ∷ dict_of rest

abbrev pub fields_of : Dict Value → Fields
fields_of [] = no_fields
fields_of ((k, v) ∷ d) = field k v (fields_of d)
