-- ===== src/DiffCore/Config.antt =====
-- The compare config of a check (jobs/diffcore.py, module docstring): one field for each key that
-- the comparisons read. A config that is None or {} has every key missing.
use nautobot_testsuite.Base.{Bool, false, Option, none, some, [], Text, Dict, lookup}

-- {"abs": ..., "pct": ..., "direction": ...}
pub record Band (N : Type 0) : Type 0 where
  pub abs : Option N
  pub pct : Option N
  pub direction : Option Text

-- The config of one field. equality_set reads its "tolerance"; the tolerance mode reads the field's
-- config as a band itself.
pub record FieldConfig (N : Type 0) : Type 0 where
  pub tolerance : Option (Band N)
  pub band : Band N
  -- whether it has keys besides, or keys with None
  pub has_others : Bool

pub record Compare (N : Type 0) : Type 0 where
  pub mode : Option Text
  -- none: a field's config that is not a dict
  pub fields : Dict (Option (FieldConfig N))
  pub band : Option (Band N)
  pub ignore_removed : Bool
  pub floor_pre : Option N
  pub min_post : Option N
  pub absent_post : Option Text

abbrev pub no_band : {N : Type 0} → Band N
no_band = record { abs = none; pct = none; direction = none }

abbrev pub no_config : {N : Type 0} → FieldConfig N
no_config = record { tolerance = none; band = no_band; has_others = false }

abbrev pub no_compare : {N : Type 0} → Compare N
no_compare = record {
  mode = none;
  fields = [];
  band = none;
  ignore_removed = false;
  floor_pre = none;
  min_post = none;
  absent_post = none;
}

-- _field_cfg
unfoldable pub field_cfg : {N : Type 0} → Compare N → Text → FieldConfig N
field_cfg compare field = elim (lookup field compare.fields) [
  | none ↦ no_config
  | some cfg ↦ elim cfg [ none ↦ no_config | some c ↦ c ]
]
