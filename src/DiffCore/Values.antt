-- ===== src/DiffCore/Values.antt =====
-- The values of a normalized view (jobs/diffcore.py, module docstring): what `json` gives, with
-- Python's equality. `True == 1` holds in Python, so a Boolean is compared as a number where the
-- other side is one; two dicts are equal when they hold equal values under the same keys.
use nautobot_testsuite.Base.{
  ℕ, suc, Bool, true, false, ◌&&◌, Option, none, some, List, [], ◌∷◌, if◌then◌else◌, Text, text_eq,
  ◌==◌,
}
use nautobot_testsuite.Numeric.{Numeric}

mutual
  pub data Value (N : Type 0) : Type 0 where
    null : Value N
    bool : Bool → Value N
    num : N → Value N
    text : Text → Value N
    arr : Items N → Value N
    obj : Fields N → Value N

  pub data Items (N : Type 0) : Type 0 where
    nil : Items N
    cons : Value N → Items N → Items N

  pub data Fields (N : Type 0) : Type 0 where
    end : Fields N
    field : Text → Value N → Fields N → Fields N

-- d.get(k) on the items of a dict value
unfoldable pub field? : {N : Type 0} → Text → Fields N → Option (Value N)
field? k end = none
field? k (field j v fs) = if text_eq j k then some v else field? k fs

unfoldable pub field_keys : {N : Type 0} → Fields N → List Text
field_keys end = []
field_keys (field j v fs) = j ∷ field_keys fs

unfoldable pub field_count : {N : Type 0} → Fields N → ℕ
field_count end = 0
field_count (field j v fs) = suc (field_count fs)

-- A dict with one item less: {field: item for field, item in value.items() if field != k}
unfoldable pub without_field : {N : Type 0} → Text → Fields N → Fields N
without_field k end = end
without_field k (field j v fs) =
    let rest = without_field k fs in if text_eq j k then rest else field j v rest

unfoldable pub items_list : {N : Type 0} → Items N → List (Value N)
items_list nil = []
items_list (cons v vs) = v ∷ items_list vs

module _ (n : Numeric) where
  open n use {Number, num_eq, of_ℕ}

  unfoldable pub of_bool : Bool → Number
  of_bool b = of_ℕ (if b then 1 else 0)

  -- a == b
  unfoldable mutual
    unfolding of_bool

    pub value_eq : Value Number → Value Number → Bool
    value_eq null w = elim w [ null ↦ true | _ ↦ false ]
    value_eq (bool b) w = elim w [
      | bool c ↦ num_eq (of_bool b) (of_bool c)
      | num y ↦ num_eq (of_bool b) y
      | _ ↦ false
    ]
    value_eq (num x) w = elim w [ bool c ↦ num_eq x (of_bool c) | num y ↦ num_eq x y | _ ↦ false ]
    value_eq (text s) w = elim w [ text t ↦ text_eq s t | _ ↦ false ]
    value_eq (arr vs) w = elim w [ arr ws ↦ items_eq vs ws | _ ↦ false ]
    value_eq (obj fs) w = elim w [
      | obj gs ↦ field_count fs == field_count gs && fields_eq fs gs
      | _ ↦ false
    ]

    pub items_eq : Items Number → Items Number → Bool
    items_eq nil ws = elim ws [ nil ↦ true | _ ↦ false ]
    items_eq (cons v vs) ws = elim ws [ nil ↦ false | cons w ws ↦ value_eq v w && items_eq vs ws ]

    -- Each item of the first dict has an equal value in the second.
    pub fields_eq : Fields Number → Fields Number → Bool
    fields_eq end gs = true
    fields_eq (field k v fs) gs =
        elim (field? k gs) [ none ↦ false | some w ↦ value_eq v w ] && fields_eq fs gs
