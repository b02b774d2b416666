-- ===== src/Registry/Checks.antt =====
-- `CheckDef`, `register`, `checks_for`, `parse_check_ids` and `shakedown_advice` (jobs/registry.py). A
-- collector is a value of any type; CHECKS is a dict in its order of insertion.
use nautobot_testsuite.Base.{
  ℕ, Bool, ◌&&◌, not, Option, none, some, List, [], ◌∷◌, ◌++◌, map, ltb, if◌then◌else◌, Text, codes,
  text_eq, Dict, lookup, keys, contains, is_some, is_empty, select, sorted_set, split_on, strip,
}
use nautobot_testsuite.DiffCore.Config.{Compare}

pub record CheckDef (N C : Type 0) : Type 0 where
  pub id : Text
  pub platform : Text
  pub description : Text
  pub tier : ℕ
  pub compare : Compare N
  pub miss_meaning : Text
  pub collector : Option C
  pub tags : List Text

-- register: the new registry, or the ValueError of a duplicate id.
pub data Registered (N C : Type 0) : Type 0 where
  registered : Dict (CheckDef N C) → Registered N C
  duplicate_id : Text → Registered N C

-- parse_check_ids: None, the ids, or the ValueError with the unknown and the valid ids.
pub data Parsed : Type 0 where
  every_check : Parsed
  only : List Text → Parsed
  unknown_ids : List Text → List Text → Parsed

-- The tokens of the raw text, without surrounding blanks, the empty ones left out.
unfoldable pub tokens : Text → List Text
unfolding select split_on strip is_empty
tokens raw = select (λ t. not (is_empty t)) (map strip (split_on b',' raw))

-- list(dict.fromkeys(xs))
unfoldable pub from_keys : List Text → List Text
unfolding select text_eq
from_keys [] = []
from_keys (x ∷ xs) = x ∷ select (λ y. not (text_eq x y)) (from_keys xs)

module _ {N C : Type 0} where
  unfoldable pub register : CheckDef N C → Dict (CheckDef N C) → Registered N C
  unfolding lookup
  register check checks =
      if is_some (lookup check.id checks)
      then duplicate_id check.id
      else registered (checks ++ (check.id, check) ∷ [])

  -- The modules of the collectors register their checks one after another.
  unfoldable pub register_all : List (CheckDef N C) → Dict (CheckDef N C) → Registered N C
  unfolding register
  register_all [] checks = registered checks
  register_all (check ∷ rest) checks = elim (register check checks) [
    | registered more ↦ register_all rest more
    | duplicate_id id ↦ duplicate_id id
  ]

  -- The body of the loop of checks_for.
  unfoldable pub resolved : Text → Dict (CheckDef N C) → Text → List (CheckDef N C)
  unfolding lookup text_eq
  resolved platform checks id = elim (lookup id checks) [
    | none ↦ []
    | some check ↦ if text_eq check.platform platform then check ∷ [] else []
  ]

  unfoldable pub resolve_all : Text → Dict (CheckDef N C) → List Text → List (CheckDef N C)
  unfolding resolved
  resolve_all platform checks [] = []
  resolve_all platform checks (id ∷ ids) =
      resolved platform checks id ++ resolve_all platform checks ids

  -- checks_for
  unfoldable pub checks_for : Text → Option (List Text) → Dict (CheckDef N C) → List (CheckDef N C)
  unfolding resolve_all sorted_set keys
  checks_for platform none checks = resolve_all platform checks (sorted_set (keys checks))
  checks_for platform (some ids) checks = resolve_all platform checks ids

  -- parse_check_ids, of "" where raw is None
  unfoldable pub parse_check_ids : Text → Dict (CheckDef N C) → Parsed
  unfolding tokens from_keys sorted_set select contains keys is_empty
  parse_check_ids raw checks =
      let ids = from_keys (tokens raw) in
      let unknown = sorted_set (select (λ id. not (contains id (keys checks))) ids) in
      if is_empty ids
      then every_check
      else if is_empty unknown
      then only ids
      else unknown_ids unknown (sorted_set (keys checks))

-- shakedown_advice
unfoldable pub shakedown_advice : Text → Text → ℕ → Bool → Bool → Text
unfolding text_eq
shakedown_advice status error normalized_count fetched_anything empty_ok =
    let ok = text_eq status (codes "ok") in
    if ok && ltb 0 normalized_count
    then codes "ok"
    else if ok && empty_ok && fetched_anything
    then codes
        "ok — empty is this check's healthy state (nothing of note recorded); if the device is known to hold such entries, compare the trace payload against the normalizer"
    else if ok
    then codes
        "parsed but empty — if the trace payload shows data, this software version spells the leaf/element names differently; adjust the normalizer to match the trace"
    else if text_eq status (codes "not-present")
    then codes "feature not present on this device: " ++ error
    else if fetched_anything
    then codes
        "collector failed after fetching data — the payload shape surprised the parser; inspect the trace payload against the error: "
      ++ error
    else codes "nothing fetched — transport/path problem (404, timeout, auth): " ++ error
