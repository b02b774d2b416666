-- ===== src/ProxmoxPaths/Fence.antt =====
-- `volume_path`, `_volume_resource`, `_query_value` and `fence_path` (jobs/proxmox_paths.py). The
-- functions of urllib.parse are a parameter; a refusal is a value of `Reason`.
use nautobot_testsuite.Base.{
  ℕ, ◌+◌, ◌-◌, ◌*◌, Bool, true, false, ◌&&◌, ◌||◌, not, Option, none, some, List, [], ◌∷◌, ◌++◌,
  ltb, leb, ◌==◌, if◌then◌else◌, length, any, all, is_empty, Text, codes, text_eq, text_lt,
  starts_with, split_on, partition, has_char, is_alnum, is_digit, Dict, lookup, keys, contains,
  extend_first, is_letter,
}
use nautobot_testsuite.ProxmoxPaths.Schema.{Kind, string, integer, boolean, Schema, Rule, rule}
use nautobot_testsuite.ProxmoxPaths.Identifiers.{
  some_of, word_char, hex_char, after_literal, template_match, name_char, user_char, address_char,
  is_name, is_vmid, is_poolid, is_userid, is_task_user, is_upid_parts, is_upid, is_cidr,
  identifier_match, cut_match,
}

-- urllib.parse: parse_qsl (strict; none for a malformed query), urlencode, quote with no safe
-- characters, and unquote (strict; none for bytes that are not UTF-8).
pub record Urllib : Type 0 where
  pub parse_qsl : Text → Option (List (Text × Text))
  pub urlencode : List (Text × Text) → Text
  pub quote : Text → Text
  pub unquote : Text → Option Text

pub data Reason : Type 0 where
  not_relative control_or_fragment volume_endpoint volume_prefix ambiguous_volume malformed_volume
        invalid_volume volume_query ambiguous_resource outside_surface malformed_query outside_shape
        journal_incomplete journal_reversed cloudinit_type :
      Reason

pub data Fenced : Type 0 where
  send : Text → Fenced
  refused : Reason → Fenced

-- ord(char) < 32 or ord(char) == 127
unfoldable pub control_char : ℕ → Bool
control_char c = ltb c 32 || c == 127

-- part in (".", "..")
unfoldable pub is_dots : Text → Bool
is_dots part = text_eq part (codes ".") || text_eq part (codes "..")

-- [A-Za-z0-9][A-Za-z0-9_.-]*
unfoldable pub is_endpoint : Text → Bool
is_endpoint [] = false
is_endpoint (c ∷ s) = is_alnum c && all word_char s

-- [A-Za-z0-9_.+@:/-]
unfoldable pub volume_char : ℕ → Bool
volume_char c = is_alnum c || has_char c (codes "_.+@:/-")

unfoldable pub unambiguous_tail : Text → Bool
unambiguous_tail tail =
    some_of volume_char tail
    && not (any (λ part. is_empty part || is_dots part) (split_on b'/' tail))

-- "%" in re.sub(r"%[A-Fa-f0-9]{2}", "", encoded)
unfoldable pub starts_hex_pair : Text → Bool
starts_hex_pair (a ∷ b ∷ s) = hex_char a && hex_char b
starts_hex_pair _ = false

unfoldable pub malformed_escape : Text → Bool
malformed_escape [] = false
malformed_escape (c ∷ s) = c == b'%' && not (starts_hex_pair s) || malformed_escape s

-- \d+ of ASCII digits, int(value)
unfoldable pub to_number : ℕ → Text → ℕ
to_number acc [] = acc
to_number acc (c ∷ s) = to_number (acc * 10 + (c - b'0')) s

unfoldable pub or_default : ℕ → Option ℕ → ℕ
or_default n none = n
or_default n (some m) = m

-- number < schema.get("minimum", 0) or number > schema.get("maximum", 2**63 - 1)
unfoldable pub in_range : Schema → ℕ → Bool
in_range schema number =
    leb (or_default 0 schema.minimum) number
    && leb number (or_default 9223372036854775807 schema.maximum)

-- The checks of an integer, a number or a boolean.
unfoldable pub kind_accepts : Schema → Kind → Text → Bool
kind_accepts schema string value = true
kind_accepts schema integer value = some_of is_digit value && in_range schema (to_number 0 value)
kind_accepts schema boolean value =
    some_of is_digit value && leb (to_number 0 value) 1 && in_range schema (to_number 0 value)

-- /dev/[A-Za-z0-9/]+
unfoldable pub is_disk : Text → Bool
is_disk value = elim (after_literal value (codes "/dev/")) [
  | none ↦ false
  | some rest ↦ some_of (λ c. is_alnum c || c == b'/') rest
]

-- [A-Za-z0-9_.@!:-]
unfoldable pub acl_char : ℕ → Bool
acl_char c = is_alnum c || has_char c (codes "_.@!:-")

-- /(?:[A-Za-z0-9_.@!:-]+/?)*: after the first slash no part is empty, but the last may be
unfoldable pub acl_parts : List Text → Bool
acl_parts [] = true
acl_parts (part ∷ []) = all acl_char part
acl_parts (part ∷ next ∷ parts) = some_of acl_char part && acl_parts (next ∷ parts)

unfoldable pub is_acl_path : Text → Bool
is_acl_path value = elim (after_literal value (codes "/")) [
  | none ↦ false
  | some rest ↦ acl_parts (split_on b'/' rest)
]

-- _query_value
unfoldable pub query_value : Text → Text → Schema → Bool
query_value name value schema =
    leb (length value) (or_default 4096 schema.max_length)
    && not (any control_char value)
    && not (has_char b'%' value || has_char b'#' value || any is_dots (split_on b'/' value))
    && kind_accepts schema schema.kind value
    && (elim schema.enum [ none ↦ true | some values ↦ contains value values ])
    && (not (text_eq name (codes "disk")) || is_disk value)
    && (not (text_eq name (codes "path")) || is_acl_path value)

-- The schemas of the rules that match.
unfoldable pub matching : Text → List Rule → List (Dict Schema)
matching resource [] = []
matching resource (rule pieces parameters ∷ rules) =
    let rest = matching resource rules in
    if template_match pieces resource then parameters ∷ rest else rest

-- The body of the loop over the pairs: the names seen so far, or none for a refusal.
unfoldable pub pair_accepted : Dict Schema → List Text → Text × Text → Bool
pair_accepted schema seen (name, value) =
    not (contains name seen)
    && (elim (lookup name schema) [ none ↦ false | some s ↦ query_value name value s ])

unfoldable pub pairs_accepted : Dict Schema → List Text → List (Text × Text) → Bool
pairs_accepted schema seen [] = true
pairs_accepted schema seen ((name, value) ∷ pairs) =
    pair_accepted schema seen (name, value) && pairs_accepted schema (name ∷ seen) pairs

-- /nodes/[^/]+/journal and /nodes/[^/]+/qemu/[0-9]+/cloudinit/dump
unfoldable pub is_journal : List Text → Bool
is_journal (root ∷ nodes ∷ node ∷ journal ∷ []) =
    is_empty root
    && text_eq nodes (codes "nodes")
    && not (is_empty node)
    && text_eq journal (codes "journal")
is_journal _ = false

unfoldable pub is_cloudinit_dump : List Text → Bool
is_cloudinit_dump (root ∷ nodes ∷ node ∷ qemu ∷ vmid ∷ cloudinit ∷ dump ∷ []) =
    is_empty root
    && text_eq nodes (codes "nodes")
    && not (is_empty node)
    && text_eq qemu (codes "qemu")
    && some_of is_digit vmid
    && text_eq cloudinit (codes "cloudinit")
    && text_eq dump (codes "dump")
is_cloudinit_dump _ = false

-- The value of a pair, empty where the name is missing.
unfoldable pub value_of : Text → List (Text × Text) → Text
value_of name pairs = elim (lookup name pairs) [ none ↦ [] | some value ↦ value ]

-- set(names) == {...} on names of which none is twice
unfoldable pub same_names : List Text → List Text → Bool
same_names names wanted = length names == length wanted && all (λ name. contains name names) wanted

-- The checks of a journal range and of a cloudinit dump.
unfoldable pub shape_refusal : Text → List (Text × Text) → Option Reason
shape_refusal resource pairs =
    let parts = split_on b'/' resource in
    if is_journal parts
      && not (
          same_names (keys pairs) (codes "since" ∷ codes "until" ∷ codes "structured" ∷ [])
          && text_eq (value_of (codes "structured") pairs) (codes "1"))
    then some journal_incomplete
    else if is_journal parts
        && leb (to_number 0 (value_of (codes "until") pairs))
            (to_number 0 (value_of (codes "since") pairs))
    then some journal_reversed
    else if is_cloudinit_dump parts && not (same_names (keys pairs) (codes "type" ∷ []))
    then some cloudinit_type
    else none

-- sorted(pairs), by name and then by value
unfoldable pub pair_lt : Text × Text → Text × Text → Bool
pair_lt (a, v) (b, w) = text_lt a b || text_eq a b && text_lt v w

unfoldable pub insert_pair : Text × Text → List (Text × Text) → List (Text × Text)
insert_pair p [] = p ∷ []
insert_pair p (q ∷ pairs) =
    let rest = insert_pair p pairs in if pair_lt q p then q ∷ rest else p ∷ q ∷ pairs

unfoldable pub sort_pairs : List (Text × Text) → List (Text × Text)
sort_pairs [] = []
sort_pairs (p ∷ pairs) = insert_pair p (sort_pairs pairs)

-- The resource without the API prefix.
unfoldable pub strip_api : Text → Text
strip_api resource = elim (after_literal resource (codes "/api2/json/")) [
  | none ↦ resource
  | some rest ↦ b'/' ∷ rest
]

-- "//" in resource
unfoldable pub has_double_slash : Text → Bool
has_double_slash [] = false
has_double_slash (c ∷ s) = starts_with (c ∷ s) (codes "//") || has_double_slash s

unfoldable pub ambiguous : Text → Bool
ambiguous resource =
    has_char b'%' resource || has_double_slash resource || any is_dots (split_on b'/' resource)

-- A path of the volume-metadata shape: node, storage and the encoded volume.
pub record VolumeParts : Type 0 where
  pub node : Text
  pub storage : Text
  pub encoded : Text

-- /nodes/([A-Za-z0-9_.-]+)/storage/([A-Za-z0-9_.-]+)/content/(.+)
unfoldable pub volume_rest : Text → Text → Text → Option VolumeParts
volume_rest node storage behind = elim (after_literal behind (codes "content/")) [
  | none ↦ none
  | some encoded ↦
      if some_of word_char node && some_of word_char storage && not (is_empty encoded)
      then some (record { node = node; storage = storage; encoded = encoded })
      else none
]

unfoldable pub volume_parts : Text → Option VolumeParts
volume_parts resource = elim (after_literal resource (codes "/nodes/")) [
  | none ↦ none
  | some tail ↦
      let (node, _, behind) = partition b'/' tail in
      elim (after_literal behind (codes "storage/")) [
        | none ↦ none
        | some tail₂ ↦
            let (storage, _, behind₂) = partition b'/' tail₂ in volume_rest node storage behind₂
      ]
]

module _ (lib : Urllib) where
  -- volume_path
  unfoldable pub volume_path : Text → Text → Text → Fenced
  volume_path node storage volume =
      if not (is_endpoint node && is_endpoint storage)
      then refused volume_endpoint
      else elim (after_literal volume (storage ++ codes ":")) [
        | none ↦ refused volume_prefix
        | some tail ↦
            if unambiguous_tail tail
            then send (
                codes "/nodes/"
                ++ (node
                    ++ (codes "/storage/" ++ (storage ++ (codes "/content/" ++ lib.quote volume)))))
            else refused ambiguous_volume
      ]

  -- _volume_resource
  unfoldable pub volume_resource : Text → Option Fenced
  volume_resource resource = elim (volume_parts resource) [
    | none ↦ none
    | some parts ↦
        if malformed_escape parts.encoded
        then some (refused malformed_volume)
        else elim (lib.unquote parts.encoded) [
          | none ↦ some (refused invalid_volume)
          | some volume ↦ some (volume_path parts.node parts.storage volume)
        ]
  ]

  -- resource + ("?" + urlencode(sorted(pairs)) if pairs else "")
  unfoldable pub request_path : Text → List (Text × Text) → Text
  request_path resource pairs =
      resource ++ (if is_empty pairs then [] else codes "?" ++ lib.urlencode (sort_pairs pairs))

  -- The checks behind the match of exactly one rule.
  unfoldable pub query_fence : Text → Dict Schema → List (Text × Text) → Fenced
  query_fence resource schema pairs =
      if not (pairs_accepted schema [] pairs)
      then refused outside_shape
      else elim (shape_refusal resource pairs) [
        | none ↦ send (request_path resource pairs)
        | some reason ↦ refused reason
      ]

  unfoldable pub parse_query : Text → Option (List (Text × Text))
  parse_query query = if is_empty query then some [] else lib.parse_qsl query

  unfoldable pub one_match : Text → Text → List (Dict Schema) → Fenced
  one_match resource query (schema ∷ []) = elim (parse_query query) [
    | none ↦ refused malformed_query
    | some pairs ↦ query_fence resource schema pairs
  ]
  one_match resource query _ = refused outside_surface

  -- A resource that is no volume.
  unfoldable pub resource_fence : List Rule → Text → Text → Fenced
  resource_fence rules resource query =
      if ambiguous resource
      then refused ambiguous_resource
      else one_match resource query (matching resource rules)

  -- What _volume_resource gives, with a query or without; its own refusal comes first.
  unfoldable pub volume_fence : Fenced → Text → Fenced
  volume_fence (refused reason) query = refused reason
  volume_fence (send wire) query = if is_empty query then send wire else refused volume_query

  -- fence_path, over the rules of the surface
  unfoldable pub fence_path : List Rule → Text → Fenced
  fence_path rules path =
      if not (starts_with path (codes "/"))
      then refused not_relative
      else if any control_char path || has_char b'#' path
      then refused control_or_fragment
      else (let (before, _, query) = partition b'?' path in
          let resource = strip_api before in
          elim (volume_resource resource) [
            | none ↦ resource_fence rules resource query
            | some volume ↦ volume_fence volume query
          ])

-- path_refusal; the reason stands for the text of the exception
unfoldable pub path_refusal : Urllib → List Rule → Text → Option Reason
path_refusal lib rules path = elim (fence_path lib rules path) [
  | send w ↦ none
  | refused reason ↦ some reason
]

unfoldable pub is_allowed_path : Urllib → List Rule → Text → Bool
is_allowed_path lib rules path = elim (path_refusal lib rules path) [
  | none ↦ true
  | some reason ↦ false
]

-- All that an evaluation of the fence computes with.
unfoldable pub program : Unit {0}
unfolding control_char is_dots is_endpoint volume_char unambiguous_tail starts_hex_pair
    malformed_escape to_number or_default in_range kind_accepts is_disk acl_char acl_parts
    is_acl_path query_value matching pair_accepted pairs_accepted is_journal is_cloudinit_dump
    value_of same_names shape_refusal pair_lt insert_pair sort_pairs strip_api has_double_slash
    ambiguous volume_rest volume_parts volume_path volume_resource request_path query_fence
    parse_query one_match resource_fence volume_fence fence_path some_of word_char name_char
    user_char address_char hex_char is_name is_vmid is_poolid is_userid is_task_user is_upid_parts
    is_upid is_cidr identifier_match after_literal cut_match template_match any all is_empty text_eq
    text_lt starts_with split_on extend_first partition has_char is_alnum is_letter is_digit lookup
    keys contains
program = tt
