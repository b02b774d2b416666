-- ===== src/RedfishPaths/Fence.antt =====
-- `path_refusal` and `fence_path` (jobs/redfish_paths.py). A path is a string; a refusal is a value
-- of `Reason`, and the exception of `fence_path` carries it.
use nautobot_testsuite.Base.{
  ℕ, ◌≡◌, refl, Bool, true, false, ◌&&◌, ◌||◌, not, Option, none, some, List, [], ◌∷◌, ◌++◌, ltb,
  ◌==◌, if◌then◌else◌, drop, any, all, is_empty, Text, codes, text_eq, starts_with, split_on,
  partition, separator, has_char, lower, is_alnum, contains, is_letter, is_digit, lower_char,
  extend_first,
}

-- REDFISH_ROOT, and REDFISH_ROOT.rstrip("/")
abbrev pub redfish_root : Text
redfish_root = codes "/redfish/v1/"

abbrev pub bare_root : Text
bare_root = codes "/redfish/v1"

abbrev pub allowed_query_params : List Text
allowed_query_params = codes "$expand" ∷ codes "$select" ∷ codes "$skip" ∷ codes "$skiptoken" ∷ []

abbrev pub banned_segments : List Text
banned_segments = codes "actions" ∷ codes "sessionservice" ∷ []

pub data Reason : Type 0 where
  empty_path control_character outside_root percent_encoding outside_grammar dot_segment : Reason
  banned_segment : Text → Reason
  empty_segment : Reason
  query_not_allowlisted unreadable_value : Text → Reason

-- _PATH_RE: [A-Za-z0-9._~!$&'()*+,;=:@/-]
unfoldable pub path_char : ℕ → Bool
path_char c = is_alnum c || has_char c (codes "._~!$&'()*+,;=:@/-")

-- _QUERY_VALUE_RE: [A-Za-z0-9._,()$=*/@:-]+
unfoldable pub query_char : ℕ → Bool
query_char c = is_alnum c || has_char c (codes "._,()$=*/@:-")

unfoldable pub query_value : Text → Bool
query_value value = not (is_empty value) && all query_char value

-- _PATH_RE.fullmatch(resource)
unfoldable pub path_match : Text → Bool
path_match resource = starts_with resource redfish_root && all path_char (drop 12 resource)

-- ord(char) < 0x21 or ord(char) == 0x7F
unfoldable pub control_char : ℕ → Bool
control_char c = ltb c 0x21 || c == 0x7f

-- The resource of a path: what stands before the first "?", cut at the first "#", the bare service
-- root normalised.
unfoldable pub normalised : Text → Text
normalised resource = if text_eq resource bare_root then redfish_root else resource

unfoldable pub resource_of : Text → Text
resource_of path = normalised (partition b'#' (partition b'?' path).0).0

unfoldable pub query_of : Text → Text
query_of path = (partition b'?' path).2

-- The body of the loop over the segments.
unfoldable pub segment_refusal : Text → Option Reason
segment_refusal segment =
    if text_eq segment (codes ".") || text_eq segment (codes "..")
    then some dot_segment
    else if contains (lower segment) banned_segments
    then some (banned_segment segment)
    else none

-- The body of the loop over the query's pairs.
unfoldable pub pair_refusal : Text → Option Reason
pair_refusal pair =
    let (name, found, value) = partition b'=' pair in
    if not (contains name allowed_query_params)
    then some (query_not_allowlisted name)
    else if not found || not (query_value value)
    then some (unreadable_value name)
    else none

-- A loop that returns at the first refusal.
unfoldable pub first_refusal : (Text → Option Reason) → List Text → Option Reason
first_refusal refusal [] = none
first_refusal refusal (x ∷ xs) =
    let rest = first_refusal refusal xs in elim (refusal x) [ none ↦ rest | some r ↦ some r ]

unfoldable pub or_else : Option Reason → Option Reason → Option Reason
or_else none later = later
or_else (some r) later = some r

unfoldable pub has_empty_segment : Text → Bool
has_empty_segment [] = false
has_empty_segment (c ∷ s) =
    let rest = has_empty_segment s in if starts_with (c ∷ s) (codes "//") then true else rest

unfoldable pub segments_of : Text → List Text
segments_of resource = split_on b'/' (drop 12 resource)

-- The checks on the resource, in order.
unfoldable pub resource_refusal : Text → Option Reason
resource_refusal resource =
    if not (starts_with resource redfish_root)
    then some outside_root
    else if has_char b'%' resource
    then some percent_encoding
    else if not (path_match resource)
    then some outside_grammar
    else or_else (first_refusal segment_refusal (segments_of resource))
        (if has_empty_segment resource then some empty_segment else none)

unfoldable pub query_refusal : Text → Option Reason
query_refusal query =
    if is_empty query then none else first_refusal pair_refusal (split_on b'&' query)

unfoldable pub path_refusal : Text → Option Reason
path_refusal path =
    if is_empty path
    then some empty_path
    else if any control_char path
    then some control_character
    else or_else (resource_refusal (resource_of path)) (query_refusal (query_of path))

unfoldable pub is_allowed_path : Text → Bool
is_allowed_path path = elim (path_refusal path) [ none ↦ true | some r ↦ false ]

-- A request path, or the refusal.
pub data Fenced : Type 0 where
  send : Text → Fenced
  refused : Reason → Fenced

-- resource + sep + query
unfoldable pub wire_path : Text → Text
wire_path path = resource_of path ++ (separator b'?' (partition b'?' path).1 ++ query_of path)

unfoldable pub fence_path : Text → Fenced
fence_path path = elim (path_refusal path) [ none ↦ send (wire_path path) | some r ↦ refused r ]

-- All that an evaluation of the fence computes with.
unfoldable pub program : Unit {0}
unfolding path_char query_char query_value path_match control_char normalised resource_of query_of
    segment_refusal pair_refusal first_refusal or_else has_empty_segment segments_of
    resource_refusal query_refusal path_refusal is_allowed_path wire_path fence_path is_alnum
    is_letter is_digit has_char all any is_empty starts_with text_eq partition separator lower
    lower_char contains split_on extend_first
program = tt

fence_examples :
    (fence_path (codes "/redfish/v1") ≡ send (codes "/redfish/v1/"))
    × (fence_path (codes "/redfish/v1/Systems/1#/Boot") ≡ send (codes "/redfish/v1/Systems/1"))
    × (fence_path (codes "/redfish/v1/Systems/1/Actions/Reset")
        ≡ refused (banned_segment (codes "Actions")))
    × (fence_path (codes "/redfish/v1/Systems?$top=1")
        ≡ refused (query_not_allowlisted (codes "$top")))
    × (fence_path (codes "/redfish/v1/Systems?$expand=*")
        ≡ send (codes "/redfish/v1/Systems?$expand=*"))
unfolding program
fence_examples = (refl, refl, refl, refl, refl)
