-- ===== src/RedfishPaths/Wire.antt =====
-- What leaves the fence (jobs/redfish_paths.py, `fence_path`): the shape of an allowed request path,
-- and that the fence accepts its own answers.
use nautobot_testsuite.Base.{
  ℕ, ◌≡◌, refl, ◌∙◌, ap, subst, Bool, true, false, Option, none, List, [], ◌∷◌, ◌++◌, arith, drop,
  any, all, is_empty, Text, codes, text_eq, starts_with, split_on, partition, separator, has_char,
  lower, contains, any-append, Bool-cases, inl, inr, partition-join, partition_absent, has_char-all,
  suffix_of_starts_with, is_letter, is_digit, is_alnum, partition_none, partition-separator,
  eq_of_text_eq,
}
use nautobot_testsuite.RedfishPaths.Fence.{
  redfish_root, allowed_query_params, banned_segments, path_char, query_value, path_match,
  control_char, normalised, resource_of, query_of, segment_refusal, pair_refusal, first_refusal,
  or_else, segments_of, resource_refusal, query_refusal, path_refusal, Reason, send, wire_path,
  fence_path,
}

-- Characters that no request path carries in its resource.
no_question_mark : (r : Text) → all path_char r ≡ true → has_char b'?' (redfish_root ++ r) ≡ false
unfolding has_char path_char is_alnum is_letter is_digit
no_question_mark r h = has_char-all path_char b'?' r h refl

no_hash : (r : Text) → all path_char r ≡ true → has_char b'#' (redfish_root ++ r) ≡ false
unfolding has_char path_char is_alnum is_letter is_digit
no_hash r h = has_char-all path_char b'#' r h refl

no_percent : (r : Text) → all path_char r ≡ true → has_char b'%' (redfish_root ++ r) ≡ false
unfolding has_char path_char is_alnum is_letter is_digit
no_percent r h = has_char-all path_char b'%' r h refl

path_char-control : (c : ℕ) → path_char c ≡ true → control_char c ≡ false
unfolding path_char control_char has_char is_alnum is_letter is_digit
path_char-control c h = ground arith

no_control : (r : Text) → all path_char r ≡ true → any control_char r ≡ false
unfolding any all
no_control [] h = refl
no_control (c ∷ r) h = ground (arith, path_char-control c, no_control r)

no_control_root : (r : Text) → all path_char r ≡ true → any control_char (redfish_root ++ r) ≡ false
unfolding any control_char
no_control_root r h = no_control r h

normalised-root : (r : Text) → normalised (redfish_root ++ r) ≡ redfish_root ++ r
unfolding normalised text_eq
normalised-root r = refl

refusal_parts :
    (path : Text)
    → path_refusal path ≡ none
    → (any control_char path ≡ false)
      × (resource_refusal (resource_of path) ≡ none)
      × (query_refusal (query_of path) ≡ none)
unfolding path_refusal or_else
refusal_parts path h = ground arith

resource_parts :
    (res : Text)
    → resource_refusal res ≡ none
    → (starts_with res redfish_root ≡ true)
      × (all path_char (drop 12 res) ≡ true)
      × (first_refusal segment_refusal (segments_of res) ≡ none)
unfolding resource_refusal path_match or_else
resource_parts res h = ground arith

accepted_resource :
    (res : Text)
    → resource_refusal res ≡ none
    → (r : Text) × (res ≡ redfish_root ++ r) × (all path_char r ≡ true)
accepted_resource res h =
    let (start, grammar, _) = resource_parts res h in
    let (r, e) = suffix_of_starts_with res redfish_root start in
    (r, e, subst (λ x. all path_char (drop 12 x) ≡ true) e grammar)

-- What the fence reads in a request path whose resource is in the grammar.
record Reads (w res q : Text) (found : Bool) : Type 0 where
  reads_resource : resource_of w ≡ res
  reads_query : query_of w ≡ q
  reads_found : (partition b'?' w).1 ≡ found

wire-Reads :
    (r q : Text) (found : Bool)
    → all path_char r ≡ true
    → (found ≡ false → q ≡ [])
    → Reads ((redfish_root ++ r) ++ (separator b'?' found ++ q)) (redfish_root ++ r) q found
unfolding resource_of query_of
wire-Reads r q found h e =
    let split = partition-separator b'?' (redfish_root ++ r) q found (no_question_mark r h) e in
    record {
      reads_resource =
          ap (λ p. normalised (partition b'#' p.0).0) split
          ∙ ap (λ p. normalised p.0) (partition_absent b'#' (redfish_root ++ r) (no_hash r h))
          ∙ normalised-root r;
      reads_query = ap (λ p. p.2) split;
      reads_found = ap (λ p. p.1) split;
    }

-- The request path of an allowed path is read as the same resource and the same query.
wire_path-Reads :
    (path : Text)
    → path_refusal path ≡ none
    → Reads (wire_path path) (resource_of path) (query_of path) (partition b'?' path).1
unfolding wire_path query_of
wire_path-Reads path h =
    let (_, resource, _) = refusal_parts path h in
    let (r, e, grammar) = accepted_resource (resource_of path) resource in
    rw e (
      wire-Reads r (partition b'?' path).2 (partition b'?' path).1 grammar
        (partition_none b'?' path))

-- No control character comes in: the query is a part of the path.
wire_clean : (path : Text) → path_refusal path ≡ none → any control_char (wire_path path) ≡ false
unfolding wire_path query_of
wire_clean path h =
    let (clean, resource, _) = refusal_parts path h in
    let (r, e, grammar) = accepted_resource (resource_of path) resource in
    let p = partition b'?' path in
    ground (
      arith,
      any-append control_char (resource_of path) (separator b'?' p.1 ++ p.2),
      ap (any control_char) e,
      no_control_root r grammar,
      any-append control_char p.0 (separator b'?' p.1 ++ p.2),
      ap (any control_char) (partition-join b'?' path),
    )

wire_nonempty : (path : Text) → path_refusal path ≡ none → is_empty (wire_path path) ≡ false
unfolding wire_path is_empty
wire_nonempty path h =
    let (_, resource, _) = refusal_parts path h in
    let (r, e, grammar) = accepted_resource (resource_of path) resource in rw e refl

wire_allowed : (path : Text) → path_refusal path ≡ none → path_refusal (wire_path path) ≡ none
wire_allowed path h =
    let (_, resource, query) = refusal_parts path h in
    let reads = wire_path-Reads path h in
    unfold path_refusal or_else in
    rw (wire_nonempty path h, wire_clean path h, reads.reads_resource, reads.reads_query, resource)
      query

wire_path_of_Reads :
    (w res q : Text) (found : Bool)
    → Reads w res q found
    → wire_path w ≡ res ++ (separator b'?' found ++ q)
unfolding wire_path
wire_path_of_Reads w res q found reads =
    rw (reads.reads_resource, reads.reads_query, reads.reads_found) refl

wire_path-wire_path :
    (path : Text) → path_refusal path ≡ none → wire_path (wire_path path) ≡ wire_path path
wire_path-wire_path path h =
    wire_path_of_Reads (wire_path path) _ _ _ (wire_path-Reads path h) ∙ unfold wire_path in refl

send_parts :
    (path w : Text) → fence_path path ≡ send w → (path_refusal path ≡ none) × (w ≡ wire_path path)
unfolding fence_path
send_parts path w h = ground arith

send_of_parts : (w : Text) → path_refusal w ≡ none → wire_path w ≡ w → fence_path w ≡ send w
unfolding fence_path
send_of_parts w h e = ground arith

-- What the fence sends it accepts again, unchanged: a request path is its own request path.
pub fence_path_idem : (path w : Text) → fence_path path ≡ send w → fence_path w ≡ send w
fence_path_idem path w h =
    let (allowed, e) = send_parts path w h in
    rw e (send_of_parts _ (wire_allowed path allowed) (wire_path-wire_path path allowed))

first_refusal-none :
    (f : Text → Option Reason) (x : Text) (xs : List Text)
    → first_refusal f xs ≡ none
    → contains x xs ≡ true
    → f x ≡ none
unfolding first_refusal contains
first_refusal-none f x [] h c = cc
first_refusal-none f x (y ∷ ys) h c = elim (Bool-cases (text_eq y x)) [
  | inl same ↦ rw (← eq_of_text_eq y x same) (ground arith)
  | inr other ↦ first_refusal-none f x ys (ground arith) (ground (arith, other))
]

-- A request path is inside the read-only surface.
pub record IsReadOnly (w : Text) : Type 0 where
  pub in_root : starts_with w redfish_root ≡ true
  pub no_escape : has_char b'%' (resource_of w) ≡ false
  -- No segment is a dot segment, or in any case of its letters a banned one.
  pub no_action :
      (segment : Text)
      → contains segment (segments_of (resource_of w)) ≡ true
      → (text_eq segment (codes ".") ≡ false)
        × (text_eq segment (codes "..") ≡ false)
        × (contains (lower segment) banned_segments ≡ false)
  -- Every query parameter is an allowlisted one with a value of the value grammar.
  pub params :
      (pair : Text)
      → is_empty (query_of w) ≡ false
      → contains pair (split_on b'&' (query_of w)) ≡ true
      → (contains (partition b'=' pair).0 allowed_query_params ≡ true)
        × (query_value (partition b'=' pair).2 ≡ true)

segment_refusal-none :
    (segment : Text)
    → segment_refusal segment ≡ none
    → (text_eq segment (codes ".") ≡ false)
      × (text_eq segment (codes "..") ≡ false)
      × (contains (lower segment) banned_segments ≡ false)
unfolding segment_refusal
segment_refusal-none segment h = ground arith

pair_refusal-none :
    (pair : Text)
    → pair_refusal pair ≡ none
    → (contains (partition b'=' pair).0 allowed_query_params ≡ true)
      × (query_value (partition b'=' pair).2 ≡ true)
unfolding pair_refusal
pair_refusal-none pair h = ground arith

query_refusal-none :
    (q : Text)
    → query_refusal q ≡ none
    → is_empty q ≡ false
    → first_refusal pair_refusal (split_on b'&' q) ≡ none
unfolding query_refusal
query_refusal-none q h e = ground arith

starts_with-wire_path :
    (path : Text) → path_refusal path ≡ none → starts_with (wire_path path) redfish_root ≡ true
unfolding wire_path
starts_with-wire_path path h =
    let (_, resource, _) = refusal_parts path h in
    let (r, e, grammar) = accepted_resource (resource_of path) resource in
    rw e (unfold starts_with in refl)

accepted_IsReadOnly : (w : Text) → path_refusal w ≡ none → wire_path w ≡ w → IsReadOnly w
accepted_IsReadOnly w h e =
    let (_, resource, query) = refusal_parts w h in
    let (_, _, walk) = resource_parts (resource_of w) resource in
    let (r, res, grammar) = accepted_resource (resource_of w) resource in
    record {
      in_root = subst (λ x. starts_with x redfish_root ≡ true) e (starts_with-wire_path w h);
      no_escape = rw res (no_percent r grammar);
      no_action = λ segment there.
          segment_refusal-none segment
            (first_refusal-none segment_refusal segment (segments_of (resource_of w)) walk there);
      params = λ pair some_query there. pair_refusal-none pair (
          first_refusal-none pair_refusal pair (split_on b'&' (query_of w))
            (query_refusal-none (query_of w) query some_query) there);
    }

-- Whatever path it is given, a link that a device supplied included, the fence sends only paths of
-- the read-only surface, read from the bytes that are sent.
pub fence_path-IsReadOnly : (path w : Text) → fence_path path ≡ send w → IsReadOnly w
fence_path-IsReadOnly path w h =
    let (allowed, e) = send_parts path w h in
    rw e (accepted_IsReadOnly _ (wire_allowed path allowed) (wire_path-wire_path path allowed))
