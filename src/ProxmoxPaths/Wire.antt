-- ===== src/ProxmoxPaths/Wire.antt =====
-- What leaves the Proxmox fence (jobs/proxmox_paths.py).
use nautobot_testsuite.Base.{
  ◌≡◌, refl, true, false, ◌&&◌, some, List, [], ◌∷◌, ◌++◌, arith, Text, codes, text_eq,
  eq_of_text_eq, Dict, lookup, keys, contains, partition, Bool-cases, Option-cases, inl, inr, ◌⊎◌,
  &&-true, ap, text_eq_refl,
}
use nautobot_testsuite.ProxmoxPaths.Schema.{Piece, Schema, Rule, rule}
use nautobot_testsuite.ProxmoxPaths.Identifiers.{
  template_match, Matches, template_match-Matches, append_after_literal, after_literal,
}
use nautobot_testsuite.ProxmoxPaths.Fence.{
  Urllib, send, query_value, matching, pair_accepted, pairs_accepted, request_path, query_fence,
  parse_query, one_match, resource_fence, volume_resource, volume_fence, Fenced, refused,
  fence_path, strip_api, volume_path, volume_parts, is_endpoint, unambiguous_tail,
}

-- Every pair names, once, a parameter of the schema with a value that its schema accepts.
abbrev pub InSchema : Dict Schema → List (Text × Text) → Type 0
InSchema schema [] = Unit {0}
InSchema schema ((name, value) ∷ pairs) =
    ((s : Schema) × (lookup name schema ≡ some s) × (query_value name value s ≡ true))
    × (contains name (keys pairs) ≡ false)
    × InSchema schema pairs

-- A rule of the surface stands in a list of rules.
pub data Listed : Rule → List Rule → Type 0 where
  here : {r : Rule} {rules : List Rule} → Listed r (r ∷ rules)
  there : {r other : Rule} {rules : List Rule} → Listed r rules → Listed r (other ∷ rules)

-- A request path that one rule of the surface describes.
pub record OnSurface (lib : Urllib) (rules : List Rule) (w : Text) : Type 0 where
  pub pieces : List Piece
  pub schema : Dict Schema
  pub resource : Text
  pub pairs : List (Text × Text)
  pub is_listed : Listed (rule pieces schema) rules
  pub is_match : Matches pieces resource
  pub in_schema : InSchema schema pairs
  pub bytes : w ≡ request_path lib resource pairs

-- A request path of the volume-metadata shape, built anew from its parts.
pub record IsVolume (lib : Urllib) (w : Text) : Type 0 where
  pub node : Text
  pub storage : Text
  pub tail : Text
  pub node_ok : is_endpoint node ≡ true
  pub storage_ok : is_endpoint storage ≡ true
  pub tail_ok : unambiguous_tail tail ≡ true
  pub bytes :
      w
      ≡ codes "/nodes/"
        ++ (node
            ++ (codes "/storage/"
                ++ (storage ++ (codes "/content/" ++ lib.quote ((storage ++ codes ":") ++ tail)))))

matching_lem :
    (resource : Text) (rules : List Rule) (schema : Dict Schema) (more : List (Dict Schema))
    → matching resource rules ≡ schema ∷ more
    → (pieces : List Piece) × Listed (rule pieces schema) rules
      × (template_match pieces resource ≡ true)
unfolding matching
matching_lem resource [] schema more h = absurd (ground arith)
matching_lem resource (rule pieces parameters ∷ rules) schema more h =
    elim (Bool-cases (template_match pieces resource)) [
      | inl hit ↦
          let same : parameters ≡ schema = ground (arith, hit) in (pieces, rw (← same) here, hit)
      | inr miss ↦
          let (found, listed, m) = matching_lem resource rules schema more (ground (arith, miss)) in
          (found, there listed, m)
    ]

seen_apart :
    (schema : Dict Schema) (seen : List Text) (pairs : List (Text × Text)) (name : Text)
    → pairs_accepted schema seen pairs ≡ true
    → contains name seen ≡ true
    → contains name (keys pairs) ≡ false
unfolding pairs_accepted pair_accepted contains keys
seen_apart schema seen [] name h c = refl
seen_apart schema seen ((other, value) ∷ pairs) name h c = elim (Bool-cases (text_eq other name)) [
  | inl same ↦
      let e = eq_of_text_eq other name same in absurd (ground (arith, ap (λ n. contains n seen) e))
  | inr apart ↦ ground (arith, apart, seen_apart schema (other ∷ seen) pairs name)
]

contains_head : (name : Text) (seen : List Text) → contains name (name ∷ seen) ≡ true
unfolding contains
contains_head name seen = rw (text_eq_refl name) refl

accepted_here :
    (schema : Dict Schema) (seen : List Text) (name value : Text)
    → pair_accepted schema seen (name, value) ≡ true
    → (s : Schema) × (lookup name schema ≡ some s) × (query_value name value s ≡ true)
unfolding pair_accepted
accepted_here schema seen name value h = elim (Option-cases (lookup name schema)) [
  | inl absent ↦ absurd (ground (arith, absent))
  | inr (s, found) ↦ (s, found, ground (arith, found))
]

accepted_InSchema :
    (schema : Dict Schema) (seen : List Text) (pairs : List (Text × Text))
    → pairs_accepted schema seen pairs ≡ true
    → InSchema schema pairs
unfolding pairs_accepted
accepted_InSchema schema seen [] h = tt
accepted_InSchema schema seen ((name, value) ∷ pairs) h =
    let (first, later) = &&-true _ _ h in
    (
      accepted_here schema seen name value first,
      seen_apart schema (name ∷ seen) pairs name later (contains_head name seen),
      accepted_InSchema schema (name ∷ seen) pairs later,
    )

-- What volume_path sends.
volume_path_lem :
    (lib : Urllib) (node storage volume w : Text)
    → volume_path lib node storage volume ≡ send w
    → IsVolume lib w
unfolding volume_path
volume_path_lem lib node storage volume w h =
    elim (Bool-cases (is_endpoint node && is_endpoint storage)) [
      | inr bad ↦ absurd (ground (arith, bad))
      | inl ends ↦ elim (Option-cases (after_literal volume (storage ++ codes ":"))) [
        | inl absent ↦ absurd (ground (arith, absent, ends))
        | inr (tail, found) ↦
            let (p, q) = &&-true _ _ ends in
            let split = append_after_literal volume (storage ++ codes ":") tail found in
            record {
              node = node;
              storage = storage;
              tail = tail;
              node_ok = p;
              storage_ok = q;
              tail_ok = ground (arith, found, ends);
              bytes = rw (← split) (ground (arith, found, ends));
            }
      ]
    ]

volume_resource_lem :
    (lib : Urllib) (resource w : Text)
    → volume_resource lib resource ≡ some (send w)
    → IsVolume lib w
unfolding volume_resource
volume_resource_lem lib resource w h = elim (Option-cases (volume_parts resource)) [
  | inl absent ↦ absurd (ground (arith, absent))
  | inr (parts, found) ↦ elim (Option-cases (lib.unquote parts.encoded)) [
    | inl absent ↦ absurd (ground (arith, absent, found))
    | inr (volume, found₂) ↦
        volume_path_lem lib parts.node parts.storage volume w (ground (arith, found, found₂))
  ]
]

send_query :
    (lib : Urllib) (resource : Text) (schema : Dict Schema) (pairs : List (Text × Text)) (w : Text)
    → query_fence lib resource schema pairs ≡ send w
    → (pairs_accepted schema [] pairs ≡ true) × (w ≡ request_path lib resource pairs)
unfolding query_fence
send_query lib resource schema pairs w h = ground arith

one_match_lem :
    (lib : Urllib) (rules : List Rule) (resource query w : Text) (schemas : List (Dict Schema))
    → matching resource rules ≡ schemas
    → one_match lib resource query schemas ≡ send w
    → OnSurface lib rules w
unfolding one_match
one_match_lem lib rules resource query w [] e h = absurd (ground arith)
one_match_lem lib rules resource query w (schema ∷ other ∷ more) e h = absurd (ground arith)
one_match_lem lib rules resource query w (schema ∷ []) e h =
    elim (Option-cases (parse_query lib query)) [
      | inl absent ↦ absurd (ground (arith, absent))
      | inr (pairs, found) ↦
          let (pieces, listed, m) = matching_lem resource rules schema [] e in
          let (accepted, bytes) = send_query lib resource schema pairs w (ground (arith, found)) in
          record {
            pieces = pieces;
            schema = schema;
            resource = resource;
            pairs = pairs;
            is_listed = listed;
            is_match = template_match-Matches pieces resource m;
            in_schema = accepted_InSchema schema [] pairs accepted;
            bytes = bytes;
          }
    ]

volume_fence_lem :
    (lib : Urllib) (volume : Fenced) (query w : Text)
    → volume_fence lib volume query ≡ send w
    → volume ≡ send w
unfolding volume_fence
volume_fence_lem lib (refused reason) query w h = cc
volume_fence_lem lib (send wire) query w h = ground arith

fence_cases :
    (lib : Urllib) (rules : List Rule) (path w : Text)
    → fence_path lib rules path ≡ send w
    → (resource : Text) × (query : Text) × (volume_resource lib resource ≡ some (send w)
        ⊎ (one_match lib resource query (matching resource rules) ≡ send w))
unfolding fence_path resource_fence
fence_cases lib rules path w h =
    let parts = partition b'?' path in
    let resource = strip_api parts.0 in
    elim (Option-cases (volume_resource lib resource)) [
      | inl absent ↦ (resource, parts.2, inr (ground (arith, absent)))
      | inr (volume, found) ↦
          (resource, parts.2, inl (ground (arith, found, volume_fence_lem lib volume parts.2 w)))
    ]

-- Whatever path the Proxmox fence is given, what it sends is the request path of a listed rule of
-- the surface, rebuilt from a resource that the template of the rule describes and from query pairs
-- that name, each once, parameters of the rule with values in their schemas; or it is a volume's
-- metadata path, rebuilt from an endpoint node and storage and an unambiguous volume name.
pub fence_path-OnSurface :
    (lib : Urllib) (rules : List Rule) (path w : Text)
    → fence_path lib rules path ≡ send w
    → IsVolume lib w ⊎ OnSurface lib rules w
fence_path-OnSurface lib rules path w h =
    let (resource, query, which) = fence_cases lib rules path w h in
    elim which [
      | inl volume ↦ inl (volume_resource_lem lib resource w volume)
      | inr listed ↦
          inr (one_match_lem lib rules resource query w (matching resource rules) refl listed)
    ]
