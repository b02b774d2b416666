-- ===== src/BmcTarget/Rule.antt =====
-- `match_bmc_interface`, `pick_address` and `find_bmc` (jobs/bmc_target.py). The functions of the
-- ipaddress module are a parameter.
use nautobot_testsuite.Base.{
  ℕ, ◌==◌, Bool, ◌&&◌, ◌||◌, Option, none, some, List, [], ◌∷◌, map, ltb, if◌then◌else◌, is_empty,
  Text, codes, contains, lower, is_alnum, is_digit, text_lt,
}

-- constants.BMC_INTERFACE_NAMES
abbrev pub bmc_interface_names : List Text
bmc_interface_names =
    codes "xcc"
    ∷ codes "xclarity"
    ∷ codes "imm"
    ∷ codes "idrac"
    ∷ codes "ilo"
    ∷ codes "cimc"
    ∷ codes "bmc"
    ∷ codes "ipmi"
    ∷ []

-- The run of letters and digits at the start of a text.
unfoldable pub word_start : Text → Text
word_start [] = []
word_start (c ∷ s) = let rest = word_start s in if is_alnum c then c ∷ rest else []

-- The first word of _WORD_SPLIT.split(name) that is not empty, or the empty text.
unfoldable pub first_word : Text → Text
unfolding word_start
first_word [] = []
first_word (c ∷ s) = let later = first_word s in if is_alnum c then word_start (c ∷ s) else later

-- .rstrip("0123456789")
unfoldable pub digit_end : ℕ → Text → Text
digit_end c [] = if is_digit c then [] else c ∷ []
digit_end c (d ∷ s) = c ∷ d ∷ s

unfoldable pub rstrip_digits : Text → Text
unfolding digit_end
rstrip_digits [] = []
rstrip_digits (c ∷ s) = digit_end c (rstrip_digits s)

-- match_bmc_interface
unfoldable pub match_bmc_interface : Text → Option Text
unfolding first_word rstrip_digits lower contains is_empty
match_bmc_interface name =
    let first = rstrip_digits (lower (first_word name)) in
    if is_empty (first_word name)
    then none
    else if contains first bmc_interface_names
    then some first
    else none

-- ipaddress: `as_ip` is `ip_interface(text.strip()).ip`, none for a text that is no address.
pub record Ipaddress : Type 1 where
  pub Address : Type 0
  pub as_ip : Text → Option Address
  pub same : Address → Address → Bool
  pub is_link_local : Address → Bool
  pub version : Address → ℕ
  pub number : Address → ℕ
  pub spelled : Address → Text

pub record BmcTarget : Type 0 where
  pub interface_name : Text
  pub token : Text
  pub address : Option Text
  pub addresses_seen : List Text
  pub interface_id : ℕ

-- An interface: its name, its addresses and its identity.
pub record Interface : Type 0 where
  pub name : Text
  pub addresses : List Text
  pub id : ℕ

-- The result of find_bmc; `ambiguous` is the exception AmbiguousBmc, with the names that match in order.
pub data Found : Type 0 where
  unmodelled : Found
  ambiguous : List Text → Found
  target : BmcTarget → Found

-- The interfaces that match, with their tokens.
unfoldable pub bmc_matches : List Interface → List (Interface × Text)
unfolding match_bmc_interface
bmc_matches [] = []
bmc_matches (i ∷ interfaces) =
    let rest = bmc_matches interfaces in
    elim (match_bmc_interface i.name) [ none ↦ rest | some token ↦ (i, token) ∷ rest ]

-- sorted(...) on texts, which keeps repeated ones
unfoldable pub insert_name : Text → List Text → List Text
unfolding text_lt
insert_name name [] = name ∷ []
insert_name name (first ∷ rest) =
    let later = insert_name name rest in
    if text_lt first name then first ∷ later else name ∷ first ∷ rest

unfoldable pub sorted_names : List Text → List Text
unfolding insert_name
sorted_names [] = []
sorted_names (name ∷ names) = insert_name name (sorted_names names)

module _ (lib : Ipaddress) where
  open lib use {Address, as_ip, same, is_link_local, version, number, spelled}

  -- The sort key (is_link_local, version, int), as an order.
  unfoldable pub before : Address → Address → Bool
  before a b =
      if is_link_local a
      then is_link_local b
        && (ltb (version a) (version b) || version a == version b && ltb (number a) (number b))
      else is_link_local b
        || ltb (version a) (version b)
        || version a == version b && ltb (number a) (number b)

  -- The place of an address in the sorted set.
  unfoldable pub insert_address : Address → List Address → List Address
  unfolding before
  insert_address a [] = a ∷ []
  insert_address a (b ∷ bs) =
      let rest = insert_address a bs in
      if same a b then b ∷ bs else if before a b then a ∷ b ∷ bs else b ∷ rest

  unfoldable pub ordered : List Text → List Address
  unfolding insert_address
  ordered [] = []
  ordered (item ∷ items) =
      let rest = ordered items in elim (as_ip item) [ none ↦ rest | some a ↦ insert_address a rest ]

  -- pick_address
  unfoldable pub choose : List Address → Option Text × List Text
  choose [] = (none, [])
  choose (a ∷ rest) = (some (spelled a), spelled a ∷ map spelled rest)

  unfoldable pub pick_address : List Text → Option Text × List Text
  unfolding ordered choose
  pick_address addresses = choose (ordered addresses)

  unfoldable pub only_match : List (Interface × Text) → Found
  unfolding pick_address sorted_names
  only_match [] = unmodelled
  only_match ((i, token) ∷ []) =
      let (chosen, seen) = pick_address i.addresses in
      target (record {
        interface_name = i.name;
        token = token;
        address = chosen;
        addresses_seen = seen;
        interface_id = i.id;
      })
  only_match (first ∷ second ∷ more) =
      ambiguous (sorted_names (map (λ m. m.0.name) (first ∷ second ∷ more)))

  -- find_bmc
  unfoldable pub find_bmc : List Interface → Found
  unfolding only_match bmc_matches
  find_bmc interfaces = only_match (bmc_matches interfaces)

-- The envelope's device.bmc dict.
pub record BmcBlock : Type 0 where
  pub interface : Text
  pub token : Text
  pub address : Option Text
  pub addresses_seen : List Text
  pub transport : Option Text
  pub vendor : Option Text
  pub product : Option Text
  pub captured : Bool
  pub note : Option Text

-- transport if target.address else None
unfoldable pub transport_of : Option Text → Text → Option Text
unfolding is_empty
transport_of none transport = none
transport_of (some address) transport = if is_empty address then none else some transport

-- bmc_block
unfoldable pub bmc_block :
    Option BmcTarget → Bool → Option Text → Option Text → Option Text → Text → Option BmcBlock
unfolding transport_of
bmc_block none captured remark vendor product transport = none
bmc_block (some found) captured remark vendor product transport = some (record {
  interface = found.interface_name;
  token = found.token;
  address = found.address;
  addresses_seen = found.addresses_seen;
  transport = transport_of found.address transport;
  vendor = vendor;
  product = product;
  captured = captured;
  note = remark;
})
