-- ===== src/Scope/Platforms.antt =====
-- `map_platform`, `_denied_tokens`, `_supported` and `_unsupported_reason` (jobs/scope.py). A field that
-- is None is the empty text; str.lower of Python is a parameter.
use nautobot_testsuite.Base.{
  ◌||◌, not, Option, none, some, List, [], ◌∷◌, ◌++◌, if◌then◌else◌, select, is_empty, Text, codes,
  contains, has_substring, is_alnum, extend_first,
}

-- The words that refuse a platform (jobs/constants.py).
abbrev pub deny_tokens : List Text
deny_tokens =
    codes "nxos"
    ∷ codes "wap"
    ∷ codes "ap"
    ∷ codes "xr"
    ∷ codes "asa"
    ∷ codes "ftd"
    ∷ codes "aireos"
    ∷ codes "meraki"
    ∷ codes "apic"
    ∷ codes "viptela"
    ∷ []

-- _WORD_SPLIT.split(text)
unfoldable pub split_words : Text → List Text
unfolding is_alnum extend_first
split_words [] = [] ∷ []
split_words (c ∷ s) =
    let rest = split_words s in if is_alnum c then extend_first c rest else [] ∷ rest

-- The fields of a platform: its driver, name and slug.
pub record Platform : Type 0 where
  pub driver : Text
  pub name : Text
  pub slug : Text

pub data Family : Type 0 where
  panos vmware proxmox iosxe : Family

module _ (lower_case : Text → Text) where
  -- The set of the words of the three fields; the empty ones are left out.
  unfoldable pub platform_words : Platform → List Text
  unfolding split_words select is_empty
  platform_words p = lowered (
      select (λ w. not (is_empty w))
        (split_words p.driver ++ split_words p.name ++ split_words p.slug))
    where
      lowered : List Text → List Text
      lowered [] = []
      lowered (w ∷ words) = lower_case w ∷ lowered words

  -- _denied_tokens
  unfoldable pub denied_tokens : Platform → List Text
  unfolding platform_words select contains
  denied_tokens p = select (λ token. contains token (platform_words p)) deny_tokens

  -- driver or slug or name or ""
  unfoldable pub first_field : Platform → Text
  unfolding is_empty
  first_field p =
      if not (is_empty p.driver) then p.driver else if not (is_empty p.slug) then p.slug else p.name

  unfoldable pub family_of : Platform → Option Family
  unfolding denied_tokens first_field has_substring is_empty
  family_of p =
      let selected = lower_case (first_field p) in
      if not (is_empty (denied_tokens p))
      then none
      else if has_substring (codes "panos") selected || has_substring (codes "paloalto") selected
      then some panos
      else if has_substring (codes "vmware") selected || has_substring (codes "esxi") selected
      then some vmware
      else if has_substring (codes "proxmox") (lower_case p.driver)
          || has_substring (codes "proxmox") (lower_case p.name)
          || has_substring (codes "proxmox") (lower_case p.slug)
      then some proxmox
      else if has_substring (codes "cisco") selected
      then some iosxe
      else none

  -- map_platform
  unfoldable pub map_platform : Platform → Option Family × Text
  unfolding family_of first_field
  map_platform p = (family_of p, lower_case (first_field p))

  -- row.get("platform") or row.get("platform_driver") or row.get("platform_slug") or "unset"
  shown_platform : Platform → Text
  shown_platform p =
      if not (is_empty p.name)
      then p.name
      else if not (is_empty p.driver)
      then p.driver
      else if not (is_empty p.slug)
      then p.slug
      else codes "unset"

  -- ", ".join(tokens)
  joined_tokens : List Text → Text
  joined_tokens [] = []
  joined_tokens (t ∷ []) = t
  joined_tokens (t ∷ u ∷ tokens) = t ++ codes ", " ++ joined_tokens (u ∷ tokens)

  -- _unsupported_reason
  unfoldable pub unsupported_reason : Platform → Text
  unfolding shown_platform joined_tokens denied_tokens
  unsupported_reason p =
      let denied = denied_tokens p in
      if not (is_empty denied)
      then codes "Platform '"
        ++ shown_platform p
        ++ codes "' contains unsupported token(s) "
        ++ joined_tokens denied
        ++ codes "; set its managed-device group/controller when applicable, or exclude the device"
      else codes "Unsupported platform '"
        ++ shown_platform p
        ++ codes
            "'; set a supported cisco, panos/paloalto or vmware/esxi platform, or model the host's BMC interface"
