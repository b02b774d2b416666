-- ===== src/Examples/ProxmoxFence.antt =====
-- Concrete runs of the Proxmox fence (jobs/proxmox_paths.py).
use nautobot_testsuite.Base.{
  refl, ◌⊎◌, none, some, List, [], ◌∷◌, Text, codes, text_eq, if◌then◌else◌,
}
use nautobot_testsuite.ProxmoxPaths.Schema.{Rule, rule, lit, ident, name, plain, boolean}
use nautobot_testsuite.ProxmoxPaths.Fence.{Urllib, program}
use nautobot_testsuite.ProxmoxPaths.Wire.{IsVolume, OnSurface, fence_path-OnSurface}

-- The Proxmox fence, with stand-ins for the functions of urllib.parse.
abbrev plain_urllib : Urllib
plain_urllib = record {
  parse_qsl = λ query.
      if text_eq query (codes "full=1") then some ((codes "full", codes "1") ∷ []) else none;
  urlencode = λ pairs. codes "full=1";
  quote = λ value. value;
  unquote = λ value. some value;
}

abbrev lxc_rules : List Rule
lxc_rules =
    rule (lit (codes "/nodes/") ∷ ident name ∷ lit (codes "/status") ∷ [])
      ((codes "full", plain boolean) ∷ [])
    ∷ []

abbrev status_path : Text
status_path = codes "/nodes/pve1/status?full=1"

fence_path-OnSurface_example :
    IsVolume plain_urllib status_path ⊎ OnSurface plain_urllib lxc_rules status_path
unfolding program
fence_path-OnSurface_example =
    fence_path-OnSurface plain_urllib lxc_rules status_path status_path refl
