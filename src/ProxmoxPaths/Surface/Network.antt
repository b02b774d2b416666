-- ===== src/ProxmoxPaths/Surface/Network.antt =====
-- _SURFACE of jobs/proxmox_paths.py: its network templates.
use nautobot_testsuite.Base.{List, [], ◌∷◌, codes}
use nautobot_testsuite.ProxmoxPaths.Schema.{Rule, rule, lit, ident, name, one_of}

abbrev pub network_surface : List Rule
network_surface =
    rule (lit (codes "/nodes/") ∷ ident name ∷ lit (codes "/netstat") ∷ []) ([])
    ∷ rule (lit (codes "/nodes/") ∷ ident name ∷ lit (codes "/network") ∷ []) (
        (
          codes "type",
          one_of (
              codes "bridge"
              ∷ codes "bond"
              ∷ codes "eth"
              ∷ codes "alias"
              ∷ codes "vlan"
              ∷ codes "fabric"
              ∷ codes "OVSBridge"
              ∷ codes "OVSBond"
              ∷ codes "OVSPort"
              ∷ codes "OVSIntPort"
              ∷ codes "vnet"
              ∷ codes "any_bridge"
              ∷ codes "any_local_bridge"
              ∷ codes "include_sdn"
              ∷ []),
        )
        ∷ [])
    ∷ rule (lit (codes "/nodes/") ∷ ident name ∷ lit (codes "/network/") ∷ ident name ∷ []) ([])
    ∷ []
