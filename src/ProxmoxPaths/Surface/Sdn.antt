-- ===== src/ProxmoxPaths/Surface/Sdn.antt =====
-- _SURFACE of jobs/proxmox_paths.py: its sdn templates.
use nautobot_testsuite.Base.{List, [], ◌∷◌, codes}
use nautobot_testsuite.ProxmoxPaths.Schema.{
  Rule, rule, lit, ident, name, number, plain, boolean, one_of,
}

abbrev pub sdn_surface : List Rule
sdn_surface =
    rule (lit (codes "/cluster/sdn") ∷ []) ([])
    ∷ rule (lit (codes "/cluster/sdn/controllers") ∷ []) (
        (codes "pending", plain boolean)
        ∷ (codes "running", plain boolean)
        ∷ (codes "type", one_of (codes "bgp" ∷ codes "evpn" ∷ codes "faucet" ∷ codes "isis" ∷ []))
        ∷ [])
    ∷ rule (lit (codes "/cluster/sdn/controllers/") ∷ ident name ∷ [])
        ((codes "pending", plain boolean) ∷ (codes "running", plain boolean) ∷ [])
    ∷ rule (lit (codes "/cluster/sdn/dns") ∷ [])
        ((codes "type", one_of (codes "powerdns" ∷ [])) ∷ [])
    ∷ rule (lit (codes "/cluster/sdn/dns/") ∷ ident name ∷ []) ([])
    ∷ rule (lit (codes "/cluster/sdn/fabrics") ∷ []) ([])
    ∷ rule (lit (codes "/cluster/sdn/fabrics/all") ∷ [])
        ((codes "pending", plain boolean) ∷ (codes "running", plain boolean) ∷ [])
    ∷ rule (lit (codes "/cluster/sdn/fabrics/fabric") ∷ [])
        ((codes "pending", plain boolean) ∷ (codes "running", plain boolean) ∷ [])
    ∷ rule (lit (codes "/cluster/sdn/fabrics/fabric/") ∷ ident name ∷ []) ([])
    ∷ rule (lit (codes "/cluster/sdn/fabrics/node") ∷ [])
        ((codes "pending", plain boolean) ∷ (codes "running", plain boolean) ∷ [])
    ∷ rule (lit (codes "/cluster/sdn/fabrics/node/") ∷ ident name ∷ [])
        ((codes "pending", plain boolean) ∷ (codes "running", plain boolean) ∷ [])
    ∷ rule
        (lit (codes "/cluster/sdn/fabrics/node/") ∷ ident name ∷ lit (codes "/") ∷ ident name ∷ [])
        ([])
    ∷ rule (lit (codes "/cluster/sdn/ipams") ∷ [])
        ((codes "type", one_of (codes "netbox" ∷ codes "phpipam" ∷ codes "pve" ∷ [])) ∷ [])
    ∷ rule (lit (codes "/cluster/sdn/ipams/") ∷ ident name ∷ []) ([])
    ∷ rule (lit (codes "/cluster/sdn/ipams/") ∷ ident name ∷ lit (codes "/status") ∷ []) ([])
    ∷ rule (lit (codes "/cluster/sdn/prefix-lists") ∷ []) (
        (codes "pending", plain boolean)
        ∷ (codes "running", plain boolean)
        ∷ (codes "verbose", plain boolean)
        ∷ [])
    ∷ rule (lit (codes "/cluster/sdn/prefix-lists/") ∷ ident name ∷ []) ([])
    ∷ rule (lit (codes "/cluster/sdn/prefix-lists/") ∷ ident name ∷ lit (codes "/entries") ∷ [])
        ([])
    ∷ rule
        (lit (codes "/cluster/sdn/prefix-lists/")
          ∷ ident name
          ∷ lit (codes "/entries/")
          ∷ ident number
          ∷ [])
        ([])
    ∷ rule (lit (codes "/cluster/sdn/route-maps") ∷ []) ((codes "running", plain boolean) ∷ [])
    ∷ rule (lit (codes "/cluster/sdn/route-maps/entries") ∷ [])
        ((codes "pending", plain boolean) ∷ (codes "running", plain boolean) ∷ [])
    ∷ rule (lit (codes "/cluster/sdn/route-maps/entries/") ∷ ident name ∷ [])
        ((codes "pending", plain boolean) ∷ (codes "running", plain boolean) ∷ [])
    ∷ rule
        (lit (codes "/cluster/sdn/route-maps/entries/")
          ∷ ident name
          ∷ lit (codes "/entry/")
          ∷ ident number
          ∷ [])
        ([])
    ∷ rule (lit (codes "/cluster/sdn/vnets") ∷ [])
        ((codes "pending", plain boolean) ∷ (codes "running", plain boolean) ∷ [])
    ∷ rule (lit (codes "/cluster/sdn/vnets/") ∷ ident name ∷ [])
        ((codes "pending", plain boolean) ∷ (codes "running", plain boolean) ∷ [])
    ∷ rule (lit (codes "/cluster/sdn/vnets/") ∷ ident name ∷ lit (codes "/firewall") ∷ []) ([])
    ∷ rule (lit (codes "/cluster/sdn/vnets/") ∷ ident name ∷ lit (codes "/firewall/options") ∷ [])
        ([])
    ∷ rule (lit (codes "/cluster/sdn/vnets/") ∷ ident name ∷ lit (codes "/firewall/rules") ∷ [])
        ([])
    ∷ rule
        (lit (codes "/cluster/sdn/vnets/")
          ∷ ident name
          ∷ lit (codes "/firewall/rules/")
          ∷ ident number
          ∷ [])
        ([])
    ∷ rule (lit (codes "/cluster/sdn/vnets/") ∷ ident name ∷ lit (codes "/subnets") ∷ [])
        ((codes "pending", plain boolean) ∷ (codes "running", plain boolean) ∷ [])
    ∷ rule
        (lit (codes "/cluster/sdn/vnets/") ∷ ident name ∷ lit (codes "/subnets/") ∷ ident name ∷ [])
        ((codes "pending", plain boolean) ∷ (codes "running", plain boolean) ∷ [])
    ∷ rule (lit (codes "/cluster/sdn/zones") ∷ []) (
        (codes "pending", plain boolean)
        ∷ (codes "running", plain boolean)
        ∷ (
          codes "type",
          one_of (
              codes "evpn"
              ∷ codes "faucet"
              ∷ codes "qinq"
              ∷ codes "simple"
              ∷ codes "vlan"
              ∷ codes "vxlan"
              ∷ []),
        )
        ∷ [])
    ∷ rule (lit (codes "/cluster/sdn/zones/") ∷ ident name ∷ [])
        ((codes "pending", plain boolean) ∷ (codes "running", plain boolean) ∷ [])
    ∷ rule (lit (codes "/cluster/status") ∷ []) ([])
    ∷ rule (lit (codes "/cluster/tasks") ∷ []) ([])
    ∷ []
