-- ===== src/ProxmoxPaths/Surface/Qemu.antt =====
-- _SURFACE of jobs/proxmox_paths.py: its qemu templates.
use nautobot_testsuite.Base.{List, [], ◌∷◌, codes}
use nautobot_testsuite.ProxmoxPaths.Schema.{
  Rule, rule, lit, ident, name, vmid, number, cidr, plain, boolean, one_of, at_most, at_least,
}

abbrev pub qemu_surface : List Rule
qemu_surface =
    rule (lit (codes "/nodes/") ∷ ident name ∷ lit (codes "/qemu") ∷ [])
      ((codes "full", plain boolean) ∷ [])
    ∷ rule (lit (codes "/nodes/") ∷ ident name ∷ lit (codes "/qemu/") ∷ ident vmid ∷ []) ([])
    ∷ rule
        (lit (codes "/nodes/")
          ∷ ident name
          ∷ lit (codes "/qemu/")
          ∷ ident vmid
          ∷ lit (codes "/agent")
          ∷ [])
        ([])
    ∷ rule
        (lit (codes "/nodes/")
          ∷ ident name
          ∷ lit (codes "/qemu/")
          ∷ ident vmid
          ∷ lit (codes "/agent/get-fsinfo")
          ∷ [])
        ([])
    ∷ rule
        (lit (codes "/nodes/")
          ∷ ident name
          ∷ lit (codes "/qemu/")
          ∷ ident vmid
          ∷ lit (codes "/agent/get-host-name")
          ∷ [])
        ([])
    ∷ rule
        (lit (codes "/nodes/")
          ∷ ident name
          ∷ lit (codes "/qemu/")
          ∷ ident vmid
          ∷ lit (codes "/agent/get-memory-block-info")
          ∷ [])
        ([])
    ∷ rule
        (lit (codes "/nodes/")
          ∷ ident name
          ∷ lit (codes "/qemu/")
          ∷ ident vmid
          ∷ lit (codes "/agent/get-memory-blocks")
          ∷ [])
        ([])
    ∷ rule
        (lit (codes "/nodes/")
          ∷ ident name
          ∷ lit (codes "/qemu/")
          ∷ ident vmid
          ∷ lit (codes "/agent/get-osinfo")
          ∷ [])
        ([])
    ∷ rule
        (lit (codes "/nodes/")
          ∷ ident name
          ∷ lit (codes "/qemu/")
          ∷ ident vmid
          ∷ lit (codes "/agent/get-time")
          ∷ [])
        ([])
    ∷ rule
        (lit (codes "/nodes/")
          ∷ ident name
          ∷ lit (codes "/qemu/")
          ∷ ident vmid
          ∷ lit (codes "/agent/get-timezone")
          ∷ [])
        ([])
    ∷ rule
        (lit (codes "/nodes/")
          ∷ ident name
          ∷ lit (codes "/qemu/")
          ∷ ident vmid
          ∷ lit (codes "/agent/get-vcpus")
          ∷ [])
        ([])
    ∷ rule
        (lit (codes "/nodes/")
          ∷ ident name
          ∷ lit (codes "/qemu/")
          ∷ ident vmid
          ∷ lit (codes "/agent/info")
          ∷ [])
        ([])
    ∷ rule
        (lit (codes "/nodes/")
          ∷ ident name
          ∷ lit (codes "/qemu/")
          ∷ ident vmid
          ∷ lit (codes "/agent/network-get-interfaces")
          ∷ [])
        ([])
    ∷ rule
        (lit (codes "/nodes/")
          ∷ ident name
          ∷ lit (codes "/qemu/")
          ∷ ident vmid
          ∷ lit (codes "/cloudinit")
          ∷ [])
        ([])
    ∷ rule
        (lit (codes "/nodes/")
          ∷ ident name
          ∷ lit (codes "/qemu/")
          ∷ ident vmid
          ∷ lit (codes "/cloudinit/dump")
          ∷ [])
        ((codes "type", one_of (codes "user" ∷ codes "network" ∷ codes "meta" ∷ [])) ∷ [])
    ∷ rule
        (lit (codes "/nodes/")
          ∷ ident name
          ∷ lit (codes "/qemu/")
          ∷ ident vmid
          ∷ lit (codes "/config")
          ∷ [])
        ((codes "current", plain boolean) ∷ (codes "snapshot", at_most 40) ∷ [])
    ∷ rule
        (lit (codes "/nodes/")
          ∷ ident name
          ∷ lit (codes "/qemu/")
          ∷ ident vmid
          ∷ lit (codes "/firewall")
          ∷ [])
        ([])
    ∷ rule
        (lit (codes "/nodes/")
          ∷ ident name
          ∷ lit (codes "/qemu/")
          ∷ ident vmid
          ∷ lit (codes "/firewall/aliases")
          ∷ [])
        ([])
    ∷ rule
        (lit (codes "/nodes/")
          ∷ ident name
          ∷ lit (codes "/qemu/")
          ∷ ident vmid
          ∷ lit (codes "/firewall/aliases/")
          ∷ ident name
          ∷ [])
        ([])
    ∷ rule
        (lit (codes "/nodes/")
          ∷ ident name
          ∷ lit (codes "/qemu/")
          ∷ ident vmid
          ∷ lit (codes "/firewall/ipset")
          ∷ [])
        ([])
    ∷ rule
        (lit (codes "/nodes/")
          ∷ ident name
          ∷ lit (codes "/qemu/")
          ∷ ident vmid
          ∷ lit (codes "/firewall/ipset/")
          ∷ ident name
          ∷ [])
        ([])
    ∷ rule
        (lit (codes "/nodes/")
          ∷ ident name
          ∷ lit (codes "/qemu/")
          ∷ ident vmid
          ∷ lit (codes "/firewall/ipset/")
          ∷ ident name
          ∷ lit (codes "/")
          ∷ ident cidr
          ∷ [])
        ([])
    ∷ rule
        (lit (codes "/nodes/")
          ∷ ident name
          ∷ lit (codes "/qemu/")
          ∷ ident vmid
          ∷ lit (codes "/firewall/log")
          ∷ [])
        ((codes "limit", at_least 0)
          ∷ (codes "since", at_least 0)
          ∷ (codes "start", at_least 0)
          ∷ (codes "until", at_least 0)
          ∷ [])
    ∷ rule
        (lit (codes "/nodes/")
          ∷ ident name
          ∷ lit (codes "/qemu/")
          ∷ ident vmid
          ∷ lit (codes "/firewall/options")
          ∷ [])
        ([])
    ∷ rule
        (lit (codes "/nodes/")
          ∷ ident name
          ∷ lit (codes "/qemu/")
          ∷ ident vmid
          ∷ lit (codes "/firewall/refs")
          ∷ [])
        ((codes "type", one_of (codes "alias" ∷ codes "ipset" ∷ [])) ∷ [])
    ∷ rule
        (lit (codes "/nodes/")
          ∷ ident name
          ∷ lit (codes "/qemu/")
          ∷ ident vmid
          ∷ lit (codes "/firewall/rules")
          ∷ [])
        ([])
    ∷ rule
        (lit (codes "/nodes/")
          ∷ ident name
          ∷ lit (codes "/qemu/")
          ∷ ident vmid
          ∷ lit (codes "/firewall/rules/")
          ∷ ident number
          ∷ [])
        ([])
    ∷ rule
        (lit (codes "/nodes/")
          ∷ ident name
          ∷ lit (codes "/qemu/")
          ∷ ident vmid
          ∷ lit (codes "/pending")
          ∷ [])
        ([])
    ∷ rule
        (lit (codes "/nodes/")
          ∷ ident name
          ∷ lit (codes "/qemu/")
          ∷ ident vmid
          ∷ lit (codes "/rrddata")
          ∷ [])
        ((codes "cf", one_of (codes "AVERAGE" ∷ codes "MAX" ∷ []))
          ∷ (
            codes "timeframe",
            one_of (codes "hour" ∷ codes "day" ∷ codes "week" ∷ codes "month" ∷ codes "year" ∷ []),
          )
          ∷ [])
    ∷ rule
        (lit (codes "/nodes/")
          ∷ ident name
          ∷ lit (codes "/qemu/")
          ∷ ident vmid
          ∷ lit (codes "/snapshot")
          ∷ [])
        ([])
    ∷ rule
        (lit (codes "/nodes/")
          ∷ ident name
          ∷ lit (codes "/qemu/")
          ∷ ident vmid
          ∷ lit (codes "/snapshot/")
          ∷ ident name
          ∷ [])
        ([])
    ∷ rule
        (lit (codes "/nodes/")
          ∷ ident name
          ∷ lit (codes "/qemu/")
          ∷ ident vmid
          ∷ lit (codes "/snapshot/")
          ∷ ident name
          ∷ lit (codes "/config")
          ∷ [])
        ([])
    ∷ rule
        (lit (codes "/nodes/")
          ∷ ident name
          ∷ lit (codes "/qemu/")
          ∷ ident vmid
          ∷ lit (codes "/status")
          ∷ [])
        ([])
    ∷ rule
        (lit (codes "/nodes/")
          ∷ ident name
          ∷ lit (codes "/qemu/")
          ∷ ident vmid
          ∷ lit (codes "/status/current")
          ∷ [])
        ([])
    ∷ []
