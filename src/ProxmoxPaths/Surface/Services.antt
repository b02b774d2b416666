-- ===== src/ProxmoxPaths/Surface/Services.antt =====
-- _SURFACE of jobs/proxmox_paths.py: its services templates.
use nautobot_testsuite.Base.{List, [], ◌∷◌, codes}
use nautobot_testsuite.ProxmoxPaths.Schema.{
  Rule, rule, lit, ident, name, upid, plain, string, integer, boolean, one_of, at_most, between,
  at_least,
}

abbrev pub services_surface : List Rule
services_surface =
    rule (lit (codes "/nodes/") ∷ ident name ∷ lit (codes "/replication") ∷ [])
      ((codes "guest", between 100 999999999) ∷ [])
    ∷ rule (lit (codes "/nodes/") ∷ ident name ∷ lit (codes "/replication/") ∷ ident name ∷ []) ([])
    ∷ rule
        (lit (codes "/nodes/")
          ∷ ident name
          ∷ lit (codes "/replication/")
          ∷ ident name
          ∷ lit (codes "/log")
          ∷ [])
        ((codes "limit", at_least 0) ∷ (codes "start", at_least 0) ∷ [])
    ∷ rule
        (lit (codes "/nodes/")
          ∷ ident name
          ∷ lit (codes "/replication/")
          ∷ ident name
          ∷ lit (codes "/status")
          ∷ [])
        ([])
    ∷ rule (lit (codes "/nodes/") ∷ ident name ∷ lit (codes "/rrddata") ∷ []) (
        (codes "cf", one_of (codes "AVERAGE" ∷ codes "MAX" ∷ []))
        ∷ (
          codes "timeframe",
          one_of (
              codes "hour"
              ∷ codes "day"
              ∷ codes "week"
              ∷ codes "month"
              ∷ codes "year"
              ∷ codes "decade"
              ∷ []),
        )
        ∷ [])
    ∷ rule (lit (codes "/nodes/") ∷ ident name ∷ lit (codes "/sdn") ∷ []) ([])
    ∷ rule (lit (codes "/nodes/") ∷ ident name ∷ lit (codes "/sdn/fabrics/") ∷ ident name ∷ []) ([])
    ∷ rule
        (lit (codes "/nodes/")
          ∷ ident name
          ∷ lit (codes "/sdn/fabrics/")
          ∷ ident name
          ∷ lit (codes "/interfaces")
          ∷ [])
        ([])
    ∷ rule
        (lit (codes "/nodes/")
          ∷ ident name
          ∷ lit (codes "/sdn/fabrics/")
          ∷ ident name
          ∷ lit (codes "/neighbors")
          ∷ [])
        ([])
    ∷ rule
        (lit (codes "/nodes/")
          ∷ ident name
          ∷ lit (codes "/sdn/fabrics/")
          ∷ ident name
          ∷ lit (codes "/routes")
          ∷ [])
        ([])
    ∷ rule (lit (codes "/nodes/") ∷ ident name ∷ lit (codes "/sdn/vnets/") ∷ ident name ∷ []) ([])
    ∷ rule
        (lit (codes "/nodes/")
          ∷ ident name
          ∷ lit (codes "/sdn/vnets/")
          ∷ ident name
          ∷ lit (codes "/mac-vrf")
          ∷ [])
        ([])
    ∷ rule (lit (codes "/nodes/") ∷ ident name ∷ lit (codes "/sdn/zones") ∷ []) ([])
    ∷ rule (lit (codes "/nodes/") ∷ ident name ∷ lit (codes "/sdn/zones/") ∷ ident name ∷ []) ([])
    ∷ rule
        (lit (codes "/nodes/")
          ∷ ident name
          ∷ lit (codes "/sdn/zones/")
          ∷ ident name
          ∷ lit (codes "/bridges")
          ∷ [])
        ([])
    ∷ rule
        (lit (codes "/nodes/")
          ∷ ident name
          ∷ lit (codes "/sdn/zones/")
          ∷ ident name
          ∷ lit (codes "/content")
          ∷ [])
        ([])
    ∷ rule
        (lit (codes "/nodes/")
          ∷ ident name
          ∷ lit (codes "/sdn/zones/")
          ∷ ident name
          ∷ lit (codes "/ip-vrf")
          ∷ [])
        ([])
    ∷ rule (lit (codes "/nodes/") ∷ ident name ∷ lit (codes "/services") ∷ []) ([])
    ∷ rule (lit (codes "/nodes/") ∷ ident name ∷ lit (codes "/services/") ∷ ident name ∷ []) ([])
    ∷ rule
        (lit (codes "/nodes/")
          ∷ ident name
          ∷ lit (codes "/services/")
          ∷ ident name
          ∷ lit (codes "/state")
          ∷ [])
        ([])
    ∷ rule (lit (codes "/nodes/") ∷ ident name ∷ lit (codes "/status") ∷ []) ([])
    ∷ rule (lit (codes "/nodes/") ∷ ident name ∷ lit (codes "/storage") ∷ []) (
        (codes "content", plain string)
        ∷ (codes "enabled", plain boolean)
        ∷ (codes "format", plain boolean)
        ∷ (codes "storage", plain string)
        ∷ (codes "target", plain string)
        ∷ [])
    ∷ rule (lit (codes "/nodes/") ∷ ident name ∷ lit (codes "/storage/") ∷ ident name ∷ []) ([])
    ∷ rule
        (lit (codes "/nodes/")
          ∷ ident name
          ∷ lit (codes "/storage/")
          ∷ ident name
          ∷ lit (codes "/content")
          ∷ [])
        ((codes "content", plain string) ∷ (codes "vmid", between 100 999999999) ∷ [])
    ∷ rule
        (lit (codes "/nodes/")
          ∷ ident name
          ∷ lit (codes "/storage/")
          ∷ ident name
          ∷ lit (codes "/prunebackups")
          ∷ [])
        ((codes "prune-backups", plain string)
          ∷ (codes "type", one_of (codes "qemu" ∷ codes "lxc" ∷ []))
          ∷ (codes "vmid", between 100 999999999)
          ∷ [])
    ∷ rule
        (lit (codes "/nodes/")
          ∷ ident name
          ∷ lit (codes "/storage/")
          ∷ ident name
          ∷ lit (codes "/rrddata")
          ∷ [])
        ((codes "cf", one_of (codes "AVERAGE" ∷ codes "MAX" ∷ []))
          ∷ (
            codes "timeframe",
            one_of (codes "hour" ∷ codes "day" ∷ codes "week" ∷ codes "month" ∷ codes "year" ∷ []),
          )
          ∷ [])
    ∷ rule
        (lit (codes "/nodes/")
          ∷ ident name
          ∷ lit (codes "/storage/")
          ∷ ident name
          ∷ lit (codes "/status")
          ∷ [])
        ([])
    ∷ rule (lit (codes "/nodes/") ∷ ident name ∷ lit (codes "/subscription") ∷ []) ([])
    ∷ rule (lit (codes "/nodes/") ∷ ident name ∷ lit (codes "/syslog") ∷ []) (
        (codes "limit", at_least 0)
        ∷ (codes "service", at_most 128)
        ∷ (codes "since", plain string)
        ∷ (codes "start", at_least 0)
        ∷ (codes "until", plain string)
        ∷ [])
    ∷ rule (lit (codes "/nodes/") ∷ ident name ∷ lit (codes "/tasks") ∷ []) (
        (codes "errors", plain boolean)
        ∷ (codes "limit", at_least 0)
        ∷ (codes "since", plain integer)
        ∷ (codes "source", one_of (codes "archive" ∷ codes "active" ∷ codes "all" ∷ []))
        ∷ (codes "start", at_least 0)
        ∷ (codes "statusfilter", plain string)
        ∷ (codes "typefilter", plain string)
        ∷ (codes "until", plain integer)
        ∷ (codes "userfilter", plain string)
        ∷ (codes "vmid", between 100 999999999)
        ∷ [])
    ∷ rule (lit (codes "/nodes/") ∷ ident name ∷ lit (codes "/tasks/") ∷ ident upid ∷ []) ([])
    ∷ rule
        (lit (codes "/nodes/")
          ∷ ident name
          ∷ lit (codes "/tasks/")
          ∷ ident upid
          ∷ lit (codes "/log")
          ∷ [])
        ((codes "download", plain boolean)
          ∷ (codes "limit", at_least 0)
          ∷ (codes "start", at_least 0)
          ∷ [])
    ∷ rule
        (lit (codes "/nodes/")
          ∷ ident name
          ∷ lit (codes "/tasks/")
          ∷ ident upid
          ∷ lit (codes "/status")
          ∷ [])
        ([])
    ∷ rule (lit (codes "/nodes/") ∷ ident name ∷ lit (codes "/time") ∷ []) ([])
    ∷ rule (lit (codes "/nodes/") ∷ ident name ∷ lit (codes "/version") ∷ []) ([])
    ∷ rule (lit (codes "/nodes/") ∷ ident name ∷ lit (codes "/vzdump/defaults") ∷ [])
        ((codes "storage", plain string) ∷ [])
    ∷ []
