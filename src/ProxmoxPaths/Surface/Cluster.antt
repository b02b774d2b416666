-- ===== src/ProxmoxPaths/Surface/Cluster.antt =====
-- _SURFACE of jobs/proxmox_paths.py: its cluster templates.
use nautobot_testsuite.Base.{List, [], ◌∷◌, codes}
use nautobot_testsuite.ProxmoxPaths.Schema.{
  Rule, rule, lit, ident, name, number, cidr, plain, string, one_of, at_least,
}

abbrev pub cluster_surface : List Rule
cluster_surface =
    rule (lit (codes "/cluster") ∷ []) ([])
    ∷ rule (lit (codes "/cluster/backup") ∷ []) ([])
    ∷ rule (lit (codes "/cluster/backup-info") ∷ []) ([])
    ∷ rule (lit (codes "/cluster/backup-info/not-backed-up") ∷ []) ([])
    ∷ rule (lit (codes "/cluster/backup/") ∷ ident name ∷ []) ([])
    ∷ rule (lit (codes "/cluster/backup/") ∷ ident name ∷ lit (codes "/included_volumes") ∷ []) ([])
    ∷ rule (lit (codes "/cluster/ceph") ∷ []) ([])
    ∷ rule (lit (codes "/cluster/ceph/flags") ∷ []) ([])
    ∷ rule (lit (codes "/cluster/ceph/flags/") ∷ ident name ∷ []) ([])
    ∷ rule (lit (codes "/cluster/ceph/health-mute") ∷ []) ([])
    ∷ rule (lit (codes "/cluster/ceph/metadata") ∷ [])
        ((codes "scope", one_of (codes "all" ∷ codes "versions" ∷ [])) ∷ [])
    ∷ rule (lit (codes "/cluster/ceph/status") ∷ []) ([])
    ∷ rule (lit (codes "/cluster/config") ∷ []) ([])
    ∷ rule (lit (codes "/cluster/config/apiversion") ∷ []) ([])
    ∷ rule (lit (codes "/cluster/config/nodes") ∷ []) ([])
    ∷ rule (lit (codes "/cluster/config/qdevice") ∷ []) ([])
    ∷ rule (lit (codes "/cluster/config/totem") ∷ []) ([])
    ∷ rule (lit (codes "/cluster/firewall") ∷ []) ([])
    ∷ rule (lit (codes "/cluster/firewall/aliases") ∷ []) ([])
    ∷ rule (lit (codes "/cluster/firewall/aliases/") ∷ ident name ∷ []) ([])
    ∷ rule (lit (codes "/cluster/firewall/groups") ∷ []) ([])
    ∷ rule (lit (codes "/cluster/firewall/groups/") ∷ ident name ∷ []) ([])
    ∷ rule
        (lit (codes "/cluster/firewall/groups/") ∷ ident name ∷ lit (codes "/") ∷ ident number ∷ [])
        ([])
    ∷ rule (lit (codes "/cluster/firewall/ipset") ∷ []) ([])
    ∷ rule (lit (codes "/cluster/firewall/ipset/") ∷ ident name ∷ []) ([])
    ∷ rule (lit (codes "/cluster/firewall/ipset/") ∷ ident name ∷ lit (codes "/") ∷ ident cidr ∷ [])
        ([])
    ∷ rule (lit (codes "/cluster/firewall/macros") ∷ []) ([])
    ∷ rule (lit (codes "/cluster/firewall/options") ∷ []) ([])
    ∷ rule (lit (codes "/cluster/firewall/refs") ∷ [])
        ((codes "type", one_of (codes "alias" ∷ codes "ipset" ∷ [])) ∷ [])
    ∷ rule (lit (codes "/cluster/firewall/rules") ∷ []) ([])
    ∷ rule (lit (codes "/cluster/firewall/rules/") ∷ ident number ∷ []) ([])
    ∷ rule (lit (codes "/cluster/ha") ∷ []) ([])
    ∷ rule (lit (codes "/cluster/ha/groups") ∷ []) ([])
    ∷ rule (lit (codes "/cluster/ha/groups/") ∷ ident name ∷ []) ([])
    ∷ rule (lit (codes "/cluster/ha/resources") ∷ [])
        ((codes "type", one_of (codes "ct" ∷ codes "vm" ∷ [])) ∷ [])
    ∷ rule (lit (codes "/cluster/ha/resources/") ∷ ident name ∷ []) ([])
    ∷ rule (lit (codes "/cluster/ha/rules") ∷ []) (
        (codes "resource", plain string)
        ∷ (codes "type", one_of (codes "node-affinity" ∷ codes "resource-affinity" ∷ []))
        ∷ [])
    ∷ rule (lit (codes "/cluster/ha/rules/") ∷ ident name ∷ []) ([])
    ∷ rule (lit (codes "/cluster/ha/status") ∷ []) ([])
    ∷ rule (lit (codes "/cluster/ha/status/current") ∷ []) ([])
    ∷ rule (lit (codes "/cluster/ha/status/manager_status") ∷ []) ([])
    ∷ rule (lit (codes "/cluster/jobs") ∷ []) ([])
    ∷ rule (lit (codes "/cluster/jobs/realm-sync") ∷ []) ([])
    ∷ rule (lit (codes "/cluster/jobs/realm-sync/") ∷ ident name ∷ []) ([])
    ∷ rule (lit (codes "/cluster/log") ∷ []) ((codes "max", at_least 1) ∷ [])
    ∷ rule (lit (codes "/cluster/mapping") ∷ []) ([])
    ∷ rule (lit (codes "/cluster/mapping/dir") ∷ []) ((codes "check-node", plain string) ∷ [])
    ∷ rule (lit (codes "/cluster/mapping/dir/") ∷ ident name ∷ []) ([])
    ∷ rule (lit (codes "/cluster/mapping/pci") ∷ []) ((codes "check-node", plain string) ∷ [])
    ∷ rule (lit (codes "/cluster/mapping/pci/") ∷ ident name ∷ []) ([])
    ∷ rule (lit (codes "/cluster/mapping/usb") ∷ []) ((codes "check-node", plain string) ∷ [])
    ∷ rule (lit (codes "/cluster/mapping/usb/") ∷ ident name ∷ []) ([])
    ∷ rule (lit (codes "/cluster/metrics") ∷ []) ([])
    ∷ rule (lit (codes "/cluster/metrics/server") ∷ []) ([])
    ∷ rule (lit (codes "/cluster/metrics/server/") ∷ ident name ∷ []) ([])
    ∷ rule (lit (codes "/cluster/notifications") ∷ []) ([])
    ∷ rule (lit (codes "/cluster/notifications/endpoints") ∷ []) ([])
    ∷ rule (lit (codes "/cluster/notifications/endpoints/gotify") ∷ []) ([])
    ∷ rule (lit (codes "/cluster/notifications/endpoints/gotify/") ∷ ident name ∷ []) ([])
    ∷ rule (lit (codes "/cluster/notifications/endpoints/sendmail") ∷ []) ([])
    ∷ rule (lit (codes "/cluster/notifications/endpoints/sendmail/") ∷ ident name ∷ []) ([])
    ∷ rule (lit (codes "/cluster/notifications/endpoints/smtp") ∷ []) ([])
    ∷ rule (lit (codes "/cluster/notifications/endpoints/smtp/") ∷ ident name ∷ []) ([])
    ∷ rule (lit (codes "/cluster/notifications/endpoints/webhook") ∷ []) ([])
    ∷ rule (lit (codes "/cluster/notifications/endpoints/webhook/") ∷ ident name ∷ []) ([])
    ∷ rule (lit (codes "/cluster/notifications/matcher-field-values") ∷ []) ([])
    ∷ rule (lit (codes "/cluster/notifications/matcher-fields") ∷ []) ([])
    ∷ rule (lit (codes "/cluster/notifications/matchers") ∷ []) ([])
    ∷ rule (lit (codes "/cluster/notifications/matchers/") ∷ ident name ∷ []) ([])
    ∷ rule (lit (codes "/cluster/notifications/targets") ∷ []) ([])
    ∷ rule (lit (codes "/cluster/options") ∷ []) ([])
    ∷ rule (lit (codes "/cluster/qemu") ∷ []) ([])
    ∷ rule (lit (codes "/cluster/qemu/cpu-flags") ∷ []) (
        (codes "accel", one_of (codes "kvm" ∷ codes "tcg" ∷ []))
        ∷ (codes "arch", one_of (codes "x86_64" ∷ codes "aarch64" ∷ []))
        ∷ [])
    ∷ rule (lit (codes "/cluster/qemu/custom-cpu-models") ∷ []) ([])
    ∷ rule (lit (codes "/cluster/qemu/custom-cpu-models/") ∷ ident name ∷ []) ([])
    ∷ rule (lit (codes "/cluster/replication") ∷ []) ([])
    ∷ rule (lit (codes "/cluster/replication/") ∷ ident name ∷ []) ([])
    ∷ rule (lit (codes "/cluster/resources") ∷ []) (
        (codes "type", one_of (codes "vm" ∷ codes "storage" ∷ codes "node" ∷ codes "sdn" ∷ []))
        ∷ [])
    ∷ []
