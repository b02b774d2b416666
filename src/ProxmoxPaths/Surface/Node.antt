-- ===== src/ProxmoxPaths/Surface/Node.antt =====
-- _SURFACE of jobs/proxmox_paths.py: its node templates.
use nautobot_testsuite.Base.{List, [], ◌∷◌, codes}
use nautobot_testsuite.ProxmoxPaths.Schema.{
  Rule, rule, lit, ident, name, number, plain, string, boolean, one_of, at_most, at_least,
}

abbrev pub node_surface : List Rule
node_surface =
    rule (lit (codes "/nodes") ∷ []) ([])
    ∷ rule (lit (codes "/nodes/") ∷ ident name ∷ []) ([])
    ∷ rule (lit (codes "/nodes/") ∷ ident name ∷ lit (codes "/apt/repositories") ∷ []) ([])
    ∷ rule (lit (codes "/nodes/") ∷ ident name ∷ lit (codes "/apt/update") ∷ []) ([])
    ∷ rule (lit (codes "/nodes/") ∷ ident name ∷ lit (codes "/apt/versions") ∷ []) ([])
    ∷ rule (lit (codes "/nodes/") ∷ ident name ∷ lit (codes "/capabilities") ∷ []) ([])
    ∷ rule (lit (codes "/nodes/") ∷ ident name ∷ lit (codes "/capabilities/qemu") ∷ []) ([])
    ∷ rule (lit (codes "/nodes/") ∷ ident name ∷ lit (codes "/capabilities/qemu/cpu") ∷ [])
        ((codes "arch", one_of (codes "x86_64" ∷ codes "aarch64" ∷ [])) ∷ [])
    ∷ rule (lit (codes "/nodes/") ∷ ident name ∷ lit (codes "/capabilities/qemu/cpu-flags") ∷ []) (
        (codes "accel", one_of (codes "kvm" ∷ codes "tcg" ∷ []))
        ∷ (codes "arch", one_of (codes "x86_64" ∷ codes "aarch64" ∷ []))
        ∷ [])
    ∷ rule (lit (codes "/nodes/") ∷ ident name ∷ lit (codes "/capabilities/qemu/machines") ∷ [])
        ((codes "arch", one_of (codes "x86_64" ∷ codes "aarch64" ∷ [])) ∷ [])
    ∷ rule (lit (codes "/nodes/") ∷ ident name ∷ lit (codes "/capabilities/qemu/migration") ∷ [])
        ([])
    ∷ rule (lit (codes "/nodes/") ∷ ident name ∷ lit (codes "/ceph") ∷ []) ([])
    ∷ rule (lit (codes "/nodes/") ∷ ident name ∷ lit (codes "/ceph/cfg") ∷ []) ([])
    ∷ rule (lit (codes "/nodes/") ∷ ident name ∷ lit (codes "/ceph/cfg/db") ∷ []) ([])
    ∷ rule (lit (codes "/nodes/") ∷ ident name ∷ lit (codes "/ceph/cfg/raw") ∷ []) ([])
    ∷ rule (lit (codes "/nodes/") ∷ ident name ∷ lit (codes "/ceph/cfg/value") ∷ [])
        ((codes "config-keys", at_most 4096) ∷ [])
    ∷ rule (lit (codes "/nodes/") ∷ ident name ∷ lit (codes "/ceph/crush") ∷ []) ([])
    ∷ rule (lit (codes "/nodes/") ∷ ident name ∷ lit (codes "/ceph/fs") ∷ []) ([])
    ∷ rule (lit (codes "/nodes/") ∷ ident name ∷ lit (codes "/ceph/log") ∷ [])
        ((codes "limit", at_least 0) ∷ (codes "start", at_least 0) ∷ [])
    ∷ rule (lit (codes "/nodes/") ∷ ident name ∷ lit (codes "/ceph/mds") ∷ []) ([])
    ∷ rule (lit (codes "/nodes/") ∷ ident name ∷ lit (codes "/ceph/mgr") ∷ []) ([])
    ∷ rule (lit (codes "/nodes/") ∷ ident name ∷ lit (codes "/ceph/mon") ∷ []) ([])
    ∷ rule (lit (codes "/nodes/") ∷ ident name ∷ lit (codes "/ceph/osd") ∷ []) ([])
    ∷ rule (lit (codes "/nodes/") ∷ ident name ∷ lit (codes "/ceph/osd/") ∷ ident number ∷ []) ([])
    ∷ rule
        (lit (codes "/nodes/")
          ∷ ident name
          ∷ lit (codes "/ceph/osd/")
          ∷ ident number
          ∷ lit (codes "/lv-info")
          ∷ [])
        ((codes "type", one_of (codes "block" ∷ codes "db" ∷ codes "wal" ∷ [])) ∷ [])
    ∷ rule
        (lit (codes "/nodes/")
          ∷ ident name
          ∷ lit (codes "/ceph/osd/")
          ∷ ident number
          ∷ lit (codes "/metadata")
          ∷ [])
        ([])
    ∷ rule (lit (codes "/nodes/") ∷ ident name ∷ lit (codes "/ceph/pool") ∷ []) ([])
    ∷ rule (lit (codes "/nodes/") ∷ ident name ∷ lit (codes "/ceph/pool/") ∷ ident name ∷ []) ([])
    ∷ rule
        (lit (codes "/nodes/")
          ∷ ident name
          ∷ lit (codes "/ceph/pool/")
          ∷ ident name
          ∷ lit (codes "/status")
          ∷ [])
        ((codes "verbose", plain boolean) ∷ [])
    ∷ rule (lit (codes "/nodes/") ∷ ident name ∷ lit (codes "/ceph/releases") ∷ []) ([])
    ∷ rule (lit (codes "/nodes/") ∷ ident name ∷ lit (codes "/ceph/rules") ∷ []) ([])
    ∷ rule (lit (codes "/nodes/") ∷ ident name ∷ lit (codes "/ceph/status") ∷ []) ([])
    ∷ rule (lit (codes "/nodes/") ∷ ident name ∷ lit (codes "/certificates/info") ∷ []) ([])
    ∷ rule (lit (codes "/nodes/") ∷ ident name ∷ lit (codes "/config") ∷ []) (
        (
          codes "property",
          one_of (
              codes "acme"
              ∷ codes "acmedomain0"
              ∷ codes "acmedomain1"
              ∷ codes "acmedomain2"
              ∷ codes "acmedomain3"
              ∷ codes "acmedomain4"
              ∷ codes "acmedomain5"
              ∷ codes "ballooning-target"
              ∷ codes "description"
              ∷ codes "location"
              ∷ codes "startall-onboot-delay"
              ∷ codes "wakeonlan"
              ∷ []),
        )
        ∷ [])
    ∷ rule (lit (codes "/nodes/") ∷ ident name ∷ lit (codes "/disks") ∷ []) ([])
    ∷ rule (lit (codes "/nodes/") ∷ ident name ∷ lit (codes "/disks/directory") ∷ []) ([])
    ∷ rule (lit (codes "/nodes/") ∷ ident name ∷ lit (codes "/disks/list") ∷ []) (
        (codes "include-partitions", plain boolean)
        ∷ (codes "skipsmart", plain boolean)
        ∷ (codes "type", one_of (codes "unused" ∷ codes "journal_disks" ∷ []))
        ∷ [])
    ∷ rule (lit (codes "/nodes/") ∷ ident name ∷ lit (codes "/disks/lvm") ∷ []) ([])
    ∷ rule (lit (codes "/nodes/") ∷ ident name ∷ lit (codes "/disks/lvmthin") ∷ []) ([])
    ∷ rule (lit (codes "/nodes/") ∷ ident name ∷ lit (codes "/disks/smart") ∷ [])
        ((codes "disk", plain string) ∷ (codes "healthonly", plain boolean) ∷ [])
    ∷ rule (lit (codes "/nodes/") ∷ ident name ∷ lit (codes "/disks/zfs") ∷ []) ([])
    ∷ rule (lit (codes "/nodes/") ∷ ident name ∷ lit (codes "/disks/zfs/") ∷ ident name ∷ []) ([])
    ∷ rule (lit (codes "/nodes/") ∷ ident name ∷ lit (codes "/dns") ∷ []) ([])
    ∷ rule (lit (codes "/nodes/") ∷ ident name ∷ lit (codes "/firewall") ∷ []) ([])
    ∷ rule (lit (codes "/nodes/") ∷ ident name ∷ lit (codes "/firewall/log") ∷ []) (
        (codes "limit", at_least 0)
        ∷ (codes "since", at_least 0)
        ∷ (codes "start", at_least 0)
        ∷ (codes "until", at_least 0)
        ∷ [])
    ∷ rule (lit (codes "/nodes/") ∷ ident name ∷ lit (codes "/firewall/options") ∷ []) ([])
    ∷ rule (lit (codes "/nodes/") ∷ ident name ∷ lit (codes "/firewall/rules") ∷ []) ([])
    ∷ rule (lit (codes "/nodes/") ∷ ident name ∷ lit (codes "/firewall/rules/") ∷ ident number ∷ [])
        ([])
    ∷ rule (lit (codes "/nodes/") ∷ ident name ∷ lit (codes "/hardware/pci") ∷ [])
        ((codes "pci-class-blacklist", plain string) ∷ (codes "verbose", plain boolean) ∷ [])
    ∷ rule (lit (codes "/nodes/") ∷ ident name ∷ lit (codes "/hardware/pci/") ∷ ident name ∷ [])
        ([])
    ∷ rule
        (lit (codes "/nodes/")
          ∷ ident name
          ∷ lit (codes "/hardware/pci/")
          ∷ ident name
          ∷ lit (codes "/mdev")
          ∷ [])
        ([])
    ∷ rule (lit (codes "/nodes/") ∷ ident name ∷ lit (codes "/hosts") ∷ []) ([])
    ∷ rule (lit (codes "/nodes/") ∷ ident name ∷ lit (codes "/journal") ∷ []) (
        (codes "since", at_least 0)
        ∷ (codes "structured", plain boolean)
        ∷ (codes "until", at_least 0)
        ∷ [])
    ∷ []
