-- ===== src/ProxmoxPaths/Surface/Shared.antt =====
-- _SURFACE of jobs/proxmox_paths.py: its shared templates.
use nautobot_testsuite.Base.{List, [], ◌∷◌, codes}
use nautobot_testsuite.ProxmoxPaths.Schema.{
  Rule, rule, lit, ident, name, poolid, plain, string, one_of,
}

abbrev pub shared_surface : List Rule
shared_surface =
    rule (lit (codes "/pools") ∷ []) (
      (codes "poolid", plain string)
      ∷ (codes "type", one_of (codes "qemu" ∷ codes "lxc" ∷ codes "storage" ∷ []))
      ∷ [])
    ∷ rule (lit (codes "/pools/") ∷ ident poolid ∷ [])
        ((codes "type", one_of (codes "qemu" ∷ codes "lxc" ∷ codes "storage" ∷ [])) ∷ [])
    ∷ rule (lit (codes "/storage") ∷ []) (
        (
          codes "type",
          one_of (
              codes "btrfs"
              ∷ codes "cephfs"
              ∷ codes "cifs"
              ∷ codes "dir"
              ∷ codes "esxi"
              ∷ codes "iscsi"
              ∷ codes "iscsidirect"
              ∷ codes "lvm"
              ∷ codes "lvmthin"
              ∷ codes "nfs"
              ∷ codes "pbs"
              ∷ codes "rbd"
              ∷ codes "zfs"
              ∷ codes "zfspool"
              ∷ []),
        )
        ∷ [])
    ∷ rule (lit (codes "/storage/") ∷ ident name ∷ []) ([])
    ∷ rule (lit (codes "/version") ∷ []) ([])
    ∷ []
