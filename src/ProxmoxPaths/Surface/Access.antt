-- ===== src/ProxmoxPaths/Surface/Access.antt =====
-- _SURFACE of jobs/proxmox_paths.py: its access templates.
use nautobot_testsuite.Base.{List, [], ◌∷◌, codes}
use nautobot_testsuite.ProxmoxPaths.Schema.{
  Rule, rule, lit, ident, name, userid, plain, string, boolean,
}

abbrev pub access_surface : List Rule
access_surface =
    rule (lit (codes "/access") ∷ []) ([])
    ∷ rule (lit (codes "/access/acl") ∷ []) ([])
    ∷ rule (lit (codes "/access/domains") ∷ []) ([])
    ∷ rule (lit (codes "/access/domains/") ∷ ident name ∷ []) ([])
    ∷ rule (lit (codes "/access/groups") ∷ []) ([])
    ∷ rule (lit (codes "/access/groups/") ∷ ident name ∷ []) ([])
    ∷ rule (lit (codes "/access/permissions") ∷ [])
        ((codes "path", plain string) ∷ (codes "userid", plain string) ∷ [])
    ∷ rule (lit (codes "/access/roles") ∷ []) ([])
    ∷ rule (lit (codes "/access/roles/") ∷ ident name ∷ []) ([])
    ∷ rule (lit (codes "/access/users") ∷ [])
        ((codes "enabled", plain boolean) ∷ (codes "full", plain boolean) ∷ [])
    ∷ rule (lit (codes "/access/users/") ∷ ident userid ∷ []) ([])
    ∷ rule (lit (codes "/access/users/") ∷ ident userid ∷ lit (codes "/token") ∷ []) ([])
    ∷ rule (lit (codes "/access/users/") ∷ ident userid ∷ lit (codes "/token/") ∷ ident name ∷ [])
        ([])
    ∷ []
