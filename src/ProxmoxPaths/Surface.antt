-- ===== src/ProxmoxPaths/Surface.antt =====
-- The whole read surface (jobs/proxmox_paths.py, `_SURFACE`), in the order of the source.
pub mod Access
pub mod Cluster
pub mod Sdn
pub mod Node
pub mod Lxc
pub mod Qemu
pub mod Services
pub mod Shared
pub mod Network
use nautobot_testsuite.Base.{List, ◌++◌}
use nautobot_testsuite.ProxmoxPaths.Schema.{Rule}
use Access.{access_surface}
use Cluster.{cluster_surface}
use Sdn.{sdn_surface}
use Node.{node_surface}
use Lxc.{lxc_surface}
use Qemu.{qemu_surface}
use Services.{services_surface}
use Shared.{shared_surface}
use Network.{network_surface}

unfoldable pub surface : List Rule
surface =
    access_surface
    ++ (cluster_surface
        ++ (sdn_surface
            ++ (node_surface
                ++ (lxc_surface
                    ++ (network_surface
                        ++ (qemu_surface ++ (services_surface ++ shared_surface)))))))
