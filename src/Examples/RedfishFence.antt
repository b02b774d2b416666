-- ===== src/Examples/RedfishFence.antt =====
-- Concrete runs of the Redfish fence (jobs/redfish_paths.py).
use nautobot_testsuite.Base.{◌≡◌, refl, Text, codes}
use nautobot_testsuite.RedfishPaths.Wire.{fence_path_idem, fence_path-IsReadOnly, IsReadOnly}
use nautobot_testsuite.RedfishPaths.Fence.{fence_path, send, program}

-- The Redfish fence, on the service root and on a link with a fragment.
abbrev system_link : Text
system_link = codes "/redfish/v1/Systems/1#/Boot"

abbrev system_path : Text
system_path = codes "/redfish/v1/Systems/1"

fence_path_idem_example : fence_path system_path ≡ send system_path
unfolding program
fence_path_idem_example = fence_path_idem system_link system_path refl

fence_path-IsReadOnly_example : IsReadOnly system_path
unfolding program
fence_path-IsReadOnly_example = fence_path-IsReadOnly system_link system_path refl
