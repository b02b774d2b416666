-- ===== src/TransportSsh/Allowlist.antt =====
-- The allowlists and `SshRunner._allowed` (jobs/transport_ssh.py).
use nautobot_testsuite.Base.{
  ℕ, Bool, false, ◌&&◌, ◌||◌, Option, none, some, List, [], ◌∷◌, ◌==◌, any, Text, codes, text_eq,
  starts_with, contains, strip, if◌then◌else◌,
}

-- The device types that the tables have; any other is refused by the constructor.
pub data DeviceType : Type 0 where
  paloalto_panos cisco_xe linux : DeviceType

-- What jobs/transport_ssh.py takes from elsewhere: the commands of jobs/proxmox_sources.py that end
-- PROXMOX_SSH_COMMANDS (generated texts of a remote script), and the decimal digits of Unicode that
-- `\d` matches.
pub record Environment : Type 0 where
  pub structured_reads : List Text
  pub decimal : ℕ → Bool

abbrev pub allowed_prefixes : DeviceType → List Text
allowed_prefixes paloalto_panos = codes "show " ∷ []
allowed_prefixes cisco_xe = codes "show " ∷ []
allowed_prefixes linux = []

abbrev pub proxmox_ssh_commands : Environment → List Text
proxmox_ssh_commands env =
    codes "ip -j -s -d link show"
    ∷ codes "ip -j address show"
    ∷ codes "ip -j -4 route show table all"
    ∷ codes "ip -j -6 route show table all"
    ∷ codes "ip -j rule show"
    ∷ codes "ip -j neighbor show"
    ∷ codes "bridge -j -s vlan show"
    ∷ codes "bridge -j -s fdb show"
    ∷ codes "lshw -json"
    ∷ codes "lsblk --json --bytes --output-all"
    ∷ codes "ceph osd crush dump --format json"
    ∷ codes "lldpcli -f json0 show neighbors details hidden"
    ∷ codes
        "busctl --json=short get-property org.freedesktop.timedate1 /org/freedesktop/timedate1 org.freedesktop.timedate1 NTPSynchronized"
    ∷ env.structured_reads

abbrev pub allowed_exact : Environment → DeviceType → List Text
allowed_exact env paloalto_panos = codes "request license info" ∷ []
allowed_exact env cisco_xe = codes "dir crashinfo:" ∷ codes "dir stby-crashinfo:" ∷ []
allowed_exact env linux = proxmox_ssh_commands env

abbrev pub session_prep : DeviceType → List Text
session_prep paloalto_panos =
    codes "set cli pager off" ∷ codes "set cli op-command-xml-output on" ∷ []
session_prep cisco_xe = codes "terminal length 0" ∷ []
session_prep linux = []

-- \d*:$ of a text, then \d+:$
unfoldable pub member_end : (ℕ → Bool) → Text → Bool
member_end decimal [] = false
member_end decimal (c ∷ s) = text_eq (c ∷ s) (codes ":") || decimal c && member_end decimal s

unfoldable pub member_suffix : (ℕ → Bool) → Text → Bool
member_suffix decimal [] = false
member_suffix decimal (c ∷ s) = decimal c && member_end decimal s

-- s[len(prefix):] when s starts with the prefix
unfoldable pub after_prefix : Text → Text → Option Text
after_prefix s [] = some s
after_prefix [] (d ∷ p) = none
after_prefix (c ∷ s) (d ∷ p) = let rest = after_prefix s p in if c == d then rest else none

-- ALLOWED_PATTERNS: ^dir crashinfo-\d+:$ on a text without a line break at its end
unfoldable pub matches_pattern : Environment → DeviceType → Text → Bool
matches_pattern env cisco_xe cmd = elim (after_prefix cmd (codes "dir crashinfo-")) [
  | none ↦ false
  | some suffix ↦ member_suffix env.decimal suffix
]
matches_pattern env _ cmd = false

-- The tests on the stripped command.
unfoldable pub allowed_stripped : Environment → DeviceType → Text → Bool
allowed_stripped env device cmd =
    contains cmd (session_prep device)
    || contains cmd (allowed_exact env device)
    || matches_pattern env device cmd
    || any (starts_with cmd) (allowed_prefixes device)

-- SshRunner._allowed
unfoldable pub allowed : Environment → DeviceType → Text → Bool
allowed env device command = allowed_stripped env device (strip command)
