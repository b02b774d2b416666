-- ===== src/TransportSsh/Safety.antt =====
-- What the allowlist of jobs/transport_ssh.py lets through.
use nautobot_testsuite.Base.{
  ℕ, ◌≡◌, ◌≢◌, refl, Bool, true, false, some, [], ◌∷◌, ◌++◌, arith, any, all, is_empty, Text, codes,
  text_eq, eq_of_text_eq, starts_with, contains, strip, Bool-cases, inl, inr, Option-cases,
  suffix_of_starts_with, ◌∙◌, ||-cases,
}
use nautobot_testsuite.TransportSsh.Allowlist.{
  Environment, DeviceType, paloalto_panos, cisco_xe, linux, allowed_exact, allowed_prefixes,
  session_prep, member_end, member_suffix, after_prefix, matches_pattern, allowed_stripped, allowed,
}

-- A command that only reads, by its text: a session-prep command, one of the exact list, the listing
-- of a stack member's crashinfo filesystem by its number, or a `show` of a network device.
pub data Vetted (env : Environment) (device : DeviceType) (cmd : Text) : Type 0 where
  prep : contains cmd (session_prep device) ≡ true → Vetted env device cmd
  exact : contains cmd (allowed_exact env device) ≡ true → Vetted env device cmd
  crash_listing :
      (number : Text)
      → device ≡ cisco_xe
      → cmd ≡ codes "dir crashinfo-" ++ (number ++ codes ":")
      → all env.decimal number ≡ true
      → is_empty number ≡ false
      → Vetted env device cmd
  show : (rest : Text) → device ≢ linux → cmd ≡ codes "show " ++ rest → Vetted env device cmd

append_after_prefix : (s p r : Text) → after_prefix s p ≡ some r → s ≡ p ++ r
unfolding after_prefix
append_after_prefix s [] r h = ground arith
append_after_prefix [] (d ∷ p) r h = cc
append_after_prefix (c ∷ s) (d ∷ p) r h = ground (arith, append_after_prefix s p r)

digits_of_end :
    (decimal : ℕ → Bool) (s : Text)
    → member_end decimal s ≡ true
    → (number : Text) × (s ≡ number ++ codes ":") × (all decimal number ≡ true)
unfolding member_end all
digits_of_end decimal [] h = cc
digits_of_end decimal (c ∷ s) h = elim (Bool-cases (text_eq (c ∷ s) (codes ":"))) [
  | inl here ↦ ([], eq_of_text_eq (c ∷ s) (codes ":") here, refl)
  | inr more ↦
      let (number, e, digits) = digits_of_end decimal s (ground (arith, more)) in
      (c ∷ number, ground arith, ground (arith, more))
]

digits_of_suffix :
    (decimal : ℕ → Bool) (s : Text)
    → member_suffix decimal s ≡ true
    → (number : Text) × (s ≡ number ++ codes ":")
      × (all decimal number ≡ true)
      × (is_empty number ≡ false)
unfolding member_suffix all is_empty
digits_of_suffix decimal [] h = cc
digits_of_suffix decimal (c ∷ s) h =
    let (number, e, digits) = digits_of_end decimal s (ground arith) in
    (c ∷ number, ground arith, ground arith, refl)

starts_with-any :
    (cmd prefix : Text)
    → any (starts_with cmd) (prefix ∷ []) ≡ true
    → (rest : Text) × (cmd ≡ prefix ++ rest)
unfolding any
starts_with-any cmd prefix h = suffix_of_starts_with cmd prefix (ground arith)

show_of_prefixes :
    (env : Environment) (device : DeviceType) (cmd : Text)
    → any (starts_with cmd) (allowed_prefixes device) ≡ true
    → Vetted env device cmd
show_of_prefixes env paloalto_panos cmd h =
    let (rest, e) = starts_with-any cmd (codes "show ") h in show rest (λ p. cc) e
show_of_prefixes env cisco_xe cmd h =
    let (rest, e) = starts_with-any cmd (codes "show ") h in show rest (λ p. cc) e
show_of_prefixes env linux cmd h = unfold any in cc

pattern_of_match :
    (env : Environment) (device : DeviceType) (cmd : Text)
    → matches_pattern env device cmd ≡ true
    → Vetted env device cmd
unfolding matches_pattern
pattern_of_match env cisco_xe cmd h =
    elim (Option-cases (after_prefix cmd (codes "dir crashinfo-"))) [
      | inl absent ↦ absurd (ground (arith, absent))
      | inr (suffix, found) ↦
          let (number, e, digits, some_digit) =
            digits_of_suffix env.decimal suffix (ground (arith, found)) in
          crash_listing number refl
            (append_after_prefix cmd (codes "dir crashinfo-") suffix found ∙ rw e refl) digits
            some_digit
    ]
pattern_of_match env _ cmd h = cc

-- The allowlist lets only vetted commands through, whatever blanks stand around them.
pub allowed-Vetted :
    (env : Environment) (device : DeviceType) (command : Text)
    → allowed env device command ≡ true
    → Vetted env device (strip command)
unfolding allowed allowed_stripped
allowed-Vetted env device command h = elim (||-cases _ _ h) [
  | inl h₂ ↦ elim (||-cases _ _ h₂) [
    | inl h₃ ↦ elim (||-cases _ _ h₃) [ inl p ↦ prep p | inr e ↦ exact e ]
    | inr m ↦ pattern_of_match env device (strip command) m
  ]
  | inr s ↦ show_of_prefixes env device (strip command) s
]
