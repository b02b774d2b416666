-- ===== src/Examples/Views.antt =====
-- Concrete values and texts (jobs/diffcore.py).
use nautobot_testsuite.Base.{
  ℕ, ◌≡◌, refl, false, none, some, List, [], ◌∷◌, map, reverse, Text, codes, text_eq,
}
use nautobot_testsuite.DiffCore.Values.{
  Value, num, text, obj, arr, nil, cons, Fields, field, end, field?, items_list,
}
use nautobot_testsuite.DiffCore.Scrub.{scrub_one, leads_to_value, leads_to_value-scrub_one}
use nautobot_testsuite.DiffCore.Stanzas.{
  stack_after, IsNested, parents_of, close_stanzas, parents_of-close_stanzas,
}
use nautobot_testsuite.DiffCore.TextValues.{
  lines_of, line_text, text_lines, text_summary, text_summary_lem,
}

abbrev neighbor : Fields ℕ
neighbor = field (codes "age") (num 12) (field (codes "state") (text (codes "up")) end)

abbrev neighbors : Value ℕ
neighbors = obj (field (codes "peer-1") (obj neighbor) end)

abbrev age_path : List Text
age_path = codes "*" ∷ codes "age" ∷ []

leads_to_value-scrub_one_example : leads_to_value age_path (scrub_one age_path neighbors) ≡ false
leads_to_value-scrub_one_example = leads_to_value-scrub_one age_path neighbors

abbrev config_lines : List Text
config_lines = codes "router bgp 1" ∷ codes " address-family ipv4" ∷ []

parents_of-close_stanzas_example :
    IsNested (stack_after [] config_lines)
    × (parents_of 2 (stack_after [] config_lines)
        ≡ reverse (map (λ o. o.line) (close_stanzas 2 (stack_after [] config_lines))))
parents_of-close_stanzas_example = parents_of-close_stanzas config_lines 2

abbrev config_value : Fields ℕ
config_value = field (codes "lines") (arr (cons (text (codes "hostname a")) nil)) end

text_summary_lem_example :
    (gs : Fields ℕ) × (text_summary (λ n. n) (λ v. []) (obj config_value) ≡ obj gs)
    × (field? (codes "lines") gs ≡ none)
    × (field? (codes "line_count") gs ≡ some (num 1))
    × ((k : Text)
        → text_eq (codes "lines") k ≡ false
        → text_eq (codes "line_count") k ≡ false
        → field? k gs ≡ field? k config_value)
unfolding text_lines field? lines_of items_list line_text text_eq
text_summary_lem_example =
    text_summary_lem (λ n. n) (λ v. []) config_value (codes "hostname a" ∷ []) refl
