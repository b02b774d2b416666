-- ===== src/DiffCore/Texts.antt =====
-- The verdict of the text_diff mode (jobs/diffcore.py, `_diff_text`).
use nautobot_testsuite.Base.{
  ◌≡◌, refl, sym, ap, ◌∙◌, true, false, ◌&&◌, Option, none, some, List, [], ◌∷◌, ◌++◌, arith,
  select, is_empty, is_some, Text, Dict, lookup, keys, gather, Bool-cases, inl, inr, contains,
  contains-select, contains-sorted_set, is_empty-gather, test_of_all, text_lt, is_empty-append,
}
use nautobot_testsuite.Numeric.{Numeric}
use nautobot_testsuite.DiffCore.Values.{Value, null}
use nautobot_testsuite.DiffCore.Config.{Compare}
use nautobot_testsuite.DiffCore.Report.{Change, pass}
use nautobot_testsuite.DiffCore.Equality.{diff_equality_set, get_value, shared_keys}
use nautobot_testsuite.DiffCore.TextValues.{text_lines}
use nautobot_testsuite.DiffCore.Runs.{Matcher, text_opcodes}
use nautobot_testsuite.DiffCore.Scripts.{IsMatcher}
use nautobot_testsuite.DiffCore.Applied.{apply_runs, text_opcodes-apply_runs}
use nautobot_testsuite.DiffCore.Verdicts.{verdict_iff, is_empty-map, contains-shared_keys}
use nautobot_testsuite.DiffCore.Hunks.{
  text_hunks, insert_change, sort_changes, is_text_key, rest_view, key_hunks, diff_text,
}

is_empty-insert_change :
    {N : Type 0} (c : Change N) (cs : List (Change N)) → is_empty (insert_change c cs) ≡ false
unfolding is_empty insert_change
is_empty-insert_change c [] = refl
is_empty-insert_change c (d ∷ ds) = elim (Bool-cases (text_lt d.key c.key)) [
  | inl e ↦ rw e refl
  | inr e ↦ rw e refl
]

is_empty-sort_changes :
    {N : Type 0} (cs : List (Change N)) → is_empty (sort_changes cs) ≡ is_empty cs
unfolding is_empty sort_changes
is_empty-sort_changes [] = refl
is_empty-sort_changes (c ∷ cs) = is_empty-insert_change c (sort_changes cs)

nil_of_is_empty : {A : Type 0} (xs : List A) → is_empty xs ≡ true → xs ≡ []
unfolding is_empty
nil_of_is_empty [] h = refl
nil_of_is_empty (x ∷ xs) h = cc

text_hunks_empty :
    (N : Type 0) (matcher : Matcher) (key : Text) (old new : List Text)
    → IsMatcher matcher
    → is_empty (text_hunks {N = N} matcher key old new) ≡ true
    → old ≡ new
unfolding text_hunks
text_hunks_empty N matcher key old new lawful h =
    let runs = text_opcodes matcher old new in
    let no_run : runs ≡ [] = nil_of_is_empty runs (sym (is_empty-map {B = Change N} _ runs) ∙ h) in
    unfold apply_runs in
    (sym (ap (apply_runs old new 0) no_run) ∙ text_opcodes-apply_runs matcher old new lawful)

module _ (n : Numeric) (str : Value n.Number → Text) (matcher : Matcher) where
  open n use {Number}

  text_is_there :
      (view : Dict (Value Number)) (k : Text)
      → is_some (text_lines str (get_value k view)) ≡ true
      → is_some (lookup k view) ≡ true
  unfolding get_value text_lines
  text_is_there view k h = at (lookup k view) h
    where
      at :
          (found : Option (Value Number))
          → is_some (text_lines str (elim found [ none ↦ null | some v ↦ v ])) ≡ true
          → is_some found ≡ true
      at none e = e
      at (some v) e = refl

  key_hunks_lem :
      (pre post : Dict (Value Number)) (k : Text) (old new : List Text)
      → text_lines str (get_value k pre) ≡ some old
      → text_lines str (get_value k post) ≡ some new
      → key_hunks n str matcher pre post k ≡ text_hunks matcher k old new
  unfolding key_hunks
  key_hunks_lem pre post k old new p q = rw (key_hunks, p, q) refl

  contains-text_keys :
      (pre post : Dict (Value Number)) (k : Text)
      → is_text_key n str matcher pre post k ≡ true
      → contains k (select (is_text_key n str matcher pre post) (shared_keys pre post)) ≡ true
  unfolding shared_keys is_text_key
  contains-text_keys pre post k h =
      contains-select (is_text_key n str matcher pre post) k (shared_keys pre post)
      ∙ ground (
        arith,
        contains-sorted_set k (select (λ j. contains j (keys post)) (keys pre)),
        contains-shared_keys k pre post,
        text_is_there pre k,
        text_is_there post k,
      )

  -- The mode text_diff does not pass over a changed text: when its verdict is "pass" and the lines are
  -- matched as the documentation of difflib says, a key that holds a text in both views holds the
  -- same lines in both, and the views without the lines agree as equality_set compares them.
  pub diff_text_pass :
      (pre post : Dict (Value Number)) (c : Compare Number)
      → IsMatcher matcher
      → (diff_text n str matcher pre post c).result ≡ pass
      → ((diff_equality_set n
            (rest_view n str matcher pre post pre)
            (rest_view n str matcher pre post post)
            c).result
          ≡ pass)
        × ((k : Text) (old new : List Text)
            → text_lines str (get_value k pre) ≡ some old
            → text_lines str (get_value k post) ≡ some new
            → old ≡ new)
  unfolding diff_text
  diff_text_pass pre post c lawful h =
      let diff =
        diff_equality_set n (rest_view n str matcher pre post pre)
          (rest_view n str matcher pre post post) c in
      let hunks =
        gather (key_hunks n str matcher pre post)
          (select (is_text_key n str matcher pre post) (shared_keys pre post)) in
      let (added, removed, changed) =
        (verdict_iff diff.added diff.removed (sort_changes (diff.changed ++ hunks))).0 h in
      let both : is_empty diff.changed && is_empty hunks ≡ true =
        sym (is_empty-append diff.changed hunks)
        ∙ (sym (is_empty-sort_changes (diff.changed ++ hunks)) ∙ changed) in
      (
        (verdict_iff diff.added diff.removed diff.changed).1 (added, removed, ground (arith, both)),
        λ k old new p q. text_hunks_empty Number matcher k old new lawful (
            let none_at =
              test_of_all (λ j. is_empty (key_hunks n str matcher pre post j)) k _
                (sym (is_empty-gather _ _) ∙ ground arith)
                (contains-text_keys pre post k (unfold is_text_key in rw (p, q) refl)) in
            rw (← key_hunks_lem pre post k old new p q) none_at),
      )
