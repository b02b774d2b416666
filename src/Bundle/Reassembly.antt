-- ===== src/Bundle/Reassembly.antt =====
-- That the parts of an artifact give its bytes back (jobs/bundle.py).
use nautobot_testsuite.Base.{
  ℕ, zero, suc, ◌+◌, ◌*◌, ◌≤◌, ◌<◌, ◌≡◌, ◌≢◌, refl, sym, ap, ◌∙◌, subst, true, false, Option, none,
  some, List, [], ◌∷◌, ◌++◌, arith, ltb, leb, ◌==◌, ==_iff, length, take, drop, is_empty, Text,
  codes, text_eq, text_eq_refl, eq_of_text_eq, contains, Dict, lookup, take_append_drop, drop-drop,
  drop_all, Bool-cases, inl, inr, Option-cases,
}
use nautobot_testsuite.Bundle.Parts.{
  PartEntry, Part, Index, Codec, IsCodec, Artifact, split, joined, chunk, Plan, checksum_of,
  part_at, name_at, entry_at, parts_from, index_of, with_index, plan_of, artifact_parts, stem_of,
  same_artifact, read_part, chunks_from, reassemble,
}
use nautobot_testsuite.Bundle.Found.{
  chunk_step, count_enough, number_of_part_name, read_found, reassemble_found, serialized, some_inj,
}

module _ {P : Type 0} (c : Codec P) (plan : Plan c) where
  name_at_apart : (i j : ℕ) → i ≢ j → text_eq (name_at c plan i) (name_at c plan j) ≡ false
  unfolding name_at
  name_at_apart i j apart = elim (Bool-cases (text_eq (name_at c plan i) (name_at c plan j))) [
    | inl same ↦
        let e =
          number_of_part_name (checksum_of c plan) (stem_of plan.filename) (i + 1) (j + 1)
            (eq_of_text_eq (name_at c plan i) (name_at c plan j) same) in
        absurd (apart (omega arith))
    | inr other ↦ other
  ]

  -- The index entries and the serialized files of the offsets left.
  abbrev entries_from : ℕ → ℕ → List PartEntry
  entries_from zero offset = []
  entries_from (suc left) offset = entry_at c plan offset ∷ entries_from left (offset + 1)

  abbrev files_from : ℕ → ℕ → Dict (List ℕ)
  files_from zero offset = []
  files_from (suc left) offset =
      (name_at c plan offset, c.part_bytes (part_at c plan offset)) ∷ files_from left (offset + 1)

  abbrev slices : ℕ → ℕ → List ℕ
  slices zero offset = []
  slices (suc left) offset = chunk plan.chunk_size offset plan.content ++ slices left (offset + 1)

  length-entries_from : (left offset : ℕ) → length (entries_from left offset) ≡ left
  length-entries_from zero offset = refl
  length-entries_from (suc left) offset = ap suc (length-entries_from left (offset + 1))

  lookup-files_from :
      (left offset i : ℕ)
      → offset ≤ i
      → i < offset + left
      → lookup (name_at c plan i) (files_from left offset) ≡ some (c.part_bytes (part_at c plan i))
  unfolding lookup
  lookup-files_from zero offset i low high = absurd (omega arith)
  lookup-files_from (suc left) offset i low high = elim (Bool-cases (offset == i)) [
    | inl same ↦ let e : offset ≡ i = ground arith in rw (e, text_eq_refl (name_at c plan i))
    | inr other ↦
        rw (name_at_apart offset i (λ e. ground arith))
          (lookup-files_from left (offset + 1) i (ground arith) (omega arith))
  ]

  -- The slices from an offset on are the rest of the content.
  slices-drop :
      (left offset : ℕ)
      → length plan.content ≤ (offset + left) * plan.chunk_size
      → slices left offset ≡ drop (offset * plan.chunk_size) plan.content
  unfolding chunk
  slices-drop zero offset h = sym (
      drop_all (offset * plan.chunk_size) plan.content
        (subst (λ k. length plan.content ≤ k * plan.chunk_size) (omega arith) h))
  slices-drop (suc left) offset h =
      let size = plan.chunk_size in
      let next : (offset + 1) * size ≡ offset * size + size = grind arith in
      let sum : offset + suc left ≡ offset + 1 + left = omega arith in
      ap (λ rest. take size (drop (offset * size) plan.content) ++ rest)
        (slices-drop left (offset + 1) (rw (← sum) h)
          ∙ ap (λ k. drop k plan.content) next
          ∙ sym (drop-drop size (offset * size) plan.content))
      ∙ take_append_drop size (drop (offset * size) plan.content)

  some_entry : (left offset : ℕ) → 0 < left → is_empty (entries_from left offset) ≡ false
  unfolding is_empty
  some_entry zero offset h = absurd (omega arith)
  some_entry (suc left) offset h = refl

  parts_from_lem :
      (left offset : ℕ) (ps : List (Text × Part)) (es : List PartEntry)
      → parts_from c plan left offset ≡ some (ps, es)
      → (serialized c ps ≡ files_from left offset) × (es ≡ entries_from left offset)
  unfolding parts_from
  parts_from_lem zero offset ps es h =
      let f : ◌≡◌ {A = List (Text × Part) × List PartEntry} ([], []) (ps, es) = some_inj h in
      (ap (λ r. serialized c r.0) (sym f), ap (λ r. r.1) (sym f))
  parts_from_lem (suc left) offset ps es h =
      elim (Option-cases (parts_from c plan left (offset + 1))) [
        | inl none_left ↦ absurd (ground (arith, none_left))
        | inr ((rest, entries), found) ↦
            let (ih₁, ih₂) = parts_from_lem left (offset + 1) rest entries found in
            let f : ◌≡◌ {A = List (Text × Part) × List PartEntry}
                (
                  (name_at c plan offset, part_at c plan offset) ∷ rest,
                  entry_at c plan offset ∷ entries,
                )
                (ps, es) =
              some_inj (ground (arith, found)) in
            (
              ap (λ r. serialized c r.0) (sym f)
                  ∙ ap (λ d. (name_at c plan offset, c.part_bytes (part_at c plan offset)) ∷ d) ih₁,
              ap (λ r. r.1) (sym f) ∙ ap (λ d. entry_at c plan offset ∷ d) ih₂,
            )
      ]

  abbrev the_index : Index
  the_index = index_of c plan (entries_from plan.count 0)

  module _ (law : IsCodec c) where
    same_artifact_lem : (i : ℕ) → same_artifact c the_index (i + 1) (part_at c plan i) ≡ true
    unfolding same_artifact index_of part_at
    same_artifact_lem i = rw (
      text_eq_refl plan.filename,
      text_eq_refl (checksum_of c plan),
      length-entries_from plan.count 0,
      (==_iff (i + 1) (i + 1)).1 refl,
      (==_iff plan.count plan.count).1 refl,
      text_eq_refl (codes "base64"),
    )

    read_part_lem :
        (i : ℕ)
        → i < plan.count
        → read_part c the_index (files_from plan.count 0) (i + 1) (entry_at c plan i)
          ≡ joined (chunk plan.chunk_size i plan.content)
    unfolding entry_at part_at
    read_part_lem i h =
        read_found c the_index (files_from plan.count 0) (i + 1) (entry_at c plan i)
          (c.part_bytes (part_at c plan i)) (part_at c plan i)
          (chunk plan.chunk_size i plan.content)
          (lookup-files_from plan.count 0 i (omega arith) (omega arith)) refl refl
          (law.load_part-part_bytes (part_at c plan i)) (same_artifact_lem i)
          (law.b64decode-b64encode (chunk plan.chunk_size i plan.content))

    chunks_from_lem :
        (left offset : ℕ) (names : List Text)
        → offset + left ≡ plan.count
        → ((k : ℕ) → offset ≤ k → contains (name_at c plan k) names ≡ false)
        → chunks_from c the_index
            (files_from plan.count 0)
            names
            (offset + 1)
            (entries_from left offset)
          ≡ joined (slices left offset)
    unfolding chunks_from contains entry_at
    chunks_from_lem zero offset names e fresh = refl
    chunks_from_lem (suc left) offset names e fresh =
        chunk_step c the_index (files_from plan.count 0) names (offset + 1) (entry_at c plan offset)
          (entries_from left (offset + 1)) _ _ (fresh offset (omega arith))
          (read_part_lem offset (omega arith))
          (chunks_from_lem left (offset + 1) (name_at c plan offset ∷ names) (omega arith) (λ k h.
            rw (name_at_apart offset k (λ same. absurd (omega arith))) (fresh k (omega arith))))

  no_names : (k : ℕ) → contains (name_at c plan k) [] ≡ false
  unfolding contains
  no_names k = refl

  -- Reassembling the serialized parts under their names gives the content back.
  reassemble_lem :
      IsCodec c
      → 0 < plan.count
      → length plan.content ≤ plan.count * plan.chunk_size
      → reassemble c the_index (files_from plan.count 0) ≡ joined plan.content
  unfolding index_of
  reassemble_lem law some_part enough =
      let chunks = chunks_from_lem law plan.count 0 [] (omega arith) (λ k h. no_names k) in
      let nothing : 0 * plan.chunk_size ≡ 0 = omega arith in
      let content : slices plan.count 0 ≡ plan.content =
        slices-drop plan.count 0
          (subst (λ k. length plan.content ≤ k * plan.chunk_size) (omega arith) enough)
        ∙ rw nothing refl in
      reassemble_found c the_index (files_from plan.count 0) plan.content
        (some_entry plan.count 0 some_part) refl refl (chunks ∙ ap joined content) refl refl

-- What a plan that was carried out shows.
record Split {P : Type 0} (c : Codec P) (plan : Plan c) (parts : List (Text × Part)) (index : Index)
    : Type 0 where
  entries : List PartEntry
  some_size : 0 < plan.chunk_size
  some_byte : plan.ceiling < length plan.content
  carried_out : parts_from c plan plan.count 0 ≡ some (parts, entries)
  index_is : index ≡ index_of c plan entries

split_inj :
    {P : Type 0} (ps qs : List (Text × Part)) (m n : Text) (i j : Index)
    → ◌≡◌ {A = Artifact P} (split ps m i) (split qs n j)
    → (ps ≡ qs) × (i ≡ j)
split_inj ps qs m n i j h = (cc, cc)

with_index_lem :
    {P : Type 0} (c : Codec P) (plan : Plan c) (parts : List (Text × Part)) (name : Text)
    (index : Index) (made : Option (List (Text × Part) × List PartEntry))
    → with_index c plan made ≡ split parts name index
    → (entries : List PartEntry) × (made ≡ some (parts, entries))
      × (index ≡ index_of c plan entries)
unfolding with_index
with_index_lem c plan parts name index none h = absurd (ground arith)
with_index_lem c plan parts name index (some (ps, es)) h =
    elim (Bool-cases (ltb plan.ceiling (length (c.index_bytes (index_of c plan es))))) [
      | inl over ↦ absurd (ground (arith, over))
      | inr under ↦
          let (e, f) = split_inj ps parts _ name _ index (rw under at h) in
          (es, ap (λ x. some (x, es)) e, sym f)
    ]

split_lem :
    {P : Type 0} (c : Codec P) (filename : Text) (payload : P) (max_bytes : ℕ) (name : Text)
    (index : Index) (parts : List (Text × Part))
    → artifact_parts c filename payload max_bytes ≡ split parts name index
    → Split c (plan_of c filename payload max_bytes) parts index
unfolding artifact_parts
split_lem c filename payload max_bytes name index parts h =
    let plan = plan_of c filename payload max_bytes in
    elim (Bool-cases (ltb max_bytes 1024)) [
      | inl small ↦ absurd (ground (arith, small))
      | inr room ↦ elim (Bool-cases (leb (length plan.content) plan.ceiling)) [
        | inl fits ↦ absurd (ground (arith, room, fits))
        | inr over ↦ elim (Bool-cases (ltb plan.chunk_size 1)) [
          | inl none_left ↦ absurd (ground (arith, room, over, none_left))
          | inr some_left ↦
              let (entries, made, is) =
                with_index_lem c plan parts name index (parts_from c plan plan.count 0)
                  (rw (room, over, some_left) at h) in
              record {
                entries = entries;
                some_size = ground arith;
                some_byte = ground arith;
                carried_out = made;
                index_is = is;
              }
        ]
      ]
    ]

-- Splitting and reassembling are inverse: whatever payload and limit, when artifact_parts splits the
-- payload, reassembling its index with the serialized parts under their names gives back exactly
-- the payload's bytes, if json and base64 read back what they wrote.
pub reassemble-artifact_parts :
    {P : Type 0} (c : Codec P) (filename : Text) (payload : P) (max_bytes : ℕ) (name : Text)
    (index : Index) (parts : List (Text × Part))
    → IsCodec c
    → artifact_parts c filename payload max_bytes ≡ split parts name index
    → reassemble c index (serialized c parts) ≡ joined (c.payload_bytes payload)
unfolding plan_of
reassemble-artifact_parts c filename payload max_bytes name index parts law h =
    let plan = plan_of c filename payload max_bytes in
    let s = split_lem c filename payload max_bytes name index parts h in
    let (files, entries) = parts_from_lem c plan plan.count 0 parts s.entries s.carried_out in
    let (some_part, enough) =
      count_enough (length plan.content) plan.chunk_size (ground (arith, s.some_byte))
        s.some_size in
    let whole_index : index ≡ the_index c plan = s.index_is ∙ ap (index_of c plan) entries in
    rw (files, whole_index) (reassemble_lem c plan law some_part enough)
