-- ===== src/Bundle/Found.antt =====
-- What `reassemble` (jobs/bundle.py) makes of parts that are found and whole.
use nautobot_testsuite.Base.{
  ℕ, ◌+◌, ◌-◌, ◌*◌, ◌/◌, ◌≤◌, ◌<◌, ◌≡◌, refl, sym, ap, ◌∙◌, true, false, Option, none, some, List,
  [], ◌∷◌, ◌++◌, arith, ==_iff, length, take, is_empty, Text, codes, text_eq_refl, contains, Dict,
  lookup, digits4, number_of, number_of-digits4,
}
use nautobot_testsuite.Bundle.Parts.{
  PartEntry, Part, Index, Codec, joined, part_name, same_artifact, decode_part, read_part,
  append_chunk, chunks_from, check_whole, reassemble,
}
use mathlib.Core.List.{append_cancel_left, append_cancel_right}
use native.Mathlib.Nat.{div-add-mod', mod-lt}

pub number_of_part_name :
    (checksum stem : Text) (m n : ℕ) → part_name checksum stem m ≡ part_name checksum stem n → m ≡ n
unfolding part_name
number_of_part_name checksum stem m n h =
    let one = append_cancel_left (codes "artifactpart_") _ _ h in
    let two = append_cancel_left (take 16 checksum) _ _ one in
    let three = append_cancel_left (codes "_") _ _ two in
    let four = append_cancel_left stem _ _ three in
    let five = append_cancel_left (codes "_") _ _ four in
    let six = append_cancel_right (digits4 m) (digits4 n) (codes ".json") five in
    sym (number_of-digits4 m) ∙ (ap (number_of 0) six ∙ number_of-digits4 n)

pub some_inj : {A : Type 0} {a b : A} → some a ≡ some b → a ≡ b
some_inj {A} {a} {b} h = ap (λ (o : Option A). elim o [ none ↦ a | some x ↦ x ]) h

-- The chunks are enough: the count is the size divided, rounded up.
pub count_enough :
    (n size : ℕ)
    → 0 < n
    → 0 < size
    → (0 < (n + size - 1) / size) × (n ≤ (n + size - 1) / size * size)
count_enough n size some_byte some_size =
    let division = div-add-mod' (n + size - 1) size in
    let rest = mod-lt (n + size - 1) some_size in (grind arith, omega arith)

-- The checks of a part that is found and is what its entry says.
pub read_found :
    {P : Type 0} (c : Codec P) (index : Index) (files : Dict (List ℕ)) (number : ℕ)
    (entry : PartEntry) (content : List ℕ) (p : Part) (slice : List ℕ)
    → lookup entry.name files ≡ some content
    → length content ≡ entry.bytes
    → c.sha content ≡ entry.sha256
    → c.load_part content ≡ some p
    → same_artifact c index number p ≡ true
    → c.b64decode p.body ≡ some slice
    → read_part c index files number entry ≡ joined slice
unfolding read_part decode_part
read_found c index files number entry content p slice found size sha loaded same decoded = rw (
  found,
  read_part,
  size,
  sha,
  (==_iff entry.bytes entry.bytes).1 refl,
  text_eq_refl entry.sha256,
  loaded,
  same,
  decoded,
)

pub chunk_step :
    {P : Type 0} (c : Codec P) (index : Index) (files : Dict (List ℕ)) (names : List Text)
    (number : ℕ) (entry : PartEntry) (entries : List PartEntry) (slice rest : List ℕ)
    → contains entry.name names ≡ false
    → read_part c index files number entry ≡ joined slice
    → chunks_from c index files (entry.name ∷ names) (number + 1) entries ≡ joined rest
    → chunks_from c index files names number (entry ∷ entries) ≡ joined (slice ++ rest)
unfolding chunks_from append_chunk
chunk_step c index files names number entry entries slice rest fresh here later =
    rw (fresh, here, later)

pub reassemble_found :
    {P : Type 0} (c : Codec P) (index : Index) (files : Dict (List ℕ)) (content : List ℕ)
    → is_empty index.parts ≡ false
    → index.schema ≡ 1
    → index.encoding ≡ codes "base64"
    → chunks_from c index files [] 1 index.parts ≡ joined content
    → length content ≡ index.bytes
    → c.sha content ≡ index.sha256
    → reassemble c index files ≡ joined content
unfolding reassemble check_whole
reassemble_found c index files content some_part schema encoding chunks size sha = rw (
  schema,
  encoding,
  text_eq_refl (codes "base64"),
  some_part,
  chunks,
  check_whole,
  size,
  sha,
  (==_iff index.bytes index.bytes).1 refl,
  text_eq_refl index.sha256,
)

-- The serialized parts under their names.
abbrev pub serialized : {P : Type 0} → Codec P → List (Text × Part) → Dict (List ℕ)
serialized c [] = []
serialized c ((name, p) ∷ parts) = (name, c.part_bytes p) ∷ serialized c parts
