-- ===== src/Examples/Joins.antt =====
-- A concrete artifact in parts (jobs/bundle.py, `artifact_parts` and `reassemble`).
use nautobot_testsuite.Base.{
  ℕ, ◌≡◌, refl, ap, Option, some, List, [], ◌∷◌, ◌++◌, length, take, drop, Text, codes, zeros,
}
use nautobot_testsuite.Bundle.Parts.{
  Part, Index, Codec, IsCodec, Artifact, whole, split, split_error, joined, artifact_parts,
  reassemble,
}
use nautobot_testsuite.Bundle.Reassembly.{reassemble-artifact_parts}
use nautobot_testsuite.Bundle.Found.{serialized}

-- A serialization: texts are written with their length before them.
abbrev written : Text → List ℕ → List ℕ
written s rest = length s ∷ (s ++ rest)

abbrev read_text : List ℕ → Text × List ℕ
read_text [] = ([], [])
read_text (n ∷ rest) = (take n rest, drop n rest)

abbrev read_number : List ℕ → ℕ × List ℕ
read_number [] = (0, [])
read_number (n ∷ rest) = (n, rest)

abbrev bytes_of_part : Part → List ℕ
bytes_of_part p =
    p.schema
    ∷ p.part
    ∷ p.part_count
    ∷ written p.artifact (written p.encoding (written p.artifact_sha256 p.body))

abbrev part_of_bytes : List ℕ → Option Part
part_of_bytes data' =
    let (schema, a) = read_number data' in
    let (number, b) = read_number a in
    let (count, c) = read_number b in
    let (artifact, d) = read_text c in
    let (encoding, e) = read_text d in
    let (checksum, body) = read_text e in
    some (record {
      schema = schema;
      artifact = artifact;
      encoding = encoding;
      part = number;
      part_count = count;
      artifact_sha256 = checksum;
      body = body;
    })

take_written : (s rest : List ℕ) → take (length s) (s ++ rest) ≡ s
take_written [] rest = refl
take_written (c ∷ s) rest = ap (λ xs. c ∷ xs) (take_written s rest)

drop_written : (s rest : List ℕ) → drop (length s) (s ++ rest) ≡ rest
drop_written [] rest = refl
drop_written (c ∷ s) rest = drop_written s rest

part_of_bytes-bytes_of_part : (p : Part) → part_of_bytes (bytes_of_part p) ≡ some p
part_of_bytes-bytes_of_part p =
    rw
      (
        drop_written p.artifact (written p.encoding (written p.artifact_sha256 p.body)),
        take_written p.artifact (written p.encoding (written p.artifact_sha256 p.body)),
        drop_written p.encoding (written p.artifact_sha256 p.body),
        take_written p.encoding (written p.artifact_sha256 p.body),
        drop_written p.artifact_sha256 p.body,
        take_written p.artifact_sha256 p.body,
      )
      refl

-- Payloads are numbers of zeros, a checksum is a number of bytes, a text is its own base64 form.
abbrev plain : Codec ℕ
plain = record {
  payload_bytes = zeros;
  part_bytes = bytes_of_part;
  index_bytes = λ index. index.bytes ∷ [];
  load_part = part_of_bytes;
  sha = λ data'. length data' ∷ [];
  b64encode = λ data'. data';
  b64decode = λ s. some s;
}

plain-IsCodec : IsCodec plain
plain-IsCodec = record {
  load_part-part_bytes = part_of_bytes-bytes_of_part;
  b64decode-b64encode = λ s. refl;
}

abbrev empty_index : Index
empty_index = record {
  schema = 0;
  artifact = [];
  encoding = [];
  bytes = 0;
  sha256 = [];
  parts = [];
}

abbrev parts_of : Artifact ℕ → List (Text × Part)
parts_of (whole name payload) = []
parts_of (split parts name index) = parts
parts_of (split_error e) = []

abbrev name_of : Artifact ℕ → Text
name_of (whole name payload) = []
name_of (split parts name index) = name
name_of (split_error e) = []

abbrev index_in : Artifact ℕ → Index
index_in (whole name payload) = empty_index
index_in (split parts name index) = index
index_in (split_error e) = empty_index

abbrev large : Artifact ℕ
large = artifact_parts plain (codes "a.json") 800 1024

large_is_split : large ≡ split (parts_of large) (name_of large) (index_in large)
unfolding artifact_parts zeros
large_is_split = refl

-- Five parts.
large_parts : length (parts_of large) ≡ 5
unfolding artifact_parts zeros
large_parts = refl

reassemble-artifact_parts_example :
    reassemble plain (index_in large) (serialized plain (parts_of large)) ≡ joined (zeros 800)
reassemble-artifact_parts_example =
    reassemble-artifact_parts plain (codes "a.json") 800 1024 (name_of large) (index_in large)
      (parts_of large) plain-IsCodec large_is_split
