-- ===== src/Bundle/Parts.antt =====
-- `artifact_parts` and `reassemble` (jobs/bundle.py): a large artifact as parts with a checksum index.
-- json, base64 and hashlib are a parameter; a payload is a value of any type. `reassemble` reads an
-- index and parts that have the fields of `Index` and `Part`.
use nautobot_testsuite.Base.{
  ℕ, zero, suc, ◌+◌, ◌-◌, ◌*◌, ◌/◌, ◌≡◌, Bool, ◌&&◌, not, Option, none, some, List, [], ◌∷◌, ◌++◌,
  ltb, leb, ◌==◌, if◌then◌else◌, length, take, drop, is_empty, Text, codes, text_eq, contains, Dict,
  lookup, digits4, ends_with,
}

-- An entry of the index: _metadata(name, encoded).
pub record PartEntry : Type 0 where
  pub name : Text
  pub bytes : ℕ
  pub sha256 : Text

-- One numbered part; `body` is its base64 text, under the key "data".
pub record Part : Type 0 where
  pub schema : ℕ
  pub artifact : Text
  pub encoding : Text
  pub part : ℕ
  pub part_count : ℕ
  pub artifact_sha256 : Text
  pub body : Text

pub record Index : Type 0 where
  pub schema : ℕ
  pub artifact : Text
  pub encoding : Text
  pub bytes : ℕ
  pub sha256 : Text
  pub parts : List PartEntry

-- json_bytes for the three kinds of values, json.loads for a part, hashlib.sha256(...).hexdigest()
-- and base64.
pub record Codec (P : Type 0) : Type 0 where
  pub payload_bytes : P → List ℕ
  pub part_bytes : Part → List ℕ
  pub index_bytes : Index → List ℕ
  pub load_part : List ℕ → Option Part
  pub sha : List ℕ → Text
  pub b64encode : List ℕ → Text
  pub b64decode : Text → Option (List ℕ)

-- What the code relies on: json.loads reads back what json.dumps wrote, and base64 decodes what it
-- encoded.
pub record IsCodec {P : Type 0} (c : Codec P) : Type 0 where
  pub load_part-part_bytes : (p : Part) → c.load_part (c.part_bytes p) ≡ some p
  pub b64decode-b64encode : (data' : List ℕ) → c.b64decode (c.b64encode data') ≡ some data'

-- The ValueErrors of artifact_parts.
pub data SplitError : Type 0 where
  limit_too_small no_room_for_header header_too_large index_too_large : SplitError

-- The list that artifact_parts returns: the payload itself under its name, or the parts and the index.
pub data Artifact (P : Type 0) : Type 0 where
  whole : Text → P → Artifact P
  split : List (Text × Part) → Text → Index → Artifact P
  split_error : SplitError → Artifact P

-- The ValueErrors of reassemble.
pub data JoinError : Type 0 where
  invalid_index no_parts duplicate_part missing_part part_json part_checksum part_identity
        part_encoding artifact_checksum :
      JoinError

pub data Joined : Type 0 where
  joined : List ℕ → Joined
  join_error : JoinError → Joined

-- min(4096, max_bytes // 4)
unfoldable pub reserve : ℕ → ℕ
reserve max_bytes = if ltb 4096 (max_bytes / 4) then 4096 else max_bytes / 4

-- filename[:-5] if filename.endswith(".json") else filename
unfoldable pub stem_of : Text → Text
unfolding ends_with
stem_of filename =
    if ends_with filename (codes ".json") then take (length filename - 5) filename else filename

-- "artifactpart_%s_%s_%04d.json" % (checksum[:16], stem, offset + 1)
unfoldable pub part_name : Text → Text → ℕ → Text
unfolding digits4
part_name checksum stem number =
    codes "artifactpart_"
    ++ (take 16 checksum
        ++ (codes "_" ++ (stem ++ (codes "_" ++ (digits4 number ++ codes ".json")))))

-- data[offset * chunk_size : (offset + 1) * chunk_size]
unfoldable pub chunk : ℕ → ℕ → List ℕ → List ℕ
chunk size offset data' = take size (drop (offset * size) data')

module _ {P : Type 0} (c : Codec P) where
  -- What the loop of artifact_parts reads.
  pub record Plan : Type 0 where
    pub filename : Text
    pub content : List ℕ
    pub ceiling : ℕ
    pub chunk_size : ℕ
    pub count : ℕ

  unfoldable pub checksum_of : Plan → Text
  checksum_of plan = c.sha plan.content

  unfoldable pub part_at : Plan → ℕ → Part
  unfolding chunk checksum_of
  part_at plan offset = record {
    schema = 1;
    encoding = codes "base64";
    artifact = plan.filename;
    part = offset + 1;
    part_count = plan.count;
    artifact_sha256 = checksum_of plan;
    body = c.b64encode (chunk plan.chunk_size offset plan.content);
  }

  unfoldable pub name_at : Plan → ℕ → Text
  unfolding part_name checksum_of
  name_at plan offset = part_name (checksum_of plan) (stem_of plan.filename) (offset + 1)

  unfoldable pub entry_at : Plan → ℕ → PartEntry
  unfolding name_at
  entry_at plan offset = record {
    name = name_at plan offset;
    bytes = length (c.part_bytes (part_at plan offset));
    sha256 = c.sha (c.part_bytes (part_at plan offset));
  }

  -- The loop over the offsets, with the offsets left; none is the ValueError of a part's header.
  unfoldable pub parts_from : Plan → ℕ → ℕ → Option (List (Text × Part) × List PartEntry)
  unfolding part_at name_at entry_at
  parts_from plan zero offset = some ([], [])
  parts_from plan (suc left) offset =
      let rest = parts_from plan left (offset + 1) in
      if ltb plan.ceiling (length (c.part_bytes (part_at plan offset))) then none else elim rest [
        | none ↦ none
        | some (parts, entries) ↦
            some
              ((name_at plan offset, part_at plan offset) ∷ parts, entry_at plan offset ∷ entries)
      ]

  unfoldable pub index_of : Plan → List PartEntry → Index
  unfolding checksum_of
  index_of plan entries = record {
    schema = 1;
    encoding = codes "base64";
    artifact = plan.filename;
    bytes = length plan.content;
    sha256 = checksum_of plan;
    parts = entries;
  }

  -- "%s.%s.parts.json" % (stem, checksum[:16])
  unfoldable pub index_name : Plan → Text
  unfolding stem_of checksum_of
  index_name plan =
      stem_of plan.filename ++ (codes "." ++ (take 16 (checksum_of plan) ++ codes ".parts.json"))

  -- The end of artifact_parts: the index is checked and appended.
  unfoldable pub with_index : Plan → Option (List (Text × Part) × List PartEntry) → Artifact P
  unfolding index_of index_name
  with_index plan none = split_error header_too_large
  with_index plan (some (parts, entries)) =
      if ltb plan.ceiling (length (c.index_bytes (index_of plan entries)))
      then split_error index_too_large
      else split parts (index_name plan) (index_of plan entries)

  -- The plan of a payload that does not fit: chunk_size and count.
  unfoldable pub plan_of : Text → P → ℕ → Plan
  unfolding reserve
  plan_of filename payload max_bytes =
      let ceiling = max_bytes - reserve max_bytes in
      let size = (ceiling - 512) * 3 / 4 in
      record {
        filename = filename;
        content = c.payload_bytes payload;
        ceiling = ceiling;
        chunk_size = size;
        count = (length (c.payload_bytes payload) + size - 1) / size;
      }

  -- artifact_parts
  unfoldable pub artifact_parts : Text → P → ℕ → Artifact P
  unfolding plan_of parts_from with_index
  artifact_parts filename payload max_bytes =
      let plan = plan_of filename payload max_bytes in
      if ltb max_bytes 1024
      then split_error limit_too_small
      else if leb (length plan.content) plan.ceiling
      then whole filename payload
      else if ltb plan.chunk_size 1
      then split_error no_room_for_header
      else with_index plan (parts_from plan plan.count 0)

  -- The identity checks of a part.
  unfoldable pub same_artifact : Index → ℕ → Part → Bool
  same_artifact index number p =
      text_eq p.artifact index.artifact
      && p.part == number
      && p.part_count == length index.parts
      && text_eq p.encoding (codes "base64")
      && text_eq p.artifact_sha256 index.sha256

  -- The checks of one part behind its bytes, and its chunk.
  unfoldable pub decode_part : Index → ℕ → Option Part → Joined
  unfolding same_artifact
  decode_part index number none = join_error part_json
  decode_part index number (some p) =
      if not (same_artifact index number p)
      then join_error part_identity
      else elim (c.b64decode p.body) [
        | none ↦ join_error part_encoding
        | some chunk' ↦ joined chunk'
      ]

  unfoldable pub read_part : Index → Dict (List ℕ) → ℕ → PartEntry → Joined
  unfolding lookup decode_part
  read_part index parts number entry = elim (lookup entry.name parts) [
    | none ↦ join_error missing_part
    | some content ↦
        if not (length content == entry.bytes && text_eq (c.sha content) entry.sha256)
        then join_error part_checksum
        else decode_part index number (c.load_part content)
  ]

  -- b"".join over the rest
  unfoldable pub append_chunk : Joined → Joined → Joined
  append_chunk (join_error e) later = join_error e
  append_chunk (joined chunk') (join_error e) = join_error e
  append_chunk (joined chunk') (joined rest) = joined (chunk' ++ rest)

  -- The loop over the entries, with the names so far.
  unfoldable pub chunks_from : Index → Dict (List ℕ) → List Text → ℕ → List PartEntry → Joined
  unfolding contains read_part append_chunk
  chunks_from index parts names number [] = joined []
  chunks_from index parts names number (entry ∷ entries) =
      let rest = chunks_from index parts (entry.name ∷ names) (number + 1) entries in
      if contains entry.name names
      then join_error duplicate_part
      else append_chunk (read_part index parts number entry) rest

  -- The check of the whole.
  unfoldable pub check_whole : Index → Joined → Joined
  check_whole index (join_error e) = join_error e
  check_whole index (joined content) =
      if length content == index.bytes && text_eq (c.sha content) index.sha256
      then joined content
      else join_error artifact_checksum

  -- reassemble
  unfoldable pub reassemble : Index → Dict (List ℕ) → Joined
  unfolding chunks_from check_whole is_empty
  reassemble index parts =
      if not (index.schema == 1 && text_eq index.encoding (codes "base64"))
      then join_error invalid_index
      else if is_empty index.parts
      then join_error no_parts
      else check_whole index (chunks_from index parts [] 1 index.parts)
