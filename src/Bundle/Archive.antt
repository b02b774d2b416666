-- ===== src/Bundle/Archive.antt =====
-- `_filename_bytes`, `_archive_size` and `_manifest_bound_info` (jobs/bundle.py): the sizes of the
-- archives that the module writes. The limits of the zipfile module are a parameter.
use nautobot_testsuite.Base.{
  ℕ, ◌+◌, ◌*◌, ◌/◌, ◌||◌, List, [], ◌∷◌, ltb, ◌==◌, if◌then◌else◌, length, Text,
}

-- zipfile.ZIP64_LIMIT and zipfile.ZIP_FILECOUNT_LIMIT
pub record Zipfile : Type 0 where
  pub zip64_limit : ℕ
  pub filecount_limit : ℕ

-- What the module reads of a ZipInfo.
pub record Info : Type 0 where
  pub filename : Text
  pub file_size : ℕ
  pub compress_size : ℕ

-- The bytes of one code point; an ASCII name has one byte for each.
unfoldable pub char_bytes : ℕ → ℕ
char_bytes c = if ltb c 0x80 then 1 else if ltb c 0x800 then 2 else if ltb c 0x10000 then 3 else 4

-- len(_filename_bytes(name))
unfoldable pub filename_bytes : Text → ℕ
filename_bytes [] = 0
filename_bytes (c ∷ s) = char_bytes c + filename_bytes s

module _ (zip : Zipfile) where
  -- local_size; file_size * 1.05 > ZIP64_LIMIT, without the fraction
  unfoldable pub local_size : Info → ℕ
  local_size info =
      30
      + filename_bytes info.filename
      + (if ltb (20 * zip.zip64_limit) (21 * info.file_size) then 20 else 0)
      + info.compress_size

  unfoldable pub central_zip64 : ℕ → Info → ℕ
  central_zip64 offset info =
      (if ltb zip.zip64_limit info.file_size || ltb zip.zip64_limit info.compress_size
        then 16
        else 0)
      + (if ltb zip.zip64_limit offset then 8 else 0)

  -- The entry of the central directory.
  unfoldable pub central_entry : ℕ → Info → ℕ
  central_entry offset info =
      let extra = central_zip64 offset info in
      46 + filename_bytes info.filename + (if extra == 0 then 0 else 4 + extra)

  -- The loop: the offset and the size of the central directory after the members.
  unfoldable pub directory : ℕ → ℕ → List Info → ℕ × ℕ
  directory offset central [] = (offset, central)
  directory offset central (info ∷ infos) =
      directory (offset + local_size info) (central + central_entry offset info) infos

  unfoldable pub end_size : ℕ → ℕ × ℕ → ℕ
  end_size count (offset, central) =
      if ltb zip.filecount_limit count || ltb zip.zip64_limit offset || ltb zip.zip64_limit central
      then 98
      else 22

  -- _archive_size
  unfoldable pub archive_size : List Info → ℕ
  archive_size infos =
      let sizes = directory 0 0 infos in sizes.0 + sizes.1 + end_size (length infos) sizes

-- _manifest_bound_info, from the size of the manifest with every flag set
unfoldable pub manifest_bound_info : Text → ℕ → Info
manifest_bound_info filename size = record {
  filename = filename;
  file_size = size;
  compress_size = size + size / 4096 + size / 16384 + size / 33554432 + 7;
}
