-- ===== src/Examples/Packing.antt =====
-- Concrete bundles and reports (jobs/bundle.py, jobs/envelope.py).
use nautobot_testsuite.Base.{
  ℕ, ◌+◌, ◌≡◌, refl, ◌↔◌, true, false, none, some, List, [], ◌∷◌, map, Text, codes, AreDistinct,
  arith, all, is_empty, text_eq,
}
use nautobot_testsuite.Bundle.Archive.{Zipfile, Info}
use nautobot_testsuite.Bundle.Packing.{Member, plan, prepare_finish, entry_list}
use nautobot_testsuite.Bundle.Capacity.{
  AreWhole, CarriedFit, prepare_finish-fits, prepare_finish-AreWhole,
}
use nautobot_testsuite.Bundle.Names.{
  safe_name, safe_char, validate_device_names, validate_device_names_iff, safe_name_lem,
}
use nautobot_testsuite.Envelope.Summary.{
  Body, envelope_summary, summarize_report, count_of, result_of,
}
use nautobot_testsuite.Envelope.Totals.{
  occurrences, envelope_summary_lem, is_known, summarize_report-partition, AreUnchanged,
  diffs_total_zero_iff,
}

abbrev pub small_zip : Zipfile
small_zip = record { zip64_limit = 2147483647; filecount_limit = 65535 }

abbrev pub entry : Text → ℕ → Info
entry filename size = record { filename = filename; file_size = size; compress_size = size }

abbrev device_groups : List (List Member)
device_groups =
    (record { info = entry (codes "snapshot/a.json") 500; metadata = 0 }
      ∷ record { info = entry (codes "snapshot/raw_a.json") 700; metadata = 1 }
      ∷ [])
    ∷ (record { info = entry (codes "snapshot/b.json") 900; metadata = 2 } ∷ [])
    ∷ []

abbrev pub manifest_entry : Info
manifest_entry = entry (codes "snapshot/manifest.json") 300

abbrev pub manifest_bound : Info
manifest_bound = entry (codes "snapshot/manifest.json") 360

prepare_finish-fits_example :
    let f =
      prepare_finish small_zip 2000
        (plan small_zip 2000 [] device_groups).0
        manifest_entry
        manifest_bound in
    CarriedFit small_zip 2000 (entry_list f.manifest) f.parts
prepare_finish-fits_example =
    prepare_finish-fits small_zip 2000 [] device_groups manifest_entry manifest_bound (omega arith)

prepare_finish-AreWhole_example :
    AreWhole
      (prepare_finish small_zip 2000 device_groups manifest_entry manifest_bound).parts
      device_groups
prepare_finish-AreWhole_example =
    prepare_finish-AreWhole small_zip 2000 device_groups manifest_entry manifest_bound

abbrev device_names : List Text
device_names = codes "core/1" ∷ codes "core-1" ∷ []

validate_device_names_iff_example :
    (validate_device_names device_names ≡ none) ↔ AreDistinct (map safe_name device_names)
validate_device_names_iff_example = validate_device_names_iff device_names

safe_name_lem_example :
    (all safe_char (safe_name (codes "../etc")) ≡ true)
    × (is_empty (safe_name (codes "../etc")) ≡ false)
safe_name_lem_example = safe_name_lem (codes "../etc")

abbrev report : List (Body ℕ)
report =
    record {
      result = some (codes "pass");
      added = [];
      removed = [];
      changed = [];
      evaluations = [];
    }
    ∷ record {
      result = some (codes "diffs");
      added = 1 ∷ [];
      removed = [];
      changed = [];
      evaluations = record { within = some false; ok = none } ∷ [];
    }
    ∷ []

envelope_summary_lem_example :
    count_of (codes "success") (envelope_summary (codes "success" ∷ codes "failed" ∷ []))
    ≡ occurrences (codes "success") (codes "success" ∷ codes "failed" ∷ [])
envelope_summary_lem_example =
    envelope_summary_lem (codes "success") (codes "success" ∷ codes "failed" ∷ [])

summarize_report-partition_example :
    let s = summarize_report report in
    s.checks_passed + s.checks_with_diffs + s.checks_failed + s.checks_skipped ≡ s.checks_total
unfolding all is_known result_of text_eq
summarize_report-partition_example = summarize_report-partition report refl

diffs_total_zero_iff_example : ((summarize_report report).diffs_total ≡ 0) ↔ AreUnchanged report
diffs_total_zero_iff_example = diffs_total_zero_iff report
