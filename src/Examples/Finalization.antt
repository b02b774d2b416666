-- ===== src/Examples/Finalization.antt =====
-- Concrete finalizations of a bundle (jobs/bundle.py, `ZipSink.finish`).
use nautobot_testsuite.Base.{
  ℕ, zero, suc, ◌≤◌, ◌≡◌, refl, true, false, none, [], ◌∷◌, arith, codes, text_eq, digits_from,
  ◌&&◌,
}
use nautobot_testsuite.Bundle.Packing.{Member, Finish}
use nautobot_testsuite.Bundle.Sink.{Sink, Outcome, attached, not_attached, interrupted, of_device}
use nautobot_testsuite.Bundle.Finishing.{Run, finish_planned, finish, first_last, items_from}
use nautobot_testsuite.Bundle.Retries.{is_interruption, calls, calls-finish}
use nautobot_testsuite.Bundle.Flags.{has_member, AreSettled, finish_planned-AreSettled}
use nautobot_testsuite.Examples.Packing.{small_zip, entry, manifest_entry, manifest_bound}

-- The first attachment is interrupted, the others go well.
abbrev once_interrupted : ℕ → Outcome
once_interrupted zero = interrupted
once_interrupted (suc i) = attached

abbrev interrupted_run : Run
interrupted_run = record {
  manifest_info = λ missing. manifest_entry;
  manifest_bound = manifest_bound;
  outcome = once_interrupted;
}

abbrev file_a : Member
file_a = record { info = entry (codes "snapshot/a.json") 500; metadata = 0 }

abbrev file_b : Member
file_b = record { info = entry (codes "snapshot/b.json") 900; metadata = 1 }

abbrev staged : Sink
staged = record {
  groups = (of_device (codes "a"), file_a ∷ []) ∷ (of_device (codes "b"), file_b ∷ []) ∷ [];
  names = codes "a.json" ∷ codes "b.json" ∷ [];
  add_failed = [];
  confirmed = [];
  missing = [];
  attempted = [];
  downloads = [];
  finish_parts = none;
  manifest_filename = [];
  is_finalizing = false;
  is_finished = false;
  is_closed = false;
  tries = 0;
}

calm : (i : ℕ) → 1 ≤ i → is_interruption (once_interrupted i) ≡ false
unfolding is_interruption
calm zero h = absurd (omega arith)
calm (suc i) h = refl

calls-finish_example :
    (calls
      (finish small_zip 2000 (codes "run.zip") interrupted_run)
      2
      (codes "manifest.json")
      staged).is_finished
    ≡ true
calls-finish_example =
    calls-finish small_zip 2000 (codes "run.zip") interrupted_run 1 (codes "manifest.json") staged
      calm (record { is_not_closed = refl; is_not_finished = refl; same_name = tt })

-- The second part is attached, then the first one is not.
abbrev second_refused : ℕ → Outcome
second_refused zero = attached
second_refused (suc i) = not_attached

abbrev refusing_run : Run
refusing_run = record interrupted_run { outcome = second_refused }

abbrev two_parts : Finish
two_parts = record { manifest = none; parts = (file_a ∷ []) ∷ (file_b ∷ []) ∷ [] }

no_common : (id : ℕ) → (has_member id (file_b ∷ []) && has_member id (file_a ∷ [])) ≡ false
unfolding has_member
no_common id = ground arith

finish_planned-AreSettled_example :
    let after = (finish_planned small_zip 2000 (codes "run.zip") refusing_run two_parts staged).1 in
    AreSettled after.missing after.downloads
      (first_last (items_from (codes "run.zip") 2 0 two_parts.parts))
    × (after.downloads ≡ codes "run_part2of2.zip" ∷ [])
unfolding finish_planned text_eq digits_from
finish_planned-AreSettled_example =
    finish_planned-AreSettled small_zip 2000 (codes "run.zip") refusing_run two_parts staged
      (codes "run_part2of2.zip" ∷ []) (((refl, λ id. no_common id), tt), (tt, tt)) refl
