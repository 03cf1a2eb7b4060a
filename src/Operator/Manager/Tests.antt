-- ===== src/Operator/Manager/Tests.antt =====
-- A manager that cannot register the third controller.
use voxplatform.Prelude.{◌≡◌, ◌↔◌, refl, String, Option, none, some, [], ◌∷◌, ◌++◌, All}
use mathlib.Core.List.{Memᴰ}
use voxplatform.Operator.Manager.{
  Call, setup_with_manager, start, default_flags, eval_run, main, Kind,
}
use voxplatform.Operator.Manager.Startup.{Succeeds, preparation, main_starts}

abbrev refusal : Kind → Option String
refusal eval_run = some "no such kind"
refusal _ = none

abbrev answers : Call → Option String
answers (setup_with_manager c) = refusal c.for_kind
answers _ = none

refused : (main answers default_flags).message ≡ some "Failed to create controller"
unfolding main
refused = refl

main_starts_example :
    (Memᴰ start (main answers default_flags).calls
      → All (Succeeds answers) (preparation answers default_flags)
        × ((main answers default_flags).calls ≡ preparation answers default_flags ++ start ∷ []))
    × (((main answers default_flags).code ≡ 0)
        ↔ All (Succeeds answers) (preparation answers default_flags ++ start ∷ []))
main_starts_example = main_starts answers default_flags
