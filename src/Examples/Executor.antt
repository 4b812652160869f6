-- ===== src/Examples/Executor.antt =====
-- Receipts of two executors at concrete inputs.
use borromean_rings.Base.{String, ◌≡◌, refl, ◌↔◌, Bool, false, [], ◌∷◌, ◌==◌}
use borromean_rings.Json.{Fields, member, no_members, Value, str, get}
use borromean_rings.Executor.{comparable, volatile_fields, unequal, receipt_differences}
use borromean_rings.Executor.Agreeing.{Agrees, receipt_differences-none}

abbrev equal_texts : Value → Value → Bool
equal_texts (str a) (str b) = a == b
equal_texts a b = false

abbrev local_run : Fields
local_run =
    member "check" (str "20_tests")
      (member "status" (str "pass") (member "log" (str "/a/20.log") no_members))

abbrev worktree_run : Fields
worktree_run = member "executor_name" (str "worktree") (
    member "log" (str "/b/20.log")
      (member "status" (str "fail") (member "check" (str "20_tests") no_members)))

difference_test :
    receipt_differences equal_texts volatile_fields local_run worktree_run
    ≡ unequal "status" (str "pass") (str "fail") ∷ []
unfolding receipt_differences
difference_test = refl

receipt_differences-none_example :
    (receipt_differences equal_texts volatile_fields local_run worktree_run ≡ []) ↔ (
      (key : String)
      → Agrees equal_texts
          (get key (comparable volatile_fields local_run))
          (get key (comparable volatile_fields worktree_run)))
receipt_differences-none_example =
    receipt_differences-none equal_texts volatile_fields local_run worktree_run
