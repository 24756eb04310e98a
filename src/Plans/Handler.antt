-- ===== src/Plans/Handler.antt =====
-- `create_plan` and `get_plan` of apps/server/src/balloon_crumbs_server/service.py.
use balloon_crumbs.Prelude.{ℕ, String, not}
use balloon_crumbs.Effect.{Exec, lift, transaction, ◌>>◌, raise_if}
use balloon_crumbs.Models.{Db}
use balloon_crumbs.Env.{Env}
use balloon_crumbs.Plans.{
  PlanEntropy, PlanUpload, PlanCreated, PlanView, is_plan_code, plan_not_found, check_plan,
  save_plan, read_plan,
}

module _ (env : Env) where
  unfoldable pub create_plan : PlanEntropy → PlanUpload → ℕ → Exec Db PlanCreated
  unfolding save_plan
  create_plan entropy u now = do lift (check_plan env u); transaction (save_plan env entropy u now)

  unfoldable pub get_plan : String → ℕ → Exec Db PlanView
  unfolding read_plan
  get_plan code now = do
    raise_if (not (is_plan_code code)) plan_not_found
    transaction (read_plan env code now)
