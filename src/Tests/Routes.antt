-- ===== src/Tests/Routes.antt =====
-- Route plans on concrete inputs.
use balloon_crumbs.Prelude.{
  ◌≡◌, refl, sym, ap, ◌↔◌, ◌+◌, String, true, Option, none, some, arith, if◌then◌else◌, take,
}
use balloon_crumbs.Result.{ok}
use balloon_crumbs.Models.{Db, empty}
use balloon_crumbs.Text.{codes, utf8}
use balloon_crumbs.Json.{Value, text}
use balloon_crumbs.Env.{Env}
use balloon_crumbs.Crypto.Sealed.{SealLaws}
use balloon_crumbs.Gpx.{validate_gpx, point_count}
use balloon_crumbs.Gpx.Counted.{IsAcceptable, validate_gpx-IsAcceptable}
use balloon_crumbs.Plans.{
  PlanEntropy, PlanUpload, PlanCreated, is_plan_code, generate_plan_code, check_plan, plan_value,
  code_at, expire_plans, find_plan,
}
use balloon_crumbs.Plans.Codes.{generate_plan_code-is_plan_code}
use balloon_crumbs.Plans.Handler.{create_plan, get_plan}
use balloon_crumbs.Plans.Lookup.{view_of, get_plan-created, create_plan-succeeds}
use balloon_crumbs.Tests.Sample.{env, zeros}
use balloon_crumbs.Tests.Seals.{is_the, is_the-eq, length-sealed}

abbrev write_route : Value → Option String
write_route v = if is_the "<gpx/>" v then some "r" else none

abbrev plan_env : Env
plan_env = record env { dumps = write_route; loads = λ b. some (text "<gpx/>") }

write_route-eq : (v : Value) (s : String) → write_route v ≡ some s → (v ≡ text "<gpx/>") × (s ≡ "r")
write_route-eq v s h = ground (arith, is_the-eq "<gpx/>" v)

plan_env-SealLaws : SealLaws plan_env
unfolding utf8
plan_env-SealLaws = record {
  opens = λ key nonce plaintext aad. refl;
  tagged = λ key nonce plaintext aad. length-sealed plaintext;
  reads = λ v s h. ap some (sym (write_route-eq v s h).0);
  written = λ v s h. rw (write_route-eq v s h).1 (omega arith);
}

abbrev entropy : PlanEntropy
entropy = record { draw = λ i k. i + k; nonce = λ i. take 12 zeros }

abbrev sunday : PlanUpload
sunday = record {
  name = some "Sunday";
  gpx = "<gpx/>";
  forecast_plan = none;
  forecast_plan_point_count = 0;
}

generate_plan_code-is_plan_code_example : is_plan_code (generate_plan_code (λ k. k + 30)) ≡ true
generate_plan_code-is_plan_code_example = generate_plan_code-is_plan_code (λ k. k + 30)

abbrev created : PlanCreated
created = record { code = "98765432"; expires_at = "1970-01-01T00:00:00+00:00" }

get_plan-created_example :
    get_plan plan_env created.code 5000 (create_plan plan_env entropy sunday 1000 empty).1 ≡ (
      ok (view_of plan_env sunday created.code 1000),
      (create_plan plan_env entropy sunday 1000 empty).1,
    )
unfolding create_plan check_plan validate_gpx utf8 balloon_crumbs.Gpx.is_infix
    balloon_crumbs.Gpx.local_name balloon_crumbs.Text.Parts.split balloon_crumbs.Gpx.is_track_point
    balloon_crumbs.Gpx.point_error balloon_crumbs.Plans.allocate_plan balloon_crumbs.Plans.sealed_at
    balloon_crumbs.Crypto.encrypt_json plan_value expire_plans generate_plan_code
    balloon_crumbs.Env.days balloon_crumbs.Env.hours balloon_crumbs.Env.seconds
get_plan-created_example =
    get_plan-created plan_env entropy sunday plan_env-SealLaws (λ _. refl) 1000 5000 empty
      (create_plan plan_env entropy sunday 1000 empty).1 created refl (ground arith)

create_plan-succeeds_example :
    (c : PlanCreated) × (db' : Db) × (create_plan plan_env entropy sunday 1000 empty ≡ (ok c, db'))
unfolding check_plan validate_gpx utf8 balloon_crumbs.Gpx.is_infix balloon_crumbs.Gpx.local_name
    balloon_crumbs.Text.Parts.split balloon_crumbs.Gpx.is_track_point balloon_crumbs.Gpx.point_error
    plan_value expire_plans
create_plan-succeeds_example =
    create_plan-succeeds plan_env entropy sunday 1000 3 empty "r" refl refl (omega arith) refl

validate_gpx-IsAcceptable_example :
    (validate_gpx env "<gpx/>" 64 2 ≡ point_count 1) ↔ IsAcceptable env "<gpx/>" 64 2 1
validate_gpx-IsAcceptable_example = validate_gpx-IsAcceptable env "<gpx/>" 64 2 1
