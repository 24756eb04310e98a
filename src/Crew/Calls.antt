-- ===== src/Crew/Calls.antt =====
-- Sequences of operations on crew rooms (apps/server/src/balloon_crumbs_server/service.py, 710-1065).
use balloon_crumbs.Prelude.{ℕ, String, List, [], ◌∷◌}
use balloon_crumbs.Models.{Db}
use balloon_crumbs.Json.{Fields}
use balloon_crumbs.Env.{Env}
use balloon_crumbs.Crew.Rows.{CrewEntropy}
use balloon_crumbs.Crew.Invariant.{IsCrew}
use balloon_crumbs.Crew.Handler.{
  Caller, create_crew_room, open_crew_room, join_crew_room, start_crew_room_operation,
  list_crew_room_devices, rename_crew_room, transfer_crew_room, revoke_crew_room_device,
  delete_crew_room,
}
use balloon_crumbs.Crew.Led.{
  open_crew_room-IsCrew, list_crew_room_devices-IsCrew, delete_crew_room-IsCrew,
  start_crew_room_operation-IsCrew, rename_crew_room-IsCrew, transfer_crew_room-IsCrew,
  revoke_crew_room_device-IsCrew,
}
use balloon_crumbs.Crew.Arrivals.{create_crew_room-IsCrew, join_crew_room-IsCrew}

-- a call of one of the operations, with its arguments
pub data CrewCall : Type 0 where
  create : CrewEntropy → Caller → String → Fields → String → CrewCall
  visit : Caller → CrewCall
  join : CrewEntropy → String → String → String → String → CrewCall
  start : CrewEntropy → Caller → Fields → String → CrewCall
  list_devices : Caller → CrewCall
  rename : CrewEntropy → Caller → String → CrewCall
  transfer : Caller → String → CrewCall
  revoke : Caller → String → CrewCall
  delete : Caller → CrewCall

module _ (env : Env) where
  -- the database after a call at a time, whatever the call answers
  unfoldable pub crew_step : CrewCall → ℕ → Db → Db
  crew_step (create entropy caller name operation bearer) now db =
      (create_crew_room env entropy caller name operation bearer now db).1
  crew_step (visit caller) now db = (open_crew_room env caller now db).1
  crew_step (join entropy alias token device name) now db =
      (join_crew_room env entropy alias token device name now db).1
  crew_step (start entropy caller operation bearer) now db =
      (start_crew_room_operation env entropy caller operation bearer now db).1
  crew_step (list_devices caller) now db = (list_crew_room_devices env caller now db).1
  crew_step (rename entropy caller alias) now db =
      (rename_crew_room env entropy caller alias now db).1
  crew_step (transfer caller target) now db = (transfer_crew_room env caller target now db).1
  crew_step (revoke caller target) now db = (revoke_crew_room_device env caller target now db).1
  crew_step (delete caller) now db = (delete_crew_room env caller db).1

  unfoldable pub crew_run : List (CrewCall × ℕ) → Db → Db
  unfolding crew_step
  crew_run [] db = db
  crew_run ((call, now) ∷ calls) db = crew_run calls (crew_step call now db)

  crew_step-IsCrew :
      (call : CrewCall) (now : ℕ) (db : Db) → IsCrew db → IsCrew (crew_step call now db)
  unfolding crew_step
  crew_step-IsCrew (create entropy caller name operation bearer) now =
      create_crew_room-IsCrew env entropy caller name operation bearer now
  crew_step-IsCrew (visit caller) now = open_crew_room-IsCrew env caller now
  crew_step-IsCrew (join entropy alias token device name) now =
      join_crew_room-IsCrew env entropy alias token device name now
  crew_step-IsCrew (start entropy caller operation bearer) now =
      start_crew_room_operation-IsCrew env entropy caller operation bearer now
  crew_step-IsCrew (list_devices caller) now = list_crew_room_devices-IsCrew env caller now
  crew_step-IsCrew (rename entropy caller alias) now =
      rename_crew_room-IsCrew env entropy caller alias now
  crew_step-IsCrew (transfer caller target) now = transfer_crew_room-IsCrew env caller target now
  crew_step-IsCrew (revoke caller target) now = revoke_crew_room_device-IsCrew env caller target now
  crew_step-IsCrew (delete caller) now = delete_crew_room-IsCrew env caller

  -- If identities and aliases name one room at most and every room's owner is a device of it that
  -- is not revoked, this is so after any sequence of operations on crew rooms too, whatever they
  -- answer.
  pub crew_run-IsCrew :
      (calls : List (CrewCall × ℕ)) (db : Db) → IsCrew db → IsCrew (crew_run calls db)
  unfolding crew_run
  crew_run-IsCrew [] db crew = crew
  crew_run-IsCrew ((call, now) ∷ calls) db crew =
      crew_run-IsCrew calls (crew_step call now db) (crew_step-IsCrew call now db crew)
