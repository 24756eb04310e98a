-- ===== src/Crew/Access.antt =====
-- Who may act in a crew room: `_authorise_crew_room_device` of
-- apps/server/src/balloon_crumbs_server/service.py.
use balloon_crumbs.Prelude.{ℕ, String, Bool, not, ◌&&◌, ◌||◌, List, is_some, find}
use balloon_crumbs.Result.{Fault, relay_service_error, Result, ok, ◌>>=◌, ◌>>◌, reject, or_raise}
use balloon_crumbs.Models.{CrewRoom, CrewRoomDevice, Db}
use balloon_crumbs.Text.{compare_digest, is_device_credential}
use balloon_crumbs.Env.{Env}
use balloon_crumbs.Crypto.{token_hash}
use balloon_crumbs.Crew.Records.{crew_room_alias_digest, crew_room_device_digest}
use balloon_crumbs.Crew.Tables.{find_alias, device_at}

abbrev pub unavailable : Fault
unavailable = relay_service_error 404 "Crew room is not available"

-- a device with its credential and, for the owner's operations, the owner
unfoldable pub admits : Bool → CrewRoom → CrewRoomDevice → List ℕ → List ℕ → Bool
admits owner_required room device device_digest hash =
    not (is_some device.revoked_at)
    && compare_digest device.credential_hash hash
    && (not owner_required || compare_digest room.owner_device_digest device_digest)

module _ (env : Env) where
  -- The digest of the room's alias and of the device in it are what the rows are looked up by.
  unfoldable pub authorise_crew_room_device :
      String → String → String → Bool → Db → Result (CrewRoom × CrewRoomDevice)
  unfolding admits
  authorise_crew_room_device alias device_id credential owner_required db = do
    reject (not (is_device_credential credential)) unavailable
    room ← or_raise (find_alias (crew_room_alias_digest env alias) db.crew_rooms) unavailable
    digest ← crew_room_device_digest env room.id device_id
    device ← or_raise (find (device_at room.id digest) db.crew_devices) unavailable
    hash ← token_hash env credential
    reject (not (admits owner_required room device digest hash)) unavailable
    ok (room, device)
