-- ===== src/Crew/Tables.antt =====
-- The rows of the crew rooms and their devices, as the session reads and writes them.
use balloon_crumbs.Prelude.{
  ℕ, String, Bool, not, ◌&&◌, Option, List, [], ◌∷◌, str_eq, if◌then◌else◌, is_some, find,
}
use balloon_crumbs.Models.{CrewRoom, CrewRoomDevice, Db}
use balloon_crumbs.Text.{compare_digest}

-- the room with an alias: `CrewRoom.alias_digest == digest`
abbrev pub find_alias : List ℕ → List CrewRoom → Option CrewRoom
find_alias digest rooms = find (λ r. compare_digest r.alias_digest digest) rooms

abbrev pub find_room : String → List CrewRoom → Option CrewRoom
find_room id rooms = find (λ r. str_eq r.id id) rooms

-- What the session writes back for a room that it has loaded and changed.
unfoldable pub put_room : CrewRoom → List CrewRoom → List CrewRoom
put_room room [] = []
put_room room (r ∷ rooms) = if str_eq r.id room.id then room ∷ rooms else r ∷ put_room room rooms

abbrev pub device_at : String → List ℕ → CrewRoomDevice → Bool
device_at room_id digest d = str_eq d.room_id room_id && compare_digest d.device_digest digest

-- `CrewRoomDevice.revoked_at.is_(None)`
abbrev pub active_at : String → List ℕ → CrewRoomDevice → Bool
active_at room_id digest d = device_at room_id digest d && not (is_some d.revoked_at)

unfoldable pub put_device : CrewRoomDevice → List CrewRoomDevice → List CrewRoomDevice
put_device device [] = []
put_device device (d ∷ devices) =
    if device_at device.room_id device.device_digest d
    then device ∷ devices
    else d ∷ put_device device devices

-- `device.last_seen_at = now`
abbrev pub seen : ℕ → CrewRoomDevice → CrewRoomDevice
seen now device = record device { last_seen_at = now }

-- `room.updated_at = now`
abbrev pub updated : ℕ → CrewRoom → CrewRoom
updated now room = record room { updated_at = now }

unfoldable pub save_device : CrewRoomDevice → Db → Db
save_device device db = record db { crew_devices = put_device device db.crew_devices }

unfoldable pub save_room : CrewRoom → Db → Db
save_room room db = record db { crew_rooms = put_room room db.crew_rooms }
