-- ===== src/Lib.antt =====
-- The relay server of Balloon Crumbs (apps/server).
--
-- Crew devices share a ride through the relay. A device uploads signed events and downloads those
-- of its peers in one request (`RelayService.synchronize`), exchanges short-lived positions and
-- reads the roster in another (`synchronize_pre_start_presence`), and turns a six-digit ride code
-- into the secret of a ride (`register_join_code`, `resolve_join_code`). Crew rooms are named
-- directories of devices with one owner, and plans are routes that are shared under a code. All of these read and
-- write one database in a transaction; a periodic job deletes what has expired.
--
-- The files, with the code in apps/server/src/balloon_crumbs_server that they model:
--   Env                the settings of config.py, and the primitives that the code calls: hashes,
--                      the cipher, base64, JSON, timestamps, the Unicode database, the collation
--   Text, Json         regular expressions and texts of service.py, and the values of `json`
--   Result, Effect     exceptions, and `with session.begin()` with its roll back
--   Crypto             crypto.py: hashes of tokens, sealed documents, signed cursors
--   Models             models.py: the tables as lists of rows in one record
--   Membership         membership.py: the roles and states that events give to devices
--   Sync               service.py: `synchronize`. Event validates an event, Store stores a batch,
--                      Response builds the download, Request and Handler are the request
--   Presence           service.py: `synchronize_pre_start_presence`, with device authority, the
--                      phase of a ride and its roster
--   JoinCode           service.py: `register_join_code` and `resolve_join_code`
--   Crew               service.py: the operations on crew rooms. Records checks and opens records,
--                      Access authorises a device, Rows makes the rows, Handler has the operations
--   Gpx                gpx.py: the bounds on an imported route
--   Plans              service.py: `create_plan` and `get_plan`
--   Observer           observer.py: grants of observer access. Signatures and Pilot find who is the
--                      pilot of a flight, Request and Access check a caller, Grants has the
--                      operations on grants, Snapshot and Merge make the document that Publish
--                      stores, and View and Read answer an observer
--   RateLimit          rate_limit.py: the sliding-window limiter
--   Cleanup            service.py: `purge_expired`
--
-- Instants and durations are natural numbers of microseconds, so a subtraction of the code is an
-- addition on the other side of its comparison. Texts are native strings, and bytes are lists of
-- numbers. A double is its bit pattern. `os.urandom` and the clock are arguments. Everything of the
-- standard library and of `cryptography` that the code calls is a field of `Env`; the laws of these
-- fields that a theorem needs stand in the records `CodecLaws` and `SealLaws`. All loops are
-- recursions on a list, but for the eight rounds in which a code for a plan is drawn, which count down.
--
-- A transaction returns the state that it started from when its block raises. The keys that the
-- database gives to the rows of `ride_events` are the field `row_key`, of which nothing is assumed. Requests for one ride follow
-- one another, as the lock on its row makes them do, and two first requests never claim a ride at
-- the same instant. Texts with lone surrogates are not represented. What pydantic validates has
-- been validated when the modelled functions are called.
--
-- Not modelled: the HTTP endpoints (app.py), push notifications (push.py), traffic (traffic.py) and route
-- inspiration (inspire.py), migrations, tools and the mobile app.
pub mod Prelude
pub mod Result
pub mod Effect
pub mod Json
pub mod Text
pub mod Env
pub mod Crypto
pub mod Models
pub mod Membership
pub mod Sync
pub mod Presence
pub mod JoinCode
pub mod Crew
pub mod Gpx
pub mod Plans
pub mod Observer
pub mod RateLimit
pub mod Cleanup
pub mod Tests
