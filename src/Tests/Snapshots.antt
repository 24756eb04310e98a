-- ===== src/Tests/Snapshots.antt =====
-- Observer snapshots on concrete inputs.
use balloon_crumbs.Prelude.{
  ltb, ◌/◌, ◌*◌, ◌≡◌, refl, ℕ, ◌<◌, String, false, true, none, some, List, [], ◌∷◌, arith, max,
  is_some,
}
use balloon_crumbs.Result.{ok}
use balloon_crumbs.Models.{ObserverGrant, Db, empty}
use balloon_crumbs.Json.{
  text, array, object, nil, cons, Fields, field, end, get, null, natural, double, Value,
}
use balloon_crumbs.Text.{codes}
use balloon_crumbs.Env.{Env}
use balloon_crumbs.Observer.Access.{find_grant}
use balloon_crumbs.Observer.Snapshot.{
  Numbers, fresh, timestamp, reduce_snapshot_precision, least_accuracy,
}
use balloon_crumbs.Observer.Merge.{PublishRequest, merge, merged}
use balloon_crumbs.Observer.Publish.{publish_observer_snapshot}
use balloon_crumbs.Observer.Newest.{publish_observer_snapshot-in_order}
use balloon_crumbs.Observer.Latest.{merge-latest}
use balloon_crumbs.Observer.View.{SnapshotView, ParticipantView, group_view}
use balloon_crumbs.Observer.Read.{observer_snapshot}
use balloon_crumbs.Observer.Scopes.{IsScoped, observer_snapshot-IsScoped}
use balloon_crumbs.Tests.Sample.{env}

abbrev numbers : Numbers
numbers = record { round = λ v n. v; as_float = λ v. ok 0; exceeds = λ a b. true }

abbrev nonce : List ℕ
nonce = 0 ∷ 0 ∷ 0 ∷ 0 ∷ 0 ∷ 0 ∷ 0 ∷ 0 ∷ 0 ∷ 0 ∷ 0 ∷ 0 ∷ []

abbrev publisher_token : String
publisher_token = "op1_AAAAAAAAAAAAAAAAAAAAAAAAAAAAAAAAAAAAAAAAAAA"

abbrev observer_token : String
observer_token = "ro1_AAAAAAAAAAAAAAAAAAAAAAAAAAAAAAAAAAAAAAAAAAA"

abbrev grant : ObserverGrant
grant = record {
  id = "grant-1";
  ride_id = "ride-1";
  label = "ground crew";
  scope = "group";
  precision = "reduced";
  management_token_hash = [];
  publisher_token_hash = codes publisher_token;
  observer_token_hash = codes observer_token;
  snapshot_ciphertext = none;
  snapshot_updated_at = none;
  snapshot_version_at = none;
  created_at = 0;
  expires_at = 9000;
  revoked_at = none;
  last_read_at = none;
}

abbrev grant_db : Db
grant_db = record empty { observer_grants = grant ∷ [] }

abbrev document : Fields
document = field "statusUpdatedAt" (text "t") (
    field "assistanceUpdatedAt" (text "t") (
      field "participants"
        (array (
          cons
            (object (
              field "displayName" (text "Ada")
                (field "position" (object (field "recordedAt" (text "t") end)) end)))
            nil))
        end))

abbrev request : ℕ → PublishRequest
request at = record {
  scope = "group";
  snapshot_generated_at = at;
  status_updated_at = 1000;
  position_recorded_at = none;
  participants_recorded_at = some 1000 ∷ [];
  assistance_updated_at = 1000;
  assistance_reported_at = none;
  model_dump = document;
}

abbrev snapshot_env : Env
snapshot_env = record env { loads = λ b. some (object document) }

abbrev after : ℕ → Db → Db
after at db =
    (publish_observer_snapshot snapshot_env numbers nonce "grant-1" publisher_token (request at)
      1000 db).1

publish_observer_snapshot-in_order_example :
    (request 100).snapshot_generated_at < (request 200).snapshot_generated_at
unfolding publish_observer_snapshot balloon_crumbs.Observer.Merge.check_snapshot
    balloon_crumbs.Env.minutes balloon_crumbs.Env.hours
    balloon_crumbs.Observer.Publish.is_publisher_token balloon_crumbs.Observer.Publish.publish_rows
    balloon_crumbs.Observer.Access.authorized_grant balloon_crumbs.Crypto.token_hash
    balloon_crumbs.Text.ascii balloon_crumbs.Text.compare_digest
    balloon_crumbs.Observer.Merge.next_snapshot balloon_crumbs.Observer.Merge.current_state
    balloon_crumbs.Observer.Merge.incoming_of
    balloon_crumbs.Observer.Snapshot.reduce_snapshot_precision
    balloon_crumbs.Observer.Snapshot.reduce_position balloon_crumbs.Observer.Snapshot.each merge
    timestamp balloon_crumbs.Crypto.decrypt_json balloon_crumbs.Crypto.encrypt_json
    balloon_crumbs.Env.seconds balloon_crumbs.Observer.Access.admits_grant
    balloon_crumbs.Observer.Grants.update_grants merged balloon_crumbs.Observer.Merge.snapshot_aad
    balloon_crumbs.Observer.Snapshot.reduce_fields balloon_crumbs.Sync.Event.replace_z
    balloon_crumbs.Text.is_alphanumeric balloon_crumbs.Text.is_base64url balloon_crumbs.Text.utf8
    balloon_crumbs.Text.utf8_code
publish_observer_snapshot-in_order_example =
    publish_observer_snapshot-in_order snapshot_env numbers nonce nonce "grant-1" publisher_token
      publisher_token (request 100) (request 200) 1000 1000 grant_db (after 100 grant_db)
      (after 200 (after 100 grant_db)) (omega arith) refl refl

merge-latest_example :
    (timestamp env (get "statusUpdatedAt" (merged grant document document true true true))
      ≡ ok (some (max 1000 1000)))
    × (timestamp env (get "assistanceUpdatedAt" (merged grant document document true true true))
        ≡ ok (some (max 1000 1000)))
unfolding merge timestamp
merge-latest_example =
    merge-latest env grant (record (request 100) { position_recorded_at = some 1000 }) document
      document (merged grant document document true true true) 1000 1000 refl refl refl refl refl

abbrev stored : ObserverGrant
stored = record grant {
  snapshot_ciphertext = some (
      1 ∷ 1 ∷ 1 ∷ 1 ∷ 1 ∷ 1 ∷ 1 ∷ 1 ∷ 1 ∷ 1 ∷ 1 ∷ 1 ∷ 1 ∷ 1 ∷ 1 ∷ 1 ∷ 1 ∷ 1 ∷ 1 ∷ 1 ∷ 1 ∷ 1 ∷ 1 ∷ 1
      ∷ 1 ∷ 1 ∷ 1 ∷ 1 ∷ 1 ∷ []);
}

abbrev stored_db : Db
stored_db = record empty { observer_grants = stored ∷ [] }

abbrev ada : ParticipantView
ada = record {
  display_name = text "Ada";
  role = null;
  color = null;
  position = object (field "recordedAt" (text "t") end);
  freshness = fresh;
}

abbrev answered_view : SnapshotView
answered_view = group_view snapshot_env stored document 1000 (ada ∷ [])

observer_snapshot-IsScoped_example :
    (g : ObserverGrant) × (find_grant "grant-1" stored_db.observer_grants ≡ some g)
    × (is_some g.revoked_at ≡ false)
    × IsScoped g answered_view
unfolding observer_snapshot balloon_crumbs.Observer.Read.read_snapshot
    balloon_crumbs.Observer.Access.authorized_grant balloon_crumbs.Observer.Read.is_observer_token
    balloon_crumbs.Crypto.token_hash balloon_crumbs.Text.ascii balloon_crumbs.Text.compare_digest
    balloon_crumbs.Observer.Merge.current_state balloon_crumbs.Crypto.decrypt_json
    balloon_crumbs.Observer.View.view balloon_crumbs.Observer.View.participant_views timestamp
    balloon_crumbs.Observer.Snapshot.freshness balloon_crumbs.Env.seconds
observer_snapshot-IsScoped_example =
    observer_snapshot-IsScoped snapshot_env "grant-1" observer_token 1000 stored_db
      (observer_snapshot snapshot_env "grant-1" observer_token 1000 stored_db).1 answered_view refl

-- Rounding takes hundreds off, and every accuracy is 5.
abbrev coarsening : Numbers
coarsening = record {
  round = λ v n. elim v as (λ _. Value) [ natural m ↦ natural (m / 100 * 100) | _ ↦ v ];
  as_float = λ v. ok 5;
  exceeds = λ a b. ltb b a;
}

abbrev spot : ℕ → ℕ → ℕ → Value
spot latitude longitude accuracy = object (
    field "latitude" (natural latitude)
      (field "longitude" (natural longitude) (field "accuracyMeters" (double accuracy) end)))

abbrev flight : Value → Value → Value → Fields
flight position person point = field "position" position (
    field "participants" (array (cons (object (field "position" person end)) nil))
      (field "route" (object (field "points" (array (cons point nil)) end)) end))

abbrev exact : Fields
exact = flight (spot 5123 754 5) (spot 5199 701 5) (spot 5101 799 5)

abbrev reduced : Fields
reduced = flight (spot 5100 700 least_accuracy) (spot 5100 700 least_accuracy) (spot 5100 700 5)
