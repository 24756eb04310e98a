-- ===== src/Observer/Latest.antt =====
-- The instants of the document that a grant stores
-- (apps/server/src/balloon_crumbs_server/observer.py, `publish_observer_snapshot`).
use balloon_crumbs.Prelude.{
  subst, ◌≡◌, ◌∙◌, sym, ℕ, max, some, arith, leb, if◌then◌else◌, ap, String, Bool-cases, inl, inr,
}
use balloon_crumbs.Result.{ok, >>=-invert, ok-injective}
use balloon_crumbs.Json.{Fields, get}
use balloon_crumbs.Models.{ObserverGrant}
use balloon_crumbs.Env.{Env}
use balloon_crumbs.Observer.Snapshot.{timestamp, recorded_at}
use balloon_crumbs.Observer.Merge.{PublishRequest, is_newer, merge, merged}

module _ (env : Env) where
  -- The later of two instants stays.
  chosen-max :
      (key : String) (current incoming : Fields) (t at : ℕ)
      → timestamp env (get key current) ≡ ok (some t)
      → timestamp env (get key incoming) ≡ ok (some at)
      → timestamp env (get key (if leb t at then incoming else current)) ≡ ok (some (max t at))
  chosen-max key current incoming t at h k = elim (Bool-cases (leb t at)) [
    | inl le ↦ rw le (k ∙ ap (λ n. ok (some n)) (ground (arith, le)))
    | inr gt ↦ rw gt (h ∙ ap (λ n. ok (some n)) (ground (arith, gt)))
  ]

  -- Where the stored status and assistance have an instant, and the instants of a request are those
  -- that its document carries, the new document has the later instant of each.
  pub merge-latest :
      (g : ObserverGrant) (q : PublishRequest) (current incoming document : Fields)
      (status assistance : ℕ)
      → timestamp env (get "statusUpdatedAt" current) ≡ ok (some status)
      → timestamp env (get "assistanceUpdatedAt" current) ≡ ok (some assistance)
      → timestamp env (get "statusUpdatedAt" incoming) ≡ ok (some q.status_updated_at)
      → timestamp env (get "assistanceUpdatedAt" incoming) ≡ ok (some q.assistance_updated_at)
      → merge env g q current incoming ≡ ok document
      → (timestamp env (get "statusUpdatedAt" document)
          ≡ ok (some (max status q.status_updated_at)))
        × (timestamp env (get "assistanceUpdatedAt" document)
            ≡ ok (some (max assistance q.assistance_updated_at)))
  unfolding merge merged
  merge-latest g q current incoming document status assistance s a s' a' h =
      >>=-invert (timestamp env (get "statusUpdatedAt" current)) _ h (λ x ex h1.
        >>=-invert (recorded_at env (get "position" current)) _ h1 (λ y _ h2.
          >>=-invert (timestamp env (get "assistanceUpdatedAt" current)) _ h2 (λ z ez h3.
            subst
              (λ d.
                (timestamp env (get "statusUpdatedAt" d)
                  ≡ ok (some (max status q.status_updated_at)))
                × (timestamp env (get "assistanceUpdatedAt" d)
                    ≡ ok (some (max assistance q.assistance_updated_at))))
              (ok-injective h3)
              (
                subst
                    (λ v.
                      timestamp env (
                        get "statusUpdatedAt"
                          (if is_newer v q.status_updated_at then incoming else current))
                      ≡ ok (some (max status q.status_updated_at)))
                    (ok-injective (sym s ∙ ex))
                    (chosen-max "statusUpdatedAt" current incoming status q.status_updated_at s s'),
                subst
                    (λ v.
                      timestamp env (
                        get "assistanceUpdatedAt"
                          (if is_newer v q.assistance_updated_at then incoming else current))
                      ≡ ok (some (max assistance q.assistance_updated_at)))
                    (ok-injective (sym a ∙ ez))
                    (chosen-max "assistanceUpdatedAt" current incoming assistance
                      q.assistance_updated_at a a'),
              ))))
