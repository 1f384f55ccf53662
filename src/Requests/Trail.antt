-- ===== src/Requests/Trail.antt =====
-- What no sequence of requests undoes.
use flexi.Prelude.{◌<◌, String, ◌==◌, ◌≡◌, refl, is_none, arith, List, [], ◌∷◌}
use flexi.Store.{Cls, World}
use flexi.Store.Platform.{Platform}
use flexi.Store.Rows.{count}
use flexi.Store.Rows.Grows.{Grows}
use flexi.Store.Rows.Claims.{still_none_live}
use flexi.Store.Evolution.{
  Later, Later-preorder, Later-of_same, HasUniqueKeys, KeepsBudget, SameRow,
}
use flexi.Auth.Service.Rotation.{is_live_session}
use flexi.Auth.Service.Trail.{
  Later-login, Later-refresh, Later-look_up_refresh_token, Later-claim_refresh_token, Later-logout,
  Later-change_password,
}
use flexi.Auth.Sessions.Trail.{Later-list_sessions, Later-revoke_session, Later-revoke_all_sessions}
use flexi.Auth.Reset.Trail.{
  Later-request_reset, Later-deliver_otp, Later-reset_password, Later-set_password,
}
use flexi.Users.Lifecycle.Trail.{Later-deactivate, Later-activate, Later-force_reset_password}
use flexi.Auth.Guard.Trail.{Later-can_activate}
use flexi.Auth.Impersonation.Trail.{Later-start, Later-end_session}
use flexi.Requests.{
  Request, login, refresh, look_up, claim, logout, change_password, list_sessions, revoke_session,
  revoke_all_sessions, forgot_password, deliver_otp, reset_password, set_password, deactivate,
  activate, force_reset_password, authenticate, start_impersonation, end_impersonation, serve, run,
}

module _ (p : Platform) where
  Later-serve : (r : Request) (s : World) → Later s (serve p r s)
  unfolding serve
  Later-serve (login email password tenant_id) s = (Later-login p email password tenant_id).at s
  Later-serve (refresh token) s = (Later-refresh p token).at s
  Later-serve (look_up token) s = (Later-look_up_refresh_token p token).at s
  Later-serve (claim stored) s = (Later-claim_refresh_token p stored).at s
  Later-serve (logout token user) s = (Later-logout p token user).at s
  Later-serve (change_password old new user) s = (Later-change_password p old new user).at s
  Later-serve (list_sessions user) s = (Later-list_sessions p user).at s
  Later-serve (revoke_session id user) s = (Later-revoke_session p id user).at s
  Later-serve (revoke_all_sessions keep user) s = (Later-revoke_all_sessions p keep user).at s
  Later-serve (forgot_password email tenant_id) s = (Later-request_reset p email tenant_id).at s
  Later-serve (deliver_otp d) s = (Later-deliver_otp p d).at s
  Later-serve (reset_password email otp password tenant_id) s =
      (Later-reset_password p email otp password tenant_id).at s
  Later-serve (set_password actor otp hash t) s = (Later-set_password p actor otp hash t).at s
  Later-serve (deactivate id user) s = (Later-deactivate p id user).at s
  Later-serve (activate id user) s = (Later-activate p id user).at s
  Later-serve (force_reset_password id send user) s =
      (Later-force_reset_password p id send user).at s
  Later-serve (authenticate header) s = (Later-can_activate p header).at s
  Later-serve (start_impersonation user header id) s = (Later-start p user header id).at s
  Later-serve (end_impersonation user) s = (Later-end_session p user).at s

  -- Whatever requests are served, in whatever order: no session is deleted, changes its owner or its
  -- expiry, or is live again after a revocation; no reset code is deleted or usable again after its
  -- consumption, and no failed attempt is forgotten; no audit row is changed or removed; the clock and
  -- the random source are only read on; and keys that were unique stay unique.
  pub run-Later : (s : World) (rs : List (Cls × Request)) → Later s (run p s rs)
  unfolding run
  run-Later s [] = Later-preorder.reflexive s
  run-Later s ((cls, r) ∷ rs) =
      let entered = record s { cls = cls } in
      Later-preorder.transitive (Later-of_same refl refl refl (omega arith) (omega arith))
        (Later-preorder.transitive (Later-serve r entered) (run-Later (serve p r entered) rs))

  -- Unique keys stay unique, and no reset code ever counts more than three failed attempts or is live
  -- with three: whatever requests are served, if it was so before.
  pub run-keeps :
      (s : World) (rs : List (Cls × Request))
      → HasUniqueKeys s
      → KeepsBudget s
      → HasUniqueKeys (run p s rs) × KeepsBudget (run p s rs)
  run-keeps s rs unique budget =
      let later = run-Later s rs in (later.keys unique, later.budget budget)

  -- Where keys are unique, a session that is there without a live row has none after any requests: no request makes a revoked session live
  -- again.
  pub run-stays_revoked :
      (id : String) (s : World) (rs : List (Cls × Request))
      → HasUniqueKeys s
      → 0 < count (λ r. r.id == id) s.refresh_tokens
      → count (is_live_session id) s.refresh_tokens ≡ 0
      → count (is_live_session id) (run p s rs).refresh_tokens ≡ 0
  run-stays_revoked id s rs unique there revoked =
      let later = run-Later s rs in
      still_none_live (λ r. r.id) (λ r. is_none r.revoked_at) (λ r r' h. ground arith)
        (λ r r' h k. ground arith) id s.refresh_tokens (run p s rs).refresh_tokens later.tokens
        (later.keys unique).token_ids there revoked

  -- The audit trail is append-only: every row is still there, unchanged and at its place, after any
  -- requests.
  pub run-audits :
      (s : World) (rs : List (Cls × Request))
      → Grows SameRow s.auth_audit_logs (run p s rs).auth_audit_logs
  run-audits s rs = (run-Later s rs).audits
