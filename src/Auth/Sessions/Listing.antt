-- ===== src/Auth/Sessions/Listing.antt =====
-- What the listing of sessions shows.
use flexi.Prelude.{◌≡◌, refl, ◌&&◌, List, map, ltb}
use mathlib.Core.List.{Perm}
use flexi.Exec.{ok, ◌>>=◌}
use flexi.Store.{RefreshToken, World}
use flexi.Store.Rows.{find_many, order_desc}
use flexi.Store.Rows.Order.{IsDescending, order_desc-IsDescending, order_desc-perm}
use flexi.Store.Platform.{Platform}
use flexi.Store.Tables.{now}
use flexi.Auth.Actors.{AuthenticatedUser}
use flexi.Auth.Service.{is_live_of}
use flexi.Auth.Sessions.{to_session_item, list_sessions}

module _ (p : Platform) where
  -- The listing is exactly the caller's sessions that are neither revoked nor expired, newest first, and
  -- listing changes no session.
  pub list_sessions_lem :
      (user : AuthenticatedUser) (s : World)
      → (rows : List RefreshToken) × ((list_sessions p user s).0
          ≡ ok (map (to_session_item user) rows))
        × Perm rows (
            find_many
              (λ r. is_live_of user.auth_account_id r && ltb (p.clock s.ticks) r.expires_at)
              s.refresh_tokens)
        × IsDescending (λ r. r.created_at) rows
        × ((list_sessions p user s).1.db ≡ s.db)
  unfolding list_sessions ◌>>=◌ now
  list_sessions_lem user s =
      let rows =
        find_many (λ r. is_live_of user.auth_account_id r && ltb (p.clock s.ticks) r.expires_at)
          s.refresh_tokens in
      (
        order_desc (λ r. r.created_at) rows,
        refl,
        order_desc-perm (λ r. r.created_at) rows,
        order_desc-IsDescending (λ r. r.created_at) rows,
        refl,
      )
