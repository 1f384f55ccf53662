-- ===== src/Users/Quota.antt =====
-- modules/users/user-quota.service.ts: the seats of a tenant.
pub mod Seats
use flexi.Prelude.{
  ℕ, ◌+◌, ◌-◌, String, ◌==◌, same, Bool, true, false, not, ◌&&◌, ◌||◌, Option, none, some, List,
  if◌then◌else◌, ltb, leb, any, is_none,
}
use flexi.Exec.{raise, pure, gets, quota_exceeded, ◌>>=◌, ◌>>◌}
use flexi.Store.{Tenant, TenantUser, TenantUserStatus, UserInvite, UserInviteStatus, World, Db}
use flexi.Store.Rows.{find_first, count}
use flexi.Store.Platform.{Platform}
use flexi.Store.Tables.{Action, now}

-- `SEAT_HOLDING_STATUSES`
abbrev pub holds_seat : TenantUserStatus → Bool
holds_seat TenantUserStatus.active = true
holds_seat TenantUserStatus.pending_setup = true
holds_seat TenantUserStatus.pending_approval = true
holds_seat TenantUserStatus.locked = true
holds_seat _ = false

abbrev pub is_invited : TenantUserStatus → Bool
is_invited TenantUserStatus.pending_invite = true
is_invited _ = false

abbrev pub is_pending : UserInviteStatus → Bool
is_pending UserInviteStatus.pending = true
is_pending _ = false

-- a live invite of a member
abbrev pub is_live_invite_of : ℕ → String → UserInvite → Bool
is_live_invite_of t user_id i =
    same i.tenant_user_id user_id && is_pending i.status && ltb t i.expires_at

abbrev pub is_occupied : String → TenantUser → Bool
is_occupied tenant_id u = u.tenant_id == tenant_id && holds_seat u.status

abbrev pub is_invited_seat : ℕ → List UserInvite → String → TenantUser → Bool
is_invited_seat t invites tenant_id u =
    u.tenant_id == tenant_id && is_invited u.status && any (is_live_invite_of t u.id) invites

unfoldable pub used_seats_at : ℕ → String → Db → ℕ
used_seats_at t tenant_id db =
    count (is_occupied tenant_id) db.tenant_users
    + count (is_invited_seat t db.user_invites tenant_id) db.tenant_users

-- `none` stands for every negative limit, which means unlimited
abbrev pub limit_of : Option Tenant → Option ℕ
limit_of none = none
limit_of (some t) = t.max_users

unfoldable pub resolve_max_users : String → Db → Option ℕ
resolve_max_users tenant_id db = limit_of (find_first (λ t. t.id == tenant_id) db.tenants)

pub record TenantSeatUsage : Type 0 where
  pub used_seats : ℕ
  pub max_users : Option ℕ
  -- `null` where unlimited
  pub remaining_seats : Option ℕ
  pub unlimited : Bool

-- `Math.max(0, maxUsers - usedSeats)` is the truncated difference
unfoldable pub to_seat_usage : ℕ → Option ℕ → TenantSeatUsage
to_seat_usage used limit = record {
  used_seats = used;
  max_users = limit;
  remaining_seats = elim limit [ none ↦ none | some m ↦ some (m - used) ];
  unlimited = is_none limit;
}

abbrev pub exceeds : ℕ → Option ℕ → Bool
exceeds wanted none = false
exceeds wanted (some m) = ltb m wanted

module _ (p : Platform) where
  unfoldable pub used_seats : String → Action ℕ
  used_seats tenant_id = do t ← now p; gets (λ s. used_seats_at t tenant_id s.db)

  unfoldable pub get_seat_usage : String → Action TenantSeatUsage
  get_seat_usage tenant_id = do
    limit ← gets (λ s. resolve_max_users tenant_id s.db)
    used ← used_seats tenant_id
    pure (to_seat_usage used limit)

  unfoldable pub assert_seats_available : String → ℕ → Action TenantSeatUsage
  assert_seats_available tenant_id seats = do
    limit ← gets (λ s. resolve_max_users tenant_id s.db)
    used ← used_seats tenant_id
    if exceeds (used + seats) limit then raise quota_exceeded else pure (to_seat_usage used limit)
