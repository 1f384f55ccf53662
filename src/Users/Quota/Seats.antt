-- ===== src/Users/Quota/Seats.antt =====
-- What the seat check of a tenant guarantees.
use flexi.Prelude.{
  ℕ, ◌+◌, ◌-◌, ◌≤◌, ◌<◌, String, ◌≡◌, ◌⊎◌, inl, inr, false, some, arith, ltb, Bool-cases,
}
use flexi.Exec.{ok, err, quota_exceeded, ◌>>=◌}
use flexi.Store.{World}
use flexi.Store.Platform.{Platform}
use flexi.Store.Tables.{now}
use flexi.Users.Quota.{
  used_seats_at, resolve_max_users, to_seat_usage, used_seats, assert_seats_available,
}

module _ (p : Platform) where
  -- The check of a tenant with a limit `m` raises exactly where the seats in use and the seats wanted
  -- exceed `m`; where it returns, it answers the seats in use and those that remain, whose sum is the
  -- limit, and the wanted seats are among the remaining ones.
  pub assert_seats_available_limited :
      (tenant_id : String) (seats m : ℕ) (s : World)
      → resolve_max_users tenant_id s.db ≡ some m
      → (((assert_seats_available p tenant_id seats s).0 ≡ err quota_exceeded)
          × (m < used_seats_at (p.clock s.ticks) tenant_id s.db + seats))
        ⊎ ((remaining : ℕ) × ((assert_seats_available p tenant_id seats s).0
              ≡ ok (record {
                used_seats = used_seats_at (p.clock s.ticks) tenant_id s.db;
                max_users = some m;
                remaining_seats = some remaining;
                unlimited = false;
              }))
            × (used_seats_at (p.clock s.ticks) tenant_id s.db + remaining ≡ m)
            × (seats ≤ remaining))
  unfolding assert_seats_available used_seats to_seat_usage ◌>>=◌ now
  assert_seats_available_limited tenant_id seats m s h =
      let used = used_seats_at (p.clock s.ticks) tenant_id s.db in
      elim (Bool-cases (ltb m (used + seats))) [
        | inl over ↦ inl (ground arith, ground arith)
        | inr within ↦ inr (m - used, ground arith, ground arith, ground arith)
      ]
