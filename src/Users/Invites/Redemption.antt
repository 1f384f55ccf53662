-- ===== src/Users/Invites/Redemption.antt =====
-- What a redemption of an invite shows and changes.
use flexi.Prelude.{
  ℕ, suc, ◌<◌, String, ◌==◌, ==_refl, same, ◌≡◌, refl, sym, ap, ◌∙◌, Bool, true, false, ◌&&◌,
  Option, some, arith, eq_iff, if◌then◌else◌, ltb, is_some, Option-cases, inl, inr,
}
use flexi.Exec.{ok, err, invite_token_expired, ◌>>=◌}
use flexi.Store.{TenantUser, TenantUserStatus, UserInvite, UserInviteStatus, World}
use flexi.Store.Rows.{find_first, update_many}
use flexi.Store.Rows.Laws.{find_first-update_many, find_first_sound}
use flexi.Store.Platform.{Platform}
use flexi.Store.Tables.{
  transaction, update_user_invites, update_auth_account, update_tenant_user, now, draw,
  record_audit,
}
use flexi.Auth.Email.{trim_text}
use flexi.Auth.Guard.{text_of}
use flexi.Auth.Service.{assert_password_meets_policy}
use flexi.Users.Quota.{is_pending, is_invited}
use flexi.Users.Invites.{
  RedeemedInvite, is_redeemable, is_other_pending, use_at, retire_at, role_to_grant, claim_member,
  redeem_found, redeem_token, redeem_invite,
}

-- The invite that a redemption at `t` claims.
abbrev pub is_claimed : ℕ → UserInvite → UserInvite → Bool
is_claimed t invite i = i.id == invite.id && is_pending i.status && ltb t i.expires_at

pending-status : (x : UserInviteStatus) → is_pending x ≡ true → x ≡ UserInviteStatus.pending
pending-status UserInviteStatus.pending h = refl
pending-status UserInviteStatus.used h = absurd (ground arith)
pending-status UserInviteStatus.revoked h = absurd (ground arith)
pending-status UserInviteStatus.expired h = absurd (ground arith)

invited-status : (x : TenantUserStatus) → is_invited x ≡ true → x ≡ TenantUserStatus.pending_invite
invited-status TenantUserStatus.pending_invite h = refl
invited-status TenantUserStatus.active h = absurd (ground arith)
invited-status TenantUserStatus.pending_setup h = absurd (ground arith)
invited-status TenantUserStatus.pending_approval h = absurd (ground arith)
invited-status TenantUserStatus.locked h = absurd (ground arith)
invited-status TenantUserStatus.deleted h = absurd (ground arith)

module _ (p : Platform) where
  claim_member-ok :
      (invite : UserInvite) (u : TenantUser) (name hash : String) (t : ℕ) (s : World)
      (r : RedeemedInvite)
      → (claim_member p invite u name hash t s).0 ≡ ok r
      → ((claim_member p invite u name hash t s).1.user_invites
          ≡ update_many
              (is_other_pending u.id invite.id)
              (retire_at t)
              (update_many (is_claimed t invite) (use_at t) s.user_invites))
        × (r.user_id ≡ u.id)
        × (r.tenant_id ≡ invite.tenant_id)
  unfolding claim_member ◌>>=◌ update_user_invites update_auth_account role_to_grant
      update_tenant_user
  claim_member-ok invite u name hash t s r h = ground arith

  -- A redemption of a token whose invite is no longer pending is refused.
  redeem_token-spent :
      (token name hash : String) (s : World) (invite : UserInvite)
      → find_first (λ i. i.token_hash == p.sha256 token) s.user_invites ≡ some invite
      → is_pending invite.status ≡ false
      → (redeem_token p token name hash s).0 ≡ err invite_token_expired
  unfolding redeem_token redeem_found transaction ◌>>=◌ now
  redeem_token-spent token name hash s invite found spent = ground arith

  abbrev pub member_of : UserInvite → World → Option TenantUser
  member_of invite s =
      find_first
        (λ u.
          u.id == text_of invite.tenant_user_id
          && u.tenant_id == invite.tenant_id
          && is_invited u.status)
        s.tenant_users

  -- What a redemption that returned shows: a pending, unexpired invite with the token's hash, of an
  -- active tenant, for a member that is still invited; and what it makes of the invites.
  pub record Redeemed (token : String) (s s' : World) (r : RedeemedInvite) : Type 0 where
    pub invite : UserInvite
    pub member : TenantUser
    pub found : find_first (λ i. i.token_hash == p.sha256 token) s.user_invites ≡ some invite
    pub pending : is_pending invite.status ≡ true
    pub unexpired : p.clock s.ticks < invite.expires_at
    pub tenant_active :
        is_some (find_first (λ x. x.id == invite.tenant_id && x.status == "ACTIVE") s.tenants)
        ≡ true
    pub invited : member_of invite s ≡ some member
    pub pending_status : invite.status ≡ UserInviteStatus.pending
    pub invited_status : member.status ≡ TenantUserStatus.pending_invite
    pub named_member : member.id ≡ text_of invite.tenant_user_id
    pub in_tenant : member.tenant_id ≡ invite.tenant_id
    pub of_member : r.user_id ≡ member.id
    pub of_tenant : r.tenant_id ≡ invite.tenant_id
    pub invites :
        s'.user_invites
        ≡ update_many (is_other_pending member.id invite.id) (retire_at (p.clock s.ticks)) (
            update_many
              (is_claimed (p.clock s.ticks) invite)
              (use_at (p.clock s.ticks))
              s.user_invites)

  redeem_found-ok :
      (invite : UserInvite) (name hash : String) (t : ℕ) (s : World) (r : RedeemedInvite)
      → (redeem_found p invite name hash t s).0 ≡ ok r
      → (is_redeemable t invite ≡ true)
        × (is_some (find_first (λ x. x.id == invite.tenant_id && x.status == "ACTIVE") s.tenants)
            ≡ true)
        × ((u : TenantUser) × (member_of invite s ≡ some u)
            × (redeem_found p invite name hash t s ≡ claim_member p invite u name hash t s))
  unfolding redeem_found ◌>>=◌
  redeem_found-ok invite name hash t s r h = elim (Option-cases (member_of invite s)) [
    | inl missing ↦ absurd (ground arith)
    | inr (u, e) ↦ (ground arith, ground arith, (u, e, ground arith))
  ]

  redeem_token-found :
      (token name hash : String) (s : World) (r : RedeemedInvite)
      → (redeem_token p token name hash s).0 ≡ ok r
      → (invite : UserInvite) × (find_first (λ i. i.token_hash == p.sha256 token) s.user_invites
          ≡ some invite)
        × ((redeem_found p invite name hash (p.clock s.ticks) (record s { ticks = suc s.ticks })).0
            ≡ ok r)
        × ((redeem_token p token name hash s).1
            ≡ (redeem_found p invite name hash
                (p.clock s.ticks)
                (record s { ticks = suc s.ticks })).1)
  unfolding redeem_token transaction ◌>>=◌ now
  redeem_token-found token name hash s r h =
      elim (Option-cases (find_first (λ i. i.token_hash == p.sha256 token) s.user_invites)) [
        | inl missing ↦ absurd (ground arith)
        | inr (invite, e) ↦ (invite, e, ground arith, ground arith)
      ]

  redeem_token-Redeemed :
      (token name hash : String) (s : World) (r : RedeemedInvite)
      → (redeem_token p token name hash s).0 ≡ ok r
      → Redeemed token s (redeem_token p token name hash s).1 r
  redeem_token-Redeemed token name hash s r h =
      let (invite, found, redeemed, end) = redeem_token-found token name hash s r h in
      let s₁ = record s { ticks = suc s.ticks } in
      let t = p.clock s.ticks in
      let (redeemable, active, (u, invited, claimed)) =
        redeem_found-ok invite name hash t s₁ r redeemed in
      let (invites, of_member, of_tenant) =
        claim_member-ok invite u name hash t s₁ r (ap (λ x. x.0) (sym claimed) ∙ redeemed) in
      let passes =
        find_first_sound
          (λ v.
            v.id == text_of invite.tenant_user_id
            && v.tenant_id == invite.tenant_id
            && is_invited v.status)
          s.tenant_users u invited in
      record {
        pending_status = pending-status invite.status (ground arith);
        invited_status = invited-status u.status (ground arith);
        named_member = ground (arith, eq_iff u.id (text_of invite.tenant_user_id));
        in_tenant = ground (arith, eq_iff u.tenant_id invite.tenant_id);
        invite = invite;
        member = u;
        found = found;
        pending = ground arith;
        unexpired = ground arith;
        tenant_active = active;
        invited = invited;
        of_member = of_member;
        of_tenant = of_tenant;
        invites = rw (end, claimed) invites;
      }

  redeem_invite-token :
      (token name password confirm : String) (s : World) (r : RedeemedInvite)
      → (redeem_invite p token name password confirm s).0 ≡ ok r
      → ((redeem_token p token
            (trim_text name)
            (p.bcrypt_hash s.draws password)
            (record s { draws = suc s.draws })).0
          ≡ ok r)
        × ((redeem_invite p token name password confirm s).1.user_invites
            ≡ (redeem_token p token
                (trim_text name)
                (p.bcrypt_hash s.draws password)
                (record s { draws = suc s.draws })).1.user_invites)
  unfolding redeem_invite assert_password_meets_policy ◌>>=◌ draw record_audit
  redeem_invite-token token name password confirm s r h = ground arith

  -- A redemption that returned had a pending, unexpired invite with the token's hash, of an active
  -- tenant, for a member that was still invited; the invite is used, and the other pending invites of
  -- the member are withdrawn.
  pub redeem_invite-Redeemed :
      (token name password confirm : String) (s : World) (r : RedeemedInvite)
      → (redeem_invite p token name password confirm s).0 ≡ ok r
      → Redeemed token s (redeem_invite p token name password confirm s).1 r
  redeem_invite-Redeemed token name password confirm s r h =
      let (redeemed, same) = redeem_invite-token token name password confirm s r h in
      let d =
        redeem_token-Redeemed token (trim_text name) (p.bcrypt_hash s.draws password)
          (record s { draws = suc s.draws }) r redeemed in
      record {
        invite = d.invite;
        member = d.member;
        found = d.found;
        pending = d.pending;
        unexpired = d.unexpired;
        tenant_active = d.tenant_active;
        invited = d.invited;
        pending_status = d.pending_status;
        invited_status = d.invited_status;
        named_member = d.named_member;
        in_tenant = d.in_tenant;
        of_member = d.of_member;
        of_tenant = d.of_tenant;
        invites = same ∙ d.invites;
      }

  used_after :
      (token : String) (s s' : World) (r : RedeemedInvite)
      → (d : Redeemed token s s' r)
      → find_first (λ i. i.token_hash == p.sha256 token) s'.user_invites
        ≡ some (use_at (p.clock s.ticks) d.invite)
  used_after token s s' r d =
      let t = p.clock s.ticks in
      let by_hash = λ (i : UserInvite). i.token_hash == p.sha256 token in
      let claimed = update_many (is_claimed t d.invite) (use_at t) s.user_invites in
      let first =
        find_first-update_many by_hash (is_claimed t d.invite) (use_at t) s.user_invites d.invite
          (λ i. refl) d.found in
      let hit : is_claimed t d.invite d.invite ≡ true =
        ground (arith, ==_refl d.invite.id, d.pending, d.unexpired) in
      let used = first ∙ ap (λ b. some (if b then use_at t d.invite else d.invite)) hit in
      let second =
        find_first-update_many by_hash (is_other_pending d.member.id d.invite.id) (retire_at t)
          claimed (use_at t d.invite) (λ i. refl) used in
      let miss : is_other_pending d.member.id d.invite.id (use_at t d.invite) ≡ false =
        ground (arith, ==_refl d.invite.id) in
      rw d.invites (
        second
        ∙ ap (λ b. some (if b then retire_at t (use_at t d.invite) else use_at t d.invite)) miss)

  -- An invite is redeemed once: after a redemption that returned, the same token is refused, whatever
  -- name and strong password it is presented with.
  pub redeem_invite-redeem_token :
      (token name password confirm name' hash' : String) (s : World) (r : RedeemedInvite)
      → (redeem_invite p token name password confirm s).0 ≡ ok r
      → (redeem_token p token name' hash' (redeem_invite p token name password confirm s).1).0
        ≡ err invite_token_expired
  redeem_invite-redeem_token token name password confirm name' hash' s r h =
      let d = redeem_invite-Redeemed token name password confirm s r h in
      let s' = (redeem_invite p token name password confirm s).1 in
      redeem_token-spent token name' hash' s' (use_at (p.clock s.ticks) d.invite)
        (used_after token s s' r d) refl
