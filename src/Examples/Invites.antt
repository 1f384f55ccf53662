-- ===== src/Examples/Invites.antt =====
-- Runs of the redemption of an invite.
use flexi.Prelude.{◌≡◌, refl, true, false, none, some, [], ◌∷◌}
use flexi.Exec.{ok, err, invite_token_expired, ◌>>=◌}
use flexi.Store.{TenantUserStatus, UserInviteStatus, UserInvite, World}
use flexi.Store.Rows.{find_first, count, update_many}
use flexi.Store.Tables.{
  transaction, update_user_invites, update_auth_account, update_tenant_user, now, draw,
  record_audit,
}
use flexi.Auth.Password.{validate_password_strength}
use flexi.Auth.Duration.{is_space}
use flexi.Auth.Email.{trim_text, trim_text_start, trim_text_end, push_kept}
use flexi.Auth.Service.{assert_password_meets_policy}
use flexi.Users.Invites.{
  RedeemedInvite, role_to_grant, claim_member, redeem_found, redeem_token, redeem_invite,
}
use flexi.Users.Invites.Redemption.{Redeemed, redeem_invite-Redeemed, redeem_invite-redeem_token}
use flexi.Examples.{platform, world}

abbrev invite : UserInvite
invite = record {
  id = "n1";
  tenant_id = "acme";
  email = "carl@acme.test";
  role_id = some "r1";
  tenant_user_id = some "m3";
  token_hash = "#welcome";
  expires_at = 90000;
  status = UserInviteStatus.pending;
  used_at = none;
  revoked_at = none;
  invited_by_id = some "m1";
  created_at = 500;
}

abbrev invited_world : World
invited_world = record world {
  db = record world.db {
    auth_accounts =
        record {
          id = "carl";
          email = "carl@acme.test";
          password_hash = "$unusable";
          is_active = true;
          must_change_password = false;
        }
        ∷ world.auth_accounts;
    tenant_users =
        record {
          id = "m3";
          tenant_id = "acme";
          auth_account_id = "carl";
          name = none;
          status = TenantUserStatus.pending_invite;
          is_active = false;
          roles = [];
        }
        ∷ world.tenant_users;
    user_invites = invite ∷ [];
  };
}

abbrev redeemed : RedeemedInvite
redeemed = record {
  tenant_id = "acme";
  user_id = "m3";
  auth_account_id = "carl";
  email = "carl@acme.test";
  invite_id = "n1";
}

redeems :
    (redeem_invite platform "welcome" " Carl " "Carls-secret-7!" "Carls-secret-7!" invited_world).0
    ≡ ok redeemed
unfolding redeem_invite redeem_token redeem_found claim_member role_to_grant
    assert_password_meets_policy validate_password_strength transaction ◌>>=◌ now draw record_audit
    update_user_invites update_auth_account update_tenant_user find_first count update_many
    trim_text trim_text_start trim_text_end push_kept is_space
redeems = refl

redeem_invite-Redeemed_example :
    Redeemed platform "welcome" invited_world
      (redeem_invite platform "welcome" " Carl " "Carls-secret-7!" "Carls-secret-7!"
        invited_world).1
      redeemed
redeem_invite-Redeemed_example =
    redeem_invite-Redeemed platform "welcome" " Carl " "Carls-secret-7!" "Carls-secret-7!"
      invited_world redeemed redeems

redeem_invite-redeem_token_example :
    (redeem_token platform "welcome" "Mallory" "$other"
      (redeem_invite platform "welcome" " Carl " "Carls-secret-7!" "Carls-secret-7!"
        invited_world).1).0
    ≡ err invite_token_expired
redeem_invite-redeem_token_example =
    redeem_invite-redeem_token platform "welcome" " Carl " "Carls-secret-7!" "Carls-secret-7!"
      "Mallory" "$other" invited_world redeemed redeems
