-- ===== src/Me/Profile.antt =====
-- A profile that is read back after it was written.
use fx_deal_manager.Prelude.{String, ◌≡◌, ◌≢◌, ◌∙◌, ap, Option, none, some, List, [], ◌∷◌, arith}
use fx_deal_manager.Domain.{UserClaims}
use fx_deal_manager.Me.{
  UserPreference, MeProfileUpdateRequest, or_default, profile, preference, get_me, overridden,
  assigned, new_preference, saved, update_me,
}

abbrev or_new : UserClaims → Option UserPreference → UserPreference
or_new user none = new_preference user
or_new user (some row) = row

-- The row that is found after a write.
preference-saved :
    (payload : MeProfileUpdateRequest) (user : UserClaims) (rows : List UserPreference)
    → preference user.user_id (saved payload user rows)
      ≡ some (assigned payload user (or_new user (preference user.user_id rows)))
unfolding preference saved assigned
preference-saved payload user [] = ground arith
preference-saved payload user (row ∷ rows) = ground (arith, preference-saved payload user rows)

preference_other :
    (payload : MeProfileUpdateRequest) (user : UserClaims) (rows : List UserPreference)
    (name : String)
    → name ≢ user.user_id
    → preference name (saved payload user rows) ≡ preference name rows
unfolding preference saved assigned
preference_other payload user [] name differ = ground arith
preference_other payload user (row ∷ rows) name differ =
    ground (arith, preference_other payload user rows name differ)

-- A department that is given, or else the one that the profile shows.
abbrev pub shown : String → Option String → String → String
shown role none old = old
shown role (some new) old = or_default role (some new)

profile-assigned :
    (payload : MeProfileUpdateRequest) (user : UserClaims) (row : Option UserPreference)
    → profile user (some (assigned payload user (or_new user row))) ≡ record (profile user row) {
      phone = overridden payload.phone (profile user row).phone;
      department = shown user.role payload.department (profile user row).department;
    }
unfolding profile assigned
profile-assigned payload user row = ground arith

-- A profile that is changed is read back with the change: the answer of `update_me`, and every
-- `get_me` after it, shows what it showed before, with the phone that is given, and with the
-- department that is given, or the default one where that is empty; and nobody else's profile is
-- another one for it.
pub get_me-update_me :
    (payload : MeProfileUpdateRequest) (user other : UserClaims) (rows : List UserPreference)
    → other.user_id ≢ user.user_id
    → (let before = get_me rows user in
        let after = record before {
          phone = overridden payload.phone before.phone;
          department = shown user.role payload.department before.department;
        } in
        let (answer, rows') = update_me payload user rows in
        (answer ≡ after) × (get_me rows' user ≡ after) × (get_me rows' other ≡ get_me rows other))
unfolding get_me update_me
get_me-update_me payload user other rows differ =
    let after =
      ap (profile user) (preference-saved payload user rows)
      ∙ profile-assigned payload user (preference user.user_id rows) in
    (after, after, ap (profile other) (preference_other payload user rows other.user_id differ))
