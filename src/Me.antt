-- ===== src/Me.antt =====
-- src/fx_deal_manager/api/routes/me.py: the profile of the user who asks.
pub mod Profile
use fx_deal_manager.Prelude.{
  String, Bool, true, false, Option, none, some, List, [], ◌∷◌, is_blank, same, if◌then◌else◌,
}
use fx_deal_manager.Domain.{UserClaims}

-- `UserPreference`, without its time stamp, which no answer has.
pub record UserPreference : Type 0 where
  pub user_id : String
  pub email : String
  pub phone : Option String
  pub department : Option String

-- `MeProfileUpdateRequest`
pub record MeProfileUpdateRequest : Type 0 where
  pub phone : Option String
  pub department : Option String

-- `MeProfileResponse`
pub record MeProfileResponse : Type 0 where
  pub user_id : String
  pub email : String
  pub first_name : String
  pub last_name : String
  pub role : String
  pub phone : Option String
  pub department : String

-- `_default_department`
abbrev pub default_department : String → String
default_department role =
    if same role "TRADER"
    then "FX-деск"
    else if same role "POSITIONER"
    then "Казначейство"
    else if same role "AUDITOR"
    then "Внутренний аудит"
    else if same role "ADMIN"
    then "Администрирование"
    else "FX"

abbrev pub or_default : String → Option String → String
or_default role none = default_department role
or_default role (some department) =
    if is_blank (some department) then default_department role else department

abbrev phone_of : Option UserPreference → Option String
phone_of none = none
phone_of (some pref) = pref.phone

abbrev department_of : Option UserPreference → Option String
department_of none = none
department_of (some pref) = pref.department

-- `_profile`
unfoldable pub profile : UserClaims → Option UserPreference → MeProfileResponse
profile user pref = record {
  user_id = user.user_id;
  email = user.email;
  first_name = user.first_name;
  last_name = user.last_name;
  role = user.role;
  phone = phone_of pref;
  department = or_default user.role (department_of pref);
}

-- `session.get(UserPreference, user_id)`
unfoldable pub preference : String → List UserPreference → Option UserPreference
preference user_id [] = none
preference user_id (row ∷ rows) =
    let rest = preference user_id rows in if same row.user_id user_id then some row else rest

-- `get_me`
unfoldable pub get_me : List UserPreference → UserClaims → MeProfileResponse
get_me rows user = profile user (preference user.user_id rows)

-- `if value is not None: attribute = value`
abbrev pub overridden : Option String → Option String → Option String
overridden none old = old
overridden (some new) old = some new

-- The assignments of `update_me`.
unfoldable pub assigned : MeProfileUpdateRequest → UserClaims → UserPreference → UserPreference
assigned payload user pref = record pref {
  email = user.email;
  phone = overridden payload.phone pref.phone;
  department = overridden payload.department pref.department;
}

abbrev pub new_preference : UserClaims → UserPreference
new_preference user = record {
  user_id = user.user_id;
  email = user.email;
  phone = none;
  department = none;
}

-- The table after the commit of `update_me`: the user's row changed, or a new row.
unfoldable pub saved :
    MeProfileUpdateRequest → UserClaims → List UserPreference → List UserPreference
saved payload user [] = assigned payload user (new_preference user) ∷ []
saved payload user (row ∷ rows) =
    let rest = saved payload user rows in
    if same row.user_id user.user_id then assigned payload user row ∷ rows else row ∷ rest

-- `update_me`: what it answers, after the refresh, and the table, where the database takes the commit.
unfoldable pub update_me :
    MeProfileUpdateRequest
    → UserClaims
    → List UserPreference
    → MeProfileResponse × List UserPreference
update_me payload user rows =
    let rows' = saved payload user rows in (profile user (preference user.user_id rows'), rows')
