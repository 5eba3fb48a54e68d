-- ===== src/Management/Principals.antt =====
-- packages/management-api/src/auth/authorization.ts.
use api_gateway_platform.Common.{
  String, Bool, true, false, ◌&&◌, ◌||◌, Option, none, some, List, any, ◌==◌,
}

pub data AdminRole : Type 0 where
  platform_admin organization_admin viewer : AdminRole

pub record AdminMembershipRecord : Type 0 where
  pub id : String
  pub role : AdminRole
  pub organization_id : Option String
  pub active : Bool

pub data PrincipalContext : Type 0 where
  management lab : PrincipalContext

pub record AdminPrincipal : Type 0 where
  pub issuer : String
  pub subject : String
  pub memberships : List AdminMembershipRecord
  pub context : Option PrincipalContext

abbrev pub is_platform_role : AdminRole → Bool
is_platform_role platform_admin = true
is_platform_role _ = false

abbrev pub is_manager_role : AdminRole → Bool
is_manager_role organization_admin = true
is_manager_role _ = false

-- organizationAdmin or viewer
abbrev pub is_reader_role : AdminRole → Bool
is_reader_role platform_admin = false
is_reader_role organization_admin = true
is_reader_role viewer = true

abbrev pub is_for : String → AdminMembershipRecord → Bool
is_for organization_id m = elim m.organization_id [ none ↦ false | some id ↦ id == organization_id ]

unfoldable pub is_platform_admin : AdminPrincipal → Bool
is_platform_admin principal = any (λ m. m.active && is_platform_role m.role) principal.memberships

unfoldable pub can_read_organization : AdminPrincipal → String → Bool
unfolding is_platform_admin
can_read_organization principal organization_id =
    is_platform_admin principal
    || any (λ m. m.active && (is_for organization_id m && is_reader_role m.role))
        principal.memberships

unfoldable pub can_manage_organization : AdminPrincipal → String → Bool
unfolding is_platform_admin
can_manage_organization principal organization_id =
    is_platform_admin principal
    || any (λ m. m.active && (is_for organization_id m && is_manager_role m.role))
        principal.memberships
