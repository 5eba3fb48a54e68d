-- ===== src/Examples/Issuing.antt =====
-- The theorems on applications at the sample tables.
use mathlib.Core.List.{Memᴰ}
use api_gateway_platform.Applications.Coverage.{IsCovered, create_managed_credential-Covers}
use api_gateway_platform.Common.{none, List, false, ◌++◌, ◌≡◌, refl, some, [], ◌∷◌, includes}
use api_gateway_platform.Common.Chains.{◌>>=◌, ◌>>◌, guard, require}
use api_gateway_platform.Database.Tables.{
  is_revoked, DeveloperApp, CredentialProductGrant, app_key, revoked, playground, AppCredential,
  Tables, find_key, credential_key,
}
use api_gateway_platform.Applications.Types.{
  CreateManagedCredentialInput, Generated, UpdateDeveloperApplicationInput,
  CloneManagedCredentialInput, validate_status_transition, product_ids, record_audit,
}
use api_gateway_platform.Applications.Updates.{update_developer_application}
use api_gateway_platform.Applications.Grants.{
  create_managed_credential, check_products, replace_managed_credential_grants, find_products,
  grant_products, check_product,
}
use api_gateway_platform.Applications.Clones.{clone_managed_credential, resolve_clone_expiration}
use api_gateway_platform.Applications.Kept.{KeepsRevoked}
use api_gateway_platform.Applications.Revocation.{
  application_updated, no_step, and_then, Steps-KeepsRevoked,
}
use api_gateway_platform.Applications.Narrowing.{IsNarrower, clone_managed_credential-IsNarrower}
use api_gateway_platform.Applications.Replacement.{
  is_granted, replace_managed_credential_grants-exact,
}
use api_gateway_platform.Examples.Managing.{
  tables, app, credential, actor, row_of, state_of, replacing,
}

abbrev closing : UpdateDeveloperApplicationInput
closing = record { app_id = "app"; name = some " Renamed "; status = some revoked; actor = actor }

abbrev closed : Tables
closed = state_of (update_developer_application closing tables)

Steps-KeepsRevoked_example : KeepsRevoked tables closed
unfolding update_developer_application validate_status_transition record_audit ◌>>=◌ ◌>>◌ guard
    require
Steps-KeepsRevoked_example = Steps-KeepsRevoked tables closed (
    and_then tables tables closed (no_step tables) (
      application_updated closing tables closed
        (row_of app (update_developer_application closing tables)) refl))

abbrev generated : Generated
generated = record {
  id = "c9";
  consumer_key = "ck_9";
  consumer_secret = "cs_9";
  consumer_secret_hash = "hash9";
}

abbrev cloning : CloneManagedCredentialInput
cloning = record {
  app_id = "app";
  source_credential_id = "c1";
  purpose = some playground;
  expires_at = some 60000;
  actor = actor;
}

abbrev clone : AppCredential
clone = record (credential "c9") {
  consumer_key = "ck_9";
  consumer_secret_hash = "hash9";
  purpose = playground;
  issued_at = 5;
  expires_at = some 60000;
}

abbrev cloned : Tables
cloned = state_of (clone_managed_credential generated 5 cloning tables)

clone_managed_credential-IsNarrower_example :
    (source : AppCredential) × (find_key credential_key "c1" tables.credentials ≡ some source)
    × IsNarrower 5 source clone tables.grants cloned.grants
unfolding clone_managed_credential resolve_clone_expiration record_audit ◌>>=◌ ◌>>◌ guard require
clone_managed_credential-IsNarrower_example =
    clone_managed_credential-IsNarrower generated 5 cloning tables cloned clone "cs_9" refl refl

abbrev replaced : Tables
replaced = state_of (replace_managed_credential_grants (replacing ("read" ∷ [])) tables)

replace_managed_credential_grants-exact_example :
    is_granted "c1" "p1" replaced.grants
    ≡ includes (product_ids (replacing ("read" ∷ [])).products) "p1"
unfolding replace_managed_credential_grants find_products grant_products check_product record_audit
    ◌>>=◌ ◌>>◌ guard require
replace_managed_credential_grants-exact_example =
    replace_managed_credential_grants-exact (replacing ("read" ∷ [])) tables replaced
      (row_of [] (replace_managed_credential_grants (replacing ("read" ∷ [])) tables)) "p1" refl

abbrev creating : CreateManagedCredentialInput
creating = record {
  app_id = "app";
  expires_at = none;
  purpose = none;
  products =
      record { product_id = "p1"; scopes = none }
      ∷ record { product_id = "p2"; scopes = some ("read" ∷ "read" ∷ []) }
      ∷ [];
  actor = actor;
}

abbrev enlarged : Tables
enlarged = state_of (create_managed_credential generated 5 creating tables)

create_managed_credential-Covers_example :
    (found : DeveloperApp) × (find_key app_key "app" tables.apps ≡ some found)
    × (is_revoked found.status ≡ false)
    × (grants : List CredentialProductGrant) × (enlarged.grants ≡ tables.grants ++ grants)
    × ((g : CredentialProductGrant)
        → Memᴰ g grants
        → IsCovered tables.products found.organization_id g)
unfolding create_managed_credential find_products check_products check_product record_audit ◌>>=◌
    ◌>>◌ guard require
create_managed_credential-Covers_example =
    create_managed_credential-Covers generated 5 creating tables enlarged
      (row_of (clone, "") (create_managed_credential generated 5 creating tables)) refl
