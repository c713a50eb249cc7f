-- ===== src/CompanyAccess/Memberships/Tests.antt =====
-- Queries on the bootstrap table.
use cobo_iam_services.Base.{◌≡◌, refl, [], ◌∷◌}
use cobo_iam_services.Base.Results.{new_http_error, membership_not_found, ok, err}
use cobo_iam_services.CompanyAccess.Memberships.{
  new_membership_query_service, get_active_membership, get_membership_roles,
}

no_foreign_company :
    (get_active_membership "u_single" "c_001" new_membership_query_service).0
    ≡ err (new_http_error 403 membership_not_found "membership not found")
unfolding get_active_membership cobo_iam_services.Dict.lookup
no_foreign_company = refl

roles_of_admin :
    (get_membership_roles "m_admin_001" new_membership_query_service).0
    ≡ ok ("company_admin" ∷ "disclosure_approver" ∷ [])
unfolding get_membership_roles cobo_iam_services.Dict.lookup
roles_of_admin = refl
