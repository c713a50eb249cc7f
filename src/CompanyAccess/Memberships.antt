-- ===== src/CompanyAccess/Memberships.antt =====
-- internal/companyaccess/infra/inmemory/membership_query.go: the queries on memberships that login
-- and the choice of a company make, over four maps.
mod Tests
use cobo_iam_services.Base.{
  String, Bool, true, arith, ◌≡◌, subst, ap, none, some, List, [], ◌∷◌, ◌==◌, ◌&&◌, if◌then◌else◌,
  In, here, there, inl, inr, Bool-cases, eq_iff,
}
use cobo_iam_services.Base.Results.{new_http_error, membership_not_found, Result, ok, err, Exec}
use cobo_iam_services.GoText.{equal_fold}
use cobo_iam_services.Dict.{Dict, get_or}
use cobo_iam_services.Iam.{MembershipView}

pub record DepartmentView : Type 0 where
  pub department_id : String
  pub department_name : String

pub record MembershipQueryService : Type 0 where
  pub by_user : Dict (List MembershipView)
  pub roles : Dict (List String)
  pub deps : Dict (List DepartmentView)
  pub titles : Dict (List String)

abbrev membership : String → String → String → String → MembershipView
membership membership_id user_id company_id company_name = record {
  membership_id = membership_id;
  user_id = user_id;
  company_id = company_id;
  company_name = company_name;
  status = "active";
}

abbrev department : String → String → DepartmentView
department id name = record { department_id = id; department_name = name }

abbrev pub new_membership_query_service : MembershipQueryService
new_membership_query_service = record {
  by_user =
      (
        "u_123",
        membership "m_001" "u_123" "c_001" "Company X"
            ∷ membership "m_002" "u_123" "c_002" "Company Y"
            ∷ [],
      )
      ∷ ("u_single", membership "m_010" "u_single" "c_010" "Solo Company" ∷ [])
      ∷ ("u_admin", membership "m_admin_001" "u_admin" "c_001" "Company X" ∷ [])
      ∷ ("u_cms", membership "m_cms_001" "u_cms" "c_001" "Company X" ∷ [])
      ∷ [];
  roles =
      ("m_001", "department_staff" ∷ "disclosure_approver" ∷ [])
      ∷ ("m_admin_001", "company_admin" ∷ "disclosure_approver" ∷ [])
      ∷ ("m_cms_001", "cms_operator" ∷ "company_admin" ∷ "disclosure_approver" ∷ [])
      ∷ [];
  deps =
      ("m_001", department "d_legal" "Legal" ∷ department "d_ir" "IR" ∷ [])
      ∷ ("m_admin_001", department "d_legal" "Legal" ∷ [])
      ∷ ("m_cms_001", department "d_legal" "Legal" ∷ [])
      ∷ [];
  titles =
      ("m_001", "Dau moi CBTT" ∷ [])
      ∷ ("m_admin_001", "Enterprise Admin" ∷ [])
      ∷ ("m_cms_001", "CMS Operator" ∷ [])
      ∷ [];
}

unfoldable pub get_memberships_by_user : String → Exec MembershipQueryService (List MembershipView)
get_memberships_by_user user_id s = (ok (get_or [] user_id s.by_user), s)

unfoldable pub find_active : String → List MembershipView → Result MembershipView
find_active company_id [] = err (new_http_error 403 membership_not_found "membership not found")
find_active company_id (m ∷ ms) =
    let rest = find_active company_id ms in
    if m.company_id == company_id && equal_fold m.status "active" then ok m else rest

unfoldable pub get_active_membership : String → String → Exec MembershipQueryService MembershipView
unfolding find_active
get_active_membership user_id company_id s =
    (find_active company_id (get_or [] user_id s.by_user), s)

unfoldable pub get_membership_roles : String → Exec MembershipQueryService (List String)
get_membership_roles membership_id s = (ok (get_or [] membership_id s.roles), s)

unfoldable pub get_membership_departments :
    String → Exec MembershipQueryService (List DepartmentView)
get_membership_departments membership_id s = (ok (get_or [] membership_id s.deps), s)

unfoldable pub get_membership_titles : String → Exec MembershipQueryService (List String)
get_membership_titles membership_id s = (ok (get_or [] membership_id s.titles), s)

ok_inj : {m n : MembershipView} → Path (Result MembershipView) (ok m) (ok n) → m ≡ n
ok_inj h = cc

find_active-Is :
    (company_id : String) (m : MembershipView) (ms : List MembershipView)
    → find_active company_id ms ≡ ok m
    → In m ms × (m.company_id ≡ company_id) × (equal_fold m.status "active" ≡ true)
unfolding find_active
find_active-Is company_id m [] h = cc
find_active-Is company_id m (n ∷ ms) h =
    elim (Bool-cases (n.company_id == company_id && equal_fold n.status "active")) [
      | inl is ↦
          let same : n ≡ m = ok_inj (rw is at h) in
          subst
            (λ (k : MembershipView).
              In k (n ∷ ms) × (k.company_id ≡ company_id) × (equal_fold k.status "active" ≡ true))
            same (here, (eq_iff n.company_id company_id).0 (ground (arith, is)), ground (arith, is))
      | inr isnt ↦
          let (at, own, active) = find_active-Is company_id m ms (rw isnt at h) in
          (there at, own, active)
    ]

-- An active membership that is found is one of the user's, in the company, with the status
-- `active` in some case.
get_active_membership-Is :
    (user_id company_id : String) (m : MembershipView) (s s' : MembershipQueryService)
    → get_active_membership user_id company_id s ≡ (ok m, s')
    → In m (get_or [] user_id s.by_user)
      × (m.company_id ≡ company_id)
      × (equal_fold m.status "active" ≡ true)
unfolding get_active_membership
get_active_membership-Is user_id company_id m s s' h =
    find_active-Is company_id m (get_or [] user_id s.by_user) (ap (λ r. r.0) h)
