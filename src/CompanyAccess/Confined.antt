-- ===== src/CompanyAccess/Confined.antt =====
-- An administrator who is no web administrator creates users for the own company only.
use cobo_iam_services.Base.{
  ◌+◌, String, ◌≡◌, ◌⊎◌, inl, inr, refl, ap, sym, ◌∙◌, subst, false, some, ◌==◌, ltb, arith, eq_iff,
  Bool-cases,
}
use cobo_iam_services.Base.Results.{Result, Error, ok, err, lift, wrap}
use cobo_iam_services.Base.Steps.{step-ok, guard-ok}
use cobo_iam_services.GoText.{trim_space, to_lower, byte_length}
use cobo_iam_services.Dict.{lookup, lookup-insert_cases}
use cobo_iam_services.Iam.{MembershipView}
use cobo_iam_services.CompanyAccess.{UserView, CreateUserOptions, CreateUserRequest}
use cobo_iam_services.CompanyAccess.Repository
use cobo_iam_services.CompanyAccess.Repository.{State, is_taken, store_user, first_membership}
use cobo_iam_services.CompanyAccess.Admin
use cobo_iam_services.CompanyAccess.Admin.{
  Ports, authorize, has_permission, is_elsewhere, check_user, add_user, store_new_user, new_user,
  membership_uuid, target_company, target_status, options, next_uuid,
}

-- The memberships after a user is stored are those before, and one of the user in a company.
abbrev pub Joins : String → String → State → State → Type 0
Joins company_id user_id s s' =
    (k : String) (m : MembershipView)
    → lookup k s'.memberships ≡ some m
    → (lookup k s.memberships ≡ some m) ⊎ ((m.company_id ≡ company_id) × (m.user_id ≡ user_id))

ok_err {ℓ} : {A : Type ℓ} {a : A} {e : Error} → Path (Result A) (err e) (ok a) → ⊥
ok_err h = cc

ok_inj {ℓ} : {A : Type ℓ} {a b : A} → Path (Result A) (ok a) (ok b) → a ≡ b
ok_inj h = cc

pair_inj {ℓ κ} :
    {A : Type ℓ} {S : Type κ} {a b : A} {s t : S} → Path (A × S) (a, s) (b, t) → (a ≡ b) × (s ≡ t)
pair_inj h = (ap (λ r. r.0) h, ap (λ r. r.1) h)

store_user-Joins :
    (u v : UserView) (hash : String) (opts : CreateUserOptions) (s s' : State)
    → store_user u hash opts s ≡ (ok v, s')
    → (v.user_id ≡ u.user_id) × Joins opts.company_id u.user_id s s'
unfolding first_membership store_user
store_user-Joins u v hash opts s s' h = elim (Bool-cases (opts.company_id == "")) [
  | inl alone ↦
      let (is, next) = pair_inj (rw (store_user, alone) at h) in
      (
        ap (λ (w : UserView). w.user_id) (sym (ok_inj is)),
        λ k m found. inl (subst (λ t. lookup k t.memberships ≡ some m) (sym next) found),
      )
  | inr member ↦
      let (is, next) = pair_inj (rw (store_user, member) at h) in
      (
        ap (λ (w : UserView). w.user_id) (sym (ok_inj is)),
        λ k m found.
            elim (lookup-insert_cases opts.membership_id k (first_membership u opts) m s.memberships
              (subst (λ t. lookup k t.memberships ≡ some m) (sym next) found)) [
                | inl (key, same) ↦ inr (
                  ap (λ (n : MembershipView). n.company_id) (sym same),
                  ap (λ (n : MembershipView). n.user_id) (sym same),
                )
                | inr before ↦ inl before
              ],
      )
]

create_user-Joins :
    (u v : UserView) (hash : String) (opts : CreateUserOptions) (s s' : State)
    → Repository.create_user u hash opts s ≡ (ok v, s')
    → (v.user_id ≡ u.user_id) × Joins opts.company_id u.user_id s s'
unfolding Repository.create_user
create_user-Joins u v hash opts s s' h = elim (Bool-cases (is_taken u.login_id s)) [
  | inl taken ↦ elim (ok_err (ap (λ r. r.0) (rw (Repository.create_user, taken) at h))) [ ]
  | inr free ↦ store_user-Joins u v hash opts s s' (rw (Repository.create_user, free) at h)
]

module _ (ports : Ports) where
  membership_uuid-memberships :
      (company_id : String) (s : State)
      → (membership_uuid ports company_id s).1.memberships ≡ s.memberships
  unfolding membership_uuid
  membership_uuid-memberships company_id s = elim (Bool-cases (company_id == "")) [
    | inl e ↦ rw (membership_uuid, e) refl
    | inr e ↦ rw (membership_uuid, e) refl
  ]

  not_elsewhere :
      (req : CreateUserRequest)
      → is_elsewhere ports false req ≡ false
      → (trim_space req.company_id ≡ "") ⊎ (trim_space req.company_id ≡ req.subject.company_id)
  unfolding is_elsewhere
  not_elsewhere req h = ground (
    arith,
    h,
    eq_iff (trim_space req.company_id) "",
    eq_iff (trim_space req.company_id) req.subject.company_id,
  )

  add_user-Joins :
      (req : CreateUserRequest) (s s' : State) (u : UserView)
      → add_user ports false req s ≡ (ok u, s')
      → Joins req.subject.company_id u.user_id s s'
  unfolding add_user store_new_user target_company new_user
  add_user-Joins req s s' u h =
      let company_id = req.subject.company_id in
      let (hash, hashed, stored) =
        step-ok (lift (wrap "hash password" (ports.hash_password req.password))) _ s s' u h in
      let (user_id, given, named) =
        step-ok (next_uuid ports) (store_new_user ports false req hash) s s' u stored in
      let next : State = record s { next_id = s.next_id + 1 } in
      let drawn = (membership_uuid ports company_id next).1 in
      let (membership_id, given_too, created) =
        step-ok (membership_uuid ports company_id)
          (λ id.
            Repository.create_user (new_user ports req user_id) hash
              (options ports company_id (target_status ports false req) id))
          next s' u named in
      let (same, joins) =
        create_user-Joins (new_user ports req user_id) u hash
          (options ports company_id (target_status ports false req) membership_id) drawn s'
          created in
      λ k m found. elim (joins k m found) [
        | inl before ↦ inl (
            subst (λ ms. lookup k ms ≡ some m) (membership_uuid-memberships company_id next) before)
        | inr (company, user) ↦ inr (company, user ∙ sym same)
      ]

  -- Where a caller without the permission `rbac.manage` has created a user, the request names no
  -- company or the caller's own, the password has eight bytes at least, and the only new membership,
  -- if any, is that of the new user in the caller's company.
  pub create_user-Joins_own :
      (req : CreateUserRequest) (s s' : State) (u : UserView)
      → has_permission ports req.subject "rbac.manage" ≡ ok false
      → Admin.create_user ports req s ≡ (ok u, s')
      → ((trim_space req.company_id ≡ "") ⊎ (trim_space req.company_id ≡ req.subject.company_id))
        × (ltb (byte_length req.password) 8 ≡ false)
        × Joins req.subject.company_id u.user_id s s'
  unfolding Admin.create_user check_user
  create_user-Joins_own req s s' u modest h =
      let (granted, allowed, checked) =
        step-ok
          (lift (authorize ports req.subject "admin.membership.create" req.subject.company_id)) _ s
          s' u h in
      let (web, permitted, tested) =
        step-ok (lift (has_permission ports req.subject "rbac.manage")) _ s s' u checked in
      let is : web ≡ false = ok_inj (sym (ap (λ r. r.0) permitted) ∙ modest) in
      let test : check_user ports false req s ≡ (ok u, s') =
        subst (λ b. check_user ports b req s ≡ (ok u, s')) is tested in
      let (here, named) = guard-ok (is_elsewhere ports false req) _ _ s s' u test in
      let (login, titled) = guard-ok (to_lower (trim_space req.login_id) == "") _ _ s s' u named in
      let (full, long) = guard-ok (trim_space req.full_name == "") _ _ s s' u titled in
      let (password, added) = guard-ok (ltb (byte_length req.password) 8) _ _ s s' u long in
      (not_elsewhere req here, password, add_user-Joins req s s' u added)
