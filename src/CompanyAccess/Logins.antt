-- ===== src/CompanyAccess/Logins.antt =====
-- No login id leads to two users, whatever the administrators' calls.
pub mod Calls
pub mod Unique
use cobo_iam_services.Base.{
  ℕ, String, ◌≡◌, ◌≢◌, refl, ap, sym, ◌∙◌, subst, Bool, true, false, Option, none, some, List, [],
  ◌∷◌, ◌==◌, arith, eq_iff, Bool-cases, inl, inr,
}
use cobo_iam_services.Base.Results.{Result, ok, err, Exec, lift, wrap}
use cobo_iam_services.Base.Preserves.{Preserves, unless-Preserves, chain-Preserves, lift-Preserves}
use cobo_iam_services.GoText.{trim_space, to_lower, byte_length}
use cobo_iam_services.Dict.{
  Dict, lookup, insert, lookup-insert_cases, lookup-insert_same, lookup-insert_other,
}
use cobo_iam_services.CompanyAccess.{UserView, CreateUserOptions, CreateUserRequest}
use cobo_iam_services.CompanyAccess.Repository
use cobo_iam_services.CompanyAccess.Repository.{State, is_taken, store_user}

-- A stored user is found under its login id, and its key is no empty text.
unfoldable pub IsIndexed : State → Type 0
IsIndexed s =
    (user_id : String) (u : UserView)
    → lookup user_id s.users ≡ some u
    → (lookup u.login_id s.users_by_login_id ≡ some user_id) × (user_id ≢ "")

-- So two stored users with the same login id are the same.
pub IsIndexed-same :
    (s : State) (a b : String) (u v : UserView)
    → IsIndexed s
    → lookup a s.users ≡ some u
    → lookup b s.users ≡ some v
    → u.login_id ≡ v.login_id
    → a ≡ b
unfolding IsIndexed
IsIndexed-same s a b u v indexed at_a at_b same = some_inj (
    sym (indexed a u at_a).0 ∙ (ap (λ l. lookup l s.users_by_login_id) same ∙ (indexed b v at_b).0))
  where
    some_inj : {x y : String} → Path (Option String) (some x) (some y) → x ≡ y
    some_inj h = cc

not_taken :
    (login_id user_id : String) (s : State)
    → is_taken login_id s ≡ false
    → lookup login_id s.users_by_login_id ≡ some user_id
    → user_id ≡ ""
unfolding is_taken
not_taken login_id user_id s free found = ground (arith, found, free, eq_iff user_id "")

-- The user's entries after a user is stored.
stored-Index :
    (u : UserView) (s : State) (user_id : String) (v : UserView)
    → u.user_id ≢ ""
    → is_taken u.login_id s ≡ false
    → IsIndexed s
    → lookup user_id (insert u.user_id u s.users) ≡ some v
    → (lookup v.login_id (insert u.login_id u.user_id s.users_by_login_id) ≡ some user_id)
      × (user_id ≢ "")
unfolding IsIndexed
stored-Index u s user_id v named free indexed h =
    elim (lookup-insert_cases u.user_id user_id u v s.users h) [
      | inl (key, is) ↦ (
        subst
            (λ w.
              lookup w.login_id (insert u.login_id u.user_id s.users_by_login_id) ≡ some user_id)
            is (lookup-insert_same u.login_id u.user_id s.users_by_login_id ∙ ap some key),
        λ e. named (key ∙ e),
      )
      | inr before ↦
          let (found, filled) = indexed user_id v before in
          (
            lookup-insert_other u.login_id v.login_id u.user_id s.users_by_login_id (λ e. filled (
                  not_taken u.login_id user_id s free
                    (subst (λ l. lookup l s.users_by_login_id ≡ some user_id) (sym e) found)))
                ∙ found,
            filled,
          )
    ]

pub create_user-IsIndexed :
    (u : UserView) (hash : String) (opts : CreateUserOptions)
    → u.user_id ≢ ""
    → Preserves IsIndexed (Repository.create_user u hash opts)
unfolding Preserves Repository.create_user store_user IsIndexed
create_user-IsIndexed u hash opts named s indexed = elim (Bool-cases (is_taken u.login_id s)) [
  | inl taken ↦ rw (Repository.create_user, taken) indexed
  | inr free ↦ elim (Bool-cases (opts.company_id == "")) [
    | inl alone ↦
        rw (Repository.create_user, free, store_user, alone)
          λ k v h. stored-Index u s k v named free indexed h
    | inr member ↦
        rw (Repository.create_user, free, store_user, member)
          λ k v h. stored-Index u s k v named free indexed h
  ]
]
