-- ===== src/Iam/Recovery/Reset.antt =====
-- What a password reset that succeeds has done.
use cobo_iam_services.Base.{
  ℕ, ◌≤◌, ◌≡◌, subst, sym, ap, String, false, ◌||◌, some, arith, ltb, inl, inr, Bool-cases,
}
use cobo_iam_services.Base.Results.{Result, Error, ok, err, Exec, wrapping}
use cobo_iam_services.Base.Steps.{step-ok, guard-ok, wrapping-ok}
use cobo_iam_services.GoText.{is_blank, trim_space, byte_length}
use cobo_iam_services.Iam.Recovery.{
  Setting, AuthRecoveryRepository, reset_password, reset_with, set_password, change_password,
  change_hash, save_hash, end_sessions, too_short, consumed, whose, reset_invalid,
}

not_ltb : (n m : ℕ) → ltb n m ≡ false → m ≤ n
not_ltb n m h = ground (arith, h)

err-ok : {e : Error} {u : String} → Path (Result String) (err e) (ok u) → ⊥
err-ok h = cc

ok_inj : {u v : String} → ok u ≡ ok v → u ≡ v
ok_inj h = cc

whose-ok :
    (e : Error) (r : Result String) (u : String)
    → whose e r ≡ ok u
    → (r ≡ ok u) × (is_blank u ≡ false)
whose-ok e (err f) u h = elim (err-ok h) [ ]
whose-ok e (ok v) u h = elim (Bool-cases (is_blank v)) [
  | inl y ↦ elim (err-ok (rw y at h)) [ ]
  | inr n ↦
      let same : v ≡ u = ok_inj (rw n at h) in (ap ok same, subst (λ x. is_blank x ≡ false) same n)
]

consumed-ok :
    {S : Type 0} (e : Error) (m : Exec S String) (s s' : S) (u : String)
    → consumed e m s ≡ (ok u, s')
    → (m s ≡ (ok u, (m s).1)) × (is_blank u ≡ false)
consumed-ok e m s s' u h =
    let (r, n) = whose-ok e (m s).0 u (ap (λ x. x.0) h) in (ap (λ x. (x, (m s).1)) r, n)

module _ {S : Type 0} (d : Setting S) (r : AuthRecoveryRepository S) where
  -- The token was consumed for a user, the password is long enough and its hash was stored, and the
  -- last step was the call that revokes all sessions of that user.
  unfoldable pub Resets : String → String → S → Type 0
  Resets token new_password s' =
      (user_id : String) × (hash : String) × (consumed_at : ℕ) × (changed_at : ℕ) × (s₁ : S)
      × (s₂ : S) × (s₃ : S) × (s₄ : S) × (r.consume_password_reset_token (d.hash (trim_space token))
            consumed_at s₁
          ≡ (ok user_id, s₂))
      × (is_blank user_id ≡ false)
      × (12 ≤ byte_length (trim_space new_password))
      × (d.bcrypt new_password s₂ ≡ (ok hash, s₃))
      × (r.update_password_hash user_id hash changed_at (d.now s₃).1 ≡ (ok tt, s₄))
      × (s' ≡ (d.sessions.revoke_all_by_user user_id "password_reset" s₄).1)

  with-Resets :
      (token new_password : String) (s s' : S)
      → reset_with d (some r) token new_password s ≡ (ok tt, s')
      → Resets token new_password s'
  unfolding Resets
  with-Resets token new_password s s' h =
      let (now, read, h₁) = step-ok d.now _ s s' tt h in
      let consume = r.consume_password_reset_token (d.hash (trim_space token)) now in
      let s₁ = (d.now s).1 in
      let (user_id, used, h₂) =
        step-ok (consumed reset_invalid consume) (set_password d r new_password) s₁ s' tt h₁ in
      let s₂ = (consume s₁).1 in
      let (long, h₃) =
        guard-ok (ltb (byte_length (trim_space new_password)) 12) too_short
          (change_password d r new_password user_id) s₂ s' tt h₂ in
      let (hash, hashed, h₄) =
        step-ok (wrapping "hash password" (d.bcrypt new_password)) (change_hash d r user_id) s₂ s'
          tt h₃ in
      let s₃ = (d.bcrypt new_password s₂).1 in
      let (at, read₂, h₅) = step-ok d.now (save_hash d r user_id hash) s₃ s' tt h₄ in
      let update = r.update_password_hash user_id hash at in
      let (u, stored, h₆) =
        step-ok (wrapping "update password hash" update) (λ _. end_sessions d user_id) (d.now s₃).1
          s' tt h₅ in
      let (found, named) = consumed-ok reset_invalid consume s₁ s₂ user_id used in
      (
        user_id,
        hash,
        now,
        at,
        s₁,
        s₂,
        s₃,
        (update (d.now s₃).1).1,
        found,
        named,
        not_ltb (byte_length (trim_space new_password)) 12 long,
        wrapping-ok "hash password" (d.bcrypt new_password) s₂ s₃ hash hashed,
        wrapping-ok "update password hash" update (d.now s₃).1 _ tt stored,
        ap (λ x. x.1) (sym h₆),
      )

-- A reset of a password that succeeds has consumed the token for a user and stored a hash of the new
-- password, which has twelve bytes at least. As its last step it asked the session store to revoke all
-- sessions of that user; whatever the store answers, the reset has succeeded. This is over any
-- repository for recovery and any session store.
pub reset_password-Resets :
    {S : Type 0} (d : Setting S) (r : AuthRecoveryRepository S) (token new_password : String)
    (s s' : S)
    → d.recovery ≡ some r
    → reset_password d token new_password s ≡ (ok tt, s')
    → Resets d r token new_password s'
unfolding reset_password
reset_password-Resets d r token new_password s s' wired h =
    let (given, h₁) =
      guard-ok (is_blank token || is_blank new_password) _
        (reset_with d d.recovery token new_password) s s' tt h in
    with-Resets d r token new_password s s' (rw wired at h₁)
