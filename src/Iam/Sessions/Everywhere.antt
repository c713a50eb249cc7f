-- ===== src/Iam/Sessions/Everywhere.antt =====
-- Revoking all sessions of a user, as the list of sessions shows it.
use cobo_iam_services.Base.{
  ℕ, String, ◌≡◌, ◌≢◌, refl, sym, subst, ◌∙◌, ap, true, false, List, [], ◌∷◌, map, ◌==◌, eq_iff,
  eqb, arith, ◌⊎◌, inl, inr, Bool-cases, In, here, there,
}
use cobo_iam_services.Base.Results.{ok}
use cobo_iam_services.Dict.{Dict}
use cobo_iam_services.Iam.{SessionState}
use cobo_iam_services.Iam.Sessions.{
  Store, revoke_all_by_user, revoke_loop, revoke_of, revoked_cell, list_loop, list_by_user, assign,
}

ok_inj : {l m : List SessionState} → ok l ≡ ok m → l ≡ m
ok_inj h = cc

module _ (user_id : String) where
  -- A session of the user's may be revoked, one of another is left alone.
  Marks : SessionState → SessionState → Type 0
  Marks c c' = (c' ≡ c) ⊎ ((c.user_id == user_id ≡ true) × (c' ≡ revoked_cell c))

  Marks-trans : (a b c : SessionState) → Marks a b → Marks b c → Marks a c
  unfolding Marks
  Marks-trans a b c (inl p) (inl q) = inl (q ∙ p)
  Marks-trans a b c (inl p) (inr (mine, q)) =
      inr (subst (λ x. x.user_id == user_id ≡ true) p mine, q ∙ ap revoked_cell p)
  Marks-trans a b c (inr (mine, p)) (inl q) = inr (mine, q ∙ p)
  Marks-trans a b c (inr (mine, p)) (inr (_, q)) = inr (mine, q ∙ ap revoked_cell p)

  assign-Marks :
      (p q : ℕ) (cells : ℕ → SessionState)
      → (cells p).user_id == user_id ≡ true
      → Marks (cells q) (assign p (revoked_cell (cells p)) cells q)
  unfolding Marks
  assign-Marks p q cells mine = elim (Bool-cases (eqb p q)) [
    | inl e ↦
        let at : p ≡ q = ground (arith, e) in
        rw e (
          inr (
            subst (λ x. (cells x).user_id == user_id ≡ true) at mine,
            ap (λ x. revoked_cell (cells x)) at,
          ))
    | inr n ↦ rw n (inl refl)
  ]

  revoke_of-Marks :
      (p q : ℕ) (cells : ℕ → SessionState) → Marks (cells q) (revoke_of user_id p cells q)
  revoke_of-Marks p q cells = elim (Bool-cases ((cells p).user_id == user_id)) [
    | inl mine ↦ rw mine (assign-Marks p q cells mine)
    | inr other ↦ rw other (unfold Marks in inl refl)
  ]

  loop-Marks :
      (m : Dict ℕ) (q : ℕ) (cells : ℕ → SessionState)
      → Marks (cells q) (revoke_loop user_id m cells q)
  unfolding revoke_loop
  loop-Marks [] q cells = unfold Marks in inl refl
  loop-Marks ((id, p) ∷ m) q cells =
      Marks-trans _ _ _ (revoke_of-Marks p q cells) (loop-Marks m q (revoke_of user_id p cells))

  -- Once marked, a cell is the revoked one; marking it again changes nothing.
  Marks-revoked : (c c' : SessionState) → Marks (revoked_cell c) c' → c' ≡ revoked_cell c
  unfolding Marks
  Marks-revoked c c' (inl p) = p
  Marks-revoked c c' (inr (mine, p)) = p

  Marks-revoke : (c c' : SessionState) → Marks c c' → revoked_cell c' ≡ revoked_cell c
  unfolding Marks
  Marks-revoke c c' (inl p) = ap revoked_cell p
  Marks-revoke c c' (inr (mine, p)) = ap revoked_cell p

  Marks-user : (c c' : SessionState) → Marks c c' → c'.user_id ≡ c.user_id
  unfolding Marks
  Marks-user c c' (inl p) = ap (λ x. x.user_id) p
  Marks-user c c' (inr (mine, p)) = ap (λ x. x.user_id) p

  own-revoked :
      (p : ℕ) (cells : ℕ → SessionState)
      → (cells p).user_id == user_id ≡ true
      → revoke_of user_id p cells p ≡ revoked_cell (cells p)
  own-revoked p cells mine = rw mine (ground arith)

  loop-revokes :
      (m : Dict ℕ) (id : String) (p : ℕ) (cells : ℕ → SessionState)
      → In (id, p) m
      → (cells p).user_id == user_id ≡ true
      → revoke_loop user_id m cells p ≡ revoked_cell (cells p)
  unfolding revoke_loop
  loop-revokes [] id p cells i mine = elim i [ ]
  loop-revokes (_ ∷ m) id p cells here mine = Marks-revoked (cells p) _ (
      subst (λ c. Marks c (revoke_loop user_id m (revoke_of user_id p cells) p))
        (own-revoked p cells mine) (loop-Marks m p (revoke_of user_id p cells)))
  loop-revokes ((_, q) ∷ m) id p cells (there i) mine =
      let marks = revoke_of-Marks q p cells in
      loop-revokes m id p (revoke_of user_id q cells) i
        (subst (λ u. u == user_id ≡ true) (sym (Marks-user _ _ marks)) mine)
      ∙ Marks-revoke _ _ marks

  list-revoked :
      (n m : Dict ℕ) (cells : ℕ → SessionState)
      → ((x : String × ℕ) → In x n → In x m)
      → list_loop user_id n (revoke_loop user_id m cells)
        ≡ map revoked_cell (list_loop user_id n cells)
  unfolding list_loop
  list-revoked [] m cells within = refl
  list-revoked ((id, p) ∷ n) m cells within =
      let rest = list-revoked n m cells (λ x i. within x (there i)) in
      let user = Marks-user _ _ (loop-Marks m p cells) in
      elim (Bool-cases ((cells p).user_id == user_id)) [
        | inl mine ↦
            rw (user, mine, rest, loop-revokes m id p cells (within (id, p) here) mine) refl
        | inr other ↦ rw (user, other, rest) refl
      ]

  Marks-other :
      (other : String) (c c' : SessionState)
      → Marks c c'
      → other ≢ user_id
      → (c'.user_id == other) ≡ true
      → c' ≡ c
  unfolding Marks
  Marks-other other c c' (inl p) differ e = p
  Marks-other other c c' (inr (mine, p)) differ e =
      elim (differ (sym ((eq_iff _ _).0 e) ∙ (ap (λ x. x.user_id) p ∙ (eq_iff _ _).0 mine))) [ ]

  list-others :
      (other : String) (n m : Dict ℕ) (cells : ℕ → SessionState)
      → other ≢ user_id
      → list_loop other n (revoke_loop user_id m cells) ≡ list_loop other n cells
  unfolding list_loop
  list-others other [] m cells differ = refl
  list-others other ((id, p) ∷ n) m cells differ =
      let rest = list-others other n m cells differ in
      let marks = loop-Marks m p cells in
      let user = Marks-user _ _ marks in
      elim (Bool-cases ((revoke_loop user_id m cells p).user_id == other)) [
        | inl mine ↦ let same = Marks-other other _ _ marks differ mine in rw (same, rest) refl
        | inr no₁ ↦
            let no₂ : (cells p).user_id == other ≡ false =
              subst (λ u. u == other ≡ false) user no₁ in
            rw (no₁, no₂, rest) refl
      ]

-- After all sessions of a user are revoked, the list of the user's sessions is the one before with
-- each session revoked, and nothing else of it changed; the lists of all other users are the same.
pub revoke_all-lists :
    (user_id reason : String) (s : Store) (before : List SessionState)
    → list_by_user user_id s ≡ (ok before, s)
    → (list_by_user user_id (revoke_all_by_user user_id reason s).1
        ≡ (ok (map revoked_cell before), (revoke_all_by_user user_id reason s).1))
      × ((other : String)
          → other ≢ user_id
          → (list_by_user other (revoke_all_by_user user_id reason s).1).0
            ≡ (list_by_user other s).0)
unfolding list_by_user revoke_all_by_user
revoke_all-lists user_id reason s before h = (
  ap (λ l. (ok l, (revoke_all_by_user user_id reason s).1))
      (list-revoked user_id s.by_session_id s.by_session_id s.cells (λ x i. i)
        ∙ ap (map revoked_cell) (ok_inj (ap (λ x. x.0) h))),
  λ other differ. ap ok (list-others user_id other s.by_session_id s.by_session_id s.cells differ),
)
