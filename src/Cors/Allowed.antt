-- ===== src/Cors/Allowed.antt =====
-- The origins that a configured list allows.
use cobo_iam_services.Base.{
  String, ◌≡◌, ◌≢◌, ◌↔◌, refl, true, false, not, ◌&&◌, Option, List, [], ◌∷◌, ◌==◌, In, here, there,
  arith, eq_iff, Bool-cases, inl, inr,
}
use cobo_iam_services.GoText.{is_blank, trim_space, split}
use cobo_iam_services.Cors.{
  Config, Url, normalize_origin, is_one_of, explicit_origins, build_allowed_origins, is_allowed,
}

-- An origin is configured where a filled part of the list is it, up to blanks and a last slash.
abbrev pub IsConfigured : Config → String → Type 0
IsConfigured cfg origin =
    (p : String) × In p (split 0x2C (trim_space cfg.cors_allowed_origins))
    × (is_blank p ≡ false)
    × (normalize_origin (trim_space p) ≡ normalize_origin origin)

later :
    (n q : String) (parts : List String)
    → ((p : String) × In p parts × (is_blank p ≡ false) × (normalize_origin (trim_space p) ≡ n))
    → (p : String) × In p (q ∷ parts) × (is_blank p ≡ false) × (normalize_origin (trim_space p) ≡ n)
later n q parts (p, at, filled, same) = (p, there at, filled, same)

explicit_sound :
    (n : String) (parts : List String)
    → is_one_of n (explicit_origins parts) ≡ true
    → (p : String) × In p parts × (is_blank p ≡ false) × (normalize_origin (trim_space p) ≡ n)
unfolding is_one_of explicit_origins
explicit_sound n [] h = cc
explicit_sound n (q ∷ parts) h = elim (Bool-cases (is_blank q)) [
  | inl blank ↦ later n q parts (explicit_sound n parts (rw blank at h))
  | inr filled ↦ elim (Bool-cases (normalize_origin (trim_space q) == n)) [
    | inl is ↦ (q, here, filled, (eq_iff (normalize_origin (trim_space q)) n).0 is)
    | inr isnt ↦ later n q parts (explicit_sound n parts (rw isnt at (rw filled at h)))
  ]
]

explicit_complete :
    (n p : String) (parts : List String)
    → In p parts
    → is_blank p ≡ false
    → normalize_origin (trim_space p) ≡ n
    → is_one_of n (explicit_origins parts) ≡ true
unfolding is_one_of explicit_origins
explicit_complete n p _ (here {xs = parts}) filled same =
    rw (filled, (eq_iff (normalize_origin (trim_space p)) n).1 same) refl
explicit_complete n p _ (there {y = q} {xs = parts} m) filled same =
    let rest = explicit_complete n p parts m filled same in
    elim (Bool-cases (is_blank q)) [
      | inl blank ↦ rw (blank) rest
      | inr full ↦ rw (full, rest) (ground arith)
    ]

configured_parts_lem :
    (parse_url : String → Option Url) (cfg : Config) (origin : String)
    → is_blank cfg.cors_allowed_origins ≡ false
    → is_allowed parse_url (build_allowed_origins cfg) origin ≡ (
        not (normalize_origin origin == "")
        && is_one_of
            (normalize_origin origin)
            (explicit_origins (split 0x2C (trim_space cfg.cors_allowed_origins))))
unfolding is_allowed build_allowed_origins
configured_parts_lem parse_url cfg origin filled =
    rw filled
      (elim (Bool-cases (normalize_origin origin == "")) [ inl e ↦ rw e refl | inr n ↦ rw n refl ])

-- Where origins are configured, those are allowed that a filled part of the list is, up to blanks
-- and a last slash, and nothing else; the empty origin never is.
pub is_allowed-IsConfigured_iff :
    (parse_url : String → Option Url) (cfg : Config) (origin : String)
    → is_blank cfg.cors_allowed_origins ≡ false
    → (is_allowed parse_url (build_allowed_origins cfg) origin ≡ true)
      ↔ ((normalize_origin origin ≢ "") × IsConfigured cfg origin)
is_allowed-IsConfigured_iff parse_url cfg origin filled =
    rw (configured_parts_lem parse_url cfg origin filled) (allows, allowed)
  where
    allows :
        (not (normalize_origin origin == "")
            && is_one_of
                (normalize_origin origin)
                (explicit_origins (split 0x2C (trim_space cfg.cors_allowed_origins))))
          ≡ true
        → (normalize_origin origin ≢ "") × IsConfigured cfg origin
    allows h = (
      λ e. ground (arith, h, (eq_iff (normalize_origin origin) "").1 e),
      explicit_sound (normalize_origin origin) (split 0x2C (trim_space cfg.cors_allowed_origins))
          (ground (arith, h)),
    )

    allowed :
        (normalize_origin origin ≢ "") × IsConfigured cfg origin
        → (not (normalize_origin origin == "")
            && is_one_of
                (normalize_origin origin)
                (explicit_origins (split 0x2C (trim_space cfg.cors_allowed_origins))))
          ≡ true
    allowed (named, (p, at, full, same)) =
        let one =
          explicit_complete (normalize_origin origin) p
            (split 0x2C (trim_space cfg.cors_allowed_origins)) at full same in
        ground (arith, one, named, eq_iff (normalize_origin origin) "")
