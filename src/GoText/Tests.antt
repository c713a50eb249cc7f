-- ===== src/GoText/Tests.antt =====
-- The text functions at concrete texts.
use cobo_iam_services.Base.{◌≡◌, refl, true, [], ◌∷◌}
use cobo_iam_services.GoText.{
  is_space, to_lower, equal_fold, trim_space, split, contains, has_prefix, join,
}
use cobo_iam_services.GoText.Laws.{trim_space_idem}

lower_ascii : to_lower "Disclosure.APPROVE" ≡ "disclosure.approve"
unfolding to_lower
lower_ascii = refl

lower_vietnamese : to_lower "ĐỊNH KỲ" ≡ "định kỳ"
unfolding to_lower
lower_vietnamese = refl

folds : equal_fold "ACTIVE" "active" ≡ true
unfolding equal_fold
folds = refl

trims : trim_space "  a b \u{a0}" ≡ "a b"
unfolding is_space trim_space
trims = refl

splits : split b'|' "a|| b" ≡ "a" ∷ "" ∷ " b" ∷ []
unfolding split
splits = refl

finds : contains "disclosure.approve" "approve" ≡ true
finds = refl

prefixed : has_prefix "mock-reset-1" "mock-reset-" ≡ true
prefixed = refl

joins : join ", " ("a" ∷ "b" ∷ []) ≡ "a, b"
unfolding join
joins = refl

trim_space_idem_example : trim_space (trim_space " a ") ≡ trim_space " a "
trim_space_idem_example = trim_space_idem " a "
