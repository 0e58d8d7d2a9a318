-- ===== src/Domain/ChangeClassifier.antt =====
-- app/domain/change_classifier.py: the change of one component since the last release.
use lavs_core.Prelude.{
  ℕ, ◌≤◌, max, ◌≡◌, refl, Bool, true, false, not, Option, none, some, String, str_eq, eq_iff, arith,
  ◌==◌, if◌then◌else◌, ◌↔◌,
}
use lavs_core.Domain.BumpLevel.{BumpLevel, patch, minor, major, order}

-- `VersionTuple`
pub record VersionTuple : Type 0 where
  pub major : ℕ
  pub minor : ℕ
  pub patch : ℕ
  pub prerelease : Option String

-- `prerelease or None`: the empty label counts as none.
unfoldable pub or_none : Option String → Option String
or_none none = none
or_none (some label) = if str_eq label "" then none else some label

-- `==` on optional labels
unfoldable pub same_label : Option String → Option String → Bool
same_label none none = true
same_label (some a) (some b) = str_eq a b
same_label _ _ = false

unfoldable pub classify_change : Option VersionTuple → VersionTuple → BumpLevel
unfolding or_none same_label
classify_change none current = minor
classify_change (some prior) current =
    if not (prior.major == current.major)
    then major
    else if not (prior.minor == current.minor)
    then minor
    else if not (prior.patch == current.patch)
    then patch
    else if not (same_label (or_none prior.prerelease) (or_none current.prerelease))
    then patch
    else BumpLevel.none

pub same_label_iff : (a b : Option String) → (same_label a b ≡ true) ↔ (a ≡ b)
unfolding same_label
same_label_iff none none = (λ _. refl, λ _. refl)
same_label_iff none (some b) = (λ h. cc, λ h. cc)
same_label_iff (some a) none = (λ h. cc, λ h. cc)
same_label_iff (some a) (some b) = ground (arith, eq_iff a b)

-- Two versions are classified as unchanged exactly when the three numbers agree and the labels
-- agree, an empty label counting as none.
pub classify_change-none_iff :
    (prior current : VersionTuple)
    → (classify_change (some prior) current ≡ BumpLevel.none)
      ↔ (prior.major ≡ current.major)
        × (prior.minor ≡ current.minor)
        × (prior.patch ≡ current.patch)
        × (or_none prior.prerelease ≡ or_none current.prerelease)
unfolding classify_change
classify_change-none_iff prior current =
    ground (arith, same_label_iff (or_none prior.prerelease) (or_none current.prerelease))

-- A change and the change back have the same level.
pub classify_change_symmetric :
    (a b : VersionTuple) → classify_change (some a) b ≡ classify_change (some b) a
unfolding classify_change
classify_change_symmetric a b = ground (
  arith,
  same_label_iff (or_none a.prerelease) (or_none b.prerelease),
  same_label_iff (or_none b.prerelease) (or_none a.prerelease),
)

-- A change in two steps is no larger than the larger of the steps.
pub classify_change_triangle :
    (a b c : VersionTuple)
    → order (classify_change (some a) c)
      ≤ max (order (classify_change (some a) b)) (order (classify_change (some b) c))
unfolding classify_change order
classify_change_triangle a b c = ground (
  arith,
  same_label_iff (or_none a.prerelease) (or_none b.prerelease),
  same_label_iff (or_none b.prerelease) (or_none c.prerelease),
  same_label_iff (or_none a.prerelease) (or_none c.prerelease),
)
