-- ===== src/GroundApi/Bearers.antt =====
-- services/ground_api.py, `_bearer_identity`: whose token a bearer has shown.
use cislunar_ground_platform.Base.{
  Bool, true, false, ◌&&◌, Option, none, some, [], ◌∷◌, ◌++◌, Bytes, bytes_eq→eq, ◌==◌, ==_iff,
  Result, ok, err, >>=-eq-ok, or_raise, or_raise-eq-ok, ok-injective, ◌≡◌, sym, ap, ◌⊎◌, inl, inr,
  Bool-cases, if◌then◌else◌,
}
use cislunar_ground_platform.Std.Text.{codes, without_prefix, compare_digest, is_ascii}
use cislunar_ground_platform.Telemetry.Settings.{GroundSettings}
use cislunar_ground_platform.GroundApi.Requests.{
  ApiError, type_error, http, Identity, operator, administrator, administrator_identity,
  bearer_identity,
}

-- The header is `Bearer ` and the token of the operator or of the administrator.
abbrev pub IsBearer : Option Bytes → GroundSettings → Identity → Type 0
IsBearer authorization settings identity =
    (token : Bytes) × (authorization ≡ some (codes "Bearer " ++ token))
    × (((identity ≡ operator) × (token ≡ settings.operator_token))
        ⊎ ((identity ≡ administrator) × (token ≡ settings.admin_token)))

compare_digest-same : (a b : Bytes) → compare_digest a b ≡ some true → a ≡ b
unfolding compare_digest
compare_digest-same a b h = elim (Bool-cases (is_ascii a && is_ascii b)) [
  | inl e ↦ bytes_eq→eq a b (cc (rw e at h))
  | inr e ↦ absurd (cc (rw e at h))
]

without_prefix-some : (p cs t : Bytes) → without_prefix p cs ≡ some t → cs ≡ p ++ t
unfolding without_prefix
without_prefix-some [] cs t h = cc h
without_prefix-some (c ∷ p) [] t h = absurd (cc h)
without_prefix-some (c ∷ p) (d ∷ cs) t h = elim (Bool-cases (d == c)) [
  | inl e ↦ cc ((==_iff d c).0 e, without_prefix-some p cs t (rw e at h))
  | inr e ↦ absurd (cc (rw e at h))
]

as_administrator :
    (same : Bool) (token : Bytes) (settings : GroundSettings) (identity : Identity)
    → compare_digest token settings.admin_token ≡ some same
    → ◌≡◌ {A = Result ApiError Identity}
        (if same then ok administrator else err (http 401))
        (ok identity)
    → (identity ≡ administrator) × (token ≡ settings.admin_token)
as_administrator true token settings identity compared h =
    (sym (ok-injective h), compare_digest-same token settings.admin_token compared)
as_administrator false token settings identity compared h = absurd cc

administrator_identity-ok :
    (token : Bytes) (settings : GroundSettings) (identity : Identity)
    → administrator_identity token settings ≡ ok identity
    → (identity ≡ administrator) × (token ≡ settings.admin_token)
unfolding administrator_identity
administrator_identity-ok token settings identity h =
    let (is_admin, compared, h₁) =
      >>=-eq-ok (or_raise (compare_digest token settings.admin_token) type_error) _ h in
    as_administrator is_admin token settings identity (or_raise-eq-ok _ _ compared) h₁

as_bearer :
    (same : Bool) (token : Bytes) (settings : GroundSettings) (identity : Identity)
    → compare_digest token settings.operator_token ≡ some same
    → (if same then ok operator else administrator_identity token settings) ≡ ok identity
    → ((identity ≡ operator) × (token ≡ settings.operator_token))
      ⊎ ((identity ≡ administrator) × (token ≡ settings.admin_token))
as_bearer true token settings identity compared h =
    inl (sym (ok-injective h), compare_digest-same token settings.operator_token compared)
as_bearer false token settings identity compared h =
    inr (administrator_identity-ok token settings identity h)

pub bearer_identity-ok :
    (authorization : Option Bytes) (settings : GroundSettings) (identity : Identity)
    → bearer_identity authorization settings ≡ ok identity
    → IsBearer authorization settings identity
unfolding bearer_identity
bearer_identity-ok none settings identity h = absurd cc
bearer_identity-ok (some authorization) settings identity h =
    let (token, shown, h₁) =
      >>=-eq-ok (or_raise (without_prefix (codes "Bearer ") authorization) (http 401)) _ h in
    let (is_operator, compared, h₂) =
      >>=-eq-ok (or_raise (compare_digest token settings.operator_token) type_error) _ h₁ in
    (
      token,
      ap some
          (without_prefix-some (codes "Bearer ") authorization token (or_raise-eq-ok _ _ shown)),
      as_bearer is_operator token settings identity (or_raise-eq-ok _ _ compared) h₂,
    )
