-- ===== src/Certificate/Planning.antt =====
-- internal/domain/certificate.go: the `Plan…Issuance` functions, against the conditions on the request and
-- on the issuer.
use cert_me.Prelude.{Any, List, [], ap, arith, false, inl, inr, true, ◌↔◌, ◌∷◌, ◌≡◌, ◌⊎◌}
use cert_me.Authority.{
  Authority, AuthorityKind, IssuanceIntent, IssuerContext, bootstrap_tls, can_issue, leaf,
  required_issuer_kind, subordinate_ca,
}
use cert_me.Authority.Issuing.{Issues, MayIssue, can_issue_iff}
use cert_me.Certificate.{San, is_dns_or_ip}
use cert_me.Certificate.Issuance.{
  IssuancePlan, IssuanceRequest, check_request_profile, context_of, has_server_san, none_given,
  plan_bootstrap_issuance, plan_issuance, plan_issuance_in, plan_of, plan_subordinate_ca_issuance,
  requires_server_san, validate_for, validate_profile, validate_sans_for_profile,
}
use cert_me.Errors.{ok}
use cert_me.Prelude.Int.{◌<ℤ◌}
use cert_me.Prelude.Text.{is_empty}
use cert_me.Values.Instant.{Instant, contains_at, covers, is_zero_window}
use cert_me.Values.Instant.Coverage.{covers_iff}
use cert_me.Values.Keys.{validate_key_algorithm}

-- The certificate is for a host: `s` is the name or the address of one.
abbrev pub NamesHost : San → Type 0
NamesHost s = is_dns_or_ip s.kind ≡ true

-- The profile and the alternative names that a path wants of a request.
abbrev pub Profiled : IssuanceIntent → IssuanceRequest → Type 0
Profiled subordinate_ca r = (r.profile ≡ none_given) × (r.sans ≡ [])
Profiled _ r =
    (validate_profile r.profile ≡ ok tt)
    × ((requires_server_san r.profile ≡ false) ⊎ Any NamesHost r.sans)

pub record Requests (r : IssuanceRequest) (intent : IssuanceIntent) : Type 0 where
  pub named : is_empty r.subject.common_name ≡ false
  pub profiled : Profiled intent r
  pub algorithm : validate_key_algorithm r.key_algorithm ≡ ok tt
  pub dated : is_zero_window r.window ≡ false

has_server_san_iff : (sans : List San) → (has_server_san sans ≡ true) ↔ Any NamesHost sans
unfolding has_server_san
has_server_san_iff [] = ground arith
has_server_san_iff (s ∷ sans) = let rest = has_server_san_iff sans in ground arith

check_request_profile_iff :
    (r : IssuanceRequest) (intent : IssuanceIntent)
    → (check_request_profile r intent ≡ ok tt) ↔ Profiled intent r
unfolding check_request_profile validate_sans_for_profile validate_profile requires_server_san
check_request_profile_iff r intent =
    let hosts = has_server_san_iff r.sans in
    elim intent [
      | subordinate_ca ↦ ground arith
      | leaf ↦ ground arith
      | bootstrap_tls ↦ ground arith
      | IssuanceIntent.unlisted t ↦ ground arith
    ]

validate_for_iff :
    (r : IssuanceRequest) (intent : IssuanceIntent) {k : AuthorityKind}
    → required_issuer_kind intent ≡ ok k
    → (validate_for r intent ≡ ok tt) ↔ Requests r intent
unfolding validate_for
validate_for_iff r intent listed =
    let (profile_of, profile_ok) = check_request_profile_iff r intent in
    (
      λ h. record {
        named = ground arith;
        profiled = profile_of (ground arith);
        algorithm = ground arith;
        dated = ground arith;
      },
      λ q. ground (arith, profile_ok q.profiled, q.named, q.algorithm, q.dated),
    )

-- The issuer's context, with the window that the request asks for.
abbrev pub asking : IssuerContext → IssuanceRequest → IssuerContext
asking ctx r = record ctx { requested_window = r.window }

issuer_listed :
    (intent : IssuanceIntent) (k : AuthorityKind)
    → Issues intent k
    → required_issuer_kind intent ≡ ok k
unfolding required_issuer_kind
issuer_listed leaf k h = ground arith
issuer_listed bootstrap_tls k h = ground arith
issuer_listed subordinate_ca k h = ground arith
issuer_listed (IssuanceIntent.unlisted _) k h = elim h [ ]

module _ (issuer : Authority) (r : IssuanceRequest) (now : Instant) (ctx : IssuerContext) where
  plan-checked :
      {p : IssuancePlan}
      → plan_issuance_in issuer r now ctx ≡ ok p
      → (validate_for r ctx.intent ≡ ok tt)
        × (can_issue issuer (asking ctx r) now ≡ ok tt)
        × (p ≡ plan_of issuer r)
  unfolding plan_issuance_in
  plan-checked h = ground arith

  pub plan_issuance_iff :
      (p : IssuancePlan)
      → (plan_issuance_in issuer r now ctx ≡ ok p)
        ↔ (Requests r ctx.intent × MayIssue issuer (asking ctx r) now × (p ≡ plan_of issuer r))
  unfolding plan_issuance_in
  plan_issuance_iff p = (
    λ h.
        let (valid, may, same) = plan-checked h in
        let issuing = (can_issue_iff issuer (asking ctx r) now).0 may in
        let listed = issuer_listed ctx.intent issuer.kind issuing.kind in
        ((validate_for_iff r ctx.intent listed).0 valid, issuing, same),
    λ (q, issuing, same).
        let listed = issuer_listed ctx.intent issuer.kind issuing.kind in
        ground (
          arith,
          (validate_for_iff r ctx.intent listed).1 q,
          (can_issue_iff issuer (asking ctx r) now).1 issuing,
        ),
  )

-- The windows of `p` and of its issuer.
abbrev pub Within : IssuancePlan → Authority → Type 0
Within p issuer =
    (now : Instant)
    → contains_at p.window now ≡ true
    → contains_at issuer.certificate_window now ≡ true

plan-Within :
    (issuer : Authority) (r : IssuanceRequest) (now : Instant) (ctx : IssuerContext)
    {p : IssuancePlan}
    → r.window.not_before.micros <ℤ r.window.not_after.micros
    → plan_issuance_in issuer r now ctx ≡ ok p
    → Issues ctx.intent issuer.kind × Within p issuer
plan-Within issuer r now ctx {p} filled h =
    let (q, may, same) = (plan_issuance_iff issuer r now ctx p).0 h in
    let covered : covers issuer.certificate_window r.window ≡ true = elim may.period [
      | inl unasked ↦ cc (unasked, q.dated)
      | inr inside ↦ inside
    ] in
    (
      may.kind,
      λ later inside.
          (covers_iff issuer.certificate_window r.window filled).0 covered later
            (cc (ap (λ m. m.window) same, inside)),
    )

-- `p` is what the function of the path returns.
pub data Planned (issuer : Authority) (r : IssuanceRequest) (now : Instant) (p : IssuancePlan)
    : IssuanceIntent → Type 0 where
  for_leaf : plan_issuance issuer r now ≡ ok p → Planned issuer r now p leaf
  for_bootstrap : plan_bootstrap_issuance issuer r now ≡ ok p → Planned issuer r now p bootstrap_tls
  for_ca : plan_subordinate_ca_issuance issuer r now ≡ ok p → Planned issuer r now p subordinate_ca

-- A plan that one of the three functions returns for a window that is not empty: at every instant
-- at which the certificate will be valid, the issuer's certificate is valid too, and the issuer is of
-- the kind that the path demands: an intermediate for a leaf, a bootstrap authority for the
-- bootstrap certificate, a root for a subordinate CA.
pub Planned-Within :
    (issuer : Authority) (r : IssuanceRequest) (now : Instant) (p : IssuancePlan)
    (intent : IssuanceIntent)
    → r.window.not_before.micros <ℤ r.window.not_after.micros
    → Planned issuer r now p intent
    → Issues intent issuer.kind × Within p issuer
unfolding plan_issuance plan_bootstrap_issuance plan_subordinate_ca_issuance
Planned-Within issuer r now p leaf filled (for_leaf h) =
    plan-Within issuer r now (context_of leaf) filled h
Planned-Within issuer r now p bootstrap_tls filled (for_bootstrap h) =
    plan-Within issuer r now (context_of bootstrap_tls) filled h
Planned-Within issuer r now p subordinate_ca filled (for_ca h) =
    plan-Within issuer r now (context_of subordinate_ca) filled h
Planned-Within issuer r now p (IssuanceIntent.unlisted _) filled h = elim h [ ]
