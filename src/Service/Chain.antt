-- ===== src/Service/Chain.antt =====
-- internal/app/service/chain.go: the chain of issuers of a stored certificate.
-- `maxChainDepth`
use cert_me.Prelude.{List, String, [], if◌then◌else◌, not, suc, zero, ℕ, ◌∷◌}
use cert_me.App.{Fault, new_app_error, unavailable_kind, with_public_field}
use cert_me.Prelude.Text.{Text, is_empty, text_eq}
use cert_me.Store.{Tx, gave, give, or_absent, or_store_error, refuse, refuse_if, ◌>>=◌, ◌>>◌}
use cert_me.Store.Accounts.{contains_text}
use cert_me.Store.Pki.{PkiRepository}

abbrev pub max_chain_depth : ℕ
max_chain_depth = 16

-- `chainError`
unfoldable pub chain_error : String → Text → Fault
chain_error code certificate_id =
    with_public_field "certificate_id" certificate_id (new_app_error unavailable_kind code)

-- A root ends the chain.
unfoldable pub rest_of_chain : {S : Type 0} → Text → Tx S (List (List ℕ)) → Tx S (List (List ℕ))
rest_of_chain issuer others s = if is_empty issuer then gave ([], s) else others s

module _ {S : Type 0} (pki : PkiRepository S) where
  -- The loop: `depth` rounds are left, `certificate_id` is the certificate that the chain is of.
  unfoldable pub chain_from : ℕ → Text → List Text → Text → Text → Tx S (List (List ℕ))
  chain_from zero certificate_id seen expected next_id =
      refuse (chain_error "chain_too_deep" certificate_id)
  chain_from (suc depth) certificate_id seen expected next_id = do
    refuse_if (contains_text next_id seen) (chain_error "chain_cycle" next_id)
    ca_record ←
        or_absent (pki.get_ca_certificate_record next_id)
          (chain_error "chain_ca_record_missing" next_id) "chain_ca_record_read_failed"
    refuse_if (not (text_eq ca_record.ca_key_generation_id expected))
        (chain_error "chain_issuer_key_mismatch" next_id)
    certificate ←
        or_absent (pki.get_certificate next_id) (chain_error "chain_certificate_missing" next_id)
          "chain_certificate_read_failed"
    rest ← rest_of_chain ca_record.issuer_ca_certificate_id (
        chain_from depth certificate_id (next_id ∷ seen) certificate.issuer_ca_key_generation_id
          ca_record.issuer_ca_certificate_id)
    give (certificate.der ∷ rest)

  -- `buildChainDER`
  unfoldable pub build_chain_der : Text → Tx S (List (List ℕ))
  build_chain_der certificate_id = do
    leaf_record ←
        or_absent (pki.get_leaf_certificate_record certificate_id)
          (chain_error "chain_leaf_record_missing" certificate_id) "chain_leaf_record_read_failed"
    refuse_if (is_empty leaf_record.issuer_ca_certificate_id)
        (chain_error "chain_issuer_missing" certificate_id)
    certificate ←
        or_store_error (pki.get_certificate certificate_id) "chain_certificate_read_failed"
    chain_from max_chain_depth certificate_id (certificate_id ∷ [])
        certificate.issuer_ca_key_generation_id leaf_record.issuer_ca_certificate_id
