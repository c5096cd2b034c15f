-- ===== src/Tls.antt =====
-- src/tls.rs: the choice of the TLS configuration, and the verifier that accepts every certificate.
-- What rustls does is a parameter.
use bloop_client_framework.Base.{ℕ, List, Option, none, some, Result, ok, err, ◌≡◌, refl}

-- What a certificate verifier is asked about, with the library's check of a signature, which gives
-- an error if it fails.
pub record Certificates : Type 1 where
  pub Error : Type 0
  pub CryptoProvider : Type 0
  pub CertificateDer : Type 0
  pub ServerName : Type 0
  pub UnixTime : Type 0
  pub Message : Type 0
  pub DigitallySignedStruct : Type 0
  pub SignatureScheme : Type 0
  pub Algorithms : Type 0
  pub signature_verification_algorithms : CryptoProvider → Algorithms
  pub tls12_signature : Message → CertificateDer → DigitallySignedStruct → Algorithms → Option Error
  pub tls13_signature : Message → CertificateDer → DigitallySignedStruct → Algorithms → Option Error
  pub supported_schemes : Algorithms → List SignatureScheme

-- The trait `ServerCertVerifier`; a check gives an error if it fails.
pub record ServerCertVerifier (K : Certificates) : Type 0 where
  pub verify_server_cert :
      K.CertificateDer → List K.CertificateDer → K.ServerName → List ℕ → K.UnixTime → Option K.Error
  pub verify_tls12_signature :
      K.Message → K.CertificateDer → K.DigitallySignedStruct → Option K.Error
  pub verify_tls13_signature :
      K.Message → K.CertificateDer → K.DigitallySignedStruct → Option K.Error
  pub supported_verify_schemes : List K.SignatureScheme

pub record Rustls : Type 1 where
  pub certificates : Certificates
  pub VersionedBuilder : Type 0
  pub ClientConfig : Type 0
  pub get_default : Option certificates.CryptoProvider
  pub aws_lc_rs : certificates.CryptoProvider
  pub with_safe_default_protocol_versions :
      certificates.CryptoProvider → Result VersionedBuilder certificates.Error
  pub with_platform_verifier : VersionedBuilder → Result ClientConfig certificates.Error
  pub with_custom_certificate_verifier :
      VersionedBuilder → ServerCertVerifier certificates → ClientConfig

pub data RootCertSource : Type 0 where
  platform : RootCertSource
  dangerous_disabled : RootCertSource

pub data TlsError (R : Rustls) : Type 0 where
  rustls : R.certificates.Error → TlsError R

pub record SkipCertificateVerification (K : Certificates) : Type 0 where
  pub provider : K.CryptoProvider

-- `impl ServerCertVerifier for SkipCertificateVerification`
unfoldable pub skip_verifier :
    {K : Certificates} → SkipCertificateVerification K → ServerCertVerifier K
skip_verifier {K} skip = record {
  verify_server_cert = λ end_entity intermediates server_name ocsp_response now. none;
  verify_tls12_signature = λ message cert dss.
      K.tls12_signature message cert dss (K.signature_verification_algorithms skip.provider);
  verify_tls13_signature = λ message cert dss.
      K.tls13_signature message cert dss (K.signature_verification_algorithms skip.provider);
  supported_verify_schemes =
      K.supported_schemes (K.signature_verification_algorithms skip.provider);
}

module _ (R : Rustls) where
  open R use {
    certificates, VersionedBuilder, ClientConfig, get_default, aws_lc_rs,
    with_safe_default_protocol_versions, with_platform_verifier, with_custom_certificate_verifier,
  }

  unfoldable pub default_provider : certificates.CryptoProvider
  default_provider = elim get_default [ some provider ↦ provider | none ↦ aws_lc_rs ]

  -- `SkipCertificateVerification::new`
  unfoldable pub skip_certificate_verification : SkipCertificateVerification certificates
  unfolding default_provider
  skip_certificate_verification = record { provider = default_provider }

  -- The platform's verifier, whose creation may fail.
  unfoldable pub platform_verified :
      Result ClientConfig certificates.Error → Result ClientConfig (TlsError R)
  platform_verified (ok client_config) = ok client_config
  platform_verified (err e) = err (rustls e)

  -- Behind the protocol versions.
  unfoldable pub with_verifier :
      RootCertSource → Result VersionedBuilder certificates.Error → Result ClientConfig (TlsError R)
  unfolding platform_verified skip_certificate_verification skip_verifier
  with_verifier source (err e) = err (rustls e)
  with_verifier platform (ok builder) = platform_verified (with_platform_verifier builder)
  with_verifier dangerous_disabled (ok builder) =
      ok (with_custom_certificate_verifier builder (skip_verifier skip_certificate_verification))

  unfoldable pub create_connector : RootCertSource → Result ClientConfig (TlsError R)
  unfolding with_verifier default_provider skip_certificate_verification
  create_connector platform =
      with_verifier platform (with_safe_default_protocol_versions default_provider)
  create_connector dangerous_disabled =
      with_verifier dangerous_disabled
        (with_safe_default_protocol_versions skip_certificate_verification.provider)

  -- A verifier that accepts every certificate, but checks the signatures of the handshake, with the
  -- algorithms of the default provider, which are those it offers.
  pub record SkipsOnlyCertificates (v : ServerCertVerifier certificates) : Type 0 where
    pub accepts :
        (end_entity : certificates.CertificateDer)
        (intermediates : List certificates.CertificateDer) (server_name : certificates.ServerName)
        (ocsp_response : List ℕ) (now : certificates.UnixTime)
        → v.verify_server_cert end_entity intermediates server_name ocsp_response now ≡ none
    pub checks_tls12 :
        (message : certificates.Message) (cert : certificates.CertificateDer)
        (dss : certificates.DigitallySignedStruct)
        → v.verify_tls12_signature message cert dss
          ≡ certificates.tls12_signature message cert dss
              (certificates.signature_verification_algorithms default_provider)
    pub checks_tls13 :
        (message : certificates.Message) (cert : certificates.CertificateDer)
        (dss : certificates.DigitallySignedStruct)
        → v.verify_tls13_signature message cert dss
          ≡ certificates.tls13_signature message cert dss
              (certificates.signature_verification_algorithms default_provider)
    pub offers :
        v.supported_verify_schemes
        ≡ certificates.supported_schemes
            (certificates.signature_verification_algorithms default_provider)

  -- The configuration of a connector: with the platform's verifier, or, for the dangerous source
  -- only, with one that skips only certificates.
  abbrev pub Configures : RootCertSource → ClientConfig → VersionedBuilder → Type 0
  Configures platform config builder = with_platform_verifier builder ≡ ok config
  Configures dangerous_disabled config builder =
      (v : ServerCertVerifier certificates) × SkipsOnlyCertificates v
      × (config ≡ with_custom_certificate_verifier builder v)

  platform_verified-eq-ok :
      (r : Result ClientConfig certificates.Error) (config : ClientConfig)
      → platform_verified r ≡ ok config
      → r ≡ ok config
  unfolding platform_verified
  platform_verified-eq-ok (ok c) config e = cc
  platform_verified-eq-ok (err x) config e = absurd cc

  skip_verifier-SkipsOnlyCertificates :
      SkipsOnlyCertificates (skip_verifier skip_certificate_verification)
  unfolding skip_verifier skip_certificate_verification
  skip_verifier-SkipsOnlyCertificates = record {
    accepts = λ _ _ _ _ _. refl;
    checks_tls12 = λ _ _ _. refl;
    checks_tls13 = λ _ _ _. refl;
    offers = refl;
  }

  with_verifier-Configures :
      (source : RootCertSource) (r : Result VersionedBuilder certificates.Error)
      (config : ClientConfig)
      → with_verifier source r ≡ ok config
      → (builder : VersionedBuilder) × (r ≡ ok builder) × Configures source config builder
  unfolding with_verifier
  with_verifier-Configures platform (err x) config e = absurd cc
  with_verifier-Configures dangerous_disabled (err x) config e = absurd cc
  with_verifier-Configures platform (ok builder) config e =
      (builder, refl, platform_verified-eq-ok (with_platform_verifier builder) config e)
  with_verifier-Configures dangerous_disabled (ok builder) config e = (
    builder,
    refl,
    (skip_verifier skip_certificate_verification, skip_verifier-SkipsOnlyCertificates, cc),
  )

  -- A connector that is created has a configuration built with the default provider: for the
  -- platform source it has the platform's verifier, and for the dangerous source a verifier that
  -- accepts every certificate, but still checks signatures, with the algorithms of that provider.
  pub create_connector-Configures :
      (source : RootCertSource) (config : ClientConfig)
      → create_connector source ≡ ok config
      → (builder : VersionedBuilder) × (with_safe_default_protocol_versions default_provider
          ≡ ok builder)
        × Configures source config builder
  unfolding create_connector skip_certificate_verification
  create_connector-Configures platform config e = with_verifier-Configures platform _ config e
  create_connector-Configures dangerous_disabled config e =
      with_verifier-Configures dangerous_disabled _ config e
