-- ===== src/Operator/Manager/Options.antt =====
-- How the servers of the operator are protected.
use voxplatform.Prelude.{
  ◌≡◌, ◌≢◌, ◌⊎◌, inl, inr, refl, String, List, [], ◌∷◌, arith, if◌then◌else◌, eq_iff, Bool-cases,
}
use voxplatform.Operator.Manager.{
  Flags, TlsConfig, tls_opts, certificate, no_certificate, webhook_options, metrics_options,
  manager_options,
}

-- What a server makes of its TLS configuration: each option in turn.
abbrev pub configured : List (TlsConfig → TlsConfig) → TlsConfig → TlsConfig
configured [] c = c
configured (option ∷ options) c = configured options (option c)

certificate_lem :
    (path name key : String)
    → ((path ≡ "") × (certificate path name key ≡ no_certificate))
      ⊎ ((path ≢ "")
          × (certificate path name key
              ≡ record { cert_dir = path; cert_name = name; key_name = key }))
certificate_lem path name key = ground (arith, eq_iff path "")

configured_tls_opts :
    (flags : Flags) (c : TlsConfig)
    → (configured (tls_opts flags) c).next_protos
      ≡ (if flags.enable_http2 then c.next_protos else "http/1.1" ∷ [])
unfolding tls_opts
configured_tls_opts flags c = elim (Bool-cases flags.enable_http2) [
  | inl e ↦ rw e refl
  | inr e ↦ rw e refl
]

-- Whatever a server's TLS configuration offers at first, the metrics server and the webhook server
-- offer HTTP/1.1 alone unless HTTP/2 is enabled, and then what they offered. The metrics are
-- served with TLS exactly if they are guarded by authentication and authorization. Each server
-- reads its certificate from the directory of its own flag, and has none without it.
pub manager_options_lem :
    (flags : Flags) (c : TlsConfig)
    → let options = manager_options flags in
      ((configured options.metrics.tls_opts c).next_protos
        ≡ (if flags.enable_http2 then c.next_protos else "http/1.1" ∷ []))
      × ((configured options.webhook_server.tls_opts c).next_protos
          ≡ (if flags.enable_http2 then c.next_protos else "http/1.1" ∷ []))
      × (options.metrics.secure_serving ≡ options.metrics.with_authentication_and_authorization)
      × ((options.metrics.certificate.cert_dir ≡ flags.metrics_cert_path)
          × (options.webhook_server.certificate.cert_dir ≡ flags.webhook_cert_path))
unfolding manager_options metrics_options webhook_options
manager_options_lem flags c = (
  configured_tls_opts flags c,
  configured_tls_opts flags c,
  refl,
  (
    ground (
      arith,
      certificate_lem flags.metrics_cert_path flags.metrics_cert_name flags.metrics_cert_key,
      eq_iff flags.metrics_cert_path "",
    ),
    ground (arith, eq_iff flags.webhook_cert_path ""),
  ),
)
