-- ===== src/Framework/Setup/Tls.antt =====
-- python/tls.py: the keys and certificates for the handshake service of the kernel. Keys are numbered in the
-- order in which they are generated; the third-party library that signs and prints is a parameter, and times are
-- in seconds.
use drbd9_tests.Prelude.{ℕ, suc, ◌+◌, ◌-◌, Option, none, some, List, [], ◌∷◌, String}
use drbd9_tests.Exec.{Exec, pure, gets, ◌>>=◌, ◌>>◌}
use drbd9_tests.Framework.World.{World, Remote, host_at, host_do, host_feed, host_try}

-- What `_gen_cert` puts into a certificate before it is signed.
pub record Certificate : Type 0 where
  pub common_name : String
  pub not_before : ℕ
  pub not_after : ℕ
  pub issuer : String
  pub pubkey : ℕ
  pub signer : ℕ

-- `_gen_cert`; without an issuer, the certificate names itself.
unfoldable pub gen_cert : ℕ → ℕ → String → Option String → ℕ → Certificate
gen_cert now pubkey common_name issuer signer = record {
  common_name = common_name;
  not_before = now - 3600;
  not_after = now + 86400;
  issuer = elim issuer [ none ↦ common_name | some i ↦ i ];
  pubkey = pubkey;
  signer = signer;
}

-- How the library prints a signed certificate and a private key.
pub record Pem : Type 0 where
  pub certificate : Certificate → String
  pub private_key : ℕ → String

abbrev pub tlshd_config : String
tlshd_config =
    "\n[debug]\nloglevel=10\ntls=10\n\n[authenticate.client]\nx509.truststore=/etc/tlshd.d/ca.crt\nx509.certificate=/etc/tlshd.d/tls.crt\nx509.private_key=/etc/tlshd.d/tls.key\n\n[authenticate.server]\nx509.truststore=/etc/tlshd.d/ca.crt\nx509.certificate=/etc/tlshd.d/tls.crt\nx509.private_key=/etc/tlshd.d/tls.key\n"

module _ (remote : Remote) (pem : Pem) (now : ℕ) where
  -- The body of the loop, for the key with the given number.
  unfoldable pub setup_host : Certificate → ℕ → ℕ → Exec World (Unit {0})
  unfolding gen_cert
  setup_host ca_cert node_key h = do
    name ← gets (λ w. (host_at h w).name)
    let node_cert = gen_cert now node_key name (some ca_cert.issuer) ca_cert.pubkey
    host_do remote h ("mkdir" ∷ "-p" ∷ "/etc/tlshd.d" ∷ [])
    host_feed remote h ("bash" ∷ "-c" ∷ "cat > /etc/tlshd.conf" ∷ []) tlshd_config
    host_feed remote h ("bash" ∷ "-c" ∷ "cat > /etc/tlshd.d/ca.crt" ∷ []) (pem.certificate ca_cert)
    host_feed remote h ("bash" ∷ "-c" ∷ "cat > /etc/tlshd.d/tls.crt" ∷ [])
        (pem.certificate node_cert)
    host_feed remote h ("bash" ∷ "-c" ∷ "cat > /etc/tlshd.d/tls.key" ∷ [])
        (pem.private_key node_key)
    _ ← host_try remote h ("modprobe" ∷ "handshake" ∷ [])
    host_do remote h ("systemctl" ∷ "restart" ∷ "tlshd.service" ∷ [])

  unfoldable pub setup_hosts : Certificate → ℕ → List ℕ → Exec World (Unit {0})
  unfolding setup_host
  setup_hosts ca_cert next_key [] = pure tt
  setup_hosts ca_cert next_key (h ∷ hs) =
      let rest = setup_hosts ca_cert (suc next_key) hs in setup_host ca_cert next_key h >> rest

  -- The authority has the first key, and signs its own certificate.
  unfoldable pub setup_kernel_tls_helper : List ℕ → Exec World (Unit {0})
  unfolding setup_hosts
  setup_kernel_tls_helper hosts = setup_hosts (gen_cert now 0 "drbd9-tests" none 0) 1 hosts
