-- ===== src/Mcp/Rpc/Version.antt =====
-- The negotiation of the protocol version.
use source_rudder.Prelude.{
  ◌≡◌, refl, sym, ap, ◌∙◌, ◌↔◌, inl, inr, true, arith, Bool-cases, Text, bytes, text_eq,
}
use source_rudder.Mcp.Rpc.{is_among, is_supported_protocol_version, negotiate_protocol_version}

newest_is_supported : is_supported_protocol_version (bytes "2025-11-25") ≡ true
unfolding is_supported_protocol_version is_among text_eq bytes
newest_is_supported = refl

-- The negotiated protocol version is a supported one, and is the requested one exactly if that is
-- supported.
pub negotiate_protocol_version_lem :
    (requested : Text)
    → (is_supported_protocol_version (negotiate_protocol_version requested) ≡ true)
      × ((negotiate_protocol_version requested ≡ requested)
          ↔ (is_supported_protocol_version requested ≡ true))
unfolding negotiate_protocol_version
negotiate_protocol_version_lem requested =
    elim (Bool-cases (is_supported_protocol_version requested)) [
      | inl e ↦ rw e (e, ((λ _. refl), λ _. refl))
      | inr e ↦ rw e (
        newest_is_supported,
        (
          (λ h.
              absurd (
                ground (arith, sym (ap is_supported_protocol_version h) ∙ newest_is_supported, e))),
          λ h. absurd (ground (arith, h)),
        ),
      )
    ]
