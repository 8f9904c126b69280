-- ===== src/Fetch/World/Resolve.antt =====
-- The guard of every hop and of every dial.
use source_rudder.Prelude.{ℕ, ◌≡◌, ap, ◌↔◌, inl, inr, true, none, List, [], ◌∷◌, arith, All, Text}
use mathlib.Core.Path.{subst}
use source_rudder.Types.{Result-cases, ok}
use source_rudder.Fetch.Address.{Ip, is_public_ip}
use source_rudder.Fetch.World.{World, resolve_and_validate, check_addresses, pick}

abbrev pub AllPublic : List Ip → Type 0
AllPublic = All λ ip. is_public_ip ip ≡ true

module _ (w : World) where
  check_addresses_iff : (ips : List Ip) → (check_addresses w ips ≡ none) ↔ AllPublic ips
  unfolding check_addresses
  check_addresses_iff [] = ground arith
  check_addresses_iff (ip ∷ ips) = ground (arith, check_addresses_iff ips)

  pick_iff :
      (ips : List Ip) (ip : Ip)
      → (pick w ips ≡ ok ip) ↔ ((rest : List Ip) × (ips ≡ ip ∷ rest) × AllPublic ips)
  unfolding pick
  pick_iff [] ip = (λ e. cc, λ h. cc (h.1))
  pick_iff (a ∷ as_) ip = (accepts, accepted)
    where
      accepts :
          pick w (a ∷ as_) ≡ ok ip → (rest : List Ip) × (a ∷ as_ ≡ ip ∷ rest) × AllPublic (a ∷ as_)
      accepts e = (as_, ground arith, ground (arith, check_addresses_iff (a ∷ as_)))

      accepted :
          (rest : List Ip) × (a ∷ as_ ≡ ip ∷ rest) × AllPublic (a ∷ as_) → pick w (a ∷ as_) ≡ ok ip
      accepted (rest, e, p) = ground (arith, check_addresses_iff (a ∷ as_))

  -- A host passes the guard with an address exactly when the lookup answers with at least one
  -- address, the first is that one, and every one of them is public.
  pub resolve_and_validate_iff :
      (moment : ℕ) (host : Text) (ip : Ip)
      → (resolve_and_validate w moment host ≡ ok ip)
        ↔ ((rest : List Ip) × (w.lookup_ip moment host ≡ ok (ip ∷ rest)) × AllPublic (ip ∷ rest))
  unfolding resolve_and_validate
  resolve_and_validate_iff moment host ip = elim (Result-cases (w.lookup_ip moment host)) [
    | inl (e, p) ↦ rw (p, resolve_and_validate) (λ h. cc, λ (rest, q, _). cc)
    | inr (ips, p) ↦
        rw (p, resolve_and_validate)
          (
            λ h. let (rest, q, a) = (pick_iff ips ip).0 h in (rest, ap ok q, subst AllPublic q a),
            λ (rest, q, a). (pick_iff ips ip).1 (rest, ground arith, ground arith),
          )
  ]
