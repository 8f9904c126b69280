-- ===== src/Fetch/World.antt =====
-- What the fetch engine is given by what lies outside the repository: the resolver, the network, the
-- context, the clock's timers, and the parser of net/url. Each consultation has a moment of its own,
-- a number that only grows, so an answer may differ from one moment to the next.
pub mod Resolve
use source_rudder.Prelude.{
  ℕ, suc, String, Bool, Option, none, some, List, [], ◌∷◌, ◌++◌, if◌then◌else◌, ℤ, Text, bytes,
  lookup,
}
use source_rudder.Types.{Failure, Result, FetchResponse, ok, err, plain_error, wrap_error}
use source_rudder.Fetch.Address.{Ip, is_public_ip}

-- The parts of a url.URL that the code reads.
pub record Url : Type 0 where
  pub scheme : Text
  pub host : Text
  pub hostname : Text

-- A response, with what io.ReadAll makes of its body within the limit, and the error of Close.
pub record Response : Type 0 where
  pub status : ℕ
  pub location : Text
  pub body : Result Text
  pub close_error : Option Failure

pub record World : Type 0 where
  -- url.Parse, and ResolveReference(ref).String().
  pub parse : Text → Result Url
  pub resolve_reference : Url → Url → Text
  -- strings.ToLower on a host, and the regular expression localhostPatterns on the result.
  pub matches_localhost : Text → Bool
  -- net.LookupIP, and ip.String().
  pub lookup_ip : ℕ → Text → Result (List Ip)
  pub ip_text : Ip → Text
  -- The error of http.NewRequestWithContext, if there is one.
  pub request_error : Text → Option Failure
  -- Whether the transport takes an idle connection; the error that the client makes of a dial's; and
  -- what comes back over the connection.
  pub reuses : ℕ → Bool
  pub dial_error : Text → Failure → Failure
  pub exchange : ℕ → Text → Result Response
  -- ctx.Err(); the wait for a slot and the wait for a timer, either of which ends by the context's
  -- error if that comes first.
  pub context_error : ℕ → Option Failure
  pub await_slot : ℕ → Option Failure
  pub await_timer : ℕ → ℤ → Option Failure

-- A fetch in progress: the response under construction, the moment, and what was done so far, the
-- latest first: addresses dialed, URLs requested, delays waited for.
pub record Run : Type 0 where
  pub response : FetchResponse
  pub moment : ℕ
  pub dials : List Ip
  pub requests : List Text
  pub waits : List ℤ

module _ (w : World) where
  -- The loop over the addresses.
  pub check_addresses : List Ip → Option Failure
  check_addresses [] = none
  check_addresses (ip ∷ ips) =
      if is_public_ip ip
      then check_addresses ips
      else some (
          plain_error (
            bytes "blocked target: non-public address "
            ++ (w.ip_text ip ++ bytes " in resolved set")))

  -- resolveAndValidate, for the addresses that the lookup returned.
  pub pick : List Ip → Result Ip
  pick [] = err (plain_error (bytes "dns lookup returned no addresses"))
  pick (ip ∷ ips) = elim (check_addresses (ip ∷ ips)) [ none ↦ ok ip | some e ↦ err e ]

  unfoldable pub resolve_and_validate : ℕ → Text → Result Ip
  unfolding check_addresses pick
  resolve_and_validate moment host = elim (w.lookup_ip moment host) [
    | err e ↦ err (wrap_error (bytes "dns lookup failed: ") e)
    | ok ips ↦ pick ips
  ]

  -- client.Do: DialContext resolves and validates the host once more and dials the address it gets.
  unfoldable pub do_request : Text → Text → Run → Run × Result Response
  do_request url host r =
      if w.reuses r.moment
      then (
        record r { moment = suc r.moment; requests = url ∷ r.requests },
        w.exchange r.moment url,
      )
      else elim (resolve_and_validate r.moment host) [
        | err e ↦ (record r { moment = suc r.moment }, err (w.dial_error url e))
        | ok ip ↦ (
          record r { moment = suc r.moment; dials = ip ∷ r.dials; requests = url ∷ r.requests },
          w.exchange r.moment url,
        )
      ]
