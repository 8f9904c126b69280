-- ===== src/Fetch/Redirect.antt =====
-- manualRedirectFetch and resolveRedirect of internal/fetch/fetcher.go: one attempt, which follows
-- redirects by hand and validates the host of every hop.
pub mod Step
pub mod Walk
pub mod Chain
pub mod Repeat
use source_rudder.Prelude.{
  ℕ, zero, suc, ◌*◌, ◌^◌, ◌&&◌, ◌||◌, not, Option, none, some, [], ◌∷◌, ◌++◌, ltb, leb, ◌==◌,
  if◌then◌else◌, length, pos, pos_part, ◌+ℤ◌, eqb_ℤ, Text, bytes, is_empty, has_prefix, show_nat,
}
use source_rudder.Types.{
  Failure, Result, FetchResponse, ok, err, plain_error, wrap_error, Outcome, success,
  blocked_target, too_many_redirects, timeout, transport_error, http_error, non_transient_failure,
}
use source_rudder.Fetch.Config.{Config}
use source_rudder.Fetch.Retry.{is_timeout_err}
use source_rudder.Fetch.World.{Url, Response, World, Run, resolve_and_validate, do_request}

abbrev pub max_fetch_response_bytes : ℕ
max_fetch_response_bytes = 4 * 2 ^ 20

-- How one round of the loop ends: the function returns, or the next round visits a URL.
pub data Hop : Type 0 where
  return : Run → Option Failure → Hop
  visit : Run → Text → Hop

-- fr.Outcome = o; fr.Warnings = append(fr.Warnings, warning).
abbrev pub noted : Run → Outcome → Text → Run
noted r o warning = record r {
  response = record (r.response) { outcome = o; warnings = r.response.warnings ++ warning ∷ [] };
}

abbrev pub warned : Run → Text → Run
warned r warning = record r {
  response = record (r.response) { warnings = r.response.warnings ++ warning ∷ [] };
}

abbrev pub upstream : ℕ → Text
upstream status = bytes "upstream " ++ show_nat status

module _ (w : World) (c : Config) where
  unfoldable pub resolve_redirect : Url → Text → Result Text
  resolve_redirect prev loc =
      if has_prefix loc (bytes "http://") || has_prefix loc (bytes "https://")
      then ok loc
      else elim (w.parse loc) [ err e ↦ err e | ok ref ↦ ok (w.resolve_reference prev ref) ]

  -- The final classification. A status from 300 to 399 falls out of every branch, and the next round
  -- visits the same URL.
  pub classify : Text → ℕ → Text → Run → Hop
  classify current status body r =
      if leb 200 status && ltb status 300
      then return
          (record r { response = record (r.response) { outcome = success; content = body } }) none
      else if status == 429
      then return (noted r http_error (bytes "upstream 429"))
          (some (plain_error (bytes "upstream 429")))
      else if leb 500 status
      then return (noted r http_error (upstream status)) (some (plain_error (upstream status)))
      else if leb 400 status
      then return (noted r http_error (upstream status)) (some (plain_error (upstream status)))
      else if ltb status 200
      then return (noted r non_transient_failure (bytes "unexpected status " ++ show_nat status))
          (some (plain_error (bytes "unexpected status " ++ show_nat status)))
      else visit r current

  -- The response is a redirect: its source joins the chain, and the next round visits its target.
  pub follow : ℕ → Text → Url → Text → Run → Hop
  follow hop current parsed loc r =
      let chained = record r {
        response = record (r.response) {
          redirect_chain = r.response.redirect_chain ++ current ∷ [];
        };
      } in
      if eqb_ℤ (pos hop) c.max_redirects
      then return
          (noted chained too_many_redirects (
            bytes "redirect chain exceeded "
            ++ (show_nat (pos_part c.max_redirects) ++ bytes " hops")))
          (some (plain_error (bytes "too many redirects")))
      else elim (resolve_redirect parsed loc) [
        | err e ↦
            return (noted chained non_transient_failure (bytes "invalid Location: " ++ e.message))
              (some e)
        | ok next ↦ visit chained next
      ]

  -- The limit, and the status.
  pub judge : ℕ → Text → Url → Response → Text → Run → Hop
  judge hop current parsed resp body r =
      let too_long =
        bytes "response body exceeds " ++ (show_nat max_fetch_response_bytes ++ bytes " bytes") in
      if ltb max_fetch_response_bytes (length body)
      then return (noted r non_transient_failure too_long) (some (plain_error too_long))
      else if not (is_empty resp.location) && (leb 300 resp.status && ltb resp.status 400)
      then follow hop current parsed resp.location r
      else classify current resp.status body r

  -- From the body on. A failure of Close is only warned of.
  pub receive : ℕ → Text → Url → Response → Text → Run → Hop
  receive hop current parsed resp body r = elim (resp.close_error) [
    | none ↦ judge hop current parsed resp body r
    | some e ↦
        judge hop current parsed resp body (warned r (bytes "close response body: " ++ e.message))
  ]

  -- What client.Do returned.
  pub respond : ℕ → Text → Url → Run × Result Response → Hop
  respond hop current parsed (r, err e) =
      return (noted r (if is_timeout_err e then timeout else transport_error) e.message) (some e)
  respond hop current parsed (r, ok resp) =
      let answered = record r { response = record (r.response) { status = resp.status } } in
      elim (resp.body) [
        | err e ↦
            return
              (noted answered (if is_timeout_err e then timeout else transport_error)
                (bytes "read response body: " ++ e.message))
              (some e)
        | ok body ↦ receive hop current parsed resp body answered
      ]

  -- From the parsed URL on: the host is resolved and validated before the request is built.
  unfoldable pub send : ℕ → Text → Url → Run → Hop
  send hop current parsed r = elim (resolve_and_validate w r.moment parsed.hostname) [
    | err e ↦
        return
          (noted (record r { moment = suc r.moment }) blocked_target
            (bytes "hop "
              ++ (show_nat hop ++ (bytes " (" ++ (current ++ (bytes "): " ++ e.message))))))
          (some e)
    | ok _ ↦ elim (w.request_error current) [
      | some e ↦
          return (noted (record r { moment = suc r.moment }) non_transient_failure e.message)
            (some e)
      | none ↦
          respond hop current parsed
            (do_request w current parsed.hostname (record r { moment = suc r.moment }))
    ]
  ]

  -- One round of the loop.
  unfoldable pub hop_step : ℕ → Text → Run → Hop
  hop_step hop current r = elim (w.parse current) [
    | err e ↦
        return
          (noted r non_transient_failure
            (bytes "invalid URL at hop " ++ (show_nat hop ++ (bytes ": " ++ e.message))))
          (some e)
    | ok parsed ↦ send hop current parsed r
  ]

  -- The rounds that are left, from the round `hop` on.
  unfoldable pub rounds : ℕ → ℕ → Text → Run → Run × Option Failure
  rounds zero hop current r = (
    record r { response = record (r.response) { outcome = too_many_redirects } },
    some (plain_error (bytes "too many redirects")),
  )
  rounds (suc n) hop current r = elim (hop_step hop current r) [
    | return s e ↦ (s, e)
    | visit s next ↦ rounds n (suc hop) next s
  ]

  -- for hop := 0; hop <= MaxRedirects; hop++
  unfoldable pub manual_redirect_fetch : Text → Run → Run × Option Failure
  manual_redirect_fetch url r = rounds (pos_part (c.max_redirects +ℤ pos 1)) 0 url r
