-- ===== src/Fetch/Engine/Stale.antt =====
-- An attempt of doFetchWithRetries whose target the guard refuses.
use source_rudder.Prelude.{
  ℕ, suc, ◌≡◌, refl, true, none, some, ◌++◌, arith, pos, pos_part, ◌+ℤ◌, Text, bytes, show_nat,
}
use source_rudder.Types.{blocked_target, Failure, ok, err}
use source_rudder.Fetch.Config.{Config}
use source_rudder.Fetch.Retry.{should_retry}
use source_rudder.Fetch.World.{Url, World, Run, resolve_and_validate}
use source_rudder.Fetch.Redirect.{return, send, hop_step, rounds, manual_redirect_fetch}
use source_rudder.Fetch.Engine.{noted, retry, conclude, attempt_fetch}

module _ (w : World) (c : Config) (url : Text) (parsed : Url) (r : Run) (e : Failure) (n : ℕ)
    (redirects : c.max_redirects ≡ pos n) (parses : w.parse url ≡ ok parsed)
    (blocked : resolve_and_validate w r.moment parsed.hostname ≡ err e) where
  rounds_left : pos_part (c.max_redirects +ℤ pos 1) ≡ suc n
  unfolding ◌+ℤ◌
  rounds_left = rw redirects (ground arith)

  blocked_hop :
      (s : Run) × (hop_step w c 0 url r ≡ return s (some e))
      × (s.response.status ≡ r.response.status)
      × (s.requests ≡ r.requests)
      × (s.moment ≡ suc r.moment)
  unfolding hop_step send
  blocked_hop =
      let warning =
        bytes "hop " ++ (show_nat 0 ++ (bytes " (" ++ (url ++ (bytes "): " ++ e.message)))) in
      (
        noted (record r { moment = suc r.moment }) blocked_target warning,
        ground (arith, parses, blocked),
        refl,
        refl,
        refl,
      )

  blocked_attempt :
      (s : Run) × (manual_redirect_fetch w c url r ≡ (s, some e))
      × (s.response.status ≡ r.response.status)
      × (s.requests ≡ r.requests)
      × (s.moment ≡ suc r.moment)
  unfolding manual_redirect_fetch rounds
  blocked_attempt =
      let (s, h, status, requests, moment) = blocked_hop in
      (s, rw rounds_left (rw (h, rounds) refl), status, requests, moment)

  -- If the guard refuses the target of an attempt, MaxRedirects is not negative, the context is
  -- live, and the status left by an earlier attempt is one that is retried, then the attempt is
  -- retried, although it has sent no request.
  pub blocked_target_retried :
      w.context_error (suc r.moment) ≡ none
      → should_retry r.response.status e ≡ true
      → (s : Run) × (attempt_fetch w c url (r, none) ≡ retry s e) × (s.requests ≡ r.requests)
  unfolding attempt_fetch conclude
  blocked_target_retried live h =
      let (s, a, status, requests, moment) = blocked_attempt in
      (record s { moment = suc s.moment }, rw a (ground (arith, status, moment, live, h)), requests)
