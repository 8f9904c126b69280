-- ===== src/Fetch/Tests.antt =====
-- The theorems on fetching at concrete worlds: a site behind a public address, a site that answers
-- 304, and a name that does not resolve.
use source_rudder.Prelude.{
  ℕ, ◌+◌, ◌*◌, ◌^◌, ◌≤◌, ◌<◌, ◌≡◌, refl, ◌≢◌, ◌↔◌, ◌⊎◌, true, false, none, List, [], ◌∷◌, arith,
  length, All, pos, pos_part, ◌+ℤ◌, ◌≤ℤ◌, Text, bytes,
}
use source_rudder.Types.{too_many_redirects, too_many_redirects, ok, err, plain_error, wrap_error}
use source_rudder.Fetch.Address.{Ip, v4, v6, is_public_ip, reserved_blocks}
use source_rudder.Fetch.Address.Blocks.{Avoids, is_public_ip-v4, is_public_ip-v6}
use source_rudder.Fetch.Config.{Config}
use source_rudder.Fetch.Retry.{is_timeout_err, should_retry}
use source_rudder.Fetch.World.{Url, World, Run, resolve_and_validate}
use source_rudder.Fetch.World.Resolve.{AllPublic, resolve_and_validate_iff}
use source_rudder.Fetch.Redirect.{manual_redirect_fetch}
use source_rudder.Fetch.Redirect.Walk.{Walk, manual_redirect_fetch-Walk}
use source_rudder.Fetch.Redirect.Repeat.{Answers3xx, manual_redirect_fetch_repeats}
use source_rudder.Fetch.Engine.{do_fetch_with_retries, attempt_fetch, retry}
use source_rudder.Fetch.Engine.Loop.{Answers}
use source_rudder.Fetch.Engine.Contract.{
  start, dials-AllPublic, do_fetch_with_retries_bounds, do_fetch_with_retries-Answers,
}
use source_rudder.Fetch.Engine.Stale.{blocked_target_retried}
use source_rudder.Fetch.Surface.{validate_url_text}
use source_rudder.Fetch.Surface.Gate.{validate_url_text_iff}

abbrev page : Text
page = bytes "https://go.dev/"

abbrev go_dev : Url
go_dev = record { scheme = bytes "https"; host = bytes "go.dev"; hostname = bytes "go.dev" }

-- 8.8.8.8
abbrev eights : Ip
eights = v4 134744072

abbrev replying : ℕ → World
replying status = record {
  parse = λ _. ok go_dev;
  resolve_reference = λ _ _. page;
  matches_localhost = λ _. false;
  lookup_ip = λ _ _. ok (eights ∷ []);
  ip_text = λ _. bytes "8.8.8.8";
  request_error = λ _. none;
  reuses = λ _. false;
  dial_error = λ _ e. e;
  exchange =
      λ _ _. ok (record { status = status; location = []; body = ok []; close_error = none });
  context_error = λ _. none;
  await_slot = λ _. none;
  await_timer = λ _ _. none;
}

abbrev site : World
site = replying 200

abbrev unresolved : World
unresolved = record site { lookup_ip = λ _ _. err (plain_error (bytes "no such host")) }

abbrev config : Config
config = record {
  user_agent = bytes "SourceRudder/3.0.0";
  timeout_ms = pos 30000;
  max_redirects = pos 5;
  max_attempts = pos 3;
  base_backoff = pos 200000000;
}

-- A fetch whose earlier attempt was answered by 503.
abbrev after_503 : Run
after_503 = record (start page) { response = record ((start page).response) { status = 503 } }

eights_are_public : is_public_ip eights ≡ true
eights_are_public = (is_public_ip-v4 134744072).1 (ground arith)

eights_resolve :
    (w : World) (m : ℕ) (host : Text)
    → w.lookup_ip m host ≡ ok (eights ∷ [])
    → resolve_and_validate w m host ≡ ok eights
eights_resolve w m host h =
    (resolve_and_validate_iff w m host eights).1 ([], h, (eights_are_public, tt))

dials_example : AllPublic (do_fetch_with_retries site config page (start page)).0.dials
dials_example = dials-AllPublic site config page

answers_example :
    Answers
      (do_fetch_with_retries site config page (start page)).0
      (do_fetch_with_retries site config page (start page)).1
answers_example = do_fetch_with_retries-Answers site config page (start page) (omega arith)

bounds_example :
    let s = (do_fetch_with_retries site config page (start page)).0 in
    (length s.requests ≤ pos_part config.max_attempts * pos_part (config.max_redirects +ℤ pos 1))
    × (s.response.attempts ≤ pos_part config.max_attempts)
    × (length s.waits < pos_part config.max_attempts)
    × All (λ d. config.base_backoff ≤ℤ d) s.waits
bounds_example = do_fetch_with_retries_bounds site config page (omega arith)

attempt_example :
    Walk
      (pos_part (config.max_redirects +ℤ pos 1))
      (start page)
      (manual_redirect_fetch site config page (start page)).0
attempt_example = manual_redirect_fetch-Walk site config page (start page)

resolve_example : (resolve_and_validate site 0 (bytes "go.dev") ≡ ok eights) ↔ (
    (rest : List Ip) × (site.lookup_ip 0 (bytes "go.dev") ≡ ok (eights ∷ rest))
    × AllPublic (eights ∷ rest))
resolve_example = resolve_and_validate_iff site 0 (bytes "go.dev") eights

text_guard_example : (validate_url_text site page ≡ none) ↔ (
    (page ≢ [])
    × ((u : Url) × (site.parse page ≡ ok u)
        × ((u.scheme ≡ bytes "http") ⊎ (u.scheme ≡ bytes "https"))
        × (u.host ≢ [])
        × (site.matches_localhost u.hostname ≡ false)))
text_guard_example = validate_url_text_iff site page

-- 8.8.8.8
v4_example : (is_public_ip (v4 134744072) ≡ true) ↔ Avoids 134744072 reserved_blocks
v4_example = is_public_ip-v4 134744072

-- fe80::1
v6_example : (is_public_ip (v6 (0xfe80 * 2 ^ 112 + 1)) ≡ true) ↔ (
    (1 < 0xfe80 * 2 ^ 112 + 1)
    × ((0xfe80 * 2 ^ 112 + 1 < 0xfc * 2 ^ 120) ⊎ (0xfe * 2 ^ 120 ≤ 0xfe80 * 2 ^ 112 + 1))
    × ((0xfe80 * 2 ^ 112 + 1 < 0xfe80 * 2 ^ 112) ⊎ (0xfec0 * 2 ^ 112 ≤ 0xfe80 * 2 ^ 112 + 1))
    × (0xfe80 * 2 ^ 112 + 1 < 0xff * 2 ^ 120))
v6_example = is_public_ip-v6 (0xfe80 * 2 ^ 112 + 1) (omega arith) (λ h. absurd (omega (arith, h)))

-- A 304, which has no Location.
not_modified : Answers3xx (replying 304) page
not_modified = record {
  parsed = go_dev;
  parses = refl;
  builds = refl;
  resolves = λ m. (eights, eights_resolve (replying 304) m (bytes "go.dev") refl);
  responds = λ m. record {
    response = record { status = 304; location = []; body = ok []; close_error = none };
    answers = refl;
    from_300 = omega arith;
    to_399 = omega arith;
    no_location = refl;
    body = [];
    reads = refl;
    small = omega arith;
  };
}

repeats_example :
    ((manual_redirect_fetch (replying 304) config page (start page)).0.response.outcome
      ≡ too_many_redirects)
    × ((manual_redirect_fetch (replying 304) config page (start page)).0.requests
        ≡ page ∷ page ∷ page ∷ page ∷ page ∷ page ∷ [])
unfolding ◌+ℤ◌
repeats_example = manual_redirect_fetch_repeats (replying 304) config page not_modified (start page)

unresolved_lem :
    resolve_and_validate unresolved 0 (bytes "go.dev")
    ≡ err (wrap_error (bytes "dns lookup failed: ") (plain_error (bytes "no such host")))
unfolding resolve_and_validate
unresolved_lem = refl

retried_503 :
    should_retry 503 (wrap_error (bytes "dns lookup failed: ") (plain_error (bytes "no such host")))
    ≡ true
unfolding should_retry is_timeout_err
retried_503 = refl

retried_example :
    (s : Run) × (attempt_fetch unresolved config page (after_503, none)
      ≡ retry s (wrap_error (bytes "dns lookup failed: ") (plain_error (bytes "no such host"))))
    × (s.requests ≡ after_503.requests)
retried_example =
    blocked_target_retried unresolved config page go_dev after_503
      (wrap_error (bytes "dns lookup failed: ") (plain_error (bytes "no such host"))) 5 refl refl
      unresolved_lem refl retried_503
