-- ===== src/Fetch/Surface.antt =====
-- The exported methods of FetcherService in internal/fetch/fetcher.go that end in a fetch, and
-- validateURLText, which guards each of them.
pub mod Gate
use source_rudder.Prelude.{
  ℕ, Bool, true, false, ◌&&◌, not, Option, none, some, List, [], ◌∷◌, ◌++◌, ltb, leb, if◌then◌else◌,
  Text, bytes, text_eq, is_empty, join,
}
use source_rudder.Types.{
  Failure, Result, FetchResponse, ok, err, plain_error, wrap_error, Outcome, success,
  blocked_target, http_error,
}
use source_rudder.Fetch.Config.{Config}
use source_rudder.Fetch.World.{Url, World, Run}
use source_rudder.Fetch.Engine.{do_fetch_with_retries}
use source_rudder.Fetch.Engine.Contract.{start}

-- The functions of the extractor, over a page: regular expressions that are not modelled.
pub record Extractor : Type 0 where
  pub article : Text → Text
  pub documentation : Text → Text
  pub main : Text → Text
  pub title : Text → Text
  pub metadata : Text → List (Text × Text)
  pub tables_and_metadata : Text → Text

-- What CheckLinkStatus reports of one URL.
pub record LinkStatus : Type 0 where
  pub url : Text
  pub valid : Bool
  pub status : ℕ
  pub error : Text

abbrev pub is_success : Outcome → Bool
is_success success = true
is_success _ = false

abbrev pub is_http_error : Outcome → Bool
is_http_error http_error = true
is_http_error _ = false

-- The verdict of ValidateURL on the response that it fetched.
pub reachable : FetchResponse → Bool
reachable r =
    if is_http_error r.outcome && leb 400 r.status
    then false
    else if not (is_success r.outcome)
    then false
    else true

-- What a worker of CheckLinkStatus makes of a fetch.
unfoldable pub link_of : Text → Run × Option Failure → LinkStatus
link_of raw (r, e) = record {
  url = raw;
  valid = elim e [ none ↦ ltb r.response.status 400 | some _ ↦ false ];
  status = r.response.status;
  error = if is_success r.response.outcome then [] else join r.response.warnings (bytes "; ");
}

module _ (w : World) where
  -- The error of validateURLText, if it refuses the URL.
  unfoldable pub validate_url_text : Text → Option Failure
  validate_url_text raw =
      if is_empty raw
      then some (plain_error (bytes "URL cannot be empty"))
      else elim (w.parse raw) [
        | err e ↦ some (wrap_error (bytes "invalid URL format: ") e)
        | ok parsed ↦
            if not (text_eq parsed.scheme (bytes "http"))
              && not (text_eq parsed.scheme (bytes "https"))
            then some (
                plain_error (
                  bytes "unsupported scheme: "
                  ++ (parsed.scheme ++ bytes " (only http and https allowed)")))
            else if is_empty parsed.host
            then some (plain_error (bytes "URL must have a host"))
            else if w.matches_localhost parsed.hostname
            then some (
                plain_error (
                  bytes "URL host "
                  ++ (parsed.hostname ++ bytes " is not allowed (internal host)")))
            else none
      ]

  -- The answer to a refused URL: nothing has been done for it.
  abbrev pub refused : Text → Failure → Run × Option Failure
  refused raw e =
      let r = start raw in
      (
        record r {
          response = record (r.response) { outcome = blocked_target; warnings = e.message ∷ [] };
        },
        some e,
      )

  module _ (c : Config) where
    -- FetcherService.Fetch
    pub fetch : Text → Run × Option Failure
    fetch raw = elim (validate_url_text raw) [
      | some e ↦ refused raw e
      | none ↦ do_fetch_with_retries w c raw (start raw)
    ]

    -- FetchAndExtract: a fetch that failed is passed on as it is.
    pub extract_page : Extractor → Text → Run × Option Failure → Run × Option Failure
    extract_page x mode (r, some e) = (r, some e)
    extract_page x mode (r, none) =
        let html = r.response.content in
        let extracted =
          if text_eq mode (bytes "article")
          then x.article html
          else if text_eq mode (bytes "documentation")
          then x.documentation html
          else if text_eq mode (bytes "raw")
          then html
          else x.main html in
        (
          record r {
            response = record (r.response) {
              content = extracted;
              title = x.title html;
              metadata = x.metadata html;
            };
          },
          none,
        )

    pub fetch_and_extract : Extractor → Text → Text → Run × Option Failure
    fetch_and_extract x raw mode = extract_page x mode (fetch raw)

    -- ExtractStructured
    pub structure_page : Extractor → Run × Option Failure → Run × Option Failure
    structure_page x (r, some e) = (r, some e)
    structure_page x (r, none) =
        let html = r.response.content in
        (
          record r {
            response = record (r.response) {
              content = x.tables_and_metadata html;
              metadata = x.metadata html;
            };
          },
          none,
        )

    pub extract_structured : Extractor → Text → Run × Option Failure
    extract_structured x raw = structure_page x (fetch raw)

    -- ValidateURL: the Boolean and the error.
    pub validate_url : Text → Bool × Option Failure
    validate_url raw =
        if is_empty raw
        then (false, some (plain_error (bytes "URL cannot be empty")))
        else elim (validate_url_text raw) [
          | some e ↦ (false, some e)
          | none ↦ (reachable (do_fetch_with_retries w c raw (start raw)).0.response, none)
        ]

    -- A worker of CheckLinkStatus, on one URL, once the pace ticker lets it go on.
    unfoldable pub check_link : Text → LinkStatus
    check_link raw = elim (validate_url_text raw) [
      | some e ↦ record { url = raw; valid = false; status = 0; error = e.message }
      | none ↦ link_of raw (do_fetch_with_retries w c raw (start raw))
    ]
