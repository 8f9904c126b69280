-- ===== src/Mcp/Tests.antt =====
-- The theorems on the server with one connector, which finds nothing.
use source_rudder.Mcp.Http.{HttpRequest}
use source_rudder.Prelude.{
  ℕ, suc, ◌≡◌, refl, true, false, none, some, List, [], ◌∷◌, pos, Text, bytes, is_empty,
}
use source_rudder.Types.{SearchRequest, ok, no_response}
use source_rudder.Cache.{new_service}
use source_rudder.History.{new_history_service}
use source_rudder.Search.Manager.{Connector}
use source_rudder.Fetch.World.{World}
use source_rudder.Mcp.State.{Shared, Server, State, Outside, cached_reply}
use source_rudder.Mcp.Search.{make_search_handler}
use source_rudder.Mcp.Search.Recorded.{Logged, make_search_handler-Logged}
use source_rudder.Mcp.Stateful.{make_get_cached_handler, make_invalidate_cache_handler}
use source_rudder.Mcp.Stateful.Answers.{get_cached_after_invalidate}
use source_rudder.Mcp.Resources.{Resource}
use source_rudder.Mcp.Rpc.{RpcRequest, Params}

abbrev request : SearchRequest
request = record {
  query = bytes "go";
  sources = [];
  max_results = pos 0;
  language = [];
  safe_search = false;
  time_range = [];
  format = [];
  cache_policy = [];
  deep_research = false;
  filters = [];
}

abbrev world : World
world = record {
  parse = λ raw. ok (record { scheme = bytes "https"; host = raw; hostname = raw });
  resolve_reference = λ _ _. [];
  matches_localhost = λ _. false;
  lookup_ip = λ _ _. ok [];
  ip_text = λ _. [];
  request_error = λ _. none;
  reuses = λ _. false;
  dial_error = λ _ e. e;
  exchange = λ _ _. ok (record { status = 200; location = []; body = ok []; close_error = none });
  context_error = λ _. none;
  await_slot = λ _. none;
  await_timer = λ _ _. none;
}

-- The outside is a clock.
abbrev pub outside : Outside ℕ
outside = record {
  tick = λ n. (pos n, suc n);
  open_world = λ n. (world, n);
  search_args = λ _. ok request;
  fetch_args = λ args. ok (args, []);
  validate_args = λ args. ok (args, args ∷ []);
  synthesis_args = λ args. ok (record { query = args; results = [] });
  key_args = λ args. ok args;
  history_args = λ args. ok (pos 1, args);
  format_result = λ _. bytes "{}";
  planner_runtime = record { to_lower = λ s. s; arrange = λ m. m };
  synthesis_runtime = record {
    to_lower = λ s. s;
    fields = λ s. s ∷ [];
    arrange_themes = λ m. m;
    arrange_categories = λ m. m;
    arrange_counts = λ m. m;
    sort_themes = λ ts. ts;
  };
  extractor = record {
    article = λ s. s;
    documentation = λ s. s;
    main = λ s. s;
    title = λ _. [];
    metadata = λ _. [];
    tables_and_metadata = λ s. s;
  };
  config = record {
    user_agent = [];
    timeout_ms = pos 1;
    max_redirects = pos 5;
    max_attempts = pos 3;
    base_backoff = pos 1;
  };
}

abbrev web : Connector (Shared ℕ)
web = record {
  name = bytes "web";
  search = λ shared req. (shared, ok (record no_response { query = req.query }));
  search_pr = none;
  search_issue = none;
}

abbrev guide : Resource
guide = record {
  uri = bytes "agent-guide://sourcerudder/wire-contract";
  name = bytes "sourcerudder-wire-contract";
  description = [];
  mime_type = bytes "text/markdown";
  text = bytes "guide";
}

abbrev pub server : Server ℕ
server = record {
  connector_manager = some ((bytes "web", web) ∷ []);
  planner = true;
  synthesis = true;
  resources_registry = guide ∷ [];
}

abbrev pub idle : State ℕ
idle = record {
  shared = record { outside = 7; cache = new_service (pos 60) };
  history = some (new_history_service (pos 2));
  tool_calls = [];
  latencies = [];
  http_requests = [];
}

abbrev pub params : Params
params = record {
  version = λ p. p;
  call = λ p. ok (bytes "get_current_date", p);
  uri = λ p. ok p;
  trim_space = λ s. s;
}

-- A ping, a notification, and an unknown method.
abbrev batch : List RpcRequest
batch =
    record { id = some (bytes "1"); method = bytes "ping"; params = [] }
    ∷ record { id = none; method = bytes "tools/call"; params = [] }
    ∷ record { id = some (bytes "2"); method = bytes "unknown"; params = [] }
    ∷ []

search_history_example :
    Logged
      (bytes "web")
      idle.history
      (make_search_handler outside server (bytes "web") idle (bytes "{}")).0.history
      (make_search_handler outside server (bytes "web") idle (bytes "{}")).1
search_history_example = make_search_handler-Logged outside server (bytes "web") (bytes "{}") idle

not_empty : is_empty (bytes "key") ≡ false
unfolding bytes
not_empty = refl

invalidate_example :
    (make_get_cached_handler outside server
      (make_invalidate_cache_handler outside server idle (bytes "key")).0
      (bytes "key")).1
    ≡ ok (cached_reply none)
invalidate_example =
    get_cached_after_invalidate outside server (bytes "key") (bytes "key") idle
      (make_invalidate_cache_handler outside server idle (bytes "key")).0 refl not_empty refl

abbrev pub plain : Text → Text → Text
plain random key = key

-- A call without credentials.
abbrev pub bare : HttpRequest
bare = record {
  method = bytes "POST";
  path = bytes "/mcp";
  credentials = record { x_api_key = []; authorization = [] };
  versions = none;
  mux_answer = none;
  scraped = 200;
  body = ok (record { id = none; method = bytes "tools/call"; params = [] });
  too_large = false;
}
