-- ===== src/Mcp/Resources.antt =====
-- internal/mcp/resources.go: HandleResourcesList and HandleResourcesRead.
use source_rudder.Prelude.{
  Option, none, some, List, [], ◌∷◌, ◌++◌, map, if◌then◌else◌, Text, bytes, text_eq, is_empty,
}
use source_rudder.Types.{Result, ok, err, plain_error, wrap_error}

pub record Resource : Type 0 where
  pub uri : Text
  pub name : Text
  pub description : Text
  pub mime_type : Text
  pub text : Text

-- What resources/list shows of a resource.
pub record Listed : Type 0 where
  pub uri : Text
  pub name : Text
  pub description : Text
  pub mime_type : Text

unfoldable pub handle_resources_list : List Resource → List Listed
handle_resources_list =
    map λ r. record {
      uri = r.uri;
      name = r.name;
      description = r.description;
      mime_type = r.mime_type;
    }

-- The loop over the registry.
unfoldable pub find_resource : Text → List Resource → Option Resource
find_resource uri [] = none
find_resource uri (r ∷ rs) = if text_eq r.uri uri then some r else find_resource uri rs

-- The first argument is strings.TrimSpace, the second what json.Unmarshal made of the parameters.
unfoldable pub handle_resources_read : (Text → Text) → Result Text → List Resource → Result Resource
handle_resources_read trim_space (err e) registry = err (wrap_error (bytes "invalid params: ") e)
handle_resources_read trim_space (ok uri) registry =
    if is_empty (trim_space uri)
    then err (plain_error (bytes "uri is required"))
    else elim (find_resource uri registry) [
      | none ↦ err (plain_error (bytes "resource not found: " ++ uri))
      | some r ↦ ok r
    ]
