-- ===== src/Tools/Examples.antt =====
-- Two MCP servers of pb-proxy/tool_injection.py with their tools, and the theorems there.
use powerbrain.Base.{
  ◌≡◌, refl, String, true, false, Option, none, some, List, [], ◌∷◌, str_eq, if◌then◌else◌,
}
use powerbrain.Base.Dict.{Dict, lookup}
use powerbrain.Base.Json.{Json, Fields}
use powerbrain.Tools.{
  Server, Tool, ToolEntry, Injector, ClientTool, refresh_all_tools, start, merged, mcp_headers,
  prefixed_tool_name, text, other, call_tool,
}
use powerbrain.Tools.Registry.{IsRegistry, refresh_all_tools-IsRegistry}
use powerbrain.Tools.Merge.{offered, first_of, or_else, lookup-merged}
use powerbrain.Tools.Headers.{mcp_headers-Configured}

abbrev wiki : Server
wiki = record {
  name = "wiki";
  url = "http://wiki";
  auth = "static";
  auth_token_env = some "WIKI_TOKEN";
  prefix = some "wiki";
  required = true;
  tool_whitelist = "read" ∷ [];
  forward_headers = "X-Tenant" ∷ [];
  pii_status = "unscanned";
  pii_scanned_tools = [];
}

abbrev brain : Server
brain = record {
  name = "brain";
  url = "http://brain";
  auth = "bearer";
  auth_token_env = none;
  prefix = some "pb";
  required = false;
  tool_whitelist = [];
  forward_headers = [];
  pii_status = "scanned";
  pii_scanned_tools = [];
}

abbrev tool : String → Tool
tool n = record { name = n; description = ""; input_schema = Json.obj Fields.end }

abbrev discover : Server → Option (List Tool)
discover s = if str_eq s.name "wiki" then some (tool "read" ∷ tool "write" ∷ []) else none

abbrev injector : Injector
injector = record { servers = wiki ∷ brain ∷ []; tools = []; status = [] }

abbrev getenv : String → String
getenv v = if str_eq v "WIKI_TOKEN" then "w" else ""

abbrev client_headers : Dict String
client_headers = ("x-tenant", "acme") ∷ ("cookie", "c") ∷ []

started : (start discover (wiki ∷ brain ∷ [])).1 ≡ true
unfolding start
started = refl

headers_run :
    mcp_headers getenv "" wiki (some "pb_user") client_headers
    ≡ ("Authorization", "Bearer w") ∷ ("X-Tenant", "acme") ∷ []
unfolding mcp_headers
headers_run = refl

-- Two servers may publish the same prefixed name.
prefixes_meet : prefixed_tool_name (some "a") "b_x" ≡ prefixed_tool_name (some "a_b") "x"
unfolding prefixed_tool_name
prefixes_meet = refl

call_run :
    call_tool getenv ""
      (λ cs. "?")
      (λ url headers name args. some (text "one" ∷ other ∷ text "two" ∷ []))
      (record {
        server_name = "wiki";
        original_name = "read";
        schema = Json.null;
        server_config = wiki;
      })
      Json.null
      none
      []
    ≡ some "one\ntwo"
unfolding call_tool
call_run = refl

refresh_all_tools-IsRegistry_example :
    IsRegistry (wiki ∷ brain ∷ []) (refresh_all_tools discover injector).0.tools
refresh_all_tools-IsRegistry_example =
    refresh_all_tools-IsRegistry discover injector (record { unique = tt; routed = tt })

abbrev entry : ToolEntry
entry = record {
  server_name = "wiki";
  original_name = "read";
  schema = Json.str "mcp";
  server_config = wiki;
}

abbrev own : List ClientTool
own =
    record { name = "wiki_read"; tool = Json.str "client" }
    ∷ record { name = "mine"; tool = Json.str "mine" }
    ∷ []

lookup-merged_example :
    lookup "wiki_read" (merged (("wiki_read", entry) ∷ []) own (some ("wiki" ∷ [])))
    ≡ or_else
        (offered (some ("wiki" ∷ [])) (lookup "wiki_read" (("wiki_read", entry) ∷ [])))
        (first_of "wiki_read" own)
lookup-merged_example =
    lookup-merged (("wiki_read", entry) ∷ []) own (some ("wiki" ∷ [])) "wiki_read"
      (unfold lookup in refl, tt)

mcp_headers-Configured_example :
    lookup "cookie" (mcp_headers getenv "" wiki (some "pb_user") client_headers) ≡ none
mcp_headers-Configured_example =
    mcp_headers-Configured getenv "" wiki (some "pb_user") client_headers "cookie" refl refl
