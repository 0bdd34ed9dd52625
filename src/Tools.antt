-- ===== src/Tools.antt =====
-- pb-proxy/tool_injection.py: the tools of the MCP servers, their discovery, their headers, their
-- merge with the client's tools and the call of one. The environment's variables, MCP_AUTH_TOKEN
-- and the sessions with the servers are arguments. A list that is None counts as empty, as it does
-- in the source; the texts of log lines are left out.
mod Registry
mod Merge
mod Headers
mod Examples
use Prim.Native.String.{◌++◌}
use powerbrain.Base.{
  ℕ, String, Bool, true, false, ◌&&◌, ◌||◌, not, Option, none, some, List, [], ◌∷◌, nat_beq, str_eq,
  truthy, contains, get_or, map, if◌then◌else◌,
}
use powerbrain.Base.Dict.{Dict, lookup, insert}
use powerbrain.Base.Json.{Json, Items, Fields, truth}
use powerbrain.Base.Text.{lower, starts_with}

-- McpServerConfig of pb-proxy/mcp_config.py
pub record Server : Type 0 where
  pub name : String
  pub url : String
  pub auth : String
  pub auth_token_env : Option String
  pub prefix : Option String
  pub required : Bool
  pub tool_whitelist : List String
  pub forward_headers : List String
  pub pii_status : String
  pub pii_scanned_tools : List String

pub record ToolEntry : Type 0 where
  pub server_name : String
  pub original_name : String
  pub schema : Json
  pub server_config : Server

unfoldable pub needs_pii_scan : ToolEntry → Bool
needs_pii_scan e =
    if str_eq e.server_config.pii_status "scanned"
    then false
    else if str_eq e.server_config.pii_status "mixed"
    then not (contains e.original_name e.server_config.pii_scanned_tools)
    else true

-- `headers["Authorization"] = f"Bearer {token}"`, if there is a token.
abbrev pub bearer : String → Dict String
bearer token = if truthy token then ("Authorization", "Bearer " ++ token) ∷ [] else []

abbrev pub static_token : (String → String) → Option String → Dict String
static_token getenv none = []
static_token getenv (some v) = if truthy v then bearer (getenv v) else []

-- `user_token or config.MCP_AUTH_TOKEN`
abbrev pub user_or : Option String → String → String
user_or none default = default
user_or (some t) default = if truthy t then t else default

pub auth_headers : (String → String) → String → Server → Option String → Dict String
auth_headers getenv mcp_auth_token server user_token =
    if str_eq server.auth "bearer"
    then bearer (user_or user_token mcp_auth_token)
    else if str_eq server.auth "static"
    then static_token getenv server.auth_token_env
    else []

abbrev pub put_value : String → Option String → Dict String → Dict String
put_value h none d = d
put_value h (some v) d = if truthy v then insert h v d else d

-- Without client headers nothing is found, and nothing is forwarded.
pub forward : List String → Dict String → Dict String → Dict String
unfolding lookup lower insert
forward [] client d = d
forward (h ∷ hs) client d = forward hs client (put_value h (lookup (lower h) client) d)

pub mcp_headers : (String → String) → String → Server → Option String → Dict String → Dict String
unfolding auth_headers forward
mcp_headers getenv mcp_auth_token server user_token client =
    forward server.forward_headers client (auth_headers getenv mcp_auth_token server user_token)

pub prefixed_tool_name : Option String → String → String
unfolding starts_with
prefixed_tool_name none name = name
prefixed_tool_name (some p) name =
    if not (truthy p) || starts_with (p ++ "_") name then name else (p ++ "_") ++ name

-- A tool as the session lists it.
pub record Tool : Type 0 where
  pub name : String
  pub description : String
  pub input_schema : Json

pub mcp_tool_to_openai : Tool → Option String → Json
unfolding prefixed_tool_name
mcp_tool_to_openai t prefix = Json.obj (
    Fields.field "type" (Json.str "function") (
      Fields.field "function"
        (Json.obj (
          Fields.field "name" (Json.str (prefixed_tool_name prefix t.name)) (
            Fields.field "description" (Json.str t.description) (
              Fields.field "parameters"
                (if truth t.input_schema
                  then t.input_schema
                  else Json.obj (Fields.field "type" (Json.str "object") Fields.end))
                Fields.end))))
        Fields.end))

-- `server.tool_whitelist and tool.name not in server.tool_whitelist`
abbrev pub listed : Server → String → Bool
listed server name = elim server.tool_whitelist [ [] ↦ true | x ∷ xs ↦ contains name (x ∷ xs) ]

abbrev pub entry_of : Server → Tool → ToolEntry
entry_of server t = record {
  server_name = server.name;
  original_name = t.name;
  schema = mcp_tool_to_openai t server.prefix;
  server_config = server;
}

-- `_discover_server_tools`, over the tools that the session lists.
pub discovered : Server → List Tool → Dict ToolEntry → Dict ToolEntry
unfolding insert mcp_tool_to_openai
discovered server [] d = d
discovered server (t ∷ ts) d = discovered server ts (
    if listed server t.name
    then insert (prefixed_tool_name server.prefix t.name) (entry_of server t) d
    else d)

-- The state of a ToolInjector.
pub record Injector : Type 0 where
  pub servers : List Server
  pub tools : Dict ToolEntry
  pub status : Dict Bool

-- The tools of one server join those of the servers before it.
pub add_all : Dict ToolEntry → Dict ToolEntry → Dict ToolEntry
unfolding insert
add_all [] d = d
add_all ((n, e) ∷ es) d = add_all es (insert n e d)

-- The loop over the servers; `none` is an exception on the way to the tools.
pub refresh_servers :
    (Server → Option (List Tool))
    → List Server
    → Dict ToolEntry × Dict Bool
    → Dict ToolEntry × Dict Bool
unfolding discovered add_all
refresh_servers discover [] r = r
refresh_servers discover (server ∷ rest) (d, status) = elim (discover server) [
  | none ↦ refresh_servers discover rest (d, insert server.name false status)
  | some ts ↦
      refresh_servers discover rest
        (add_all (discovered server ts []) d, insert server.name true status)
]

-- `_refresh_all_tools`: the new tools and status, the old tools; the flag is false if it raises.
abbrev pub settle : Dict ToolEntry → Dict Bool → Dict ToolEntry → Injector → Injector × Bool
settle [] status [] s = (record s { status = status }, false)
settle [] status (e ∷ es) s = (record s { status = status }, true)
settle (t ∷ ts) status old s = (record s { tools = t ∷ ts; status = status }, true)

pub refresh_all_tools : (Server → Option (List Tool)) → Injector → Injector × Bool
unfolding refresh_servers
refresh_all_tools discover s =
    let (tools, status) = refresh_servers discover s.servers ([], s.status) in
    settle tools status s.tools s

-- The check of `start`: a required server has been reached.
required_reached : List Server → Dict Bool → Bool
unfolding lookup
required_reached [] status = true
required_reached (s ∷ ss) status =
    not (s.required && not (get_or (lookup s.name status) false)) && required_reached ss status

pub start : (Server → Option (List Tool)) → List Server → Injector × Bool
unfolding refresh_all_tools required_reached
start discover servers =
    let (s, ok) =
      refresh_all_tools discover (record { servers = servers; tools = []; status = [] }) in
    (s, ok && required_reached s.servers s.status)

-- A tool of the client, with the name that is read from it; "" if there is none.
pub record ClientTool : Type 0 where
  pub name : String
  pub tool : Json

abbrev pub permitted : Option (List String) → ToolEntry → Bool
permitted none e = true
permitted (some servers) e = contains e.server_name servers

pub merge_mcp : Option (List String) → Dict ToolEntry → Dict Json → Dict Json
unfolding insert
merge_mcp allowed [] d = d
merge_mcp allowed ((n, e) ∷ es) d =
    merge_mcp allowed es (if permitted allowed e then insert n e.schema d else d)

abbrev pub new_name : String → Dict Json → Bool
new_name n d = truthy n && elim (lookup n d) [ none ↦ true | some v ↦ false ]

pub merge_client : List ClientTool → Dict Json → Dict Json
unfolding insert lookup
merge_client [] d = d
merge_client (t ∷ ts) d = merge_client ts (if new_name t.name d then insert t.name t.tool d else d)

-- The dict `result` of `merge_tools`, and its values.
pub merged : Dict ToolEntry → List ClientTool → Option (List String) → Dict Json
unfolding merge_mcp merge_client
merged tools client allowed = merge_client client (merge_mcp allowed tools [])

merge_tools : Injector → List ClientTool → Option (List String) → List Json
unfolding merged
merge_tools s client allowed = map (λ (p : String × Json). p.1) (merged s.tools client allowed)

abbrev lowered : List String → List String → List String
lowered [] rest = rest
lowered (h ∷ hs) rest = lower h ∷ lowered hs rest

-- `forwardable_headers`, a set as the list of its members.
forwardable_headers : List Server → List String
unfolding lower
forwardable_headers [] = []
forwardable_headers (s ∷ ss) = lowered s.forward_headers (forwardable_headers ss)

pub resolve_tool : Injector → String → Option ToolEntry
unfolding lookup
resolve_tool s name = lookup name s.tools

-- A piece of a result: a text, or something without one.
pub data Content : Type 0 where
  text : String → Content
  other : Content

pub texts : List Content → List String
texts [] = []
texts (text s ∷ cs) = s ∷ texts cs
texts (other ∷ cs) = texts cs

join_lines : List String → String
join_lines [] = ""
join_lines (s ∷ []) = s
join_lines (s ∷ t ∷ ts) = s ++ ("\n" ++ join_lines (t ∷ ts))

abbrev rendered : (List Content → String) → List Content → String
rendered repr cs = elim (texts cs) [ [] ↦ repr cs | s ∷ ss ↦ join_lines (s ∷ ss) ]

-- `call_tool`: the session takes the URL, the headers, the name and the arguments; `none` is an
-- exception. `repr` is Python's `str` of the contents.
pub call_tool :
    (String → String)
    → String
    → (List Content → String)
    → (String → Dict String → String → Json → Option (List Content))
    → ToolEntry
    → Json
    → Option String
    → Dict String
    → Option String
unfolding mcp_headers texts join_lines
call_tool getenv mcp_auth_token repr session e arguments user_token client =
    elim (session e.server_config.url
      (mcp_headers getenv mcp_auth_token e.server_config user_token client) e.original_name
      arguments) [ none ↦ none | some cs ↦ some (rendered repr cs) ]
