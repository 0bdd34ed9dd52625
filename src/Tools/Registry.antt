-- ===== src/Tools/Registry.antt =====
-- The table of tools that a ToolInjector of pb-proxy/tool_injection.py keeps.
use mathlib.Core.List.{Memᴰ}
use powerbrain.Base.{
  ◌≡◌, ◌≢◌, ◌↔◌, refl, inl, inr, String, Bool, true, false, Option, List, [], ◌∷◌, eq_iff, str_eq,
  Bool-cases, Option-cases, All,
}
use powerbrain.Base.Dict.{Dict, insert}
use powerbrain.Base.Unique.{Unique, Unique-insert}
use powerbrain.Tools.{
  Server, Tool, ToolEntry, Injector, prefixed_tool_name, listed, entry_of, discovered, add_all,
  refresh_servers, settle, refresh_all_tools,
}

module _ (servers : List Server) where
  -- A tool stands under its prefixed name, is one that its server's whitelist lets through, and
  -- its server is configured.
  pub record IsRouted (p : String × ToolEntry) : Type 0 where
    pub named : p.0 ≡ prefixed_tool_name p.1.server_config.prefix p.1.original_name
    pub whitelisted : listed p.1.server_config p.1.original_name ≡ true
    pub owner : p.1.server_name ≡ p.1.server_config.name
    pub configured : Memᴰ p.1.server_config servers

  pub record IsRegistry (d : Dict ToolEntry) : Type 0 where
    pub unique : Unique d
    pub routed : All IsRouted d

  All-insert :
      (n : String) (e : ToolEntry) (d : Dict ToolEntry)
      → IsRouted (n, e)
      → All IsRouted d
      → All IsRouted (insert n e d)
  unfolding insert
  All-insert n e [] r h = (r, tt)
  All-insert n e ((m, f) ∷ d) r h = elim (Bool-cases (str_eq m n)) [
    | inl y ↦ rw (y, (eq_iff m n).0 y) (r, h.1)
    | inr y ↦ rw y (h.0, All-insert n e d r h.1)
  ]

  insert-IsRegistry :
      (n : String) (e : ToolEntry) (d : Dict ToolEntry)
      → IsRouted (n, e)
      → IsRegistry d
      → IsRegistry (insert n e d)
  insert-IsRegistry n e d r h = record {
    unique = Unique-insert n e d h.unique;
    routed = All-insert n e d r h.routed;
  }

  empty-IsRegistry : IsRegistry []
  empty-IsRegistry = record { unique = tt; routed = tt }

  discovered-IsRegistry :
      (server : Server) (ts : List Tool) (d : Dict ToolEntry)
      → Memᴰ server servers
      → IsRegistry d
      → IsRegistry (discovered server ts d)
  unfolding discovered
  discovered-IsRegistry server [] d m h = h
  discovered-IsRegistry server (t ∷ ts) d m h = elim (Bool-cases (listed server t.name)) [
    | inl y ↦ rw y (
        discovered-IsRegistry server ts
          (insert (prefixed_tool_name server.prefix t.name) (entry_of server t) d) m
          (insert-IsRegistry (prefixed_tool_name server.prefix t.name) (entry_of server t) d
            (record { named = refl; whitelisted = y; owner = refl; configured = m }) h))
    | inr y ↦ rw y (discovered-IsRegistry server ts d m h)
  ]

  add_all-IsRegistry :
      (es d : Dict ToolEntry) → All IsRouted es → IsRegistry d → IsRegistry (add_all es d)
  unfolding add_all
  add_all-IsRegistry [] d r h = h
  add_all-IsRegistry ((n, e) ∷ es) d r h =
      add_all-IsRegistry es (insert n e d) r.1 (insert-IsRegistry n e d r.0 h)

  refresh_servers-IsRegistry :
      (discover : Server → Option (List Tool)) (ss : List Server) (d : Dict ToolEntry)
      (status : Dict Bool)
      → All (λ s. Memᴰ s servers) ss
      → IsRegistry d
      → IsRegistry (refresh_servers discover ss (d, status)).0
  unfolding refresh_servers
  refresh_servers-IsRegistry discover [] d status m h = h
  refresh_servers-IsRegistry discover (s ∷ ss) d status m h = elim (Option-cases (discover s)) [
    | inl e ↦
        rw (e, refresh_servers)
          (refresh_servers-IsRegistry discover ss d (insert s.name false status) m.1 h)
    | inr (ts, e) ↦
        rw (e, refresh_servers)
          (refresh_servers-IsRegistry discover ss (add_all (discovered s ts []) d)
            (insert s.name true status) m.1
            (add_all-IsRegistry (discovered s ts []) d
              (discovered-IsRegistry s ts [] m.0 empty-IsRegistry).routed h))
  ]

  settle-IsRegistry :
      (new : Dict ToolEntry) (status : Dict Bool) (old : Dict ToolEntry) (s : Injector)
      → IsRegistry new
      → IsRegistry s.tools
      → IsRegistry (settle new status old s).0.tools
  settle-IsRegistry [] status [] s h k = k
  settle-IsRegistry [] status (e ∷ es) s h k = k
  settle-IsRegistry (t ∷ ts) status old s h k = h

All-in : {A : Type 0} (xs ys : List A) → ((x : A) → Memᴰ x xs → Memᴰ x ys) → All (λ x. Memᴰ x ys) xs
All-in [] ys f = tt
All-in (x ∷ xs) ys f = (f x (Memᴰ.head refl), All-in xs ys (λ y m. f y (Memᴰ.tail m)))

-- In the table that a refresh leaves, no name stands twice, every tool stands under its prefixed
-- name, its server's whitelist lets it through, and its server is one of the configuration, if
-- this holds of the table before, whichever servers fail.
pub refresh_all_tools-IsRegistry :
    (discover : Server → Option (List Tool)) (s : Injector)
    → IsRegistry s.servers s.tools
    → IsRegistry s.servers (refresh_all_tools discover s).0.tools
unfolding refresh_all_tools
refresh_all_tools-IsRegistry discover s h =
    let r = refresh_servers discover s.servers ([], s.status) in
    settle-IsRegistry s.servers r.0 r.1 s.tools s
      (refresh_servers-IsRegistry s.servers discover s.servers [] s.status
        (All-in s.servers s.servers (λ x m. m)) (empty-IsRegistry s.servers))
      h

settle-available :
    (new : Dict ToolEntry) (status : Dict Bool) (old : Dict ToolEntry) (s : Injector)
    → s.tools ≡ old
    → (((settle new status old s).1 ≡ false) ↔ ((settle new status old s).0.tools ≡ []))
      × (s.tools ≢ [] → (settle new status old s).1 ≡ true)
settle-available [] status [] s e = ((λ h. e, λ h. refl), λ n. absurd (n e))
settle-available [] status (x ∷ xs) s e = ((λ h. cc, λ h. cc), λ n. refl)
settle-available (t ∷ ts) status old s e = ((λ h. cc, λ h. cc), λ n. refl)

-- A refresh raises exactly if it leaves no tools; if there were tools before, it does not raise.
pub refresh_all_tools-available :
    (discover : Server → Option (List Tool)) (s : Injector)
    → (((refresh_all_tools discover s).1 ≡ false) ↔ ((refresh_all_tools discover s).0.tools ≡ []))
      × (s.tools ≢ [] → (refresh_all_tools discover s).1 ≡ true)
unfolding refresh_all_tools
refresh_all_tools-available discover s =
    let r = refresh_servers discover s.servers ([], s.status) in
    settle-available r.0 r.1 s.tools s refl
