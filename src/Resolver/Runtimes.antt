-- ===== src/Resolver/Runtimes.antt =====
-- Every active proxy is reachable: its authority leads to its context.
use mathlib.Core.List.{Memᴰ}
use api_gateway_platform.Common.{
  ◌<◌, ◌-◌, String, ◌≡◌, refl, ◌∙◌, true, false, inl, inr, some, List, [], ◌∷◌, map, arith,
  Bool-cases, Option-cases, filter, filter-mem, mem-map, true-and-true, ◌==◌, eq_iff, eq_refl,
}
use api_gateway_platform.Common.Maps.{lookup, lookup-insert}
use api_gateway_platform.Common.Ascii.{to_lower}
use api_gateway_platform.Common.Text.{concat, trim, text_length}
use api_gateway_platform.Common.Results.{ok, >>=-eq-ok}
use api_gateway_platform.Common.Url.{Url, UrlParser}
use api_gateway_platform.Shared.Types.{ProxyConfig}
use api_gateway_platform.Resolver.Registry.{
  Registry, RuntimeTarget, Candidate, registry_key, target_of, authority_of, register_proxy,
  register_all, load_proxies, normalize_authority, resolve_runtime_target, resolve_proxy,
  path_matches, entries_at, sorted_proxy,
}
use api_gateway_platform.Resolver.Best.{IsChosen, resolve_proxy_total, entries_of}
use api_gateway_platform.Resolver.Loading.{
  Registered, register_proxy-Registered, register_proxy_inactive, load_proxies-cases,
  load_proxies-entries, entry_of, is_for,
}

module _ (parse_url : UrlParser) where
  -- The authority `a` leads to the context `key`.
  abbrev Leads : String → String → Candidate → Type 0
  Leads a key c = (t : RuntimeTarget) × (lookup a c.runtimes ≡ some t) × (t.registry_key ≡ key)

  register_proxy-Leads :
      (a key : String) (p : ProxyConfig) (c d : Candidate)
      → register_proxy parse_url p c ≡ ok d
      → Leads a key c
      → Leads a key d
  register_proxy-Leads a key p c d h (t, k, e) = elim (Bool-cases p.active) [
    | inr off ↦ (t, ground (arith, register_proxy_inactive parse_url p c off), e)
    | inl act ↦ step (register_proxy-Registered parse_url p c d act h)
  ]
    where
      step : Registered parse_url p c d → Leads a key d
      step r = elim (Bool-cases (r.authority == a)) [
        | inr other ↦
            (t, ground (arith, r.runtimes, lookup-insert r.authority a (target_of p) c.runtimes), e)
        | inl same ↦ (
          target_of p,
          ground (arith, r.runtimes, lookup-insert r.authority a (target_of p) c.runtimes),
          ground
              (arith, r.same_runtime, eq_iff r.authority a, eq_iff t.registry_key (registry_key p)),
        )
      ]

  register_all-Leads :
      (a key : String) (ps : List ProxyConfig) (c d : Candidate)
      → register_all parse_url ps c ≡ ok d
      → Leads a key c
      → Leads a key d
  unfolding register_all
  register_all-Leads a key [] c d h l = let e : c ≡ d = cc in rw e at l
  register_all-Leads a key (p ∷ ps) c d h l =
      let (x, first, rest) =
        >>=-eq-ok (register_proxy parse_url p c) (λ y. register_all parse_url ps y) h in
      register_all-Leads a key ps x d rest (register_proxy-Leads a key p c x first l)

  register_proxy-Leads_self :
      (a : String) (p : ProxyConfig) (c d : Candidate)
      → register_proxy parse_url p c ≡ ok d
      → p.active ≡ true
      → authority_of parse_url p ≡ ok a
      → Leads a (registry_key p) d
  register_proxy-Leads_self a p c d h act auth =
      let r = register_proxy-Registered parse_url p c d act h in
      let same : r.authority ≡ a = cc (r.authority_known) in
      (
        target_of p,
        ground (
          arith,
          r.runtimes,
          same,
          eq_iff r.authority a,
          lookup-insert r.authority a (target_of p) c.runtimes,
        ),
        refl,
      )

  register_all-Leads_self :
      (a : String) {p : ProxyConfig} (ps : List ProxyConfig) (c d : Candidate)
      → register_all parse_url ps c ≡ ok d
      → Memᴰ p ps
      → p.active ≡ true
      → authority_of parse_url p ≡ ok a
      → Leads a (registry_key p) d
  unfolding register_all
  register_all-Leads_self a [] c d h m act auth = elim m [ ]
  register_all-Leads_self a {p} (q ∷ ps) c d h (Memᴰ.head e) act auth =
      let (x, first, rest) =
        >>=-eq-ok (register_proxy parse_url q c) (λ y. register_all parse_url ps y) h in
      register_all-Leads a (registry_key p) ps x d rest
        (rw e (register_proxy-Leads_self a q c x first (rw e at act) (rw e at auth)))
  register_all-Leads_self a (q ∷ ps) c d h (Memᴰ.tail m) act auth =
      let (x, first, rest) =
        >>=-eq-ok (register_proxy parse_url q c) (λ y. register_all parse_url ps y) h in
      register_all-Leads_self a ps x d rest m act auth

  -- A context whose entries are not empty is found under its own key.
  entries_of-eq-entries_at :
      (key : String) (state : Registry) {x : String × ProxyConfig}
      → Memᴰ x (entries_at key state.by_key)
      → entries_of key state ≡ entries_at key state.by_key
  entries_of-eq-entries_at key state m = elim (Option-cases (lookup key state.by_key)) [
    | inr (es, q) ↦ ground arith
    | inl q ↦ elim (rw (q, entries_at) at m) [ ]
  ]

  -- A request to the host finds the context of `p`, and the path is resolved there to a proxy with
  -- a base path at least as long as that of `p`, the longest of those that match.
  pub record Routes (ps : List ProxyConfig) (state : Registry) (p : ProxyConfig)
      (host path : String) : Type 0 where
    pub target : RuntimeTarget
    pub known : resolve_runtime_target parse_url host state ≡ some target
    pub same_context : target.registry_key ≡ registry_key p
    pub proxy : ProxyConfig
    pub resolved : resolve_proxy (registry_key p) path state ≡ some proxy
    pub chosen :
        IsChosen path
          (map entry_of (filter (is_for (registry_key p)) ps))
          (text_length p.base_path - 1)
          proxy

  load_proxies-Leads :
      (ps : List ProxyConfig) (state : Registry) (p : ProxyConfig) (a : String)
      → (load_proxies parse_url ps state).0 ≡ ok tt
      → Memᴰ p ps
      → p.active ≡ true
      → authority_of parse_url p ≡ ok a
      → (t : RuntimeTarget) × (lookup a (load_proxies parse_url ps state).1.runtimes_by_authority
          ≡ some t)
        × (t.registry_key ≡ registry_key p)
  load_proxies-Leads ps state p a h m act auth = elim (load_proxies-cases parse_url ps state) [
    | inl (e, l) ↦ absurd (cc (rw l at h))
    | inr (c, q, l) ↦
        let (t, k, e) = register_all-Leads_self a ps _ c q m act auth in (t, rw l k, e)
  ]

  resolve_loaded :
      (ps : List ProxyConfig) (state : Registry) (p : ProxyConfig) (path : String)
      → entries_at (registry_key p) state.by_key
        ≡ map entry_of (filter (is_for (registry_key p)) ps)
      → Memᴰ p ps
      → p.active ≡ true
      → path_matches path p.base_path ≡ true
      → 0 < text_length p.base_path
      → (q : ProxyConfig) × (resolve_proxy (registry_key p) path state ≡ some q)
        × IsChosen path
            (map entry_of (filter (is_for (registry_key p)) ps))
            (text_length p.base_path - 1)
            q
  resolve_loaded ps state p path entries m act hit pos =
      let key = registry_key p in
      let kept = filter-mem (is_for key) m (true-and-true _ _ act (eq_refl key)) in
      let listed : Memᴰ (entry_of p) (entries_at key state.by_key) =
        rw entries (mem-map entry_of kept) in
      let same = entries_of-eq-entries_at key state listed ∙ entries in
      let found : Memᴰ (p.base_path, sorted_proxy p) (entries_of key state) =
        rw (entries_of-eq-entries_at key state listed) listed in
      let (q, e, c) =
        resolve_proxy_total path key state p.base_path (sorted_proxy p) found hit pos in
      (q, e, rw same at c)

  -- A host that the parser reads as nothing but a host is looked up in small letters.
  normalize_authority-host :
      (host : String) (url : Url)
      → parse_url (concat ("https://" ∷ trim host ∷ [])) ≡ some url
      → url.username ≡ ""
      → url.password ≡ ""
      → url.pathname ≡ "/"
      → url.search ≡ ""
      → url.hash ≡ ""
      → normalize_authority parse_url host ≡ some (to_lower url.host)
  unfolding normalize_authority
  normalize_authority-host host url parsed user password path search hash =
      rw (parsed, normalize_authority) (rw (user, password, path, search, hash) refl)

  resolve_runtime_target-lookup :
      (host a : String) (state : Registry)
      → normalize_authority parse_url host ≡ some a
      → (a == "") ≡ false
      → resolve_runtime_target parse_url host state ≡ lookup a state.runtimes_by_authority
  unfolding resolve_runtime_target
  resolve_runtime_target-lookup host a state normal some_host =
      rw (normal, resolve_runtime_target) (rw some_host refl)

  -- Routing is complete. After a load that succeeds, take an active proxy whose base path is not
  -- empty, and a request host that parses, behind `https://` and trimmed, to a URL without user,
  -- password, path, query and fragment, whose host in small letters is the proxy's authority and not
  -- empty. A request to this host whose path matches the base path finds the proxy's context, and is
  -- resolved there to a proxy with a base path at least as long, the longest that matches.
  pub load_proxies-Routes :
      (ps : List ProxyConfig) (state : Registry) (p : ProxyConfig) (host path : String) (url : Url)
      → (load_proxies parse_url ps state).0 ≡ ok tt
      → Memᴰ p ps
      → p.active ≡ true
      → parse_url (concat ("https://" ∷ trim host ∷ [])) ≡ some url
      → url.username ≡ ""
      → url.password ≡ ""
      → url.pathname ≡ "/"
      → url.search ≡ ""
      → url.hash ≡ ""
      → (to_lower url.host == "") ≡ false
      → authority_of parse_url p ≡ ok (to_lower url.host)
      → path_matches path p.base_path ≡ true
      → 0 < text_length p.base_path
      → Routes ps (load_proxies parse_url ps state).1 p host path
  load_proxies-Routes ps state p host path url h m act parsed user password root search hash
        some_host auth hit pos =
      let (t, known, same) = load_proxies-Leads ps state p (to_lower url.host) h m act auth in
      elim (load_proxies-entries parse_url ps state (registry_key p)) [
        | inl (e, l) ↦ absurd (cc (rw l at h))
        | inr (_, _, entries) ↦
            let (q, found, c) = resolve_loaded ps _ p path entries m act hit pos in
            record {
              target = t;
              known =
                  resolve_runtime_target-lookup host (to_lower url.host)
                    (load_proxies parse_url ps state).1
                    (normalize_authority-host host url parsed user password root search hash)
                    some_host
                  ∙ known;
              same_context = same;
              proxy = q;
              resolved = found;
              chosen = c;
            }
      ]
