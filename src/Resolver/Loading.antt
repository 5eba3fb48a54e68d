-- ===== src/Resolver/Loading.antt =====
-- What `loadProxies` leaves in the registry.
use mathlib.Core.List.{append_assoc, append-nil}
use api_gateway_platform.Common.{
  suc, ◌+◌, String, ◌≡◌, refl, ◌∙◌, sym, ap, Bool, true, false, ◌&&◌, ◌⊎◌, inl, inr, List, [], ◌∷◌,
  ◌++◌, map, arith, if◌then◌else◌, Bool-cases, filter, length, length-append, ◌==◌, eq_iff,
}
use api_gateway_platform.Common.Maps.{lookup, insert, has, lookup-insert}
use api_gateway_platform.Common.Results.{ok, err, >>=-eq-ok, Result-cases}
use api_gateway_platform.Common.Url.{UrlParser}
use api_gateway_platform.Shared.Types.{ProxyConfig}
use api_gateway_platform.Resolver.Registry.{
  Registry, Entries, LoadError, Candidate, entries_at, registry_key, sorted_proxy, authority_of,
  target_of, other_runtime, register_proxy, register_all, load_proxies, size_from,
  get_registry_size,
}

-- Inserting a new key appends.
insert_new :
    {V : Type 0} (k : String) (v : V) (m : List (String × V))
    → has k m ≡ false
    → insert k v m ≡ m ++ (k, v) ∷ []
insert_new k v [] h = refl
insert_new k v ((j, w) ∷ m) h = ground (arith, insert_new k v m)

length-insert_new :
    {V : Type 0} (k : String) (v : V) (m : List (String × V))
    → has k m ≡ false
    → length (insert k v m) ≡ suc (length m)
length-insert_new k v m h = rw insert_new (omega (arith, length-append m ((k, v) ∷ [])))

entries_at-insert :
    (key k : String) (m : Entries) (reg : List (String × Entries))
    → entries_at k (insert key m reg) ≡ (if key == k then m else entries_at k reg)
entries_at-insert key k m reg = ground (arith, lookup-insert key k m reg)

size_from-insert :
    (key : String) (m : Entries) (reg : List (String × Entries))
    → size_from (insert key m reg) + length (entries_at key reg) ≡ size_from reg + length m
size_from-insert key m [] = omega arith
size_from-insert key m ((k, es) ∷ reg) = ground (arith, size_from-insert key m reg)

module _ (parse_url : UrlParser) where
  -- What a round of the loop did, for an active proxy.
  pub record Registered (p : ProxyConfig) (c d : Candidate) : Type 0 where
    pub authority : String
    pub authority_known : authority_of parse_url p ≡ ok authority
    pub same_runtime :
        other_runtime parse_url (registry_key p) (lookup authority c.runtimes) ≡ false
    pub new_path : has p.base_path (entries_at (registry_key p) c.registry) ≡ false
    pub registry :
        d.registry
        ≡ insert
            (registry_key p)
            (insert p.base_path (sorted_proxy p) (entries_at (registry_key p) c.registry))
            c.registry
    pub runtimes : d.runtimes ≡ insert authority (target_of p) c.runtimes

  pub register_proxy-Registered :
      (p : ProxyConfig) (c d : Candidate)
      → p.active ≡ true
      → register_proxy parse_url p c ≡ ok d
      → Registered p c d
  unfolding register_proxy
  register_proxy-Registered p c d act h = elim (Result-cases (authority_of parse_url p)) [
    | inr (e, q) ↦ absurd (ground arith)
    | inl (a, q) ↦ record {
      authority = a;
      authority_known = q;
      same_runtime = ground arith;
      new_path = ground arith;
      registry = ground arith;
      runtimes = ground arith;
    }
  ]

  pub register_proxy_inactive :
      (p : ProxyConfig) (c : Candidate) → p.active ≡ false → register_proxy parse_url p c ≡ ok c
  unfolding register_proxy
  register_proxy_inactive p c h = ground arith

-- The entry that an active proxy adds to the context `key`, under its base path.
abbrev pub entry_of : ProxyConfig → String × ProxyConfig
entry_of p = (p.base_path, sorted_proxy p)

abbrev pub is_for : String → ProxyConfig → Bool
is_for key p = p.active && registry_key p == key

abbrev pub is_active : ProxyConfig → Bool
is_active p = p.active

module _ (parse_url : UrlParser) where
  register_proxy-entries :
      (key : String) (p : ProxyConfig) (c d : Candidate)
      → register_proxy parse_url p c ≡ ok d
      → entries_at key d.registry
        ≡ entries_at key c.registry ++ map entry_of (filter (is_for key) (p ∷ []))
  register_proxy-entries key p c d h = elim (Bool-cases p.active) [
    | inr off ↦
        ground
          (arith, register_proxy_inactive parse_url p c off, append-nil (entries_at key c.registry))
    | inl act ↦
        let r = register_proxy-Registered parse_url p c d act h in
        ground (
          arith,
          act,
          r.registry,
          r.new_path,
          eq_iff (registry_key p) key,
          append-nil (entries_at key c.registry),
          entries_at-insert (registry_key p) key
              (insert p.base_path (sorted_proxy p) (entries_at (registry_key p) c.registry))
              c.registry,
          insert_new p.base_path (sorted_proxy p) (entries_at (registry_key p) c.registry),
        )
  ]

  register_all-entries :
      (key : String) (ps : List ProxyConfig) (c d : Candidate)
      → register_all parse_url ps c ≡ ok d
      → entries_at key d.registry
        ≡ entries_at key c.registry ++ map entry_of (filter (is_for key) ps)
  unfolding register_all
  register_all-entries key [] c d h = let e : c ≡ d = cc in rw e (sym (append-nil _))
  register_all-entries key (p ∷ ps) c d h =
      let (e, first, rest) =
        >>=-eq-ok (register_proxy parse_url p c) (λ x. register_all parse_url ps x) h in
      register_all-entries key ps e d rest
      ∙ ap (λ l. l ++ map entry_of (filter (is_for key) ps))
          (register_proxy-entries key p c e first)
      ∙ append_assoc (entries_at key c.registry) (map entry_of (filter (is_for key) (p ∷ []))) _
      ∙ ap (λ l. entries_at key c.registry ++ l) (sym (map-filter-cons p ps))
    where
      map-filter-cons :
          (x : ProxyConfig) (xs : List ProxyConfig)
          → map entry_of (filter (is_for key) (x ∷ xs))
            ≡ map entry_of (filter (is_for key) (x ∷ [])) ++ map entry_of (filter (is_for key) xs)
      map-filter-cons x xs = ground arith

  pub load_proxies-cases :
      (ps : List ProxyConfig) (state : Registry)
      → ((e : LoadError) × (load_proxies parse_url ps state ≡ (err e, state)))
        ⊎ ((c : Candidate) × (register_all parse_url ps (record { registry = []; runtimes = [] })
              ≡ ok c)
            × (load_proxies parse_url ps state ≡ (
              ok tt,
              record {
                by_key = c.registry;
                runtimes_by_authority = c.runtimes;
                initialized = true;
              },
            )))
  unfolding load_proxies
  load_proxies-cases ps state =
      elim (Result-cases (register_all parse_url ps (record { registry = []; runtimes = [] }))) [
        | inr (e, q) ↦ inl (e, rw (q, load_proxies))
        | inl (c, q) ↦ inr (c, q, rw (q, load_proxies))
      ]

  -- `loadProxies` either throws, and the registry is as it was, or replaces it by one that has for
  -- every context exactly its active proxies, in their order, with their endpoints sorted.
  pub load_proxies-entries :
      (ps : List ProxyConfig) (state : Registry) (key : String)
      → ((e : LoadError) × (load_proxies parse_url ps state ≡ (err e, state)))
        ⊎ (((load_proxies parse_url ps state).0 ≡ ok tt)
            × ((load_proxies parse_url ps state).1.initialized ≡ true)
            × (entries_at key (load_proxies parse_url ps state).1.by_key
                ≡ map entry_of (filter (is_for key) ps)))
  load_proxies-entries ps state key = elim (load_proxies-cases ps state) [
    | inl (e, q) ↦ inl (e, q)
    | inr (c, q, l) ↦ inr (rw l, rw l, rw l (register_all-entries key ps _ c q))
  ]

  register_proxy-size :
      (p : ProxyConfig) (c d : Candidate)
      → register_proxy parse_url p c ≡ ok d
      → size_from d.registry ≡ size_from c.registry + length (filter is_active (p ∷ []))
  register_proxy-size p c d h = elim (Bool-cases p.active) [
    | inr off ↦ ground (arith, register_proxy_inactive parse_url p c off)
    | inl act ↦
        let r = register_proxy-Registered parse_url p c d act h in
        let here = entries_at (registry_key p) c.registry in
        ground (
          arith,
          act,
          r.registry,
          r.new_path,
          size_from-insert (registry_key p) (insert p.base_path (sorted_proxy p) here) c.registry,
          length-insert_new p.base_path (sorted_proxy p) here r.new_path,
        )
  ]

  register_all-size :
      (ps : List ProxyConfig) (c d : Candidate)
      → register_all parse_url ps c ≡ ok d
      → size_from d.registry ≡ size_from c.registry + length (filter is_active ps)
  unfolding register_all
  register_all-size [] c d h = let e : c ≡ d = cc in rw e (omega arith)
  register_all-size (p ∷ ps) c d h =
      let (e, first, rest) =
        >>=-eq-ok (register_proxy parse_url p c) (λ x. register_all parse_url ps x) h in
      ground (arith, register_all-size ps e d rest, register_proxy-size p c e first)

  -- After a load that succeeds the registry counts exactly the active proxies: none is dropped and
  -- none is counted twice.
  pub get_registry_size-load_proxies :
      (ps : List ProxyConfig) (state : Registry)
      → (load_proxies parse_url ps state).0 ≡ ok tt
      → get_registry_size (load_proxies parse_url ps state).1 ≡ length (filter is_active ps)
  unfolding get_registry_size
  get_registry_size-load_proxies ps state h = elim (load_proxies-cases ps state) [
    | inl (e, q) ↦ absurd (cc (rw q at h))
    | inr (c, q, l) ↦ rw l (omega (arith, register_all-size ps _ c q))
  ]
