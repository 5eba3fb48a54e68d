-- ===== src/Resolver/Best.antt =====
-- `resolveProxy` picks the longest matching base path.
use mathlib.Core.List.{Memᴰ}
use api_gateway_platform.Common.{
  ℕ, ◌≤◌, ◌<◌, ◌-◌, String, ◌≡◌, refl, true, false, ◌&&◌, ◌⊎◌, inl, inr, Option, none, some, [],
  ◌∷◌, arith, ltb, ltb→lt, Bool-cases, and-eq-true,
}
use api_gateway_platform.Common.Text.{text_length}
use api_gateway_platform.Shared.Types.{ProxyConfig}
use api_gateway_platform.Resolver.Registry.{
  Registry, Entries, best_match, path_matches, registry_of, resolve_proxy,
}

-- Every entry that the path matches is at most `n` long.
abbrev pub MatchesWithin : String → Entries → ℕ → Type 0
MatchesWithin path entries n =
    (b : String) (p : ProxyConfig)
    → Memᴰ (b, p) entries
    → path_matches path b ≡ true
    → text_length b ≤ n

-- `proxy` is registered under a base path that the request path matches, that is longer than `n`,
-- and that no other matching base path exceeds.
pub record IsChosen (path : String) (entries : Entries) (n : ℕ) (proxy : ProxyConfig) : Type 0 where
  pub base_path : String
  pub listed : Memᴰ (base_path, proxy) entries
  pub matched : path_matches path base_path ≡ true
  pub longer : n < text_length base_path
  pub longest : MatchesWithin path entries (text_length base_path)

within-cons :
    (path b : String) (p : ProxyConfig) (es : Entries) (n : ℕ)
    → (path_matches path b ≡ true → text_length b ≤ n)
    → MatchesWithin path es n
    → MatchesWithin path ((b, p) ∷ es) n
within-cons path b p es n head rest c q (Memᴰ.head e) t =
    let e' : c ≡ b = λ i. (e i).0 in rw e' (head (rw e' at t))
within-cons path b p es n head rest c q (Memᴰ.tail m) t = rest c q m t

-- The loop keeps what it has, or ends with an entry that beats it.
best_match_lem :
    (path : String) (es : Entries) (best : Option ProxyConfig) (n : ℕ)
    → ((best_match path es best n ≡ best) × MatchesWithin path es n)
      ⊎ ((p : ProxyConfig) × (best_match path es best n ≡ some p) × IsChosen path es n p)
unfolding best_match
best_match_lem path [] best n = inl (refl, λ b p m. elim m [ ])
best_match_lem path ((b, p) ∷ es) best n =
    elim (Bool-cases (path_matches path b && ltb n (text_length b))) [
      | inl better ↦
          rw better (won (and-eq-true _ _ better) (best_match_lem path es (some p) (text_length b)))
      | inr kept ↦ rw kept (lost (short kept) (best_match_lem path es best n))
    ]
  where
    won :
        (path_matches path b ≡ true) × (ltb n (text_length b) ≡ true)
        → ((best_match path es (some p) (text_length b) ≡ some p)
            × MatchesWithin path es (text_length b))
          ⊎ ((q : ProxyConfig) × (best_match path es (some p) (text_length b) ≡ some q)
              × IsChosen path es (text_length b) q)
        → ((best_match path es (some p) (text_length b) ≡ best)
            × MatchesWithin path ((b, p) ∷ es) n)
          ⊎ ((q : ProxyConfig) × (best_match path es (some p) (text_length b) ≡ some q)
              × IsChosen path ((b, p) ∷ es) n q)
    won (hit, more) (inl (e, w)) = inr (
      p,
      e,
      record {
        base_path = b;
        listed = Memᴰ.head refl;
        matched = hit;
        longer = ltb→lt n (text_length b) more;
        longest = within-cons path b p es (text_length b) (λ _. omega arith) w;
      },
    )
    won (hit, more) (inr (q, e, c)) = inr (
      q,
      e,
      record {
        base_path = c.base_path;
        listed = Memᴰ.tail c.listed;
        matched = c.matched;
        longer = omega (arith, c.longer, ltb→lt n (text_length b) more);
        longest = within-cons path b p es _ (λ _. omega (arith, c.longer)) c.longest;
      },
    )

    short :
        (path_matches path b && ltb n (text_length b)) ≡ false
        → path_matches path b ≡ true
        → text_length b ≤ n
    short kept hit = ground arith

    lost :
        (path_matches path b ≡ true → text_length b ≤ n)
        → ((best_match path es best n ≡ best) × MatchesWithin path es n)
          ⊎ ((q : ProxyConfig) × (best_match path es best n ≡ some q) × IsChosen path es n q)
        → ((best_match path es best n ≡ best) × MatchesWithin path ((b, p) ∷ es) n)
          ⊎ ((q : ProxyConfig) × (best_match path es best n ≡ some q)
              × IsChosen path ((b, p) ∷ es) n q)
    lost low (inl (e, w)) = inl (e, within-cons path b p es n low w)
    lost low (inr (q, e, c)) = inr (
      q,
      e,
      record {
        base_path = c.base_path;
        listed = Memᴰ.tail c.listed;
        matched = c.matched;
        longer = c.longer;
        longest = within-cons path b p es _ (λ h. omega (arith, low h, c.longer)) c.longest;
      },
    )

-- The entries that a request to the given context is resolved among.
abbrev pub entries_in : Option Entries → Entries
entries_in none = []
entries_in (some es) = es

abbrev pub entries_of : String → Registry → Entries
entries_of environment_id state = entries_in (registry_of environment_id state.by_key)

module _ (path : String) where
  abbrev resolve_among : Option Entries → Option ProxyConfig
  resolve_among o = elim o [ none ↦ none | some es ↦ best_match path es none 0 ]

  resolve_among-cases :
      (o : Option Entries)
      → ((resolve_among o ≡ none) × MatchesWithin path (entries_in o) 0)
        ⊎ ((p : ProxyConfig) × (resolve_among o ≡ some p) × IsChosen path (entries_in o) 0 p)
  resolve_among-cases none = inl (refl, λ b p m. elim m [ ])
  resolve_among-cases (some es) = best_match_lem path es none 0

  -- Either no entry with a non-empty base path matches and nothing is resolved, or the resolved
  -- proxy is a longest matching one.
  pub resolve_proxy-cases :
      (environment_id : String) (state : Registry)
      → ((resolve_proxy environment_id path state ≡ none)
          × MatchesWithin path (entries_of environment_id state) 0)
        ⊎ ((p : ProxyConfig) × (resolve_proxy environment_id path state ≡ some p)
            × IsChosen path (entries_of environment_id state) 0 p)
  unfolding resolve_proxy
  resolve_proxy-cases environment_id state =
      resolve_among-cases (registry_of environment_id state.by_key)

  -- What `resolveProxy` returns is registered for the context, under a base path that is the
  -- request path or a prefix of it up to a slash, and no longer base path of the context matches.
  pub resolve_proxy-IsChosen :
      (environment_id : String) (state : Registry) (p : ProxyConfig)
      → resolve_proxy environment_id path state ≡ some p
      → IsChosen path (entries_of environment_id state) 0 p
  resolve_proxy-IsChosen environment_id state p h =
      elim (resolve_proxy-cases environment_id state) [
        | inl (e, w) ↦ cc
        | inr (q, e, c) ↦ let same : q ≡ p = cc in rw same at c
      ]

  -- A context with a matching base path that is not empty resolves to some proxy, whose base path
  -- is at least as long.
  pub resolve_proxy_total :
      (environment_id : String) (state : Registry) (b : String) (p : ProxyConfig)
      → Memᴰ (b, p) (entries_of environment_id state)
      → path_matches path b ≡ true
      → 0 < text_length b
      → (q : ProxyConfig) × (resolve_proxy environment_id path state ≡ some q)
        × IsChosen path (entries_of environment_id state) (text_length b - 1) q
  resolve_proxy_total environment_id state b p m h pos =
      elim (resolve_proxy-cases environment_id state) [
        | inl (e, w) ↦ absurd (omega (arith, w b p m h))
        | inr (q, e, c) ↦ (
          q,
          e,
          record {
            base_path = c.base_path;
            listed = c.listed;
            matched = c.matched;
            longer = omega (arith, c.longest b p m h);
            longest = c.longest;
          },
        )
      ]
