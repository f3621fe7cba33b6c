-- ===== src/Identity/Resolver/Trust.antt =====
-- resolver.go: which account a connection gets, and on whose word.
use ssh_moonminer.Common.{
  ◌≡◌, refl, ap, true, false, some, [], ◌∷◌, ◌++◌, arith, by_bool, by_option, ◌⊎◌, inl, inr,
}
use ssh_moonminer.Identity.Text.{Bytes, is_nil}
use ssh_moonminer.Identity.Slots.{resolve_slot}
use ssh_moonminer.Identity.Slots.Laws.{IsSlot}
use ssh_moonminer.Identity.Proxy.{Answer, given, denied, Wire, IsDigest, parse_proxied_username}
use ssh_moonminer.Identity.Proxy.RoundTrip.{proxied_username, parse_proxied_username-Spelled}
use ssh_moonminer.Identity.Accounts.{
  codes, keyed, guest, valid_guest_id, has_prefix, without, trim_prefix, parse_guest_username,
  fingerprint_from_bytes, fingerprint,
}
use ssh_moonminer.Identity.Resolver.{
  SessionSource, Resolver, ResolveResult, names_player_key, is_proxy_key, resolve_direct, as_guest,
  as_player, resolve_proxied, resolve,
}

-- By prefix and rest, a text is what it was.
has_prefix-append : (s p : Bytes) → has_prefix s p ≡ true → s ≡ p ++ without s p
unfolding has_prefix
has_prefix-append s [] h = refl
has_prefix-append [] (p ∷ ps) h = absurd (ground arith)
has_prefix-append (c ∷ cs) (p ∷ ps) h = ground (arith, has_prefix-append cs ps)

guest_of_name :
    (user : Bytes) {token : Bytes}
    → parse_guest_username user ≡ given token
    → (user ≡ codes "guest." ++ token) × (valid_guest_id token ≡ true)
unfolding parse_guest_username trim_prefix
guest_of_name user h = ground (arith, has_prefix-append user (codes "guest."))

by_answer :
    {E A Q : Type 0} (a : Answer E A)
    → ((e : E) → a ≡ denied e → Q)
    → ((x : A) → a ≡ given x → Q)
    → Q
by_answer (given x) bad good = good x refl
by_answer (denied e) bad good = bad e refl

denied-given : {E A : Type 0} {e : E} {x : A} → ◌≡◌ {A = Answer E A} (denied e) (given x) → ⊥
denied-given h = cc

given-eq : {E A : Type 0} {x y : A} → ◌≡◌ {A = Answer E A} (given x) (given y) → y ≡ x
given-eq h = cc

module _ {K : Type 0} (w : Wire K) (r : Resolver K) (s : SessionSource K) where
  -- A direct connection: the account is that of the key the session was opened with.
  pub record OwnKey (res : ResolveResult) : Type 0 where
    pub key : K
    pub shown : s.public_key ≡ some key
    pub untrusted : is_proxy_key w r key ≡ false
    pub account : res.identity ≡ record {
      kind = keyed;
      guest_id = [];
      fingerprint = fingerprint_from_bytes (w.sha256 (w.marshal key));
      slot = resolve_slot s.user r.default_slot;
    }
    pub own : res.public_key ≡ w.authorized key
    pub direct : res.proxied ≡ false

  -- A guest of a trusted proxy.
  pub record ProxiedGuest (res : ResolveResult) : Type 0 where
    pub key : K
    pub shown : s.public_key ≡ some key
    pub trusted : is_proxy_key w r key ≡ true
    pub welcome : r.allow_guests ≡ true
    pub keyless : names_player_key s.environ ≡ false
    pub token : Bytes
    pub named : s.user ≡ codes "guest." ++ token
    pub hexed : valid_guest_id token ≡ true
    pub account :
        res.identity ≡ record { kind = guest; guest_id = token; fingerprint = []; slot = [] }

  -- A player for whom a trusted proxy vouches: digest and slot are spelled out in the user name.
  pub record ProxiedPlayer (res : ResolveResult) : Type 0 where
    pub key : K
    pub shown : s.public_key ≡ some key
    pub trusted : is_proxy_key w r key ≡ true
    pub digest : Bytes
    pub slot : Bytes
    pub sized : IsDigest digest
    pub slotted : IsSlot slot
    pub filled : is_nil slot ≡ false
    pub named : s.user ≡ proxied_username digest slot
    pub account : res.identity ≡ record {
      kind = keyed;
      guest_id = [];
      fingerprint = fingerprint_from_bytes digest;
      slot = slot;
    }

  as_guest-inv :
      (token : Bytes) (res : ResolveResult)
      → as_guest w r s (given token) ≡ given res
      → (r.allow_guests ≡ true)
        × (names_player_key s.environ ≡ false)
        × (res.identity ≡ record { kind = guest; guest_id = token; fingerprint = []; slot = [] })
  as_guest-inv token res h = ground arith

  as_player-inv :
      (key : K) (sum slot : Bytes) (res : ResolveResult)
      → as_player w s key (given (sum, slot)) ≡ given res
      → res.identity ≡ record {
        kind = keyed;
        guest_id = [];
        fingerprint = fingerprint_from_bytes sum;
        slot = slot;
      }
  as_player-inv key sum slot res h = ground arith

  as_guest-ProxiedGuest :
      (key : K)
      → s.public_key ≡ some key
      → is_proxy_key w r key ≡ true
      → (res : ResolveResult) → as_guest w r s (parse_guest_username s.user) ≡ given res
      → ProxiedGuest res
  as_guest-ProxiedGuest key shown trusted res h =
      by_answer (parse_guest_username s.user) (λ e bad. absurd (denied-given (rw bad at h)))
        (λ token good.
          let named = guest_of_name s.user good in
          let guarded = as_guest-inv token res (rw good at h) in
          record {
            key = key;
            shown = shown;
            trusted = trusted;
            welcome = guarded.0;
            keyless = guarded.1;
            token = token;
            named = named.0;
            hexed = named.1;
            account = guarded.2;
          })

  as_player-ProxiedPlayer :
      (key : K)
      → s.public_key ≡ some key
      → is_proxy_key w r key ≡ true
      → (res : ResolveResult) → as_player w s key (parse_proxied_username s.user) ≡ given res
      → ProxiedPlayer res
  as_player-ProxiedPlayer key shown trusted res h =
      by_answer (parse_proxied_username s.user) (λ e bad. absurd (denied-given (rw bad at h)))
        (λ (sum, slot) good.
          let spelled = parse_proxied_username-Spelled s.user sum slot good in
          record {
            key = key;
            shown = shown;
            trusted = trusted;
            digest = sum;
            slot = slot;
            sized = spelled.1;
            slotted = spelled.2;
            filled = spelled.3;
            named = spelled.0;
            account = as_player-inv key sum slot res (rw good at h);
          })

  -- A resolved account is keyed by the digest of the session's key, with the slot that the user name
  -- or else the configuration gives, where that key is no proxy's; or a trusted proxy named it: a
  -- guest, where guests are welcome and no player key was passed on, or a player whose digest and
  -- slot the user name spells.
  pub resolve-Trusted :
      (res : ResolveResult)
      → resolve w r s ≡ given res
      → OwnKey res ⊎ (ProxiedGuest res ⊎ ProxiedPlayer res)
  unfolding resolve resolve_proxied resolve_direct fingerprint
  resolve-Trusted res h =
      by_option s.public_key (λ bare. absurd (denied-given (rw bare at h)))
        (λ key shown.
          by_bool (is_proxy_key w r key)
            (λ trusted.
              by_bool (has_prefix s.user (codes "guest."))
                (λ visiting. inr (
                  inl (
                    as_guest-ProxiedGuest key shown trusted res
                      (rw (shown, trusted, visiting) at h))))
                (λ registered. inr (
                  inr (
                    as_player-ProxiedPlayer key shown trusted res
                      (rw (shown, trusted, registered) at h)))))
            (λ untrusted.
              let same = given-eq (rw (shown, untrusted) at h) in
              inl (record {
                key = key;
                shown = shown;
                untrusted = untrusted;
                account = ap (λ (t : ResolveResult). t.identity) same;
                own = ap (λ (t : ResolveResult). t.public_key) same;
                direct = ap (λ (t : ResolveResult). t.proxied) same;
              })))
