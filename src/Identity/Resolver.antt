-- ===== src/Identity/Resolver.antt =====
-- resolver.go: from a connection to an account.
pub mod Trust
pub mod Validity
pub mod Keys
use ssh_moonminer.Common.{
  ◌≡◌, ℕ, Bool, true, false, not, ◌&&◌, ◌||◌, Option, none, some, List, [], ◌∷◌, ◌++◌, length, ltb,
  if◌then◌else◌,
}
use ssh_moonminer.Identity.Text.{Bytes, is_nil}
use ssh_moonminer.Identity.Slots.{resolve_slot}
use ssh_moonminer.Identity.Proxy.{
  eq_bytes, Answer, given, denied, ProxiedError, guest_access_disabled, guest_key_metadata, Wire,
  parse_proxied_username,
}
use ssh_moonminer.Identity.Accounts.{
  codes, Kind, keyed, guest, SessionIdentity, has_prefix, without, parse_guest_username,
  fingerprint_from_bytes, fingerprint,
}

-- What a session shows of itself. An SSH library, `K` stands for its keys, gives it.
pub record SessionSource (K : Type 0) : Type 0 where
  pub user : Bytes
  pub public_key : Option K
  pub environ : List Bytes

pub record Resolver (K : Type 0) : Type 0 where
  pub default_slot : Bytes
  pub proxy_keys : List K
  pub allow_guests : Bool

pub record ResolveResult : Type 0 where
  pub identity : SessionIdentity
  pub public_key : Bytes
  pub proxied : Bool

pub data ResolveError : Type 0 where
  key_required : ResolveError
  proxied_identity : ProxiedError → ResolveError

abbrev player_key : Bytes
player_key = codes "ARCADE_PLAYER_KEY="

unfoldable pub env_value : List Bytes → Bytes
env_value [] = []
env_value (e ∷ es) =
    if ltb (length player_key) (length e) && has_prefix e player_key
    then without e player_key
    else env_value es

-- Whether some entry begins with the prefix.
unfoldable pub names_player_key : List Bytes → Bool
names_player_key [] = false
names_player_key (e ∷ es) = has_prefix e player_key || names_player_key es

module _ {K : Type 0} (w : Wire K) where
  unfoldable pub listed_key : K → List K → Bool
  listed_key key [] = false
  listed_key key (p ∷ ps) = eq_bytes (w.marshal key) (w.marshal p) || listed_key key ps

  unfoldable pub is_proxy_key : Resolver K → K → Bool
  is_proxy_key r key = listed_key key r.proxy_keys

  unfoldable pub resolve_direct : Resolver K → SessionSource K → K → ResolveResult
  resolve_direct r s wire = record {
    identity = record {
      kind = keyed;
      guest_id = [];
      fingerprint = fingerprint w wire;
      slot = resolve_slot s.user r.default_slot;
    };
    public_key = w.authorized wire;
    proxied = false;
  }

  abbrev as_guest :
      Resolver K → SessionSource K → Answer ProxiedError Bytes → Answer ResolveError ResolveResult
  as_guest r s (denied e) = denied (proxied_identity e)
  as_guest r s (given token) =
      if not r.allow_guests
      then denied (proxied_identity guest_access_disabled)
      else if names_player_key s.environ
      then denied (proxied_identity guest_key_metadata)
      else given (record {
        identity = record { kind = guest; guest_id = token; fingerprint = []; slot = [] };
        public_key = [];
        proxied = true;
      })

  abbrev as_player :
      SessionSource K → K → Answer ProxiedError (Bytes × Bytes) → Answer ResolveError ResolveResult
  as_player s wire (denied e) = denied (proxied_identity e)
  as_player s wire (given (sum, slot)) =
      let shown = env_value s.environ in
      given (record {
        identity = record {
          kind = keyed;
          guest_id = [];
          fingerprint = fingerprint_from_bytes sum;
          slot = slot;
        };
        public_key = if is_nil shown then w.authorized wire else shown;
        proxied = true;
      })

  unfoldable pub resolve_proxied :
      Resolver K → SessionSource K → K → Answer ResolveError ResolveResult
  resolve_proxied r s wire =
      if has_prefix s.user (codes "guest.")
      then as_guest r s (parse_guest_username s.user)
      else as_player s wire (parse_proxied_username s.user)

  abbrev resolve_wire : Resolver K → SessionSource K → Option K → Answer ResolveError ResolveResult
  resolve_wire r s none = denied key_required
  resolve_wire r s (some wire) =
      if is_proxy_key r wire then resolve_proxied r s wire else given (resolve_direct r s wire)

  unfoldable pub resolve : Resolver K → SessionSource K → Answer ResolveError ResolveResult
  resolve r s = resolve_wire r s s.public_key
