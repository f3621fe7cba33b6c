-- ===== src/Scenarios/IdentityRuns.antt =====
-- Accounts: a key is its own digest, padded to 32 bytes of nothing.
use ssh_moonminer.Common.{
  ◌≡◌, refl, ℕ, zero, suc, ◌<◌, true, false, Option, none, some, List, [], ◌∷◌, All, length, arith,
  ◌⊎◌,
}
use ssh_moonminer.Identity.Text.{Bytes, is_nil, hex_digit, hex_encode}
use ssh_moonminer.Identity.Slots.{slot_char, sanitize_slot}
use ssh_moonminer.Identity.Slots.Laws.{IsSlot, sanitize_slot-fixed}
use ssh_moonminer.Identity.Proxy.{
  given, denied, Wire, IsDigest, encode_proxied_username, parse_proxied_username, unusable_slot,
}
use ssh_moonminer.Identity.Proxy.RoundTrip.{
  proxied_username, parse_proxied_username-proxied_username,
  parse_proxied_username-encode_proxied_username, parse_proxied_username-Spelled,
}
use ssh_moonminer.Identity.Accounts.{codes, has_prefix, validate, keyed, fingerprint_from_bytes}
use ssh_moonminer.Identity.Resolver.{
  SessionSource, Resolver, ResolveResult, env_value, listed_key, is_proxy_key, resolve_proxied,
  resolve,
}
use ssh_moonminer.Identity.Resolver.Trust.{OwnKey, ProxiedGuest, ProxiedPlayer, resolve-Trusted}
use ssh_moonminer.Identity.Resolver.Validity.{validate-resolve}
use ssh_moonminer.Identity.Resolver.Keys.{
  LoadError, KeyFiles, Consumes, load_proxy_keys, load_proxy_keys_ends,
}

abbrev zeros : ℕ → Bytes
zeros zero = []
zeros (suc n) = 0 ∷ zeros n

zeros_small : (n : ℕ) → All (λ b. b < 256) (zeros n)
zeros_small zero = tt
zeros_small (suc n) = (omega arith, zeros_small n)

zeros-IsDigest : IsDigest (zeros 32)
zeros-IsDigest = (refl, zeros_small 32)

abbrev wire : Wire Bytes
wire = record { marshal = λ k. k; authorized = λ k. k; sha256 = λ k. zeros 32 }

abbrev main : Bytes
main = codes "main"

main-IsSlot : IsSlot main
unfolding slot_char
main-IsSlot = record { spelled = refl; short = omega arith }

parse_proxied_username-encode_proxied_username_example :
    ((sanitize_slot main ≡ [])
      × (encode_proxied_username wire (some []) main ≡ denied unusable_slot))
    ⊎ ((user : Bytes) × (encode_proxied_username wire (some []) main ≡ given user)
        × (parse_proxied_username user ≡ given (zeros 32, sanitize_slot main)))
parse_proxied_username-encode_proxied_username_example =
    parse_proxied_username-encode_proxied_username wire [] main zeros-IsDigest

player_parsed : parse_proxied_username (proxied_username (zeros 32) main) ≡ given (zeros 32, main)
player_parsed =
    parse_proxied_username-proxied_username (zeros 32) main zeros-IsDigest refl main-IsSlot

parse_proxied_username-Spelled_example :
    (proxied_username (zeros 32) main ≡ proxied_username (zeros 32) main)
    × IsDigest (zeros 32)
    × IsSlot main
    × (is_nil main ≡ false)
parse_proxied_username-Spelled_example =
    parse_proxied_username-Spelled (proxied_username (zeros 32) main) (zeros 32) main player_parsed

-- A session of the proxy, whose key is the text of one byte.
abbrev proxy_session : SessionSource Bytes
proxy_session = record {
  user = proxied_username (zeros 32) main;
  public_key = some (7 ∷ []);
  environ = [];
}

abbrev resolver : Resolver Bytes
resolver = record { default_slot = main; proxy_keys = (7 ∷ []) ∷ []; allow_guests = true }

abbrev player : ResolveResult
player = record {
  identity = record {
    kind = keyed;
    guest_id = [];
    fingerprint = fingerprint_from_bytes (zeros 32);
    slot = main;
  };
  public_key = 7 ∷ [];
  proxied = true;
}

player_resolved : resolve wire resolver proxy_session ≡ given player
unfolding resolve resolve_proxied is_proxy_key listed_key has_prefix env_value hex_encode hex_digit
player_resolved = rw player_parsed refl

resolve-Trusted_example :
    OwnKey wire resolver proxy_session player
    ⊎ (ProxiedGuest wire resolver proxy_session player
        ⊎ ProxiedPlayer wire resolver proxy_session player)
resolve-Trusted_example = resolve-Trusted wire resolver proxy_session player player_resolved

main_usable : is_nil (sanitize_slot main) ≡ false
main_usable = rw (sanitize_slot-fixed main main-IsSlot) refl

validate-resolve_example : validate player.identity ≡ true
validate-resolve_example =
    validate-resolve wire resolver proxy_session player main_usable player_resolved

-- Each byte of a key file is a key.
abbrev one_byte_key : Bytes → Option (ℕ × Bytes)
one_byte_key [] = none
one_byte_key (b ∷ bs) = some (b, bs)

abbrev key_files : KeyFiles ℕ
key_files = record { read_file = λ path. some (1 ∷ 2 ∷ []); parse_authorized_key = one_byte_key }

one_byte_shorter :
    (rest remaining : Bytes) (key : ℕ)
    → one_byte_key rest ≡ some (key, remaining)
    → length remaining < length rest
one_byte_shorter [] remaining key h = absurd (ground arith)
one_byte_shorter (b ∷ bs) remaining key h =
    let same : bs ≡ remaining = ground arith in rw (← same) (omega arith)

key_files-Consumes : Consumes key_files
key_files-Consumes = record { shorter = one_byte_shorter }

load_proxy_keys_ends_example :
    ((e : LoadError) × (load_proxy_keys key_files (1 ∷ []) ≡ some (denied e)))
    ⊎ ((key : ℕ) × (keys : List ℕ) × (load_proxy_keys key_files (1 ∷ [])
          ≡ some (given (key ∷ keys))))
load_proxy_keys_ends_example = load_proxy_keys_ends key_files key_files-Consumes 1 []
