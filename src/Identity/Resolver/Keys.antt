-- ===== src/Identity/Resolver/Keys.antt =====
-- resolver.go, LoadProxyKeys.
use ssh_moonminer.Common.{
  ◌≡◌, ℕ, zero, suc, ◌<◌, Bool, true, false, Option, none, some, List, [], ◌∷◌, ◌++◌, length, arith,
  by_option, by_bool, refl, ◌⊎◌, inl, inr,
}
use ssh_moonminer.Identity.Text.{Bytes, runes, trim_left, is_nil}
use ssh_moonminer.Identity.Proxy.{Answer, given, denied}

pub data LoadError : Type 0 where
  unreadable unparsable no_keys_found : LoadError

-- What the file system answers for a path, and ParseAuthorizedKey: a key and what is left.
pub record KeyFiles (K : Type 0) : Type 0 where
  pub read_file : Bytes → Option Bytes
  pub parse_authorized_key : Bytes → Option (K × Bytes)

-- len(bytes.TrimSpace(rest)) == 0: what is left of a blank text is nothing, trimmed on one side
-- already.
unfoldable pub blank : Bytes → Bool
blank rest = is_nil (trim_left (runes rest))

module _ {K : Type 0} (files : KeyFiles K) where
  -- The loop, on fuel: `none` means that the fuel ran out.
  unfoldable pub parse_keys : ℕ → Bytes → List K → Option (Answer LoadError (List K))
  parse_keys zero rest keys = none
  parse_keys (suc fuel) rest keys = elim (blank rest) [
    | true ↦ some (given keys)
    | false ↦ elim (files.parse_authorized_key rest) [
      | none ↦ some (denied unparsable)
      | some (key, remaining) ↦ parse_keys fuel remaining (keys ++ key ∷ [])
    ]
  ]

  abbrev some_keys : Answer LoadError (List K) → Answer LoadError (List K)
  some_keys (denied e) = denied e
  some_keys (given []) = denied no_keys_found
  some_keys (given (key ∷ keys)) = given (key ∷ keys)

  abbrev finish_load : Option (Answer LoadError (List K)) → Option (Answer LoadError (List K))
  finish_load none = none
  finish_load (some a) = some (some_keys a)

  abbrev load_from : Option Bytes → Option (Answer LoadError (List K))
  load_from none = some (denied unreadable)
  load_from (some content) = finish_load (parse_keys (suc (length content)) content [])

  -- One round for each byte of the file is fuel enough.
  unfoldable pub load_proxy_keys : Bytes → Option (Answer LoadError (List K))
  load_proxy_keys [] = some (given [])
  load_proxy_keys (c ∷ cs) = load_from (files.read_file (c ∷ cs))

-- A parsed key takes up at least one byte.
pub record Consumes {K : Type 0} (files : KeyFiles K) : Type 0 where
  pub shorter :
      (rest remaining : Bytes) (key : K)
      → files.parse_authorized_key rest ≡ some (key, remaining)
      → length remaining < length rest

module _ {K : Type 0} (files : KeyFiles K) (C : Consumes files) where
  parse_keys_ends :
      (fuel : ℕ) (rest : Bytes) (keys : List K)
      → length rest < fuel
      → (a : Answer LoadError (List K)) × (parse_keys files fuel rest keys ≡ some a)
  unfolding parse_keys
  parse_keys_ends zero rest keys h = absurd (omega arith)
  parse_keys_ends (suc fuel) rest keys h =
      by_bool (blank rest) (λ ended. (given keys, rw (ended, parse_keys) refl))
        (λ more.
          by_option (files.parse_authorized_key rest)
            (λ bad. (denied unparsable, rw (more, bad, parse_keys) refl))
            (λ (key, remaining) good.
              let left = C.shorter rest remaining key good in
              let later = parse_keys_ends fuel remaining (keys ++ key ∷ []) (omega arith) in
              (later.0, rw (more, good, parse_keys) (later.1))))

  finish_load_lem :
      (a : Answer LoadError (List K)) (o : Option (Answer LoadError (List K)))
      → o ≡ some a
      → ((e : LoadError) × (finish_load files o ≡ some (denied e)))
        ⊎ ((key : K) × (keys : List K) × (finish_load files o ≡ some (given (key ∷ keys))))
  finish_load_lem (denied e) o h = inl (e, rw h refl)
  finish_load_lem (given []) o h = inl (no_keys_found, rw h refl)
  finish_load_lem (given (key ∷ keys)) o h = inr (key, keys, rw h refl)

  -- Where a path is given and the parser of keys takes up at least one byte for a key, the loop over
  -- the file ends, with an error or with at least one key.
  pub load_proxy_keys_ends :
      (c : ℕ) (cs : Bytes)
      → ((e : LoadError) × (load_proxy_keys files (c ∷ cs) ≡ some (denied e)))
        ⊎ ((key : K) × (keys : List K) × (load_proxy_keys files (c ∷ cs)
              ≡ some (given (key ∷ keys))))
  unfolding load_proxy_keys
  load_proxy_keys_ends c cs =
      by_option (files.read_file (c ∷ cs)) (λ gone. inl (unreadable, rw gone refl))
        (λ content found.
          let ended = parse_keys_ends (suc (length content)) content [] (omega arith) in
          rw found (finish_load_lem (ended.0) _ (ended.1)))
