-- ===== src/Identity/Resolver/Validity.antt =====
-- resolver.go and guest.go: the accounts that come out are well formed, and told apart.
use ssh_moonminer.Common.{◌≡◌, refl, ap, ◌∙◌, true, false, [], arith, Bool-cases, inl, inr}
use ssh_moonminer.Identity.Text.{Bytes, is_nil}
use ssh_moonminer.Identity.Slots.{sanitize_slot, resolve_slot}
use ssh_moonminer.Identity.Slots.Laws.{IsSlot, sanitize_slot-fixed, resolve_slot-IsSlot}
use ssh_moonminer.Identity.Proxy.{Wire, given}
use ssh_moonminer.Identity.Proxy.RoundTrip.{eq_bytes_refl}
use ssh_moonminer.Identity.Accounts.{
  keyed, guest, SessionIdentity, valid_guest_id, validate, bucket, fingerprint_from_bytes,
}
use ssh_moonminer.Identity.Resolver.{SessionSource, Resolver, ResolveResult, resolve}
use ssh_moonminer.Identity.Resolver.Trust.{resolve-Trusted}

keyed_valid :
    (sum slot : Bytes)
    → IsSlot slot
    → is_nil slot ≡ false
    → validate (record {
      kind = keyed;
      guest_id = [];
      fingerprint = fingerprint_from_bytes sum;
      slot = slot;
    })
      ≡ true
unfolding validate fingerprint_from_bytes
keyed_valid sum slot named filled =
    rw (filled, sanitize_slot-fixed slot named, eq_bytes_refl slot) refl

guest_valid :
    (token : Bytes)
    → valid_guest_id token ≡ true
    → validate (record { kind = guest; guest_id = token; fingerprint = []; slot = [] }) ≡ true
unfolding validate
guest_valid token hexed = rw hexed refl

resolve_slot-filled :
    (user fallback : Bytes)
    → is_nil (sanitize_slot fallback) ≡ false
    → is_nil (resolve_slot user fallback) ≡ false
unfolding resolve_slot
resolve_slot-filled user fallback h = elim (Bool-cases (is_nil (sanitize_slot user))) [
  | inl e ↦ rw e h
  | inr e ↦ rw e e
]

-- Where the default slot is usable, every resolved account passes Validate.
pub validate-resolve :
    {K : Type 0} (w : Wire K) (r : Resolver K) (s : SessionSource K) (res : ResolveResult)
    → is_nil (sanitize_slot r.default_slot) ≡ false
    → resolve w r s ≡ given res
    → validate res.identity ≡ true
validate-resolve w r s res h e = elim (resolve-Trusted w r s res e) [
  | inl own ↦
      ap validate own.account
      ∙ keyed_valid (w.sha256 (w.marshal own.key)) (resolve_slot s.user r.default_slot)
          (resolve_slot-IsSlot s.user r.default_slot) (resolve_slot-filled s.user r.default_slot h)
  | inr (inl visitor) ↦ ap validate visitor.account ∙ guest_valid visitor.token visitor.hexed
  | inr (inr player) ↦
      ap validate player.account
      ∙ keyed_valid player.digest player.slot player.slotted player.filled
]

-- One guest, or one key.
abbrev pub SameHolder : SessionIdentity → SessionIdentity → Type 0
SameHolder a b = (a.kind ≡ b.kind) × (a.guest_id ≡ b.guest_id) × (a.fingerprint ≡ b.fingerprint)

-- Two valid accounts that fall into one bucket are the same guest, or have one key.
pub bucket_inj :
    (a b : SessionIdentity)
    → validate a ≡ true
    → validate b ≡ true
    → bucket a ≡ bucket b
    → SameHolder a b
unfolding validate bucket
bucket_inj a b va vb e = ground arith
