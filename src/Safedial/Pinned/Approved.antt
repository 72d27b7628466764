-- ===== src/Safedial/Pinned/Approved.antt =====
-- A pinned host resolves to its approved addresses or not at all (internal/safedial/pinned_resolver.go).
use domains_checker_infomati.Base.{
  String, List, [], ◌∷◌, Option, some, false, ◌⊎◌, inl, inr, ◌≡◌, refl,
}
use domains_checker_infomati.Base.Text.{Text, is_empty}
use domains_checker_infomati.Safedial.Pinned.{find, key_of, lookup_net_ip}

apart :
    {Address : Type 0} (text : String) (addresses : List Address)
    → ¬ (◌≡◌ {A = List Address ⊎ String} (inr text) (inl addresses))
apart text addresses h = cc

same_list :
    {Address : Type 0} (values addresses : List Address)
    → is_empty values ≡ false
    → ◌≡◌ {A = List Address ⊎ String} (inl values) (inl addresses)
    → (addresses ≡ values) × (is_empty addresses ≡ false)
same_list values addresses e h = let same : addresses ≡ values = cc in (same, rw same e)

-- A pinned host, in whatever case, with or without a final dot and spaces, resolves to exactly its
-- approved addresses, at least one, or to an error; the fallback is never asked for it.
pub lookup_net_ip-pinned :
    {Address : Type 0} (shown : Text → String) (hosts : List (Text × List Address))
    (fallback : Option (Text → List Address ⊎ String)) (host : Text)
    (values addresses : List Address)
    → find (key_of host) hosts ≡ some values
    → lookup_net_ip shown hosts fallback host ≡ inl addresses
    → (addresses ≡ values) × (is_empty addresses ≡ false)
unfolding lookup_net_ip
lookup_net_ip-pinned shown hosts fallback host [] addresses e h =
    absurd (apart _ addresses (rw (e, lookup_net_ip) at h))
lookup_net_ip-pinned shown hosts fallback host (v ∷ vs) addresses e h =
    same_list (v ∷ vs) addresses refl (rw (e, lookup_net_ip) at h)
