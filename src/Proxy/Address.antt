-- ===== src/Proxy/Address.antt =====
-- src/proxy/mod.rs: `client_ip`. The parsing of an address is that of the standard library, a
-- parameter.
use polyglotmesh.Prelude.{
  ℕ, Option, none, List, [], ◌∷◌, Text, codes, reverse, trim, strip_prefix, ◌==◌, if◌then◌else◌,
}
use polyglotmesh.Proxy.{or_else, ◌>>=◌}
use polyglotmesh.Proxy.Sse.{split_on}

-- `split(..).next()`
abbrev pub first_part : ℕ → Text → Text
first_part sep s = elim (split_on sep s) [ [] ↦ s | part ∷ parts ↦ part ]

abbrev pub drop_start : ℕ → Text → Text
drop_start c [] = []
drop_start c (x ∷ s) = if x == c then drop_start c s else x ∷ s

-- `trim_matches`
abbrev pub trim_matches : ℕ → Text → Text
trim_matches c s = reverse (drop_start c (reverse (drop_start c s)))

module _ {IpAddr : Type 0} (parse : Text → Option IpAddr) where
  -- One part of a `Forwarded` header, with its quotes, brackets and port taken off.
  abbrev pub forwarded_part : Text → Option IpAddr
  forwarded_part part = strip_prefix (codes "for=") (trim part) >>= λ v.
      parse (first_part 58 (trim_matches 93 (trim_matches 91 (trim_matches 34 v))))

  unfoldable pub first_address : List Text → Option IpAddr
  first_address [] = none
  first_address (part ∷ parts) = or_else (forwarded_part part) (first_address parts)

  -- `client_ip`, from the values of the two headers, if they are there and text, and the peer.
  unfoldable pub client_ip : Option Text → Option Text → Option IpAddr → Option IpAddr
  unfolding first_address
  client_ip forwarded x_forwarded_for peer =
      or_else (forwarded >>= λ s. first_address (split_on 59 s)) (
        or_else (x_forwarded_for >>= λ s. parse (trim (first_part 58 (trim (first_part 44 s)))))
          peer)
