-- ===== src/ClientIp/Trusted.antt =====
-- apps/server/src/client-ip.ts: the trusted proxies, the chain of addresses that a header carries, and
-- the client's address. `to_lower_case` is the case mapping, and `to_integer` gives what `Number` makes
-- of a text when that is an integer that is not negative.
pub mod Prefix
pub mod Resolve
use Prim.Native.String.{[], ◌∷◌}
use server_central.Prelude.{
  ℕ, zero, suc, ◌+◌, ◌-◌, ◌*◌, ◌/◌, ◌%◌, ◌^◌, Char, String, code, Bool, true, false, not, ◌&&◌,
  ◌||◌, List, Option, none, some, if◌then◌else◌, ◌==◌, ◌===◌, leb, ltb, length, trim, is_empty,
  is_some, map, ◌++◌, find, or_else,
}
use server_central.Prelude.Text.Split.{split, all_chars, cut_first, cut_last}
use server_central.ClientIp.{Bytes, parse_ip, format, is_digit, drop_open, drop_close}

pub record Cidr : Type 0 where
  pub bytes : Bytes
  pub bits : ℕ
  pub header : Option String

-- A text, or an address with the header that this proxy writes.
pub record TrustedProxyEntry : Type 0 where
  pub address : String
  pub header : Option String

-- The loop over the whole bytes, and the first `rest` bits of the next one. `x & mask` is `x` without
-- its last `8 - rest` bits.
unfoldable pub same_prefix : ℕ → ℕ → Bytes → Bytes → Bool
same_prefix (suc whole) rest (List.◌∷◌ x xs) (List.◌∷◌ y ys) =
    (x == y) && same_prefix whole rest xs ys
same_prefix (suc whole) rest List.[] List.[] = true
same_prefix (suc whole) rest List.[] (List.◌∷◌ y ys) = false
same_prefix (suc whole) rest (List.◌∷◌ x xs) List.[] = false
same_prefix zero rest (List.◌∷◌ x xs) (List.◌∷◌ y ys) =
    (rest == 0) || (x - x % 2 ^ (8 - rest) == y - y % 2 ^ (8 - rest))
same_prefix zero rest xs ys = true

unfoldable pub in_cidr : Bytes → Cidr → Bool
unfolding same_prefix
in_cidr ip cidr =
    (length ip == length cidr.bytes) && same_prefix (cidr.bits / 8) (cidr.bits % 8) ip cidr.bytes

unfoldable pub match_trusted : Option Bytes → List Cidr → Option Cidr
unfolding in_cidr
match_trusted none trusted = none
match_trusted (some ip) trusted = find (in_cidr ip) trusted

abbrev pub is_trusted : Option Bytes → List Cidr → Bool
is_trusted ip trusted = is_some (match_trusted ip trusted)

-- `peer ? parseIp(peer) : null`
abbrev pub peer_bytes : Option String → Option Bytes
peer_bytes none = none
peer_bytes (some peer) = if is_empty peer then none else parse_ip peer

abbrev header_of : Option Cidr → Option String
header_of none = none
header_of (some cidr) = cidr.header

unfoldable pub header_for_peer : Option String → List Cidr → (fallback : String) → String
unfolding match_trusted
header_for_peer peer trusted fallback =
    or_else (header_of (match_trusted (peer_bytes peer) trusted)) fallback

module _ (to_integer : String → Option ℕ) where
  abbrev whole_width : Option Bytes → Option Cidr
  whole_width none = none
  whole_width (some bytes) = some (record { bytes = bytes; bits = length bytes * 8; header = none })

  abbrev with_bits : Option Bytes → Option ℕ → Option Cidr
  with_bits (some bytes) (some bits) =
      if ltb (length bytes * 8) bits
      then none
      else some (record { bytes = bytes; bits = bits; header = none })
  with_bits _ _ = none

  abbrev cidr_parts : String → Option (String × String) → Option Cidr
  cidr_parts entry none = whole_width (parse_ip entry)
  cidr_parts entry (some (address, bits)) = with_bits (parse_ip address) (to_integer bits)

  unfoldable pub parse_cidr : String → Option Cidr
  parse_cidr entry = cidr_parts entry (cut_last b'/' entry)

module _ (to_integer : String → Option ℕ) (to_lower_case : String → String) where
  -- `header ? { ...cidr, header } : cidr`
  abbrev with_header : Option String → Cidr → Cidr
  with_header none cidr = cidr
  with_header (some header) cidr =
      if is_empty (to_lower_case (trim header))
      then cidr
      else record cidr { header = some (to_lower_case (trim header)) }

  abbrev push_cidr : Option String → Option Cidr → List Cidr → List Cidr
  push_cidr header none rest = rest
  push_cidr header (some cidr) rest = List.◌∷◌ (with_header header cidr) rest

  unfoldable pub parse_trusted_proxies : List TrustedProxyEntry → List Cidr
  unfolding parse_cidr
  parse_trusted_proxies List.[] = List.[]
  parse_trusted_proxies (List.◌∷◌ entry entries) =
      push_cidr entry.header (parse_cidr to_integer entry.address) (parse_trusted_proxies entries)

abbrev env_entry : String → Option (String × String) → TrustedProxyEntry
env_entry entry none = record { address = entry; header = none }
env_entry entry (some (address, header)) = record {
  address = trim address;
  header = some (trim header);
}

unfoldable pub env_entries : List String → List TrustedProxyEntry
env_entries List.[] = List.[]
env_entries (List.◌∷◌ raw raws) =
    let rest = env_entries raws in
    if is_empty (trim raw)
    then rest
    else List.◌∷◌ (env_entry (trim raw) (cut_first b'=' (trim raw))) rest

unfoldable pub parse_trusted_proxies_env : String → List TrustedProxyEntry
unfolding env_entries
parse_trusted_proxies_env value = env_entries (split b',' value)

-- `/^\d+$/`
abbrev is_number : String → Bool
is_number s = not (is_empty s) && all_chars is_digit s

-- `(?::\d+)?$`
abbrev is_port_or_end : String → Bool
is_port_or_end [] = true
is_port_or_end (c ∷ s) = (code c == b':') && is_number s

abbrev within_brackets : Option (String × String) → Option String
within_brackets none = none
within_brackets (some (inside, after)) =
    if not (is_empty inside) && is_port_or_end after then some inside else none

unfoldable pub bracketed : String → Option String
bracketed [] = none
bracketed (c ∷ s) = if code c == b'[' then within_brackets (cut_first b']' s) else none

abbrev before_port : String → List String → String
before_port trimmed (List.◌∷◌ a (List.◌∷◌ b List.[])) = if is_number b then a else trimmed
before_port trimmed _ = trimmed

unfoldable pub strip_port : String → String
unfolding bracketed
strip_port value =
    or_else (bracketed (trim value)) (before_port (trim value) (split b':' (trim value)))

-- An entry that the walk stops at.
abbrev pub untrusted : List Cidr → Option Bytes → Option Bytes
untrusted trusted none = none
untrusted trusted (some bytes) = if is_trusted (some bytes) trusted then none else some bytes

abbrev pub right_first : Option Bytes → Option Bytes → Option Bytes
right_first (some found) here = some found
right_first none here = here

-- The walk starts at the right, so an entry counts only when none further right was taken.
unfoldable pub walk : List Cidr → List String → Option Bytes
walk trusted List.[] = none
walk trusted (List.◌∷◌ entry chain) =
    right_first (walk trusted chain) (untrusted trusted (parse_ip entry))

abbrev pub peer_text : Option String → Option String
peer_text peer = elim (peer_bytes peer) [ none ↦ peer | some bytes ↦ some (format bytes) ]

abbrev pub found_or : Option String → Option Bytes → Option String
found_or fallback none = fallback
found_or fallback (some bytes) = some (format bytes)

module _ (to_lower_case : String → String) where
  abbrev for_value : Option (String × String) → List String
  for_value none = List.[]
  for_value (some (name, value)) =
      if to_lower_case (trim name) === "for"
      then List.◌∷◌ (strip_port (drop_close b'"' (drop_open b'"' (trim value)))) List.[]
      else List.[]

  -- What the loop over the parameters of one element pushes.
  unfoldable pub for_values : List String → List String
  for_values List.[] = List.[]
  for_values (List.◌∷◌ param params) = for_value (cut_first b'=' param) ++ for_values params

  unfoldable pub elements : List String → List String
  unfolding for_values
  elements List.[] = List.[]
  elements (List.◌∷◌ element more) = for_values (split b';' element) ++ elements more

  unfoldable pub parse_forwarded_chain : (header_name value : String) → List String
  unfolding elements
  parse_forwarded_chain header_name value =
      if to_lower_case (trim header_name) === "forwarded"
      then elements (split b',' value)
      else map strip_port (split b',' value)

  abbrev pub read_chain : Option String → String → List Cidr → String → Option String
  read_chain peer value trusted header_name =
      if is_empty value
      then peer_text peer
      else found_or (peer_text peer) (walk trusted (parse_forwarded_chain header_name value))

  unfoldable pub resolve_client_ip :
      Option String → Option String → List Cidr → (header_name : String) → Option String
  unfolding walk parse_forwarded_chain
  resolve_client_ip peer none trusted header_name = peer_text peer
  resolve_client_ip peer (some value) trusted header_name =
      if is_trusted (peer_bytes peer) trusted
      then read_chain peer value trusted header_name
      else peer_text peer
