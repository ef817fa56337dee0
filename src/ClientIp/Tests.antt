-- ===== src/ClientIp/Tests.antt =====
-- Runs of apps/server/src/client-ip.ts, and the witnesses of its theorems.
use server_central.Prelude.{
  trim, ◌≡◌, refl, ◌↔◌, ◌⊎◌, inr, Option, none, some, List, [], ◌∷◌, String, true, false, All, any,
  length, arith, find,
}
use server_central.Prelude.Text.Split.{◌+++◌, cut_first}
use server_central.ClientIp.{Bytes, parse_ip, format}
use server_central.ClientIp.Trusted.{
  Cidr, in_cidr, is_trusted, peer_bytes, peer_text, parse_forwarded_chain, resolve_client_ip, walk,
  match_trusted, strip_port, header_for_peer,
}
use server_central.ClientIp.Trusted.Prefix.{in_cidr_iff, SameBits}
use server_central.ClientIp.Trusted.Resolve.{resolve_client_ip-forged, resolve_client_ip_lem}
use server_central.ClientIp.Trusted.Resolve.Walk.{IsSkipped, Taken}
use server_central.ClientIp.RoundTrip.{parse_ip-format}

abbrev local : Bytes
local = 0x20 ∷ 1 ∷ 0x0d ∷ 0xb8 ∷ 0 ∷ 0 ∷ 0 ∷ 0 ∷ 0 ∷ 0 ∷ 0 ∷ 0 ∷ 0 ∷ 0 ∷ 0 ∷ 1 ∷ []

abbrev hex_mapped : Bytes
hex_mapped = 0 ∷ 0 ∷ 0 ∷ 0 ∷ 0 ∷ 0 ∷ 0 ∷ 0 ∷ 0 ∷ 0 ∷ 0xff ∷ 0xff ∷ 10 ∷ 0 ∷ 0 ∷ 1 ∷ []

runs :
    (parse_ip " [::FFFF:10.0.0.1] " ≡ some (10 ∷ 0 ∷ 0 ∷ 1 ∷ []))
    × (parse_ip "2001:db8::1" ≡ some local)
    × (parse_ip "1.2.3.256" ≡ none)
    × (parse_ip "1::2::3" ≡ none)
    × (parse_ip "::ffff:a00:1" ≡ some hex_mapped)
    × (format local ≡ "2001:db8::1")
    × (format (10 ∷ 0 ∷ 0 ∷ 123 ∷ []) ≡ "10.0.0.123")
unfolding parse_ip format trim
runs = (refl, refl, refl, refl, refl, refl, refl)

abbrev ten : Cidr
ten = record { bytes = 10 ∷ 0 ∷ 0 ∷ 0 ∷ []; bits = 12; header = some "x-real-ip" }

abbrev same : String → String
same s = s

abbrev proxies : List Cidr
proxies = ten ∷ []

abbrev peer : Option String
peer = some "10.0.0.1"

walked :
    (resolve_client_ip same peer (some "6.6.6.6, 1.2.3.4:80, 10.1.1.1") proxies "x"
      ≡ some "1.2.3.4")
    × (resolve_client_ip same peer
          (some "for=6.6.6.6;by=a, for=\"[2001:db8::1]:443\"")
          proxies
          "forwarded"
        ≡ some "2001:db8::1")
    × (header_for_peer peer proxies "y" ≡ "x-real-ip")
unfolding resolve_client_ip header_for_peer match_trusted parse_ip format trim find walk
    parse_forwarded_chain strip_port cut_first
walked = (refl, refl, refl)

abbrev ip : Bytes
ip = 10 ∷ 15 ∷ 1 ∷ 1 ∷ []

in_cidr_iff_example :
    (in_cidr ip ten ≡ true) ↔ ((length ip ≡ 4) × SameBits 12 ip (10 ∷ 0 ∷ 0 ∷ 0 ∷ []))
in_cidr_iff_example =
    in_cidr_iff ip ten (omega arith, (omega arith, (omega arith, (omega arith, tt))))
      (omega arith, (omega arith, (omega arith, (omega arith, tt)))) (omega arith)

resolve_client_ip-forged_example :
    resolve_client_ip same peer (some ("6.6.6.6" +++ ("," +++ "1.2.3.4"))) proxies "x"
    ≡ resolve_client_ip same peer (some "1.2.3.4") proxies "x"
unfolding any match_trusted parse_ip trim parse_forwarded_chain strip_port find
resolve_client_ip-forged_example =
    resolve_client_ip-forged same peer proxies "x" "6.6.6.6" "1.2.3.4" refl

resolve_client_ip_lem_example :
    let answer = resolve_client_ip same peer (some "1.2.3.4") proxies "x" in
    let chain = parse_forwarded_chain same "x" "1.2.3.4" in
    ((is_trusted (peer_bytes peer) proxies ≡ false) × (answer ≡ peer_text peer))
    ⊎ ((is_trusted (peer_bytes peer) proxies ≡ true)
        × ((All (IsSkipped proxies) chain × (answer ≡ peer_text peer))
            ⊎ ((found : Bytes) × Taken proxies chain found × (answer ≡ some (format found)))))
resolve_client_ip_lem_example = resolve_client_ip_lem same peer "1.2.3.4" proxies "x"

parse_ip-format_example : parse_ip (format local) ≡ some local
parse_ip-format_example =
    parse_ip-format local
      (
        omega arith,
        (
          omega arith,
          (
            omega arith,
            (
              omega arith,
              (
                omega arith,
                (
                  omega arith,
                  (
                    omega arith,
                    (
                      omega arith,
                      (
                        omega arith,
                        (
                          omega arith,
                          (
                            omega arith,
                            (
                              omega arith,
                              (omega arith, (omega arith, (omega arith, (omega arith, tt)))),
                            ),
                          ),
                        ),
                      ),
                    ),
                  ),
                ),
              ),
            ),
          ),
        ),
      )
      (inr (refl, λ (rest, e). cc))
