-- ===== src/Middleware/ClientIp/Tests.antt =====
-- A network whose addresses are texts; the proxy is "p".
use freecloud.Prelude.{
  true, Bytes, codes, List, [], ◌∷◌, ◌++◌, none, some, eq_bytes, ◌≡◌, refl, if◌then◌else◌,
  trim_space,
}
use freecloud.Middleware.ClientIp.{Netip, Request, client_key, is_trusted, reverse_forwarded_for}
use freecloud.Middleware.ClientIp.Forged.{client_key-forged, stops}

abbrev toy : Netip Bytes Bytes
unfolding eq_bytes
toy = record {
  parse_addr = λ s. if eq_bytes s (codes "?") then none else some s;
  parse_prefix = some;
  masked = λ p. p;
  host_prefix = λ a. a;
  contains = eq_bytes;
  is_valid = λ a. true;
  unmap = λ a. a;
  is4 = λ a. true;
  show_addr = λ a. a;
  show_prefix = λ p. p;
  prefix_of = λ a n. some a;
  split_host_port = some;
}

abbrev proxies : List Bytes
proxies = codes "p" ∷ []

behind_proxy :
    client_key toy proxies
      (record { remote_addr = codes "p"; forwarded_for = codes "x, c" ∷ codes "p" ∷ [] })
    ≡ codes "c"
unfolding client_key eq_bytes trim_space
behind_proxy = refl

client_key-forged_example :
    client_key toy proxies (record {
      remote_addr = codes "p";
      forwarded_for = (codes "f, g" ++ (b',' ∷ codes "c")) ∷ [];
    })
    ≡ client_key toy proxies (record { remote_addr = codes "p"; forwarded_for = codes "c" ∷ [] })
unfolding eq_bytes stops is_trusted reverse_forwarded_for trim_space
client_key-forged_example =
    client_key-forged toy proxies (codes "p") (codes "f, g") (codes "c") [] refl

abbrev direct : Request
direct = record { remote_addr = codes "c"; forwarded_for = codes "f" ∷ [] }
