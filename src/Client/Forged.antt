-- ===== src/Client/Forged.antt =====
-- src/lib.rs: `closest_peers_json` on a peer whose ip is not an ip.
use ant_wasm_client.Base.{
  ◌≡◌, refl, sym, ap, ◌∙◌, List, [], ◌∷◌, ◌++◌, append_assoc, map, Bytes, Text, ok,
}
use ant_wasm_client.Texts.{codes, join, decimal_u16}
use ant_wasm_client.Protocol.{PeerConnectInfo}
use ant_wasm_client.Env.{Env}
use ant_wasm_client.Action.{bind-of_ok}
use ant_wasm_client.Conn.{closest_peers}
use ant_wasm_client.Client.{World, Client, on_connection}
use ant_wasm_client.Client.Parse.{parse_address}
use ant_wasm_client.Client.Calls.{peer_json, closest_peers_json}

module _ (env : Env) (world : World) where
  -- One peer in place of two: its ip is that of the first, the end of the first peer's object and the
  -- start of the second's, up to the second's ip.
  unfoldable pub forged : PeerConnectInfo → PeerConnectInfo → PeerConnectInfo
  forged p q = record {
    peer_id = p.peer_id;
    ip =
        p.ip
        ++ (codes "\",\"port\":"
            ++ (decimal_u16 p.port
                ++ (codes ",\"cert_hash\":\""
                    ++ (world.hex_encode p.cert_hash
                        ++ (codes "\"},{\"peer_id\":\""
                            ++ (world.hex_encode q.peer_id ++ (codes "\",\"ip\":\"" ++ q.ip)))))));
    port = q.port;
    cert_hash = q.cert_hash;
  }

  forged-json :
      (p q : PeerConnectInfo)
      → peer_json env world (forged p q) ≡ join (codes ",") (map (peer_json env world) (p ∷ q ∷ []))
  unfolding join forged
  forged-json p q = simp append_assoc refl

  closest_peers_json-listed :
      (address_hex : Text) (address : Bytes) (peers : List PeerConnectInfo) (s : Client)
      → parse_address world.hex_decode address_hex ≡ ok address
      → (on_connection s.bootstrap (closest_peers env address) s).0 ≡ ok peers
      → (closest_peers_json env world address_hex s).0
        ≡ ok (codes "[" ++ (join (codes ",") (map (peer_json env world) peers) ++ codes "]"))
  unfolding closest_peers_json
  closest_peers_json-listed address_hex address peers s parsed listed =
      let s' = (on_connection s.bootstrap (closest_peers env address) s).1 in
      ap (λ r. r.0)
        (bind-of_ok _ _ s s address (ap (λ r. (r, s)) parsed)
          ∙ bind-of_ok _ _ s s s.bootstrap refl
          ∙ bind-of_ok _ _ s s' peers (ap (λ r. (r, s')) listed))

  -- The JSON of the peers can be forged: for any two peers there is one whose ip, a text that the
  -- node sends, makes `closest_peers_json` return the very text that it returns for the two, so that
  -- the page reads a peer out of an ip.
  pub closest_peers_json-forged :
      (address_hex : Text) (address : Bytes) (p q : PeerConnectInfo) (s s' : Client)
      → parse_address world.hex_decode address_hex ≡ ok address
      → (on_connection s.bootstrap (closest_peers env address) s).0 ≡ ok (forged p q ∷ [])
      → (on_connection s'.bootstrap (closest_peers env address) s').0 ≡ ok (p ∷ q ∷ [])
      → (closest_peers_json env world address_hex s).0
        ≡ (closest_peers_json env world address_hex s').0
  unfolding join
  closest_peers_json-forged address_hex address p q s s' parsed one two =
      closest_peers_json-listed address_hex address (forged p q ∷ []) s parsed one
      ∙ ap (λ t. ok (codes "[" ++ (t ++ codes "]"))) (forged-json p q)
      ∙ sym (closest_peers_json-listed address_hex address (p ∷ q ∷ []) s' parsed two)
