-- ===== src/Client/Examples/Started.antt =====
-- src/lib.rs: a client that starts in a browser whose one data channel delivers the handshake.
use ant_wasm_client.Base.{
  ℕ, ◌≡◌, refl, ap, ◌∙◌, true, false, none, some, [], ◌∷◌, ◌++◌, All, get_elem?, Bytes, Text, take,
  drop, replicate, ok,
}
use ant_wasm_client.Texts.{codes, starts_with, split, without_cr, join}
use ant_wasm_client.Sdp.{munge_offer, server_answer, fingerprint_to_colon_form}
use ant_wasm_client.Env.{Env}
use ant_wasm_client.Framing.{encode_frame, chunks}
use ant_wasm_client.Transport.{Transport, from_open}
use ant_wasm_client.Transport.Connect
use ant_wasm_client.Transport.Connect.{Browser, Opened, wait_for_open, open_channel}
use ant_wasm_client.Tunnel.{from_shared_secret}
use ant_wasm_client.Tunnel.Handshake.{server_accept}
use ant_wasm_client.Action.{◌>>=◌, bind-of_ok}
use ant_wasm_client.Transport.Exchange.{Delivers}
use ant_wasm_client.Conn.{NodeConnection, establish}
use ant_wasm_client.Conn.Accepted.{IsAccept, establish-server_accept}
use ant_wasm_client.Assoc.{lookup}
use ant_wasm_client.Protocol.{PeerConnectInfo}
use ant_wasm_client.Client.{World, Client, establish_on, connect, pooled_or_new, connection_for}
use ant_wasm_client.Client.Upload.{Encryption}
use ant_wasm_client.Client.Authentic.{IsAuthentic, ConnectsTo, sessions}
use ant_wasm_client.Client.Authentic.Pooled.{connection_for-ConnectsTo}
use ant_wasm_client.Client.Authentic.Reached.{
  Reached-IsAuthentic, started, then_called, chunk_fetched,
}
use ant_wasm_client.Client.Connected.{Connected, start-Connected}
use ant_wasm_client.Client.Counted.{IsCounted, StillAt}
use ant_wasm_client.Client.Counted.Calls.{now, after, Later-IsCounted}
use ant_wasm_client.Client.Examples.Download.{se}
use ant_wasm_client.Client.Parse.{parse_opt_peer_id}
use ant_wasm_client.Client.Calls.{undialed, start, client_of, fetch_chunk}
use ant_wasm_client.Client.Examples.{env, world, served}

abbrev pub accept : Bytes
accept = server_accept (replicate 1088 1) (replicate 1952 2) (replicate 3309 3)

abbrev offer : Text
offer = codes "a=ice-ufrag:x" ++ (0x0a ∷ codes "a=ice-pwd:y")

abbrev pub browser : Browser
browser = record {
  new = λ _. ok tt;
  random = ok (7 ∷ []);
  create_offer = ok offer;
  set_local_description = λ _. ok tt;
  gathering = record { complete_now = false; complete_later = true };
  local_description = λ _. some offer;
  set_remote_description = λ _. ok tt;
  channel = λ _ _. record {
    open_now = true;
    open_later = true;
    state = [];
    receiver = encode_frame accept ∷ [];
    faults = λ _. none;
  };
}

abbrev pub online : World
online = record world {
  browser = λ _. browser;
  keygen = λ _. ok (replicate 1184 8, replicate 32 9);
}

abbrev pub short : Env
short = record (env served) {
  hashes = record { blake3 = λ b. take 32 b; derive_key = λ t ss. ss; keccak256 = λ b. b };
}

abbrev connection_to : Opened → Transport → NodeConnection
connection_to o t = record {
  transport = t;
  cipher = from_shared_secret short.hashes (replicate 32 9);
  peer_id = take 32 (replicate 1952 2);
  next_seq = 1;
}

abbrev opened : Opened
opened = record {
  local = codes "a=ice-ufrag:" ++ (7 ∷ 0x0d ∷ 0x0a ∷ codes "a=ice-pwd:" ++ (7 ∷ 0x0d ∷ 0x0a ∷ []));
  remote = server_answer (codes "::1") 4070 (7 ∷ []) (codes "AB");
  transport = from_open (encode_frame accept ∷ []) (λ _. none);
}

dialed :
    Connect.connect browser online.upper online.hex_encode (codes "::1") 4070 (codes "ab")
    ≡ ok opened
unfolding Connect.connect open_channel wait_for_open munge_offer starts_with split without_cr
    fingerprint_to_colon_form chunks join take drop
dialed = refl

delivers : Delivers (encode_frame accept ++ []) opened.transport
unfolding from_open
delivers = record { held = refl; no_faults = λ i. refl }

accepts :
    IsAccept short
      (replicate 1184 8)
      (replicate 32 9)
      none
      (replicate 1088 1)
      (replicate 1952 2)
      (replicate 3309 3)
      (replicate 32 9)
accepts = record {
  ct_size = refl;
  pubkey_size = refl;
  signature_size = refl;
  valid_key = refl;
  signed = refl;
  pinned = tt;
  valid_ct = refl;
  decapsulated = refl;
}

established :
    (t : Transport) × ((establish short
        (ok (replicate 1184 8, replicate 32 9))
        none
        opened.transport).0
      ≡ ok (connection_to opened t))
    × Delivers [] t
established =
    establish-server_accept short (replicate 1184 8) (replicate 32 9) none (replicate 1088 1)
      (replicate 1952 2) (replicate 3309 3) (replicate 32 9) [] opened.transport accepts delivers

abbrev page : Client
page = client_of (connection_to opened established.0)

abbrev dialed_once : Client
dialed_once = record undialed { dialed = 1 }

connected :
    connect short online (codes "::1") 4070 (codes "ab") none undialed
    ≡ (ok (connection_to opened established.0), dialed_once)
unfolding connect establish_on
connected =
    ap (λ o. (establish_on short online 0 none o, dialed_once)) dialed
    ∙ ap (λ r. (r, dialed_once)) established.1

page_started : start short online (codes "::1") 4070 (codes "ab") [] ≡ ok page
unfolding start parse_opt_peer_id
page_started =
    ap (λ r. r.0)
      (bind-of_ok _ _ undialed undialed none refl
        ∙ bind-of_ok _ _ undialed dialed_once (connection_to opened established.0) connected)

abbrev encryption : Encryption Bytes
encryption = record {
  encrypt = λ b. ok (b, []);
  shrink_data_map = λ m. ok (m, []);
  to_vec = λ m. ok m;
}

-- Then the page fetches a chunk, which fails.
Reached-IsAuthentic_example : IsAuthentic short online (fetch_chunk short online (7 ∷ []) page).1
Reached-IsAuthentic_example =
    Reached-IsAuthentic short online se encryption (fetch_chunk short online (7 ∷ []) page).1 (
      then_called (started (codes "::1") 4070 (codes "ab") [] page page_started)
        (chunk_fetched (7 ∷ []) page))

abbrev boot_peer : PeerConnectInfo
boot_peer = record { peer_id = replicate 32 2; ip = []; port = 1; cert_hash = [] }

page-IsAuthentic : IsAuthentic short online page
page-IsAuthentic =
    Reached-IsAuthentic short online se encryption page
      (started (codes "::1") 4070 (codes "ab") [] page page_started)

pooled : (connection_for short online boot_peer page).0 ≡ ok 0
unfolding connection_for pooled_or_new ◌>>=◌ lookup client_of take
pooled = refl

connection_for-ConnectsTo_example :
    ConnectsTo short online
      (sessions (connection_for short online boot_peer page).1)
      (replicate 32 2)
      0
connection_for-ConnectsTo_example =
    connection_for-ConnectsTo short online boot_peer page 0 page-IsAuthentic pooled

-- From the started page to the one whose fetch failed.
Later-IsCounted_example :
    ((id : ℕ) (c : NodeConnection)
      → get_elem? page.heap id ≡ some c
      → StillAt (fetch_chunk short online (7 ∷ []) page).1.heap id c)
    × All IsCounted (fetch_chunk short online (7 ∷ []) page).1.heap
Later-IsCounted_example =
    Later-IsCounted short online se encryption page (fetch_chunk short online (7 ∷ []) page).1
      (started (codes "::1") 4070 (codes "ab") [] page page_started)
      (after now (chunk_fetched (7 ∷ []) page))

start-Connected_example :
    (s : Client) × (start short online (codes "::1") 4070 (codes "ab") [] ≡ ok s)
    × Connected short online
        (replicate 32 2)
        (from_shared_secret short.hashes (replicate 32 9))
        []
        s
unfolding parse_opt_peer_id take
start-Connected_example =
    start-Connected short online (codes "::1") 4070 (codes "ab") [] none opened (replicate 1184 8)
      (replicate 32 9) (replicate 1088 1) (replicate 1952 2) (replicate 3309 3) (replicate 32 9) []
      refl dialed refl accepts delivers
