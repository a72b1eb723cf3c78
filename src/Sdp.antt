-- ===== src/Sdp.antt =====
-- src/sdp.rs: the two descriptions of a direct connection.
pub mod Lines
pub mod Answer
mod Examples
use ant_wasm_client.Base.{
  ℕ, ◌+◌, ◌-◌, Bool, true, false, ◌&&◌, List, [], ◌∷◌, ◌++◌, map, ltb, leb, ◌==◌, if◌then◌else◌,
  Text, ok, err,
}
use ant_wasm_client.Errors.{Fallible, credentials_replaced}
use ant_wasm_client.Framing.{chunks}
use ant_wasm_client.Texts.{codes, starts_with, split, without_cr, join, decimal_u16}

abbrev pub ufrag_prefix : Text
ufrag_prefix = codes "a=ice-ufrag:"

abbrev pub pwd_prefix : Text
pwd_prefix = codes "a=ice-pwd:"

abbrev pub crlf : Text
crlf = 0x0d ∷ 0x0a ∷ []

-- A line with its credential replaced, and how many were.
unfoldable pub munge_line : Text → Text → Text × ℕ
munge_line ufrag line =
    if starts_with ufrag_prefix line
    then (ufrag_prefix ++ ufrag, 1)
    else (if starts_with pwd_prefix line then (pwd_prefix ++ ufrag, 1) else (line, 0))

-- A line, without its carriage return, before what the later ones put out; an empty one is skipped.
unfoldable pub add_munged : Text → Text → Text × ℕ → Text × ℕ
unfolding munge_line
add_munged ufrag [] later = later
add_munged ufrag (b ∷ t) later =
    let munged = munge_line ufrag (b ∷ t) in (munged.0 ++ (crlf ++ later.0), munged.1 + later.1)

-- The `for` of `munge_offer` over the raw lines: what it adds to `out` and to `replaced`.
unfoldable pub munge_lines : Text → List Text → Text × ℕ
unfolding add_munged
munge_lines ufrag [] = ([], 0)
munge_lines ufrag (raw ∷ raws) = add_munged ufrag (without_cr raw) (munge_lines ufrag raws)

unfoldable pub munge_offer : Text → Text → Fallible Text
unfolding munge_lines
munge_offer sdp ufrag =
    let (out, replaced) = munge_lines ufrag (split 0x0a sdp) in
    if replaced == 2 then ok out else err (credentials_replaced replaced)

-- `ip.contains(':')`
pub has_colon : Text → Bool
has_colon [] = false
has_colon (b ∷ t) = if b == b':' then true else has_colon t

-- A text ended by a carriage return and a line feed.
abbrev pub line : List Text → Text
line [] = crlf
line (part ∷ parts) = part ++ line parts

unfoldable pub server_answer : Text → ℕ → Text → Text → Text
unfolding has_colon
server_answer ip port ufrag fingerprint_colon =
    let v = if has_colon ip then codes "IP6" else codes "IP4" in
    line (codes "v=0" ∷ [])
    ++ (line (codes "o=- 0 0 IN " ∷ v ∷ codes " " ∷ ip ∷ [])
        ++ (line (codes "s=-" ∷ [])
            ++ (line (codes "t=0 0" ∷ [])
                ++ (line (codes "a=ice-lite" ∷ [])
                    ++ (line (
                          codes "m=application "
                          ∷ decimal_u16 port
                          ∷ codes " UDP/DTLS/SCTP webrtc-datachannel"
                          ∷ [])
                        ++ (line (codes "c=IN " ∷ v ∷ codes " " ∷ ip ∷ [])
                            ++ (line (codes "a=mid:0" ∷ [])
                                ++ (line (codes "a=ice-options:ice2" ∷ [])
                                    ++ (line (ufrag_prefix ∷ ufrag ∷ [])
                                        ++ (line (pwd_prefix ∷ ufrag ∷ [])
                                            ++ (line (
                                                  codes "a=fingerprint:sha-256 "
                                                  ∷ fingerprint_colon
                                                  ∷ [])
                                                ++ (line (codes "a=setup:passive" ∷ [])
                                                    ++ (line (codes "a=sctp-port:5000" ∷ [])
                                                        ++ (line (
                                                            codes "a=max-message-size:5242880" ∷ [])
                                                            ++ (line (
                                                            codes
                                                            "a=candidate:1467250027 1 UDP 1467250027 "
                                                            ∷ ip
                                                            ∷ codes " "
                                                            ∷ decimal_u16 port
                                                            ∷ codes " typ host"
                                                            ∷ [])
                                                            ++ line (
                                                            codes "a=end-of-candidates"
                                                            ∷ []))))))))))))))))

-- `to_uppercase` of an ASCII character.
unfoldable pub upper : ℕ → ℕ
upper c = if leb b'a' c && leb c b'z' then c - 32 else c

is_ascii : Text → Bool
is_ascii [] = true
is_ascii (b ∷ t) = ltb b 128 && is_ascii t

-- `from_utf8(c).unwrap_or("").to_uppercase()`, with what it is beyond ASCII as the argument `other`.
unfoldable pub upper_pair : (Text → Text) → Text → Text
unfolding is_ascii upper
upper_pair other c = if is_ascii c then map upper c else other c

unfoldable pub fingerprint_to_colon_form : (Text → Text) → Text → Text
unfolding upper_pair
fingerprint_to_colon_form other hex_fp = join (codes ":") (map (upper_pair other) (chunks 2 hex_fp))
