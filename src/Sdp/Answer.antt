-- ===== src/Sdp/Answer.antt =====
-- src/sdp.rs: what `server_answer` tells the browser of the server.
use ant_wasm_client.Base.{
  ℕ, ◌≡◌, refl, ap, sym, ◌∙◌, subst, if◌then◌else◌, [], ◌∷◌, ◌++◌, append_assoc, Text,
}
use ant_wasm_client.Texts.{codes, decimal_u16}
use ant_wasm_client.Sdp.{ufrag_prefix, pwd_prefix, crlf, line, has_colon, server_answer}

-- A text that has another one in it.
pub record Contains (part text : Text) : Type 0 where
  pub front : Text
  pub back : Text
  pub joined : text ≡ front ++ (part ++ back)

Contains-head : (part back : Text) → Contains part (part ++ back)
Contains-head part back = record { front = []; back = back; joined = refl }

Contains-behind : (front part text : Text) → Contains part text → Contains part (front ++ text)
Contains-behind front part text c = record {
  front = front ++ c.front;
  back = c.back;
  joined = ap (λ t. front ++ t) c.joined ∙ sym (append_assoc front c.front (part ++ c.back));
}

-- A line of its own, with the end of the line before it.
abbrev pub own_line : Text → Text
own_line l = crlf ++ (l ++ crlf)

-- A line of two parts, behind a line, stands on its own.
Contains-line :
    (before a b rest : Text)
    → Contains (own_line (a ++ b)) ((before ++ crlf) ++ (line (a ∷ b ∷ []) ++ rest))
Contains-line before a b rest = record {
  front = before;
  back = rest;
  joined =
      ap (λ l. (before ++ crlf) ++ (l ++ rest)) (sym (append_assoc a b crlf))
      ∙ append_assoc before crlf (((a ++ b) ++ crlf) ++ rest);
}

Contains-next :
    (a b a' b' rest : Text)
    → Contains (own_line (a' ++ b')) (line (a ∷ b ∷ []) ++ (line (a' ∷ b' ∷ []) ++ rest))
Contains-next a b a' b' rest =
    subst (λ l. Contains (own_line (a' ++ b')) (l ++ (line (a' ∷ b' ∷ []) ++ rest)))
      (append_assoc a b crlf) (Contains-line (a ++ b) a' b' rest)

-- The five parts of the candidate's line.
Contains-candidate :
    (a b c d e rest : Text)
    → Contains (a ++ (b ++ (c ++ (d ++ e)))) (line (a ∷ b ∷ c ∷ d ∷ e ∷ []) ++ rest)
Contains-candidate a b c d e rest = record {
  front = [];
  back = crlf ++ rest;
  joined = simp (append_assoc);
}

-- What the browser takes from an answer: the credential, as ufrag and as password, the fingerprint
-- that the server's certificate has to have, and the address and port of the one candidate.
pub record Describes (ip : Text) (port : ℕ) (ufrag fingerprint_colon answer : Text) : Type 0 where
  pub a_ufrag : Contains (own_line (ufrag_prefix ++ ufrag)) answer
  pub a_pwd : Contains (own_line (pwd_prefix ++ ufrag)) answer
  pub pinned : Contains (own_line (codes "a=fingerprint:sha-256 " ++ fingerprint_colon)) answer
  pub candidate :
      Contains
        (codes "a=candidate:1467250027 1 UDP 1467250027 "
          ++ (ip ++ (codes " " ++ (decimal_u16 port ++ codes " typ host"))))
        answer

-- The lines behind the credentials.
abbrev behind_pwd : Text → ℕ → Text → Text
behind_pwd ip port fingerprint =
    line (codes "a=fingerprint:sha-256 " ∷ fingerprint ∷ [])
    ++ (line (codes "a=setup:passive" ∷ [])
        ++ (line (codes "a=sctp-port:5000" ∷ [])
            ++ (line (codes "a=max-message-size:5242880" ∷ [])
                ++ (line (
                      codes "a=candidate:1467250027 1 UDP 1467250027 "
                      ∷ ip
                      ∷ codes " "
                      ∷ decimal_u16 port
                      ∷ codes " typ host"
                      ∷ [])
                    ++ line (codes "a=end-of-candidates" ∷ [])))))

abbrev credentials : Text → Text → Text
credentials ufrag rest =
    line (ufrag_prefix ∷ ufrag ∷ []) ++ (line (pwd_prefix ∷ ufrag ∷ []) ++ rest)

-- The lines before the credentials, but the last.
abbrev version : Text → Text
version ip = if has_colon ip then codes "IP6" else codes "IP4"

Contains-answer :
    (ip : Text) (port : ℕ) (ufrag fingerprint part : Text)
    → Contains part (
        line (codes "a=ice-options:ice2" ∷ [])
        ++ credentials ufrag (behind_pwd ip port fingerprint))
    → Contains part (server_answer ip port ufrag fingerprint)
unfolding server_answer
Contains-answer ip port ufrag fingerprint part c =
    let v = version ip in
    Contains-behind (line (codes "v=0" ∷ [])) part _ (
      Contains-behind (line (codes "o=- 0 0 IN " ∷ v ∷ codes " " ∷ ip ∷ [])) part _ (
        Contains-behind (line (codes "s=-" ∷ [])) part _ (
          Contains-behind (line (codes "t=0 0" ∷ [])) part _ (
            Contains-behind (line (codes "a=ice-lite" ∷ [])) part _ (
              Contains-behind
                (line (
                  codes "m=application "
                  ∷ decimal_u16 port
                  ∷ codes " UDP/DTLS/SCTP webrtc-datachannel"
                  ∷ []))
                part _
                (Contains-behind (line (codes "c=IN " ∷ v ∷ codes " " ∷ ip ∷ [])) part _
                  (Contains-behind (line (codes "a=mid:0" ∷ [])) part _ c)))))))

pub server_answer-Describes :
    (ip : Text) (port : ℕ) (ufrag fingerprint : Text)
    → Describes ip port ufrag fingerprint (server_answer ip port ufrag fingerprint)
server_answer-Describes ip port ufrag fingerprint =
    let tail = behind_pwd ip port fingerprint in
    let options = line (codes "a=ice-options:ice2" ∷ []) in
    let in_answer = Contains-answer ip port ufrag fingerprint in
    record {
      a_ufrag = in_answer _ (
          Contains-line (codes "a=ice-options:ice2") ufrag_prefix ufrag
            (line (pwd_prefix ∷ ufrag ∷ []) ++ tail));
      a_pwd =
          in_answer _
            (Contains-behind options _ _ (Contains-next ufrag_prefix ufrag pwd_prefix ufrag tail));
      pinned = in_answer _ (
          Contains-behind options _ _ (
            Contains-behind (line (ufrag_prefix ∷ ufrag ∷ [])) _ _
              (Contains-next pwd_prefix ufrag (codes "a=fingerprint:sha-256 ") fingerprint _)));
      candidate = in_answer _ (
          Contains-behind options _ _ (
            Contains-behind (line (ufrag_prefix ∷ ufrag ∷ [])) _ _ (
              Contains-behind (line (pwd_prefix ∷ ufrag ∷ [])) _ _ (
                Contains-behind (line (codes "a=fingerprint:sha-256 " ∷ fingerprint ∷ [])) _ _ (
                  Contains-behind (line (codes "a=setup:passive" ∷ [])) _ _ (
                    Contains-behind (line (codes "a=sctp-port:5000" ∷ [])) _ _ (
                      Contains-behind (line (codes "a=max-message-size:5242880" ∷ [])) _ _ (
                        Contains-candidate (codes "a=candidate:1467250027 1 UDP 1467250027 ") ip
                          (codes " ") (decimal_u16 port) (codes " typ host")
                          (line (codes "a=end-of-candidates" ∷ []))))))))));
    }
