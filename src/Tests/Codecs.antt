-- ===== src/Tests/Codecs.antt =====
-- Texts for logins and sessions: each character of a field stands behind an `a`, its end is a `b`.
use Prim.Native.Char.{Char, code}
use Prim.Native.String.{[], ◌∷◌}
use ai_auto_platform.Prelude.{
  ℕ, zero, suc, ◌≡◌, refl, false, Option, some, String, is_empty, ◌==◌, if◌then◌else◌,
}
use ai_auto_platform.Auth.Sessions.{LoginTransaction, BrowserSession}
use ai_auto_platform.Auth.Redis.{Codec}
use ai_auto_platform.Auth.Redis.Refinement.{IsCodec}

pub write : String → String → String
write [] rest = "b" ∷ rest
write (c ∷ s) rest = "a" ∷ (c ∷ write s rest)

abbrev put_front : Char → String × String → String × String
put_front c (s, rest) = (c ∷ s, rest)

pub read : String → String × String
read [] = ([], [])
read (d ∷ []) = ([], [])
read (d ∷ (c ∷ t)) = let more = read t in if code d == b'b' then ([], c ∷ t) else put_front c more

pub write_number : ℕ → String → String
write_number zero rest = "b" ∷ rest
write_number (suc n) rest = "a" ∷ write_number n rest

pub read_number : String → ℕ × String
read_number [] = (0, [])
read_number (d ∷ t) =
    let (n, rest) = read_number t in if code d == b'b' then (0, t) else (suc n, rest)

-- The end of a text, so that a field is followed by a character.
abbrev ending : String
ending = "c"

data IsFilled : String → Type 0 where
  filled : (c : Char) (s : String) → IsFilled (c ∷ s)

write-IsFilled : (s rest : String) → IsFilled (write s rest)
unfolding write
write-IsFilled [] rest = IsFilled.filled _ _
write-IsFilled (c ∷ s) rest = IsFilled.filled _ _

read-write : (s rest : String) → IsFilled rest → read (write s rest) ≡ (s, rest)
unfolding read write
read-write [] rest (IsFilled.filled c t) = refl
read-write (c ∷ s) rest f = rw (read-write s rest f) refl

read_number-write_number : (n : ℕ) (rest : String) → read_number (write_number n rest) ≡ (n, rest)
unfolding read_number write_number
read_number-write_number zero rest = refl
read_number-write_number (suc n) rest = rw (read_number-write_number n rest) refl

IsFilled-is_empty : (s : String) → IsFilled s → is_empty s ≡ false
IsFilled-is_empty s (IsFilled.filled c t) = refl

pub write_login : LoginTransaction → String
write_login l = write l.return_to (write l.code_verifier (write l.nonce ending))

pub read_login : String → Option LoginTransaction
read_login s =
    let (return_to, s1) = read s in
    let (code_verifier, s2) = read s1 in
    let (nonce, s3) = read s2 in
    some (record { return_to = return_to; code_verifier = code_verifier; nonce = nonce })

read_login-write_login : (l : LoginTransaction) → read_login (write_login l) ≡ some l
unfolding read_login write_login
read_login-write_login l =
    let t2 = write l.nonce ending in
    let t1 = write l.code_verifier t2 in
    rw (read-write l.return_to t1 (write-IsFilled _ _)) (
      rw (read-write l.code_verifier t2 (write-IsFilled _ _))
        (rw (read-write l.nonce ending (IsFilled.filled "c" [])) refl))

pub write_session : BrowserSession → String
write_session s = write s.session_id (
    write s.csrf_token (
      write s.access_token (
        write s.refresh_token (
          write s.id_token (
            write s.identity.issuer (
              write s.identity.subject (
                write s.identity.email
                  (write s.identity.display_name (write_number s.expires_at ending)))))))))

pub read_session : String → Option BrowserSession
read_session s =
    let (session_id, s1) = read s in
    let (csrf_token, s2) = read s1 in
    let (access_token, s3) = read s2 in
    let (refresh_token, s4) = read s3 in
    let (id_token, s5) = read s4 in
    let (issuer, s6) = read s5 in
    let (subject, s7) = read s6 in
    let (email, s8) = read s7 in
    let (display_name, s9) = read s8 in
    let (expires_at, s10) = read_number s9 in
    some (record {
      session_id = session_id;
      csrf_token = csrf_token;
      access_token = access_token;
      refresh_token = refresh_token;
      id_token = id_token;
      expires_at = expires_at;
      identity = record {
        issuer = issuer;
        subject = subject;
        email = email;
        display_name = display_name;
      };
    })

write_number-IsFilled : (n : ℕ) (rest : String) → IsFilled (write_number n rest)
unfolding write_number
write_number-IsFilled zero rest = IsFilled.filled _ _
write_number-IsFilled (suc n) rest = IsFilled.filled _ _

read_session-write_session : (s : BrowserSession) → read_session (write_session s) ≡ some s
unfolding read_session write_session
read_session-write_session s =
    let t9 = write_number s.expires_at ending in
    let t8 = write s.identity.display_name t9 in
    let t7 = write s.identity.email t8 in
    let t6 = write s.identity.subject t7 in
    let t5 = write s.identity.issuer t6 in
    let t4 = write s.id_token t5 in
    let t3 = write s.refresh_token t4 in
    let t2 = write s.access_token t3 in
    let t1 = write s.csrf_token t2 in
    rw (read-write s.session_id t1 (write-IsFilled _ _)) (
      rw (read-write s.csrf_token t2 (write-IsFilled _ _)) (
        rw (read-write s.access_token t3 (write-IsFilled _ _)) (
          rw (read-write s.refresh_token t4 (write-IsFilled _ _)) (
            rw (read-write s.id_token t5 (write-IsFilled _ _)) (
              rw (read-write s.identity.issuer t6 (write-IsFilled _ _)) (
                rw (read-write s.identity.subject t7 (write-IsFilled _ _)) (
                  rw (read-write s.identity.email t8 (write-IsFilled _ _)) (
                    rw
                      (read-write s.identity.display_name t9
                        (write_number-IsFilled s.expires_at ending))
                      (rw (read_number-write_number s.expires_at ending) refl)))))))))

abbrev pub codec : Codec
codec = record {
  dump_login = write_login;
  load_login = read_login;
  dump_session = write_session;
  load_session = read_session;
}

pub codec-IsCodec : IsCodec codec
unfolding write_login write_session
codec-IsCodec = record {
  login = read_login-write_login;
  session = read_session-write_session;
  login_text = λ l. IsFilled-is_empty _ (write-IsFilled _ _);
  session_text = λ s. IsFilled-is_empty _ (write-IsFilled _ _);
}
