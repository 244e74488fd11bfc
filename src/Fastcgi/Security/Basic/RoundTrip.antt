-- ===== src/Fastcgi/Security/Basic/RoundTrip.antt =====
-- src/sapi/fastcgi/security.c: `fcgi_basic_decode` gives back the credentials that a client encodes.
use multi_agent.Common.{
  ℕ, ◌+◌, ◌≤◌, ◌<◌, false, some, [], ◌∷◌, ◌++◌, Bytes, codes, length, length-append, ◌==◌, ◌≡◌,
  refl, ap, arith, lt→leb,
}
use multi_agent.Util.Id.Injective.{AllBytes}
use multi_agent.Util.Base64.{encode}
use multi_agent.Fastcgi.Security.Basic.{at_colon, up_to_nul, copied, basic_decode}
use multi_agent.Fastcgi.Security.Basic.Groups.{b64_decode-encode}

-- Bytes of a C string, and these without a colon.
abbrev pub IsText : Bytes → Type 0
IsText [] = Unit {0}
IsText (c ∷ s) = ((c == 0) ≡ false) × IsText s

abbrev pub NoColon : Bytes → Type 0
NoColon [] = Unit {0}
NoColon (c ∷ s) = ((c == b':') ≡ false) × NoColon s

at_colon-append :
    (user rest : Bytes)
    → IsText user
    → NoColon user
    → at_colon (user ++ (b':' ∷ rest)) ≡ some (user, rest)
unfolding at_colon
at_colon-append [] rest h k = refl
at_colon-append (c ∷ user) rest h k = rw (h.0, k.0, at_colon-append user rest h.1 k.1) refl

up_to_nul-IsText : (s : Bytes) → IsText s → up_to_nul s ≡ s
unfolding up_to_nul
up_to_nul-IsText [] h = refl
up_to_nul-IsText (c ∷ s) h = rw h.0 (ap (◌∷◌ c) (up_to_nul-IsText s h.1))

copied_lem :
    (user pass : Bytes) (user_size pass_size : ℕ)
    → 0 < length user
    → 0 < length pass
    → length user < user_size
    → length pass < pass_size
    → copied user pass user_size pass_size ≡ some (user, pass)
unfolding copied
copied_lem [] pass user_size pass_size a b h k = absurd (omega arith)
copied_lem (c ∷ user) [] user_size pass_size a b h k = absurd (omega arith)
copied_lem (c ∷ user) (d ∷ pass) user_size pass_size a b h k =
    rw (lt→leb user_size (length (c ∷ user)) h, lt→leb pass_size (length (d ∷ pass)) k) refl

-- a user and a password that are not empty, hold no NUL byte, are each shorter than its buffer and together no longer than 510 bytes, and of which the user holds no colon, are read back from the header "Basic " with their base64, as base64_encode writes it.
pub basic_decode-encode :
    (user pass : Bytes) (user_size pass_size : ℕ)
    → AllBytes (user ++ (b':' ∷ pass))
    → IsText user
    → NoColon user
    → IsText pass
    → 0 < length user
    → 0 < length pass
    → length user < user_size
    → length pass < pass_size
    → length user + length pass ≤ 510
    → basic_decode (some (codes "Basic " ++ encode (user ++ (b':' ∷ pass)))) user_size pass_size
      ≡ some (user, pass)
unfolding basic_decode
basic_decode-encode user pass user_size pass_size bytes text_user no_colon text_pass some_user
      some_pass fits_user fits_pass short =
    rw
      (
        b64_decode-encode 511 (user ++ (b':' ∷ pass)) bytes
            (omega (arith, length-append user (b':' ∷ pass))),
        basic_decode,
        at_colon-append user pass text_user no_colon,
        up_to_nul-IsText pass text_pass,
      )
      (copied_lem user pass user_size pass_size some_user some_pass fits_user fits_pass)
