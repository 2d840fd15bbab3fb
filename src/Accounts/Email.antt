-- ===== src/Accounts/Email.antt =====
-- src/auth/service.ts: the form of an email, and of the hexadecimal texts of a holder link.
-- JavaScript's `trim`, `toLowerCase` and `\s` are parameters: `is_space` is the class `\s`.
use kippu_api.Base.{
  ℕ, Bool, true, false, not, ◌&&◌, ◌||◌, [], ◌∷◌, ◌==◌, leb, ltb, length, if◌then◌else◌,
}
use kippu_api.Store.{Try, ok, fail, invalid_input, auth_error}
use kippu_api.Accounts.Rows.{Text}

-- The character `@`.
abbrev pub at_sign : ℕ
at_sign = 64

abbrev pub every : (ℕ → Bool) → Text → Bool
every p [] = true
every p (c ∷ cs) = let rest = every p cs in p c && rest

module _ (is_space : ℕ → Bool) where
  -- [^\s@]
  abbrev pub is_plain : ℕ → Bool
  is_plain c = not (is_space c) && not (c == at_sign)

  -- [^\s@]+, to the end of the text
  abbrev pub is_domain : Text → Bool
  is_domain [] = false
  is_domain (c ∷ cs) = every is_plain (c ∷ cs)

  -- What follows a first plain character: [^\s@]*@[^\s@]+
  abbrev pub is_rest : Text → Bool
  is_rest [] = false
  is_rest (c ∷ cs) =
      let rest = is_rest cs in if c == at_sign then is_domain cs else (is_plain c && rest)

  -- EMAIL: ^[^\s@]+@[^\s@]+$
  unfoldable pub is_email : Text → Bool
  is_email [] = false
  is_email (c ∷ cs) = is_plain c && is_rest cs

  module _ (trim lower : Text → Text) where
    unfoldable pub normalise_email : Text → Try Text
    normalise_email email =
        let normalised = lower (trim email) in
        if ltb 320 (length normalised) || not (is_email normalised)
        then fail (auth_error invalid_input)
        else ok normalised

abbrev pub is_hex_digit : ℕ → Bool
is_hex_digit c = (leb 48 c && leb c 57) || (leb 97 c && leb c 102)

-- ACCOUNT_HEX: ^[0-9a-f]{64}$
unfoldable pub is_account_hex : Text → Bool
is_account_hex t = (length t == 64) && every is_hex_digit t

-- ^(?:[0-9a-f]{2})*$
abbrev pub is_hex_pairs : Text → Bool
is_hex_pairs [] = true
is_hex_pairs (a ∷ []) = false
is_hex_pairs (a ∷ b ∷ cs) = let rest = is_hex_pairs cs in is_hex_digit a && is_hex_digit b && rest

-- HEX: ^(?:[0-9a-f]{2}){1,8192}$
unfoldable pub is_hex : Text → Bool
is_hex t = leb 2 (length t) && leb (length t) 16384 && is_hex_pairs t
