-- ===== src/Hba/Tokens/Room.antt =====
-- The buffer into which the text of a token is copied.
use self_db_mini.Base.{
  ℕ, ◌+◌, ◌≡◌, ◌<◌, ◌≤◌, Bool, Option, none, some, [], ◌∷◌, ◌==◌, Bool-cases, Option-cases, inl,
  inr, arith, length,
}
use self_db_mini.Hba.Text.{Str}
use self_db_mini.Hba.Tokens.{
  TokParser, tok_eol, is_tok, scan_string, copy_string, skip_space, scan_ident, tok_buf_check,
  string_token, ident_token, token_at, next_token,
}

copy_string-length : (s : Str) → length (copy_string s) ≤ length s
unfolding copy_string
copy_string-length [] = omega arith
copy_string-length (c ∷ []) = omega arith
copy_string-length (c ∷ d ∷ s) = ground (arith, copy_string-length s, copy_string-length (d ∷ s))

-- The text of the token and its closing NUL lie in the buffer.
abbrev pub InBuffer : TokParser → Type 0
InBuffer p = (str : Str) → p.cur_tok_str ≡ some str → length str < p.buflen

tok_buf_check_lem :
    (mem : ℕ → Bool) (len : ℕ) (p p' : TokParser)
    → tok_buf_check mem len p ≡ some p'
    → len ≤ p'.buflen
unfolding tok_buf_check
tok_buf_check_lem mem len p p' h = ground arith

string_token-InBuffer :
    (mem : ℕ → Bool) (found : Option (Str × Str)) (p : TokParser)
    → InBuffer p
    → InBuffer (string_token mem found p)
unfolding string_token
string_token-InBuffer mem none p h str e = h str e
string_token-InBuffer mem (some (raw, rest)) p h str e =
    elim (Option-cases (tok_buf_check mem (length raw + 1) p)) [
      | inl f ↦ ground (arith, h str)
      | inr (p', f) ↦
          ground (arith, tok_buf_check_lem mem (length raw + 1) p p' f, copy_string-length raw)
    ]

ident_token-InBuffer :
    (mem : ℕ → Bool) (name rest : Str) (p : TokParser)
    → InBuffer p
    → InBuffer (ident_token mem (name, rest) p)
unfolding ident_token
ident_token-InBuffer mem name rest p h str e =
    elim (Option-cases (tok_buf_check mem (length name + 1) p)) [
      | inl f ↦ ground (arith, h str)
      | inr (p', f) ↦ ground (arith, tok_buf_check_lem mem (length name + 1) p p' f)
    ]

token_at-InBuffer :
    (mem : ℕ → Bool) (left : Str) (p : TokParser) → InBuffer p → InBuffer (token_at mem left p)
unfolding token_at
token_at-InBuffer mem [] p h = h
token_at-InBuffer mem (c ∷ s) p h = elim (Bool-cases (c == b'#')) [
  | inl e ↦ rw e h
  | inr e ↦ elim (Bool-cases (c == b',')) [
    | inl f ↦ rw (e, f) h
    | inr f ↦ elim (Bool-cases (c == b'"')) [
      | inl g ↦ rw (e, f, g) (string_token-InBuffer mem (scan_string s) p h)
      | inr g ↦ rw (e, f, g) (ident_token-InBuffer mem (c ∷ (scan_ident s).0) (scan_ident s).1 p h)
    ]
  ]
]

-- next_token keeps the text of a token, with the NUL behind it, within the buffer: if the text of
-- the token before lay in the buffer, so does that of the new one.
pub next_token-InBuffer :
    (mem : ℕ → Bool) (p : TokParser) → InBuffer p → InBuffer (next_token mem p)
unfolding next_token
next_token-InBuffer mem p h = elim (Bool-cases (is_tok p.cur_tok tok_eol)) [
  | inl e ↦ rw e h
  | inr e ↦ rw e (token_at-InBuffer mem (skip_space p.pos) _ (λ str x. absurd (cc x)))
]
