-- ===== src/Hba/Tokens/Quoted.antt =====
-- Quoted texts, written with the quotes in them doubled.
use self_db_mini.Base.{
  ℕ, ◌+◌, ◌≡◌, refl, ap, Bool, true, false, some, [], ◌∷◌, ◌++◌, ◌==◌, if◌then◌else◌, Bool-cases,
  inl, inr, arith, leb, length, ◌*◌,
}
use self_db_mini.Hba.Text.{Str, is_space, starts_with}
use self_db_mini.Hba.Tokens.{
  TokParser, tok_string, tok_eol, is_tok, before, scan_string, copy_string, skip_space, token_at,
  string_token, tok_buf_check, next_token,
}

abbrev pub escape : Str → Str
escape [] = []
escape (c ∷ s) = if c == b'"' then b'"' ∷ b'"' ∷ escape s else c ∷ escape s

abbrev pub quote : Str → Str → Str
quote s rest = b'"' ∷ (escape s ++ b'"' ∷ rest)

scan_plain :
    (c : ℕ) (xs : Str)
    → (c == b'"') ≡ false
    → scan_string (c ∷ xs) ≡ before (c ∷ []) (scan_string xs)
unfolding scan_string
scan_plain c [] h = rw h
scan_plain c (x ∷ xs) h = rw h

copy_plain : (c : ℕ) (xs : Str) → (c == b'"') ≡ false → copy_string (c ∷ xs) ≡ c ∷ copy_string xs
unfolding copy_string
copy_plain c [] h = refl
copy_plain c (x ∷ xs) h = rw h

scan_string_end :
    (rest : Str) → starts_with b'"' rest ≡ false → scan_string (b'"' ∷ rest) ≡ some ([], rest)
unfolding scan_string starts_with
scan_string_end [] h = refl
scan_string_end (x ∷ xs) h = rw h

pub scan_string-escape :
    (s rest : Str)
    → starts_with b'"' rest ≡ false
    → scan_string (escape s ++ b'"' ∷ rest) ≡ some (escape s, rest)
unfolding scan_string
scan_string-escape [] rest h = scan_string_end rest h
scan_string-escape (c ∷ s) rest h = elim (Bool-cases (c == b'"')) [
  | inl e ↦ rw (e, scan_string-escape s rest h)
  | inr e ↦ rw (e, scan_plain c (escape s ++ b'"' ∷ rest) e, scan_string-escape s rest h)
]

pub copy_string-escape : (s : Str) → copy_string (escape s) ≡ s
unfolding copy_string
copy_string-escape [] = refl
copy_string-escape (c ∷ s) = elim (Bool-cases (c == b'"')) [
  | inl e ↦ ground (arith, copy_string-escape s)
  | inr e ↦ rw (e, copy_plain c (escape s) e, copy_string-escape s)
]

-- A text of spaces only.
abbrev pub AllSpace : Str → Type 0
AllSpace [] = Unit {0}
AllSpace (c ∷ s) = (is_space c ≡ true) × AllSpace s

pub skip_space-append : (sp s : Str) → AllSpace sp → skip_space (sp ++ s) ≡ skip_space s
unfolding skip_space
skip_space-append [] s h = refl
skip_space-append (c ∷ sp) s h = rw (h.0, skip_space-append sp s h.1)

-- The token is a quoted text, and what follows it is left.
pub record IsQuoted (s rest : Str) (p : TokParser) : Type 0 where
  pub left : p.pos ≡ rest
  pub is_string : p.cur_tok ≡ tok_string
  pub has_text : p.cur_tok_str ≡ some s
  pub in_buf : p.buf ≡ s

string_token-IsQuoted :
    (mem : ℕ → Bool) (p : TokParser) (s rest : Str)
    → ((n : ℕ) → mem n ≡ true)
    → IsQuoted s rest (string_token mem (some (escape s, rest)) p)
unfolding string_token tok_buf_check
string_token-IsQuoted mem p s rest m = elim (Bool-cases (leb (length (escape s) + 1) p.buflen)) [
  | inl e ↦
      rw (e, tok_buf_check, string_token)
        record {
          left = refl;
          is_string = refl;
          has_text = ap some (copy_string-escape s);
          in_buf = copy_string-escape s;
        }
  | inr e ↦
      rw (e, m ((length (escape s) + 1) * 2), tok_buf_check, string_token)
        record {
          left = refl;
          is_string = refl;
          has_text = ap some (copy_string-escape s);
          in_buf = copy_string-escape s;
        }
]

pub token_at-quote :
    (mem : ℕ → Bool) (p : TokParser) (s rest : Str)
    → ((n : ℕ) → mem n ≡ true)
    → starts_with b'"' rest ≡ false
    → IsQuoted s rest (token_at mem (quote s rest) p)
unfolding token_at
token_at-quote mem p s rest m h =
    rw (scan_string-escape s rest h) (string_token-IsQuoted mem p s rest m)

-- A text that is written in quotes, with each quote in it doubled, and follows any spaces, is read
-- by next_token as a token with that text, whatever follows it but a quote, where memory does not
-- fail and the line is not over.
pub next_token-quote :
    (mem : ℕ → Bool) (p : TokParser) (sp s rest : Str)
    → ((n : ℕ) → mem n ≡ true)
    → is_tok p.cur_tok tok_eol ≡ false
    → AllSpace sp
    → starts_with b'"' rest ≡ false
    → p.pos ≡ sp ++ quote s rest
    → IsQuoted s rest (next_token mem p)
unfolding next_token skip_space
next_token-quote mem p sp s rest m e a h hp =
    rw (e, hp, skip_space-append sp (quote s rest) a) (token_at-quote mem _ s rest m h)
