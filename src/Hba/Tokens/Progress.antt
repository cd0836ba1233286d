-- ===== src/Hba/Tokens/Progress.antt =====
-- How far a step through the tokens gets.
use self_db_mini.Base.{
  ℕ, ◌+◌, ◌≡◌, ◌<◌, ◌≤◌, ◌⊎◌, refl, Bool, Option, none, some, [], ◌∷◌, ◌==◌, Bool-cases,
  Option-cases, inl, inr, arith, length,
}
use self_db_mini.Hba.Text.{Str}
use self_db_mini.Hba.Tokens.{
  TokParser, tok_fail, tok_eol, is_tok, is_tok→eq, before, scan_string, skip_space, scan_ident,
  tok_buf_check, string_token, ident_token, token_at, next_token,
}

length-skip_space : (s : Str) → length (skip_space s) ≤ length s
unfolding skip_space
length-skip_space [] = omega arith
length-skip_space (c ∷ s) = ground (arith, length-skip_space s)

length-scan_ident : (s : Str) → length (scan_ident s).1 ≤ length s
unfolding scan_ident
length-scan_ident [] = omega arith
length-scan_ident (c ∷ s) = ground (arith, length-scan_ident s)

length-before :
    (read : Str) (found : Option (Str × Str)) (n : ℕ) (raw rest : Str)
    → ((raw' rest' : Str) → found ≡ some (raw', rest') → length rest' < n)
    → before read found ≡ some (raw, rest)
    → length rest < n
length-before read none n raw rest k h = absurd (cc h)
length-before read (some (raw', rest')) n raw rest k h = ground (arith, k raw' rest' refl)

length-scan_string : (s raw rest : Str) → scan_string s ≡ some (raw, rest) → length rest < length s
unfolding scan_string
length-scan_string [] raw rest h = absurd (cc h)
length-scan_string (c ∷ []) raw rest h = ground arith
length-scan_string (c ∷ d ∷ s) raw rest h = elim (Bool-cases (c == b'"')) [
  | inl e ↦ elim (Bool-cases (d == b'"')) [
    | inl f ↦ ground (
      arith,
      length-before (c ∷ d ∷ []) (scan_string s) (length s + 2) raw rest
          (λ raw' rest' g. omega (arith, length-scan_string s raw' rest' g)) (ground arith),
    )
    | inr f ↦ ground arith
  ]
  | inr e ↦ ground (
    arith,
    length-before (c ∷ []) (scan_string (d ∷ s)) (length s + 2) raw rest
        (λ raw' rest' g. omega (arith, length-scan_string (d ∷ s) raw' rest' g)) (ground arith),
  )
]

-- The line is over, the token is none, or less of the text is left than `n`.
abbrev pub Progress : ℕ → TokParser → Type 0
Progress n p = (p.cur_tok ≡ tok_eol) ⊎ (p.cur_tok ≡ tok_fail) ⊎ (length p.pos < n)

string_token-Progress :
    (mem : ℕ → Bool) (found : Option (Str × Str)) (p : TokParser) (n : ℕ)
    → p.cur_tok ≡ tok_fail
    → ((raw rest : Str) → found ≡ some (raw, rest) → length rest < n)
    → Progress n (string_token mem found p)
unfolding string_token
string_token-Progress mem none p n e l = inr (inl e)
string_token-Progress mem (some (raw, rest)) p n e l =
    elim (Option-cases (tok_buf_check mem (length raw + 1) p)) [
      | inl g ↦ rw (g, string_token) (inr (inl e))
      | inr (p', g) ↦ rw (g, string_token) (inr (inr (l raw rest refl)))
    ]

ident_token-Progress :
    (mem : ℕ → Bool) (name rest : Str) (p : TokParser) (n : ℕ)
    → p.cur_tok ≡ tok_fail
    → length rest < n
    → Progress n (ident_token mem (name, rest) p)
unfolding ident_token
ident_token-Progress mem name rest p n e l =
    elim (Option-cases (tok_buf_check mem (length name + 1) p)) [
      | inl g ↦ rw (g, ident_token) (inr (inl e))
      | inr (p', g) ↦ rw (g, ident_token) (inr (inr l))
    ]

token_at-Progress :
    (mem : ℕ → Bool) (left : Str) (p : TokParser) (n : ℕ)
    → p.cur_tok ≡ tok_fail
    → length left ≤ n
    → Progress n (token_at mem left p)
unfolding token_at
token_at-Progress mem [] p n e l = inl refl
token_at-Progress mem (c ∷ s) p n e l = elim (Bool-cases (c == b'#')) [
  | inl f ↦ rw f (inl refl)
  | inr f ↦ elim (Bool-cases (c == b',')) [
    | inl g ↦ rw (f, g) (inr (inr l))
    | inr g ↦ elim (Bool-cases (c == b'"')) [
      | inl h ↦
          rw (f, g, h)
            (string_token-Progress mem (scan_string s) p n e
              (λ raw rest z. omega (arith, length-scan_string s raw rest z)))
      | inr h ↦
          rw (f, g, h)
            (ident_token-Progress mem (c ∷ (scan_ident s).0) (scan_ident s).1 p n e
              (omega (arith, length-scan_ident s)))
    ]
  ]
]

pub next_token-Progress :
    (mem : ℕ → Bool) (p : TokParser) → Progress (length p.pos) (next_token mem p)
unfolding next_token
next_token-Progress mem p = elim (Bool-cases (is_tok p.cur_tok tok_eol)) [
  | inl e ↦ rw e (inl (is_tok→eq p.cur_tok tok_eol e))
  | inr e ↦
      rw e
        (token_at-Progress mem (skip_space p.pos) _ (length p.pos) refl (length-skip_space p.pos))
]
