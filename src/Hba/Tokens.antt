-- ===== src/Hba/Tokens.antt =====
-- `struct TokParser`: one line of a configuration file, read token by token.
pub mod Quoted
pub mod Room
pub mod Progress
pub mod Steps
use self_db_mini.Base.{
  ℕ, ◌≡◌, refl, ◌+◌, ◌*◌, Bool, true, false, ◌&&◌, ◌||◌, Option, none, some, List, [], ◌∷◌, ◌++◌,
  leb, ◌==◌, if◌then◌else◌, length,
}
use self_db_mini.Hba.Text.{Str, equal, is_space}

pub data TokType : Type 0 where
  tok_string tok_ident tok_comma tok_fail tok_eol : TokType

unfoldable pub is_tok : TokType → TokType → Bool
is_tok tok_string tok_string = true
is_tok tok_ident tok_ident = true
is_tok tok_comma tok_comma = true
is_tok tok_fail tok_fail = true
is_tok tok_eol tok_eol = true
is_tok _ _ = false

pub is_tok→eq : (s t : TokType) → is_tok s t ≡ true → s ≡ t
unfolding is_tok
is_tok→eq tok_string tok_string h = refl
is_tok→eq tok_ident tok_ident h = refl
is_tok→eq tok_comma tok_comma h = refl
is_tok→eq tok_fail tok_fail h = refl
is_tok→eq tok_eol tok_eol h = refl
is_tok→eq _ _ h = absurd (cc h)

-- `pos` is the text that is left; the NULL at the end of a line, which is never read through, is
-- the empty text. `buf` is the text in the buffer, whose size is `buflen`.
pub record TokParser : Type 0 where
  pub pos : Str
  pub cur_tok : TokType
  pub cur_tok_str : Option Str
  pub buf : Str
  pub buflen : ℕ

-- What a step of a parser comes to, with the tokens that are left.
pub data Parse {ℓ} (A : Type ℓ) : Type ℓ where
  parsed : A → TokParser → Parse A
  refused : TokParser → Parse A
  out_of_fuel : Parse A

abbrev pub Parser {ℓ} : Type ℓ → Type ℓ
Parser A = TokParser → Parse A

abbrev pub pure {ℓ} : {A : Type ℓ} → A → Parser A
pure a tp = parsed a tp

abbrev pub refuse {ℓ} : {A : Type ℓ} → Parser A
refuse tp = refused tp

abbrev pub bind {ℓ κ} : {A : Type ℓ} {B : Type κ} → Parse A → (A → Parser B) → Parse B
bind (parsed a tp) f = f a tp
bind (refused tp) f = refused tp
bind out_of_fuel f = out_of_fuel

infixl 1 ◌>>=◌ ◌>>◌
abbrev pub ◌>>=◌ {ℓ κ} : {A : Type ℓ} {B : Type κ} → Parser A → (A → Parser B) → Parser B
◌>>=◌ p f tp = bind (p tp) f

abbrev pub ◌>>◌ {ℓ κ} : {A : Type ℓ} {B : Type κ} → Parser A → Parser B → Parser B
p >> q = p >>= λ _. q

-- A result that may be NULL or false.
abbrev pub from_option {ℓ} : {A : Type ℓ} → Option A → Parser A
from_option none = refuse
from_option (some a) = pure a

-- `none` where memory fails; the first argument tells whether there is memory of a size.
unfoldable pub tok_buf_check : (ℕ → Bool) → ℕ → TokParser → Option TokParser
tok_buf_check mem len p =
    if leb len p.buflen
    then some p
    else if mem (len * 2)
    then some (record p { buflen = len * 2 })
    else none

unfoldable pub skip_space : Str → Str
unfolding is_space
skip_space [] = []
skip_space (c ∷ s) = if is_space c then skip_space s else c ∷ s

abbrev before : Str → Option (Str × Str) → Option (Str × Str)
before read none = none
before read (some (raw, rest)) = some (read ++ raw, rest)

-- The loop that looks for the closing quote: what stands before it, and what follows it.
unfoldable pub scan_string : Str → Option (Str × Str)
scan_string [] = none
scan_string (c ∷ []) = if c == b'"' then some ([], []) else none
scan_string (c ∷ d ∷ s) =
    let escaped = before (c ∷ d ∷ []) (scan_string s) in
    let plain = before (c ∷ []) (scan_string (d ∷ s)) in
    if c == b'"' then if d == b'"' then escaped else some ([], d ∷ s) else plain

-- The loop that copies, and passes over the second of two quotes.
unfoldable pub copy_string : Str → Str
copy_string [] = []
copy_string (c ∷ []) = c ∷ []
copy_string (c ∷ d ∷ s) =
    let escaped = c ∷ copy_string s in
    let plain = c ∷ copy_string (d ∷ s) in if c == b'"' then escaped else plain

unfoldable pub ends_ident : ℕ → Bool
unfolding is_space
ends_ident c = c == b',' || c == b'#' || c == b'"' || is_space c

-- The loop that looks for the end of a name.
unfoldable pub scan_ident : Str → Str × Str
unfolding ends_ident
scan_ident [] = ([], [])
scan_ident (c ∷ s) =
    let (name, rest) = scan_ident s in if ends_ident c then ([], c ∷ s) else (c ∷ name, rest)

-- `p->cur_tok_str = p->buf` with the text in it
abbrev with_text : TokType → Str → Str → TokParser → TokParser
with_text ttype str rest p = record p {
  pos = rest;
  cur_tok = ttype;
  cur_tok_str = some str;
  buf = str;
}

unfoldable pub string_token : (ℕ → Bool) → Option (Str × Str) → TokParser → TokParser
unfolding tok_buf_check copy_string
string_token mem none p = p
string_token mem (some (raw, rest)) p = elim (tok_buf_check mem (length raw + 1) p) [
  | none ↦ p
  | some p' ↦ with_text tok_string (copy_string raw) rest p'
]

unfoldable pub ident_token : (ℕ → Bool) → Str × Str → TokParser → TokParser
unfolding tok_buf_check
ident_token mem (name, rest) p = elim (tok_buf_check mem (length name + 1) p) [
  | none ↦ p
  | some p' ↦ with_text tok_ident name rest p'
]

-- The branches of `next_token` on the first byte that is no space.
unfoldable pub token_at : (ℕ → Bool) → Str → TokParser → TokParser
unfolding scan_string scan_ident string_token ident_token
token_at mem [] p = record p { pos = []; cur_tok = tok_eol }
token_at mem (c ∷ s) p =
    if c == b'#'
    then record p { pos = []; cur_tok = tok_eol }
    else if c == b','
    then record p { pos = s; cur_tok = tok_comma }
    else if c == b'"'
    then string_token mem (scan_string s) p
    else let (name, rest) = scan_ident s in ident_token mem (c ∷ name, rest) p

unfoldable pub next_token : (ℕ → Bool) → TokParser → TokParser
unfolding is_tok skip_space token_at
next_token mem p =
    if is_tok p.cur_tok tok_eol
    then p
    else let left = skip_space p.pos in
      token_at mem left (record p { pos = left; cur_tok = tok_fail; cur_tok_str = none })

abbrev pub eat_all : Parser (Unit {0})
eat_all p = parsed tt (record p { cur_tok = tok_eol })

abbrev pub advance : (ℕ → Bool) → Parser (Unit {0})
advance mem p = parsed tt (next_token mem p)

unfoldable pub eat : (ℕ → Bool) → TokType → Parser Bool
unfolding is_tok
eat mem ttype p = if is_tok p.cur_tok ttype then parsed true (next_token mem p) else parsed false p

-- `p->cur_tok == TOK_IDENT && strcmp(kw, p->cur_tok_str) == 0`
unfoldable pub is_kw : Str → TokParser → Bool
unfolding is_tok equal
is_kw kw p =
    is_tok p.cur_tok tok_ident && elim p.cur_tok_str [ none ↦ false | some str ↦ equal kw str ]

unfoldable pub check_kw : Str → Parser Bool
unfolding is_kw
check_kw kw p = if is_kw kw p then parsed true p else parsed false p

unfoldable pub eat_kw : (ℕ → Bool) → Str → Parser Bool
unfolding is_kw
eat_kw mem kw p = if is_kw kw p then parsed true (next_token mem p) else parsed false p

-- The text if the token is of the type, which is the result true.
unfoldable pub expect : TokType → Parser (Option Str)
unfolding is_tok
expect ttype p = if is_tok p.cur_tok ttype then parsed (some p.buf) p else parsed none p

abbrev pub init_parser : TokParser
init_parser = record { pos = []; cur_tok = tok_string; cur_tok_str = none; buf = []; buflen = 0 }

unfoldable pub parse_from_string : (ℕ → Bool) → Str → TokParser → TokParser
unfolding next_token
parse_from_string mem str p =
    next_token mem (record p { pos = str; cur_tok = tok_comma; cur_tok_str = none })
