-- ===== src/Hba/Tokens/Steps.antt =====
-- What holds of a step of a parser when it succeeds.
use self_db_mini.Base.{
  ℕ, ◌+◌, ◌≡◌, ◌∙◌, refl, sym, ap, subst, Bool, true, false, Option, none, some, [], ◌∷◌, ◌++◌,
  ◌==◌, if◌then◌else◌, Bool-cases, inl, inr, arith, length, append_assoc, append-nil, length-append,
  ◌≢◌, ◌≤◌, ◌<◌, Option-cases,
}
use self_db_mini.Hba.Text.{Str, is_space}
use self_db_mini.Hba.Tokens.{
  TokParser, tok_ident, tok_eol, tok_fail, tok_comma, is_tok, is_tok→eq, eat, eat_kw, is_kw, expect,
  from_option, TokType, Parse, parsed, refused, out_of_fuel, Parser, bind, scan_string, before,
  skip_space, scan_ident, ends_ident, tok_buf_check, string_token, ident_token, token_at,
  next_token, parse_from_string,
}
use self_db_mini.Hba.Tokens.Progress.{next_token-Progress}

-- Every result that is parsed satisfies P.
pub data Yields {ℓ κ} {A : Type ℓ} (P : A → TokParser → Type κ) : Parse A → Type (ℓ ⊔ κ) where
  yielding : {a : A} {tp : TokParser} → P a tp → Yields P (parsed a tp)
  refusing : {tp : TokParser} → Yields P (refused tp)
  starving : Yields P out_of_fuel

module _ {ℓ κ ι μ} {A : Type ℓ} {B : Type κ} {P : A → TokParser → Type ι}
    {Q : B → TokParser → Type μ} where
  pub Yields-bind :
      {m : Parse A} {f : A → Parser B}
      → Yields P m
      → ((a : A) (tp : TokParser) → P a tp → Yields Q (f a tp))
      → Yields Q (bind m f)
  Yields-bind (yielding p) k = k _ _ p
  Yields-bind refusing k = refusing
  Yields-bind starving k = starving

abbrev Holds {ℓ κ} : {A : Type ℓ} → (A → TokParser → Type κ) → Parse A → Type κ
Holds P (parsed a tp) = P a tp
Holds P _ = Unit

module _ {ℓ κ} {A : Type ℓ} {P : A → TokParser → Type κ} where
  Yields→Holds : {m : Parse A} → Yields P m → Holds P m
  Yields→Holds (yielding p) = p
  Yields→Holds refusing = tt
  Yields→Holds starving = tt

  pub Yields-at : {m : Parse A} {a : A} {tp : TokParser} → Yields P m → m ≡ parsed a tp → P a tp
  Yields-at y e = subst (Holds P) e (Yields→Holds y)

  pub Yields-weaken {ι} :
      {Q : A → TokParser → Type ι} {m : Parse A}
      → Yields P m
      → ((a : A) (tp : TokParser) → P a tp → Q a tp)
      → Yields Q m
  Yields-weaken (yielding p) k = yielding (k _ _ p)
  Yields-weaken refusing k = refusing
  Yields-weaken starving k = starving

  pub Yields-if :
      (b : Bool) {m n : Parse A}
      → (b ≡ true → Yields P m)
      → (b ≡ false → Yields P n)
      → Yields P (if b then m else n)
  Yields-if true f g = f refl
  Yields-if false f g = g refl

-- The step does not run out of fuel, and what it parses satisfies P.
pub data Returns {ℓ κ} {A : Type ℓ} (P : A → TokParser → Type κ) : Parse A → Type (ℓ ⊔ κ) where
  giving : {a : A} {tp : TokParser} → P a tp → Returns P (parsed a tp)
  denying : (tp : TokParser) → Returns P (refused tp)

module _ {ℓ κ ι μ} {A : Type ℓ} {B : Type κ} {P : A → TokParser → Type ι}
    {Q : B → TokParser → Type μ} where
  pub Returns-bind :
      {m : Parse A} {f : A → Parser B}
      → Returns P m
      → ((a : A) (tp : TokParser) → P a tp → Returns Q (f a tp))
      → Returns Q (bind m f)
  Returns-bind (giving p) k = k _ _ p
  Returns-bind (denying tp) k = denying tp

module _ {ℓ κ} {A : Type ℓ} {P : A → TokParser → Type κ} where
  pub Yields-Returns : {m : Parse A} → Yields P m → m ≢ out_of_fuel → Returns P m
  Yields-Returns (yielding p) n = giving p
  Yields-Returns (refusing {tp = tp}) n = denying tp
  Yields-Returns starving n = absurd (n refl)

  pub Returns-weaken {ι} :
      {Q : A → TokParser → Type ι} {m : Parse A}
      → Returns P m
      → ((a : A) (tp : TokParser) → P a tp → Q a tp)
      → Returns Q m
  Returns-weaken (giving p) k = giving (k _ _ p)
  Returns-weaken (denying tp) k = denying tp

-- What holds of a step after a test of the token holds on both branches.
module _ {ℓ κ} {A : Type ℓ} (Q : Parse A → Type κ) (mem : ℕ → Bool) (tp : TokParser) where
  pub eat-bind :
      (ttype : TokType) (f : Bool → Parser A)
      → (tp.cur_tok ≡ ttype → Q (f true (next_token mem tp)))
      → (is_tok tp.cur_tok ttype ≡ false → Q (f false tp))
      → Q (bind (eat mem ttype tp) f)
  unfolding eat
  eat-bind ttype f g h = elim (Bool-cases (is_tok tp.cur_tok ttype)) [
    | inl e ↦ rw e (g (is_tok→eq tp.cur_tok ttype e))
    | inr e ↦ rw e (h e)
  ]

  pub eat_kw-bind :
      (kw : Str) (f : Bool → Parser A)
      → (is_kw kw tp ≡ true → Q (f true (next_token mem tp)))
      → (is_kw kw tp ≡ false → Q (f false tp))
      → Q (bind (eat_kw mem kw tp) f)
  unfolding eat_kw
  eat_kw-bind kw f g h = elim (Bool-cases (is_kw kw tp)) [ inl e ↦ rw e (g e) | inr e ↦ rw e (h e) ]

  pub expect-bind :
      (ttype : TokType) (f : Option Str → Parser A)
      → (tp.cur_tok ≡ ttype → Q (f (some tp.buf) tp))
      → (is_tok tp.cur_tok ttype ≡ false → Q (f none tp))
      → Q (bind (expect ttype tp) f)
  unfolding expect
  expect-bind ttype f g h = elim (Bool-cases (is_tok tp.cur_tok ttype)) [
    | inl e ↦ rw e (g (is_tok→eq tp.cur_tok ttype e))
    | inr e ↦ rw e (h e)
  ]

  pub from_option-bind {ι} :
      {B : Type ι} (o : Option B) (f : B → Parser A)
      → ((b : B) → o ≡ some b → Q (f b tp))
      → Q (refused tp)
      → Q (bind (from_option o tp) f)
  from_option-bind none f g h = h
  from_option-bind (some b) f g h = g b refl

-- A text is a part of another, or its end.
abbrev pub Suffix : Str → Str → Type 0
Suffix s text = (pre : Str) × (text ≡ pre ++ s)

abbrev pub Infix : Str → Str → Type 0
Infix s text = (pre : Str) × (post : Str) × (text ≡ pre ++ (s ++ post))

pub Suffix_trans : {s t u : Str} → Suffix s t → Suffix t u → Suffix s u
Suffix_trans {s = s} (p, e) (q, f) = (q ++ p, f ∙ ap (λ z. q ++ z) e ∙ sym (append_assoc q p s))

-- What is left is an end of the text, and a name is a part of it.
pub record Within (text : Str) (p : TokParser) : Type 0 where
  pub left : Suffix p.pos text
  pub name : p.cur_tok ≡ tok_ident → Infix p.buf text

skip_space-Suffix : (s : Str) → Suffix (skip_space s) s
unfolding skip_space
skip_space-Suffix [] = ([], refl)
skip_space-Suffix (c ∷ s) = elim (Bool-cases (is_space c)) [
  | inl e ↦ let (pre, h) = skip_space-Suffix s in (c ∷ pre, rw e (ap (◌∷◌ c) h))
  | inr e ↦ ([], rw e)
]

scan_ident-append : (s : Str) → s ≡ (scan_ident s).0 ++ (scan_ident s).1
unfolding scan_ident
scan_ident-append [] = refl
scan_ident-append (c ∷ s) = elim (Bool-cases (ends_ident c)) [
  | inl e ↦ rw e
  | inr e ↦ rw e (ap (◌∷◌ c) (scan_ident-append s))
]

before-Suffix :
    (read s : Str) (found : Option (Str × Str)) (raw rest : Str)
    → ((raw' rest' : Str) → found ≡ some (raw', rest') → Suffix rest' s)
    → before read found ≡ some (raw, rest)
    → Suffix rest (read ++ s)
before-Suffix read s none raw rest k h = absurd (cc h)
before-Suffix read s (some (raw', rest')) raw rest k h =
    let (pre, e) = k raw' rest' refl in
    (
      read ++ pre,
      ap (λ z. read ++ z) e
          ∙ sym (append_assoc read pre rest')
          ∙ ap (λ z. (read ++ pre) ++ z) (ground arith),
    )

scan_string-Suffix : (s raw rest : Str) → scan_string s ≡ some (raw, rest) → Suffix rest s
unfolding scan_string
scan_string-Suffix [] raw rest h = absurd (cc h)
scan_string-Suffix (c ∷ []) raw rest h = (c ∷ [], ground arith)
scan_string-Suffix (c ∷ d ∷ s) raw rest h = elim (Bool-cases (c == b'"')) [
  | inl e ↦ elim (Bool-cases (d == b'"')) [
    | inl f ↦
        before-Suffix (c ∷ d ∷ []) s (scan_string s) raw rest (scan_string-Suffix s) (ground arith)
    | inr f ↦ (c ∷ [], ground arith)
  ]
  | inr e ↦
      before-Suffix (c ∷ []) (d ∷ s) (scan_string (d ∷ s)) raw rest (scan_string-Suffix (d ∷ s))
        (ground arith)
]

-- The whole of the text is read.
nothing_left : (s : Str) → Suffix [] s
nothing_left s = (s, sym (append-nil s))

string_token-Within :
    (mem : ℕ → Bool) (text : Str) (found : Option (Str × Str)) (p : TokParser)
    → p.cur_tok ≡ tok_fail
    → Suffix p.pos text
    → ((raw rest : Str) → found ≡ some (raw, rest) → Suffix rest text)
    → Within text (string_token mem found p)
unfolding string_token
string_token-Within mem text none p e s k = record { left = s; name = λ i. absurd (cc (i, e)) }
string_token-Within mem text (some (raw, rest)) p e s k =
    elim (Option-cases (tok_buf_check mem (length raw + 1) p)) [
      | inl g ↦ rw (g, string_token) record { left = s; name = λ i. absurd (cc (i, e)) }
      | inr (p', g) ↦
          rw (g, string_token) record { left = k raw rest refl; name = λ i. absurd (cc i) }
    ]

ident_token-Within :
    (mem : ℕ → Bool) (text name rest : Str) (p : TokParser)
    → p.cur_tok ≡ tok_fail
    → p.pos ≡ name ++ rest
    → Suffix p.pos text
    → Within text (ident_token mem (name, rest) p)
unfolding ident_token
ident_token-Within mem text name rest p e n s =
    elim (Option-cases (tok_buf_check mem (length name + 1) p)) [
      | inl g ↦ rw (g, ident_token) record { left = s; name = λ i. absurd (cc (i, e)) }
      | inr (p', g) ↦
          rw (g, ident_token)
            record {
              left = Suffix_trans (name, n) s;
              name = λ i. (s.0, rest, s.1 ∙ ap (λ z. s.0 ++ z) n);
            }
    ]

token_at-Within :
    (mem : ℕ → Bool) (text left : Str) (p : TokParser)
    → p.cur_tok ≡ tok_fail
    → p.pos ≡ left
    → Suffix p.pos text
    → Within text (token_at mem left p)
unfolding token_at
token_at-Within mem text [] p f e s = record { left = nothing_left text; name = λ i. absurd (cc i) }
token_at-Within mem text (c ∷ l) p f e s = elim (Bool-cases (c == b'#')) [
  | inl g ↦ rw g record { left = nothing_left text; name = λ i. absurd (cc i) }
  | inr g ↦ elim (Bool-cases (c == b',')) [
    | inl h ↦ rw (g, h) record { left = Suffix_trans (c ∷ [], e) s; name = λ i. absurd (cc i) }
    | inr h ↦ elim (Bool-cases (c == b'"')) [
      | inl k ↦
          rw (g, h, k)
            (string_token-Within mem text (scan_string l) p f s λ raw rest q.
              Suffix_trans (scan_string-Suffix l raw rest q) (Suffix_trans (c ∷ [], e) s))
      | inr k ↦
          rw (g, h, k)
            (ident_token-Within mem text (c ∷ (scan_ident l).0) (scan_ident l).1 p f
              (e ∙ ap (◌∷◌ c) (scan_ident-append l)) s)
    ]
  ]
]

pub next_token-Within :
    (mem : ℕ → Bool) (text : Str) (p : TokParser) → Within text p → Within text (next_token mem p)
unfolding next_token
next_token-Within mem text p w = elim (Bool-cases (is_tok p.cur_tok tok_eol)) [
  | inl e ↦ rw e w
  | inr e ↦ rw e (
      token_at-Within mem text (skip_space p.pos) _ refl refl
        (Suffix_trans (skip_space-Suffix p.pos) w.left))
]

pub parse_from_string-Within :
    (mem : ℕ → Bool) (text : Str) (p : TokParser) → Within text (parse_from_string mem text p)
unfolding parse_from_string
parse_from_string-Within mem text p =
    next_token-Within mem text (record p { pos = text; cur_tok = tok_comma; cur_tok_str = none })
      record { left = ([], refl); name = λ i. absurd (cc i) }

length-Suffix : {s text : Str} → Suffix s text → length s ≤ length text
length-Suffix {s = s} (pre, e) = rw e (omega (arith, length-append pre s))

pub length-next_token :
    (mem : ℕ → Bool) (p : TokParser) → length (next_token mem p).pos ≤ length p.pos
unfolding next_token
length-next_token mem p = elim (Bool-cases (is_tok p.cur_tok tok_eol)) [
  | inl e ↦ rw e (omega arith)
  | inr e ↦
      let w =
        token_at-Within mem p.pos (skip_space p.pos)
          (record p { pos = skip_space p.pos; cur_tok = tok_fail; cur_tok_str = none }) refl refl
          (skip_space-Suffix p.pos) in
      rw e (length-Suffix w.left)
]

-- Reading on from a separator leaves less of the text.
pub next_token-shorter :
    (mem : ℕ → Bool) (p : TokParser)
    → (next_token mem p).cur_tok ≡ tok_comma
    → length (next_token mem p).pos < length p.pos
next_token-shorter mem p e = elim (next_token-Progress mem p) [
  | inl f ↦ absurd (cc (e, f))
  | inr (inl f) ↦ absurd (cc (e, f))
  | inr (inr l) ↦ l
]

-- A step that does not run out of fuel, followed by one that does not.
pub bind-ne {ℓ κ ι} :
    {A : Type ℓ} {B : Type κ} {P : A → TokParser → Type ι} (m : Parse A) (f : A → Parser B)
    → m ≢ out_of_fuel
    → Yields P m
    → ((a : A) (tp : TokParser) → P a tp → f a tp ≢ out_of_fuel)
    → bind m f ≢ out_of_fuel
bind-ne (parsed a tp) f n (yielding p) k = k a tp p
bind-ne (refused tp) f n y k = cc
bind-ne out_of_fuel f n y k = absurd (n refl)

pub Yields-all {ℓ} : {A : Type ℓ} (m : Parse A) → Yields (λ a tp. Unit {0}) m
Yields-all (parsed a tp) = yielding tt
Yields-all (refused tp) = refusing
Yields-all out_of_fuel = starving
