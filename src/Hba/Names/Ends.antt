-- ===== src/Hba/Names/Ends.antt =====
-- `parse_names` on texts that name files, and on files that name files.
use self_db_mini.Base.{
  not, ◌&&◌, ◌==◌, ◌++◌, false, ℕ, zero, suc, ◌+◌, ◌≡◌, ◌≢◌, ◌<◌, refl, ◌∙◌, sym, ap, subst, Bool,
  true, some, List, [], ◌∷◌, Option-cases, inl, inr, arith, length, drop,
}
use self_db_mini.Hba.Text.{Str, starts_with, path_join_dirname}
use self_db_mini.Hba.Types.{HbaName, HbaEnv}
use self_db_mini.Hba.Tokens.{
  TokParser, Parse, Parser, parsed, refused, out_of_fuel, tok_comma, next_token, init_parser,
  parse_from_string,
}
use self_db_mini.Hba.Tokens.Steps.{
  Yields, yielding, refusing, starving, Yields-bind, Yields-all, eat-bind, Within, Infix,
  next_token-Within, parse_from_string-Within, length-next_token, next_token-shorter, bind-ne,
}
use self_db_mini.Hba.Names.{
  parse_name, names_loop, in_file, lines_loop, parse_namefile, parse_names,
}
use self_db_mini.Hba.Names.Cases.{parse_name_cases}

starts_with→cons : (c : ℕ) (s : Str) → starts_with c s ≡ true → s ≡ c ∷ drop 1 s
unfolding starts_with
starts_with→cons c [] h = absurd (cc h)
starts_with→cons c (x ∷ xs) h = ap (λ z. z ∷ xs) (ground arith)

abbrev pub Every {ℓ κ} : {A : Type ℓ} → (A → Type κ) → List A → Type κ
Every P [] = Unit
Every P (x ∷ xs) = P x × Every P xs

-- No byte of the text is `c`.
abbrev pub lacks : ℕ → Str → Bool
lacks c [] = true
lacks c (x ∷ xs) = not (x == c) && lacks c xs

lacks-append : (c : ℕ) (pre s : Str) → lacks c (pre ++ (c ∷ s)) ≡ false
lacks-append c [] s = ground arith
lacks-append c (x ∷ pre) s = ground (arith, lacks-append c pre s)

module _ {Tree : Type 0} (env : HbaEnv Tree) where
  -- The files that a text of `parent` names, and those that they name, are less than `depth` deep.
  abbrev pub Nested : ℕ → Str → Str → Type 0
  Nested zero parent text = ⊥
  Nested (suc depth) parent text =
      (name fn : Str) (lines : List Str)
      → Infix (b'@' ∷ name) text
      → path_join_dirname env.mem env.dirname parent name ≡ some fn
      → env.files fn ≡ some lines
      → Every (Nested depth fn) lines

  -- The file of a name leaves the tokens of the line alone.
  abbrev pub Aside : (Str → HbaName Tree → Parser (HbaName Tree)) → Type 0
  Aside included =
      (fn : Str) (h : HbaName Tree) (tp : TokParser) → Yields (λ h' t. t ≡ tp) (included fn h tp)

  in_file-Aside :
      (tp : TokParser) (m : Parse (HbaName Tree)) → Yields (λ h' t. t ≡ tp) (in_file env tp m)
  in_file-Aside tp (parsed h t) = yielding refl
  in_file-Aside tp (refused t) = refusing
  in_file-Aside tp out_of_fuel = starving

  parse_namefile-Aside :
      (names : Str → HbaName Tree → Parser (HbaName Tree))
      → Aside (λ fn. parse_namefile env (names fn) fn)
  unfolding parse_namefile
  parse_namefile-Aside names fn h tp = elim (Option-cases (env.files fn)) [
    | inl e ↦ rw (e, parse_namefile) refusing
    | inr (lines, e) ↦
        rw (e, parse_namefile) (in_file-Aside tp (lines_loop env (names fn) lines h init_parser))
  ]

  Within-at :
      (text : Str) {tp t : TokParser} → Within text tp → t ≡ next_token env.mem tp → Within text t
  Within-at text {tp = tp} w e = subst (Within text) (sym e) (next_token-Within env.mem text tp w)

  round_shorter :
      (rounds : ℕ) (tp t : TokParser)
      → t ≡ next_token env.mem tp
      → t.cur_tok ≡ tok_comma
      → length tp.pos < suc rounds
      → length (next_token env.mem t).pos < rounds
  round_shorter rounds tp t e c l = omega (
    arith,
    length-next_token env.mem t,
    ap (λ (p : TokParser). length p.pos) e,
    next_token-shorter env.mem tp (ap (λ (p : TokParser). p.cur_tok) (sym e) ∙ c),
  )

  module _ (included : Str → HbaName Tree → Parser (HbaName Tree)) (aside : Aside included)
      (is_db : Bool) (parent : Str) where
    parse_name-next :
        (hname : HbaName Tree) (tp : TokParser)
        → Yields (λ h t. t ≡ next_token env.mem tp) (parse_name env included hname is_db parent tp)
    parse_name-next hname tp =
        parse_name_cases env included hname is_db parent tp
          (Yields (λ h t. t ≡ next_token env.mem tp)) (λ q. refusing) (λ h. yielding refl)
          (λ fn i s e.
            Yields-bind (aside fn hname tp) (λ h t f. yielding (ap (next_token env.mem) f)))

    names_loop-Within :
        (rounds : ℕ) (text : Str) (hname : HbaName Tree) (tp : TokParser)
        → Within text tp
        → Yields (λ h t. Within text t) (names_loop env rounds included hname is_db parent tp)
    unfolding names_loop
    names_loop-Within zero text hname tp w = starving
    names_loop-Within (suc rounds) text hname tp w = Yields-bind (parse_name-next hname tp) λ h t e.
        eat-bind (Yields (λ h t. Within text t)) env.mem t tok_comma _
          (λ c.
            names_loop-Within rounds text h (next_token env.mem t)
              (next_token-Within env.mem text t (Within-at text w e)))
          (λ c. yielding (Within-at text w e))

    -- The files that are named can be read.
    module _ (text : Str)
        (reads : (name fn : Str) (h : HbaName Tree) (tp : TokParser)
          → Infix (b'@' ∷ name) text
          → path_join_dirname env.mem env.dirname parent name ≡ some fn
          → included fn h tp ≢ out_of_fuel) where
      parse_name-ne :
          (hname : HbaName Tree) (tp : TokParser)
          → Within text tp
          → parse_name env included hname is_db parent tp ≢ out_of_fuel
      parse_name-ne hname tp w =
          parse_name_cases env included hname is_db parent tp (λ m. m ≢ out_of_fuel) (λ q. cc)
            (λ h. cc)
            (λ fn i s e.
              bind-ne (included fn hname tp) _
                (reads (drop 1 tp.buf) fn hname tp
                  (subst (λ s. Infix s text) (starts_with→cons b'@' tp.buf s) (w.name i)) e)
                (Yields-all _) (λ h t u. cc))

      names_loop-ne :
          (rounds : ℕ) (hname : HbaName Tree) (tp : TokParser)
          → length tp.pos < rounds
          → Within text tp
          → names_loop env rounds included hname is_db parent tp ≢ out_of_fuel
      unfolding names_loop
      names_loop-ne zero hname tp l w = absurd (omega arith)
      names_loop-ne (suc rounds) hname tp l w =
          bind-ne (parse_name env included hname is_db parent tp) _ (parse_name-ne hname tp w)
            (parse_name-next hname tp)
            λ h t e.
              eat-bind (λ m. m ≢ out_of_fuel) env.mem t tok_comma _
                (λ c.
                  names_loop-ne rounds h (next_token env.mem t) (round_shorter rounds tp t e c l)
                    (next_token-Within env.mem text t (Within-at text w e)))
                (λ c. cc)

  lines_loop-ne :
      (names : HbaName Tree → Parser (HbaName Tree)) (lines : List Str) (h : HbaName Tree)
      (tp : TokParser)
      → Every
          (λ ln. (h : HbaName Tree) (tp : TokParser) → Within ln tp → names h tp ≢ out_of_fuel)
          lines
      → lines_loop env names lines h tp ≢ out_of_fuel
  unfolding lines_loop
  lines_loop-ne names [] h tp k = cc
  lines_loop-ne names (ln ∷ lns) h tp k =
      bind-ne (names h (parse_from_string env.mem ln tp)) _
        (k.0 h _ (parse_from_string-Within env.mem ln tp)) (Yields-all _)
        (λ h' t u. lines_loop-ne names lns h' t k.1)

  in_file-ne :
      (tp : TokParser) (m : Parse (HbaName Tree)) → m ≢ out_of_fuel → in_file env tp m ≢ out_of_fuel
  in_file-ne tp (parsed h t) n = cc
  in_file-ne tp (refused t) n = cc
  in_file-ne tp out_of_fuel n = absurd (n refl)

  Every-map {ℓ κ ι} :
      {A : Type ℓ} {P : A → Type κ} {Q : A → Type ι} (xs : List A)
      → ((x : A) → P x → Q x)
      → Every P xs
      → Every Q xs
  Every-map [] f h = tt
  Every-map (x ∷ xs) f h = (f x h.0, Every-map xs f h.1)

  -- parse_names does not run out of fuel on a parser that is within a text whose names of files
  -- are nested less deep than the fuel: its loop needs no more rounds than the text that is left
  -- has bytes, and one.
  pub parse_names-ne :
      (depth : ℕ) (is_db : Bool) (parent text : Str) (hname : HbaName Tree) (tp : TokParser)
      → Nested depth parent text
      → Within text tp
      → parse_names env depth is_db parent hname tp ≢ out_of_fuel
  unfolding parse_names
  parse_names-ne zero is_db parent text hname tp n w = absurd n
  parse_names-ne (suc depth) is_db parent text hname tp n w =
      names_loop-ne _ (parse_namefile-Aside (λ fn. parse_names env depth is_db fn)) is_db parent
        text
        (λ name fn h t i e. elim (Option-cases (env.files fn)) [
          | inl f ↦ rw (f, parse_namefile) (λ z. absurd (cc z))
          | inr (lines, f) ↦
              rw (f, parse_namefile)
                (in_file-ne t _ (
                  lines_loop-ne (parse_names env depth is_db fn) lines h init_parser (
                    Every-map lines (λ ln k h' t' w'. parse_names-ne depth is_db fn ln h' t' k w')
                      (n name fn lines i e f))))
        ])
        (length tp.pos + 1) hname tp (omega arith) w

  pub parse_names-Within :
      (depth : ℕ) (is_db : Bool) (parent text : Str) (hname : HbaName Tree) (tp : TokParser)
      → Within text tp
      → Yields (λ h t. Within text t) (parse_names env depth is_db parent hname tp)
  unfolding parse_names
  parse_names-Within zero is_db parent text hname tp w = starving
  parse_names-Within (suc depth) is_db parent text hname tp w =
      names_loop-Within _ (parse_namefile-Aside (λ fn. parse_names env depth is_db fn)) is_db parent
        (length tp.pos + 1) text hname tp w

  -- A text without `@` names no file.
  pub lacks-Nested :
      (depth : ℕ) (parent text : Str) → lacks b'@' text ≡ true → Nested (suc depth) parent text
  lacks-Nested depth parent text h name fn lines (pre, post, e) p f =
      absurd (cc (h, ap (lacks b'@') e, lacks-append b'@' pre (name ++ post)))
